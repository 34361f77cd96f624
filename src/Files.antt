-- ===== src/Files.antt =====
-- src/deployment/fs.rs: the applications that a daemon finds in its directory when it starts. The
-- directory is a value; a failed access is one of its entries.
pub mod Reading
pub mod Archive
pub mod Targets
pub mod Stored
pub mod Restart
pub mod Saving
pub mod Saved
pub mod Root
use laqista.Base.{
  ◌≡◌, String, List, [], ◌∷◌, ◌++◌, Option, none, some, Outcome, ok, err, ◌>>=◌, ok_or, to_option,
  expect,
}
use laqista.IdMap.{IdMap, empty, insert}
use laqista.Types.{Crates, Deployment, DeploymentInfo}
use laqista.Types.Convert.{deployment_info_from}
use laqista.Disk.{SavedDeployment, SavedApplication, Inner}

-- An entry of an application's directory: a file, which holds its information as a message, or the
-- directory of a saved deployment, with its name if that is a text.
pub data Entry : Type 0 where
  file : Outcome String Deployment → Entry
  deployment_dir : Option String → Entry

-- An entry of the root: anything but a directory is passed over.
pub data RootEntry : Type 0 where
  app_dir : List (Outcome String Entry) → RootEntry
  other : RootEntry

module _ ⦃k : Crates⦄ (read_name : String → Option SavedDeployment) where
  -- The loop of `read_per_app`. The last file decides on the information; an invalid id leaves
  -- none.
  unfoldable pub read_entries :
      List (Outcome String Entry)
      → List SavedDeployment
      → Option DeploymentInfo
      → Outcome String (Option DeploymentInfo × List SavedDeployment)
  read_entries [] v info = ok (info, v)
  read_entries (e ∷ entries) v info = do
    entry ← e
    elim entry [
      | file contents ↦ do
        deployment ← contents
        read_entries entries v (to_option (deployment_info_from deployment))
      | deployment_dir name ↦ do
        dir_name ← ok_or "failod to get file name" name
        deployment ← ok_or "failed to parse directory name" (read_name dir_name)
        read_entries entries (v ++ deployment ∷ []) info
    ]

  unfoldable pub read_per_app : List (Outcome String Entry) → Outcome String SavedApplication
  unfolding read_entries
  read_per_app entries = do
    read ← read_entries entries [] none
    info ← ok_or "failed to get id" read.0
    ok (record { info = info; deployments = read.1 })

  unfoldable pub read_from :
      IdMap SavedApplication
      → List (Outcome String RootEntry)
      → Outcome String (IdMap SavedApplication)
  unfolding read_per_app
  read_from map [] = ok map
  read_from map (e ∷ entries) = do
    entry ← e
    elim entry [
      | other ↦ read_from map entries
      | app_dir inner ↦ do app ← read_per_app inner; read_from (insert map app.info.id app) entries
    ]

  unfoldable pub read_apps :
      List (Outcome String RootEntry) → Outcome String (IdMap SavedApplication)
  unfolding read_from
  read_apps = read_from empty

  -- `Inner::read` of database.rs: the instances are not kept on the disk.
  unfoldable pub read_inner : List (Outcome String RootEntry) → Outcome String Inner
  unfolding read_apps
  read_inner entries = do apps ← read_apps entries; ok (record { apps = apps; instances = [] })

  -- `DeploymentDatabase::default`, whose `unwrap` panics where the directory cannot be read.
  unfoldable pub default_database : List (Outcome String RootEntry) → Outcome String Inner
  unfolding read_inner
  default_database entries = expect (to_option (read_inner entries))
