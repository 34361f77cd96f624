-- ===== src/Files/Saving.antt =====
-- What `save` of src/deployment/database.rs leaves in the directory of an application: `write_info`
-- and `read_info` of src/deployment/fs.rs, with write_tgz for the directory of the deployment.
use Prim.Native.String.{String}
use laqista.Base.Word.{Byte}
use laqista.Base.{
  ℕ, str_eq, if◌then◌else◌, List, [], ◌∷◌, ◌++◌, map, Option, none, some, Outcome, ok, err, panic,
  blocked,
}
use laqista.Base.Task.{Task, pure, ◌>>◌}
use laqista.Types.{Crates, Deployment, DeploymentInfo}
use laqista.Types.Convert.{into_deployment}
use laqista.Disk.{LocalTime, SavedDeployment}
use laqista.Disk.Naming.{Hex, dir_name}
use laqista.Wasm.Runner.{Codec}
use laqista.Files.{Entry, file, deployment_dir}
use laqista.Files.Archive.{Access, ArchiveEntry, Dir, write_tgz}

-- The directory of an application: the file `info.laqista`, if it is there, and the deployments by
-- the names of their directories.
pub record AppDir : Type 0 where
  pub info : Option (List Byte)
  pub deployments : List (String × Dir)

-- A missing directory is an empty one for what is found in it.
abbrev pub deployments_of : Option AppDir → List (String × Dir)
deployments_of none = []
deployments_of (some app) = app.deployments

abbrev pub info_in : Option AppDir → Option (List Byte)
info_in none = none
info_in (some app) = app.info

unfoldable pub dir_at : String → List (String × Dir) → Option Dir
dir_at name [] = none
dir_at name ((n, d) ∷ dirs) = let rest = dir_at name dirs in if str_eq n name then some d else rest

unfoldable pub put_dir : String → Dir → List (String × Dir) → List (String × Dir)
put_dir name dir [] = (name, dir) ∷ []
put_dir name dir ((n, d) ∷ dirs) =
    let rest = put_dir name dir dirs in if str_eq n name then (n, dir) ∷ dirs else (n, d) ∷ rest

-- A task in one of the directories. One that is made makes the directory above it too.
abbrev pub keeping : String → Option Dir → Option AppDir → Option AppDir
keeping name none app = app
keeping name (some dir) app =
    some (record { info = info_in app; deployments = put_dir name dir (deployments_of app) })

abbrev pub within :
    {A : Type 0} → String → Task (Option Dir) String A → Task (Option AppDir) String A
within name task app =
    let (o, dir) = task (dir_at name (deployments_of app)) in (o, keeping name dir app)

module _ ⦃k : Crates⦄ (codec : Codec Deployment) where
  -- `write_info`
  unfoldable pub write_info : Access → DeploymentInfo → Task (Option AppDir) String (Unit {0})
  unfolding into_deployment
  write_info a info none = (err "No such file or directory", none)
  write_info a info (some app) = elim (a.write "info.laqista") [
    | ok t ↦ (ok tt, some (record app { info = some (codec.encode (into_deployment info)) }))
    | err e ↦ (err e, some app)
    | panic ↦ (panic, some app)
    | blocked ↦ (blocked, some app)
  ]

  -- `read_info`
  unfoldable pub read_info : Outcome String (List Byte) → Outcome String Deployment
  read_info (ok contents) = codec.decode contents
  read_info (err e) = err e
  read_info panic = panic
  read_info blocked = blocked

  -- The entries of a directory that can be read, the deployments first.
  abbrev pub info_entry : Option (List Byte) → List (Outcome String Entry)
  info_entry none = []
  info_entry (some contents) = ok (file (read_info (ok contents))) ∷ []

  abbrev pub entries_of : Option AppDir → List (Outcome String Entry)
  entries_of app =
      map (λ (d : String × Dir). ok (deployment_dir (some d.0))) (deployments_of app)
      ++ info_entry (info_in app)

  module _ ⦃h : Hex⦄ where
    -- `save` in the directory of the application.
    unfoldable pub save_in :
        Access
        → LocalTime
        → List ℕ
        → DeploymentInfo
        → Outcome String (List (Outcome String ArchiveEntry))
        → Task (Option AppDir) String SavedDeployment
    unfolding write_info write_tgz dir_name dir_at put_dir
    save_in a now hash info archive =
        let saved : SavedDeployment = record { timestamp = now; hash = hash } in
        do within (dir_name saved) (write_tgz a archive); write_info a info; pure saved
