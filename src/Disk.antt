-- ===== src/Disk.antt =====
-- The data of src/deployment/database.rs, and what it reads and writes. The file system, the clock,
-- the hash and the download are the parameter `Disk`.
pub mod Naming
pub mod Names
use laqista.Base.{
  String, str_eq, if◌then◌else◌, List, [], ◌∷◌, ◌++◌, Option, none, some, Outcome, ok, ◌>>=◌, ◌>>◌,
  ok_or, last?, ℕ,
}
use laqista.Base.Text.{str_append}
use laqista.Base.Int.{ℤ}
use laqista.IdMap.{Uuid, IdMap, get, modify_or_insert, values}
use laqista.Types.{DeploymentInfo}

-- `chrono::DateTime<Local>`: the seconds since 1970, and the nanoseconds of the running one.
pub record LocalTime : Type 0 where
  pub seconds : ℤ
  pub nanos : ℕ

pub record SavedDeployment : Type 0 where
  pub timestamp : LocalTime
  pub hash : List ℕ

-- A time of whole seconds, and what a deployment is with such a time.
abbrev pub whole : ℤ → LocalTime
whole seconds = record { seconds = seconds; nanos = 0 }

abbrev pub cut : SavedDeployment → SavedDeployment
cut s = record s { timestamp = whole s.timestamp.seconds }

pub record SavedApplication : Type 0 where
  pub info : DeploymentInfo
  pub deployments : List SavedDeployment

pub record Inner : Type 0 where
  pub apps : IdMap SavedApplication
  pub instances : List Uuid

pub data Target : Type 0 where
  onnx wasm : Target

-- The directory of a saved deployment is named by its application and by itself.
pub record Disk : Type 0 where
  pub download : String → Outcome String (List ℕ)
  pub now : LocalTime
  pub sha256 : List ℕ → List ℕ
  pub write_tgz : DeploymentInfo → SavedDeployment → List ℕ → Outcome String (Unit {0})
  pub write_info : DeploymentInfo → Outcome String (Unit {0})
  pub read_binary : DeploymentInfo → SavedDeployment → Target → Outcome String (List ℕ)
  pub send_keep : Outcome String (Unit {0})

-- `Inner::insert`
unfoldable pub insert_saved : Inner → DeploymentInfo → SavedDeployment → Inner
insert_saved m info saved = record m {
  apps =
      modify_or_insert m.apps info.id (λ a. record a { deployments = a.deployments ++ saved ∷ [] })
        (record { info = info; deployments = saved ∷ [] });
}

-- The archive and the information are written, in this order.
unfoldable pub save : Disk → DeploymentInfo → List ℕ → Outcome String SavedDeployment
save disk info tgz =
    let saved : SavedDeployment = record { timestamp = disk.now; hash = disk.sha256 tgz } in
    do disk.write_tgz info saved tgz; disk.write_info info; ok saved

-- `download` and `save`, as `add_app` calls them.
unfoldable pub fetch : Disk → DeploymentInfo → Outcome String SavedDeployment
unfolding save
fetch disk info = do tgz ← disk.download info.source; save disk info tgz

-- The binary of the last deployment of an application. The errors show the whole `info`, which the
-- parameter `shown` writes.
unfoldable pub get_binary :
    (DeploymentInfo → String) → Disk → DeploymentInfo → Target → Inner → Outcome String (List ℕ)
get_binary shown disk info target m = do
  app ← ok_or (str_append "Application not found: " (shown info)) (get m.apps info.id)
  latest ← ok_or (str_append "Deployment not found for app: " (shown info)) (last? app.deployments)
  disk.read_binary info latest target

-- The first application of the name, in the order of iteration.
unfoldable pub find_named : String → List SavedApplication → Option DeploymentInfo
find_named name [] = none
find_named name (a ∷ apps) =
    let rest = find_named name apps in if str_eq a.info.name name then some a.info else rest

abbrev pub lookup : String → Inner → Option DeploymentInfo
lookup name m = find_named name (values m.apps)
