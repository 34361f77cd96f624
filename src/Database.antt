-- ===== src/Database.antt =====
-- The operations of src/deployment/database.rs that change the database.
pub mod Recording
use laqista.Base.{String, if◌then◌else◌, List, [], ◌∷◌, ◌++◌, is_none, Outcome, ok}
use laqista.Base.Task.{Task, lift, ◌>>=◌, ◌>>◌}
use laqista.IdMap.{get}
use laqista.Types.{DeploymentInfo}
use laqista.Runtime.{AppStore}
use laqista.Disk.{SavedDeployment, Inner, Disk, insert_saved, save, fetch}

unfoldable pub add_app : Disk → DeploymentInfo → Task Inner String (Unit {0})
unfolding fetch insert_saved
add_app disk info = do saved ← lift (fetch disk info); λ m. (ok tt, insert_saved m info saved)

-- An application that is not known yet is downloaded first. The daemon is told to start over.
unfoldable pub add_instance : Disk → DeploymentInfo → Task Inner String (Unit {0})
unfolding add_app
add_instance disk info = do
  λ m. (if is_none (get m.apps info.id) then add_app disk info m else (ok tt, m))
  λ m. (ok tt, record m { instances = m.instances ++ info.id ∷ [] })
  lift disk.send_keep

-- What the scheduler and the daemons use of it.
abbrev pub app_store : Disk → AppStore
app_store disk = record { Store = Inner; add_app = add_app disk; add_instance = add_instance disk }
