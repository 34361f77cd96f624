-- ===== src/Types/Infos.antt =====
-- The program's own data: `ServerInfo`, `GroupInfo`, `AppInstancesInfo` of src/lib.rs and
-- `DeploymentInfo` of laqista-core/src/lib.rs. An id is valid when it has 128 bits.
use Prim.Native.String.{String}
use laqista.Base.{ℕ, ◌^◌, ◌<◌, List, All}
use laqista.IdMap.{Uuid, IdMap}

pub record ServerInfo : Type 0 where
  pub id : Uuid
  pub addr : String

pub record GroupInfo : Type 0 where
  pub number : ℕ
  pub scheduler_info : ServerInfo

pub record DeploymentInfo : Type 0 where
  pub id : Uuid
  pub name : String
  pub source : String

pub record AppInstancesInfo : Type 0 where
  pub deployment : DeploymentInfo
  pub servers : List ServerInfo

abbrev pub AppInstanceMap : Type 0
AppInstanceMap = IdMap AppInstancesInfo

abbrev pub IsUuid : Uuid → Type 0
IsUuid u = u < 2 ^ 128

abbrev pub HasId : ServerInfo → Type 0
HasId s = IsUuid s.id

abbrev pub HasIds : AppInstancesInfo → Type 0
HasIds i = IsUuid i.deployment.id × All HasId i.servers
