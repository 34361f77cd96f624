-- ===== src/Types/Messages.antt =====
-- The messages of proto/laqista.proto. A field that holds a message is optional; the integers of
-- `ResourceUtilization` are signed, and `number` is unsigned of 32 bits.
use Prim.Native.String.{String}
use laqista.Base.{ℕ, Bool, List, Option}
use laqista.Base.Int.{ℤ}

pub record Server : Type 0 where
  pub id : String
  pub addr : String

pub record Group : Type 0 where
  pub number : ℕ
  pub scheduler : Option Server

pub record Deployment : Type 0 where
  pub id : String
  pub source : String
  pub name : String

pub record AppInstanceLocations : Type 0 where
  pub deployment : Option Deployment
  pub locations : List Server

pub record ClusterState : Type 0 where
  pub group : Option Group
  pub servers : List Server
  pub instances : List AppInstanceLocations

pub record Timestamp : Type 0 where
  pub seconds : ℤ
  pub nanos : ℤ

pub record TimeWindow : Type 0 where
  pub start : Option Timestamp
  pub end : Option Timestamp

pub record ResourceUtilization : Type 0 where
  pub cpu : ℤ
  pub ram_total : ℤ
  pub ram_used : ℤ
  pub gpu : ℤ
  pub vram_total : ℤ
  pub vram_used : ℤ

pub record MonitorWindow : Type 0 where
  pub window : Option TimeWindow
  pub utilization : Option ResourceUtilization

pub data ServerState : Type 0 where
  starting running failed authoritative uninitialized : ServerState

pub record ReportRequest : Type 0 where
  pub server : Option Server
  pub windows : List MonitorWindow

pub record ReportResponse : Type 0 where
  pub success : Bool
  pub cluster : Option ClusterState

pub record JoinRequest : Type 0 where
  pub server : Option Server

pub record JoinResponse : Type 0 where
  pub success : Bool
  pub group : Option Group

pub record LookupRequest : Type 0 where
  pub deployment_id : String

pub record LookupResponse : Type 0 where
  pub success : Bool
  pub deployment_id : String
  pub server : Option Server

pub record DeployRequest : Type 0 where
  pub source : String
  pub name : String

pub record DeployResponse : Type 0 where
  pub success : Bool
  pub deployment : Option Deployment

pub record SpawnRequest : Type 0 where
  pub deployment : Option Deployment

pub record SpawnResponse : Type 0 where
  pub success : Bool
  pub deployment : Option Deployment
  pub server : Option Server

pub record GetInfoResponse : Type 0 where
  pub server : Option Server
  pub group : Option Group
  pub state : ServerState

pub record Nomination : Type 0 where
  pub cluster : Option ClusterState

pub record PingResponse : Type 0 where
  pub success : Bool

pub record MonitorRequest : Type 0 where
  pub window : Option TimeWindow

pub record MonitorResponse : Type 0 where
  pub windows : List MonitorWindow

pub data DestroyReason : Type 0 where
  destroy_reason_unknown scale_in removed : DestroyReason

pub record DestroyRequest : Type 0 where
  pub app_id : String
  pub reason : DestroyReason

pub record DestroyResponse : Type 0 where
  pub success : Bool

pub record NominateRequest : Type 0 where
  pub nomination : Option Nomination

pub record NominateResponse : Type 0 where
  pub success : Bool
