-- ===== src/Daemon.antt =====
-- The states of a daemon and the commands that change them: `DaemonState` and `StateCommand` of
-- src/server/run.rs.
pub mod Handlers
pub mod Run
pub mod Reachable
pub mod Takeover
pub mod Spawning
pub mod Address
pub mod Serving
pub mod Reporters
pub mod Starting
use laqista.Base.{String}
use laqista.Base.Task.{Shared}
use laqista.Types.{GroupInfo, ServerState}
use laqista.Cluster.{Cluster}
use laqista.Runtime.{SchedulerRuntime}

pub data DaemonState (S : Type 0) : Type 0 where
  running : GroupInfo → DaemonState S
  joining : String → DaemonState S
  authoritative : Shared (SchedulerRuntime S) → DaemonState S
  failed : DaemonState S

pub data StateCommand (S : Type 0) : Type 0 where
  update : DaemonState S → StateCommand S
  become_scheduler : Cluster → StateCommand S
  keep : StateCommand S

-- `Into<ServerState>` of src/lib.rs
unfoldable pub into_server_state : {S : Type 0} → DaemonState S → ServerState
into_server_state (DaemonState.running g) = ServerState.running
into_server_state (DaemonState.joining addr) = ServerState.starting
into_server_state (DaemonState.authoritative s) = ServerState.authoritative
into_server_state DaemonState.failed = ServerState.failed
