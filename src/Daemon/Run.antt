-- ===== src/Daemon/Run.antt =====
-- src/server/run.rs: the loop of a daemon. It serves in its state until the service ends or a
-- command arrives, and starts over in the next state.
use laqista.Base.{
  if◌then◌else◌, blocked, ◌>>◌, String, false, List, [], ◌∷◌, Option, none, some, Outcome, ok,
  panic, ◌>>=◌, ◌>>◌, map_err, map_ok, expect, ok_or,
}
use laqista.Base.Task.{Shared}
use laqista.Types.{
  Crates, Error, Status, from_status, transport_error, text, ServerInfo, GroupInfo, JoinRequest,
  JoinResponse,
}
use laqista.Types.Convert.{into_server, group_info_from}
use laqista.Scheduler.Mean.{Floats, mean_scheduler}
use laqista.Runtime.{SchedulerRuntime, from_cluster, from_server}
use laqista.Daemon.{
  DaemonState, joining, running, authoritative, failed, StateCommand, update, become_scheduler,
  keep,
}

-- What a service meets: the scheduler that it joins, and how its own server ends, with the state
-- that the handlers have left of the scheduler that it serves.
pub record Outside (S : Type 0) : Type 0 where
  pub connect : String → Outcome String (Unit {0})
  pub join : JoinRequest → Outcome Status JoinResponse
  pub serve : Outcome Error (Unit {0})
  pub served : Shared (SchedulerRuntime S) → Shared (SchedulerRuntime S)

module _ ⦃k : Crates⦄ {S : Type 0} where
  unfoldable pub join_cluster : Outside S → ServerInfo → String → Outcome Error (DaemonState S)
  join_cluster out server addr = do
    map_err transport_error (out.connect addr)
    resp ← map_err from_status (out.join (record { server = some (into_server server) }))
    proto_group ← expect resp.group
    group ← group_info_from proto_group
    ok (running group)

  unfoldable pub start_running : Outside S → GroupInfo → Outcome Error (DaemonState S)
  start_running out group = do out.serve; ok (running group)

  -- The scheduler's mutex is locked once, to read whom it reports to.
  unfoldable pub start_authoritative :
      Outside S → Shared (SchedulerRuntime S) → Outcome Error (DaemonState S)
  start_authoritative out scheduler =
      let serving = out.serve >> ok (authoritative (out.served scheduler)) in
      if scheduler.held then blocked else serving

  -- A failed state is a panic.
  unfoldable pub start_service :
      Outside S → ServerInfo → DaemonState S → Outcome Error (StateCommand S)
  unfolding join_cluster start_running start_authoritative
  start_service out server (joining addr) = map_ok update (join_cluster out server addr)
  start_service out server (running group) = map_ok update (start_running out group)
  start_service out server (authoritative s) = map_ok update (start_authoritative out s)
  start_service out server failed = panic

-- A new mutex, which nobody holds.
abbrev pub unlocked : {S : Type 0} → SchedulerRuntime S → Shared (SchedulerRuntime S)
unlocked r = record { held = false; inner = r }

module _ ⦃f : Floats⦄ {S : Type 0} where
  -- The start: with the address of a scheduler the daemon joins it, and else it is one.
  unfoldable pub determine_state : Option String → ServerInfo → S → DaemonState S
  determine_state (some bootstrap_addr) server database = joining bootstrap_addr
  determine_state none server database =
      authoritative (unlocked (from_server server mean_scheduler database))

  -- The last `match` of `run_start`.
  unfoldable pub next_state : S → DaemonState S → StateCommand S → DaemonState S
  next_state database state keep = state
  next_state database state (update new) = new
  next_state database state (become_scheduler c) =
      authoritative (unlocked (from_cluster c mean_scheduler database))

-- What ends one turn of the loop: the service, or a command of the channel, which is none when
-- every sender is gone.
pub data Event (S : Type 0) : Type 0 where
  serviced : Outside S → Event S
  received : Option (StateCommand S) → Event S

module _ ⦃k : Crates⦄ ⦃f : Floats⦄ {S : Type 0} where
  abbrev pub state_command : ServerInfo → DaemonState S → Event S → Outcome Error (StateCommand S)
  state_command info state (serviced out) = start_service out info state
  state_command info state (received command) =
      ok_or (text "received None state from sender") command

  unfoldable pub turn : ServerInfo → S → DaemonState S → Event S → Outcome Error (DaemonState S)
  unfolding next_state start_service
  turn info database state event =
      map_ok (next_state database state) (state_command info state event)

  -- The loop over the events of a run. An error ends it.
  unfoldable pub run_start :
      ServerInfo → S → DaemonState S → List (Event S) → Outcome Error (DaemonState S)
  unfolding turn
  run_start info database state [] = ok state
  run_start info database state (event ∷ events) =
      turn info database state event >>= λ next. run_start info database next events
