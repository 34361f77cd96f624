-- ===== src/Report.antt =====
-- src/report.rs: the task that reports the metrics of a server to the scheduler, and that takes
-- over when the scheduler is lost. An error that is boxed is the text that it is displayed as.
pub mod Failover
pub mod Saving
pub mod Task
pub mod Staleness
pub mod Succession
use laqista.Base.{
  ◌≡◌, String, Bool, true, false, if◌then◌else◌, ◌==◌, List, [], ◌∷◌, ◌++◌, Option, none, some,
  Outcome, ok, err, panic, blocked, ◌>>=◌, ◌>>◌, map_err, ok_or,
}
use laqista.IdMap.{Uuid}
use laqista.Types.{
  Crates, Error, Status, display, from_status, transport_error, ServerInfo, ClusterState,
  MonitorWindow, ReportRequest, ReportResponse,
}
use laqista.Types.Convert.{into_server}
use laqista.Utils.{cluster_differs}
use laqista.Cluster.{Cluster, remove_server, choose_scheduler, cluster_from}
use laqista.Daemon.{DaemonState, joining, StateCommand, update, become_scheduler}

pub record MetricsReporter : Type 0 where
  pub scheduler : ServerInfo
  pub server : ServerInfo
  pub last_cluster_state : Option ClusterState

-- The scheduler as the reporter meets it, and the channel to the daemon.
pub record Peer (S : Type 0) : Type 0 where
  pub connect : String → Outcome String (Unit {0})
  pub report : ReportRequest → Outcome Status ReportResponse
  pub send : StateCommand S → Outcome String (Unit {0})

-- The reporter, and the commands that it has handed to the channel, the last one first.
pub record Reporting (S : Type 0) : Type 0 where
  pub reporter : MetricsReporter
  pub sent : List (StateCommand S)

-- `put_cluster`: has the state changed?
unfoldable pub is_changed : Option ClusterState → Option ClusterState → Bool
is_changed (some last) (some current) = cluster_differs last current
is_changed none none = false
is_changed _ _ = true

unfoldable pub put_cluster : MetricsReporter → Option ClusterState → Bool × MetricsReporter
unfolding is_changed
put_cluster r current =
    let changed = is_changed r.last_cluster_state current in
    (changed, if changed then record r { last_cluster_state = current } else r)

module _ ⦃k : Crates⦄ where
  abbrev pub request_of : MetricsReporter → MonitorWindow → ReportRequest
  request_of r metrics = record { server = some (into_server r.server); windows = metrics ∷ [] }

  -- The election among the servers of the last known state, without its scheduler.
  unfoldable pub elect : Option ClusterState → Outcome String (ServerInfo × Cluster)
  elect last = do
    state ← ok_or "No latest cluster state is saved" last
    cluster ← map_err display (cluster_from state)
    removed ← remove_server cluster cluster.group.scheduler_info.id
    choose_scheduler removed.1

module _ ⦃k : Crates⦄ {S : Type 0} where
  -- What the branch for a lost scheduler sends: the elected server takes over, the others join it.
  abbrev pub command_of : ServerInfo → Cluster → Uuid → StateCommand S
  command_of next_scheduler next_cluster own =
      if next_scheduler.id == own
      then become_scheduler next_cluster
      else update (joining next_scheduler.addr)

  unfoldable pub next_command : MetricsReporter → Outcome String (StateCommand S)
  next_command r = do
    elected ← elect r.last_cluster_state
    ok (command_of elected.0 elected.1 r.server.id)

  -- `self.state_tx.send(state_command).await?`
  abbrev pub sending :
      Peer S
      → Reporting S
      → Outcome String (StateCommand S)
      → Outcome String (Unit {0}) × Reporting S
  sending peer s (ok command) = (peer.send command, record s { sent = command ∷ s.sent })
  sending peer s (err e) = (err e, s)
  sending peer s panic = (panic, s)
  sending peer s blocked = (blocked, s)

  unfoldable pub fail_over : Peer S → Reporting S → Outcome String (Unit {0}) × Reporting S
  fail_over peer s = sending peer s (next_command s.reporter)

  -- The answer of the scheduler. Only a transport error leads to the branch for a lost scheduler.
  abbrev pub on_error : Peer S → Reporting S → Error → Outcome String (Unit {0}) × Reporting S
  on_error peer s (transport_error te) = fail_over peer s
  on_error peer s e = (err (display e), s)

  abbrev pub on_answer :
      Peer S → Reporting S → Outcome Status ReportResponse → Outcome String (Unit {0}) × Reporting S
  on_answer peer s (ok resp) =
      (ok tt, record s { reporter = (put_cluster s.reporter resp.cluster).1 })
  on_answer peer s (err e) = on_error peer s (from_status e)
  on_answer peer s panic = (panic, s)
  on_answer peer s blocked = (blocked, s)

  unfoldable pub report :
      Peer S → Reporting S → MonitorWindow → Outcome String (Unit {0}) × Reporting S
  report peer s metrics = elim (peer.connect s.reporter.scheduler.addr) [
    | ok _ ↦ on_answer peer s (peer.report (request_of s.reporter metrics))
    | err e ↦ (err e, s)
    | panic ↦ (panic, s)
    | blocked ↦ (blocked, s)
  ]
