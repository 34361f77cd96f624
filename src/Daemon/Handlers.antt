-- ===== src/Daemon/Handlers.antt =====
-- src/server/server.rs: the RPC handlers of a daemon. The lock of the daemon's own runtime is only
-- held while a handler reads it; the lock of a scheduler is modelled, since a handler can wait for
-- it.
use laqista.Base.{
  true, [], Option, none, some, Outcome, ok, err, panic, blocked, map_err, ok_or, ◌>>=◌, map_ok,
  if◌then◌else◌,
}
use laqista.Base.Text.{str_append}
use laqista.Types.{
  Crates, Status, unimplemented, abort, into_status, ServerInfo, Group, DeploymentInfo,
  SpawnRequest, SpawnResponse, GetInfoResponse,
}
use laqista.Types.Convert.{into_server, into_group, deployment_info_from}
use laqista.Types.{
  PingResponse, NominateRequest, NominateResponse, MonitorRequest, MonitorResponse, DestroyRequest,
  DestroyResponse,
}
use laqista.Runtime.{AppStore}
use laqista.Daemon.{DaemonState, into_server_state}

pub record ServerDaemonRuntime (S : Type 0) : Type 0 where
  pub info : ServerInfo
  pub database : S

pub record ServerDaemon (S : Type 0) : Type 0 where
  pub runtime : ServerDaemonRuntime S
  pub state : DaemonState S

-- `ServerDaemon::with_state`
unfoldable pub with_state : {S : Type 0} → DaemonState S → ServerInfo → S → ServerDaemon S
with_state state info database = record {
  runtime = record { info = info; database = database };
  state = state;
}

-- Whether the daemon answers at all.
unfoldable pub ping : Unit {0} → Outcome Status PingResponse
ping request = ok (record { success = true })

unfoldable pub nominate : NominateRequest → Outcome Status NominateResponse
nominate request = err (record { code = unimplemented; message = "not implemented" })

-- `monitor` reports no window.
unfoldable pub monitor : MonitorRequest → Outcome Status MonitorResponse
monitor request = ok (record { windows = [] })

-- `destroy` stops nothing.
unfoldable pub destroy : DestroyRequest → Outcome Status DestroyResponse
destroy request = ok (record { success = true })

module _ ⦃k : Crates⦄ where
  -- The group that a daemon tells: one that holds a scheduler waits for the scheduler's lock.
  unfoldable pub group_of : {S : Type 0} → DaemonState S → Outcome Status (Option Group)
  group_of DaemonState.failed = ok none
  group_of (DaemonState.joining addr) = ok none
  group_of (DaemonState.running g) = ok (some (into_group g))
  group_of (DaemonState.authoritative s) =
      if s.held then blocked else ok (some (into_group s.inner.cluster.group))

  unfoldable pub get_info : {S : Type 0} → ServerDaemon S → Outcome Status GetInfoResponse
  unfolding group_of into_server_state
  get_info d = do
    let server = some (into_server d.runtime.info)
    group ← group_of d.state
    ok (record { server = server; group = group; state = into_server_state d.state })

module _ ⦃k : Crates⦄ ⦃a : AppStore⦄ where
  abbrev pub store_instance :
      DeploymentInfo → ServerDaemon a.Store → Outcome Status SpawnResponse × ServerDaemon a.Store
  store_instance info d =
      let (o, db) = a.add_instance info d.runtime.database in
      (
        map_ok (λ _. record { success = true; deployment = none; server = none })
            (map_err (λ e. abort (str_append "failed to insert deployment into database: " e)) o),
        record d { runtime = record d.runtime { database = db } },
      )

  -- The deployment of a request: a missing one, or an invalid id, is an error of the caller.
  abbrev pub deployment_of : SpawnRequest → Outcome Status DeploymentInfo
  deployment_of request = do
    deployment ← ok_or (abort "`deployment` is required`") request.deployment
    map_err into_status (deployment_info_from deployment)

  unfoldable pub spawn :
      SpawnRequest → ServerDaemon a.Store → Outcome Status SpawnResponse × ServerDaemon a.Store
  spawn request d = elim (deployment_of request) [
    | ok info ↦ store_instance info d
    | err e ↦ (err e, d)
    | panic ↦ (panic, d)
    | blocked ↦ (blocked, d)
  ]
