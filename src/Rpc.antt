-- ===== src/Rpc.antt =====
-- The RPC handlers of `AuthoritativeScheduler` in src/scheduler.rs. What is not under this
-- repository is a parameter: the network, the new id of a deployment, and what other tasks did
-- to the shared state while a handler waited for the network.
pub mod Deploying
pub mod Looking
pub mod Finding
pub mod ScalingOut
pub mod Members
pub mod Invariant
pub mod Reachable
use laqista.Base.{
  ◌≡◌, String, Bool, true, false, not, if◌then◌else◌, List, Option, none, some, Outcome, ok, err,
  panic, blocked, map_err, ok_or, expect,
}
use laqista.Base.Task.{Task, Shared, pure, lift, holding, critical, reading, ◌>>=◌, ◌>>◌}
use laqista.IdMap.{Uuid, get, clone_by_ids}
use laqista.Types.{
  Crates, Error, Status, abort, display, into_status, from_status, text, transport_error,
  ServerInfo, Server, DeploymentInfo, SpawnRequest, SpawnResponse, JoinRequest, JoinResponse,
  ReportRequest, ReportResponse, DeployRequest, DeployResponse, LookupRequest, LookupResponse,
}
use laqista.Types.Convert.{parse_uuid, server_info_from, into_server, into_group, into_deployment}
use laqista.Scheduler.Stats.{from_stats}
use laqista.Daemon.{DaemonState}
use laqista.Cluster.{remove_server, insert_stats, get_instance_server_ids, into_cluster_state}
use laqista.Runtime.{
  AppStore, SchedulerRuntime, RuntimeOf, push_server, choose_target, record_spawn, save_deployment,
  Network, spawn_on, Background, find_target,
}

module _ ⦃k : Crates⦄ ⦃a : AppStore⦄ where
  abbrev pub Handler : Type 0 → Type 0 → Type 0
  Handler E A = Task (Shared RuntimeOf) E A

  -- What other tasks do between two critical sections.
  abbrev pub elapse : {E : Type 0} → (RuntimeOf → RuntimeOf) → Handler E (Unit {0})
  elapse others m = (ok tt, record m { inner = others m.inner })

  -- `clone_inner`
  abbrev pub clone_inner : Handler Status RuntimeOf
  clone_inner = reading (λ r. ok r)

  unfoldable pub deploy_in_us :
      Network → (RuntimeOf → RuntimeOf) → DeploymentInfo → Handler Error SpawnResponse
  deploy_in_us net others d = do
    target ← reading choose_target
    elapse others
    response ← lift (spawn_on net d target)
    critical (λ r. (ok tt, record_spawn d target r))
    pure response

  unfoldable pub join : JoinRequest → Handler Status JoinResponse
  join request = do
    proto_server ← lift (expect request.server)
    server ← lift (map_err into_status (server_info_from proto_server))
    critical (λ r. (ok tt, push_server server r))
    group ← reading (λ r. ok (into_group r.cluster.group))
    pure (record { success = true; group = some group })

  unfoldable pub report : ReportRequest → Handler Status ReportResponse
  report request = do
    proto_server ← lift (ok_or (abort "server cannot be empty") request.server)
    server ← lift (map_err into_status (server_info_from proto_server))
    critical (λ r.
        let c = insert_stats r.cluster (from_stats server request.windows) in
        (
          ok (record { success = true; cluster = some (into_cluster_state c) }),
          record r { cluster = c },
        ))

  -- The critical section that takes the failed server out.
  abbrev pub removing : Uuid → Handler Status (Option ServerInfo)
  removing id = critical (λ r. elim (remove_server {E = Status} r.cluster id) [
    | ok (removed, c) ↦ (ok removed, record r { cluster = c })
    | err e ↦ (err e, r)
    | panic ↦ (panic, r)
    | blocked ↦ (blocked, r)
  ])

  -- `server` has answered with `result`: a transport error means that it is gone. Whether it was in
  -- the list only makes a difference to what is printed.
  unfoldable pub handle_failed_server {ℓ} :
      {A : Type ℓ} → Outcome Error A → Server → Handler Status (Option (DaemonState a.Store))
  handle_failed_server (ok x) server = pure none
  handle_failed_server panic server = lift panic
  handle_failed_server blocked server = lift blocked
  handle_failed_server (err (transport_error e)) server = do
    id ← lift (map_err into_status (parse_uuid server.id))
    removed ← removing id
    pure none
  handle_failed_server (err e) server = lift (err (into_status e))

  -- The database is behind a mutex of its own, which the clone of the runtime shares.
  abbrev pub saving : DeploymentInfo → Handler Status (Unit {0})
  saving d m =
      let (o, r) = save_deployment d m.inner in (map_err into_status o, record m { inner = r })

  -- `id` is the new id that `DeploymentInfo::new` draws.
  unfoldable pub deploy :
      Network → (RuntimeOf → RuntimeOf) → Uuid → DeployRequest → Handler Status DeployResponse
  deploy net others id request =
      let info : DeploymentInfo = record {
        id = id;
        name = request.name;
        source = request.source;
      } in
      do
        runtime ← clone_inner
        saving info
        response ←
            λ m. (let (o, m') = deploy_in_us net others info m in (map_err into_status o, m'))
        pure (record { success = response.success; deployment = some (into_deployment info) })

  unfoldable pub lookup : LookupRequest → Handler Status (LookupResponse × Background)
  lookup request = do
    runtime ← clone_inner
    b ← lift (find_target request runtime)
    pure (
      record {
        success = true;
        deployment_id = k.to_string b.id;
        server = some (into_server b.target);
      },
      b,
    )

  abbrev pub printed {ℓ κ} : {E : Type ℓ} {A : Type κ} → Outcome E A → Outcome (Unit {0}) (Unit {0})
  printed (ok a) = ok tt
  printed (err e) = ok tt
  printed panic = panic
  printed blocked = blocked

  -- An error of the deployment is printed, and forgotten.
  abbrev pub printing : {E A : Type 0} → Handler E A → Handler (Unit {0}) (Unit {0})
  printing t m = let (o, m') = t m in (printed o, m')

  -- The task that `lookup` spawns: it deploys once more while it holds the runtime.
  unfoldable pub scale_out :
      Network → (RuntimeOf → RuntimeOf) → Background → Handler (Unit {0}) (Unit {0})
  scale_out net others b = holding (λ r. do
    stats ← lift (ok_or tt (get r.cluster.server_stats b.target.id))
    should_scale ← lift (map_err (λ _. tt) (r.scheduler.needs_scale_out b.target stats))
    if should_scale
        then (do
          deployment ← lift (ok_or tt (get r.deployments b.id))
          printing (deploy_in_us net others deployment))
        else pure tt)
