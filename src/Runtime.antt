-- ===== src/Runtime.antt =====
-- `SchedulerRuntime` of src/scheduler.rs: what the scheduler holds behind its mutex, and what its
-- critical sections do. The database of applications is taken through the interface `AppStore`.
pub mod Refinement
use laqista.Base.{
  String, List, [], ◌∷◌, ◌++◌, Option, none, some, Outcome, ok, err, panic, ◌>>=◌, ◌>>◌, map_err,
  ok_or, if◌then◌else◌,
}
use laqista.Base.Text.{str_append}
use laqista.IdMap.{Uuid, IdMap, empty, insert, clone_by_ids}
use laqista.Types.{
  Crates, Error, Status, abort, display, into_status, from_status, text, transport_error,
  ServerInfo, DeploymentInfo, SpawnRequest, SpawnResponse, LookupRequest,
}
use laqista.Types.Convert.{into_deployment}
use laqista.Scheduler.Interface.{DeploymentScheduler}
use laqista.Cluster
use laqista.Cluster.{Cluster, insert_instance, get_instance_server_ids}

-- What the scheduler and the daemon use of the deployment database: both operations return its new
-- state, with the error's text if they fail.
pub record AppStore : Type 1 where
  pub Store : Type 0
  pub add_app : DeploymentInfo → Store → Outcome String (Unit {0}) × Store
  pub add_instance : DeploymentInfo → Store → Outcome String (Unit {0}) × Store

pub record SchedulerRuntime (S : Type 0) : Type 0 where
  pub cluster : Cluster
  pub scheduler : DeploymentScheduler
  pub deployments : IdMap DeploymentInfo
  pub database : S

-- `servers[0].clone()`
unfoldable pub first_server : List ServerInfo → Outcome Error ServerInfo
first_server [] = panic
first_server (s ∷ ss) = ok s

-- `unwrap_or`
unfoldable pub unwrap_or : Option ServerInfo → ServerInfo → ServerInfo
unwrap_or none d = d
unwrap_or (some s) d = s

module _ {S : Type 0} where
  -- `AuthoritativeScheduler::new`: no deployment is known yet.
  unfoldable pub from_cluster : Cluster → DeploymentScheduler → S → SchedulerRuntime S
  from_cluster c policy db = record {
    cluster = c;
    scheduler = policy;
    deployments = empty;
    database = db;
  }

  -- `AuthoritativeScheduler::from_server`
  unfoldable pub from_server : ServerInfo → DeploymentScheduler → S → SchedulerRuntime S
  unfolding from_cluster
  from_server s policy db = from_cluster (Cluster.new s) policy db

  -- `SchedulerRuntime::new`
  unfoldable pub new : ServerInfo → DeploymentScheduler → S → SchedulerRuntime S
  unfolding Cluster.new
  new this_server policy db = record {
    cluster = Cluster.new this_server;
    scheduler = policy;
    deployments = empty;
    database = db;
  }

  -- `push_server`
  unfoldable pub push_server : ServerInfo → SchedulerRuntime S → SchedulerRuntime S
  push_server s r = record r {
    cluster = record r.cluster { servers = r.cluster.servers ++ s ∷ [] };
  }

  -- The target of a deployment. The default of `unwrap_or` is computed whether or not it is used.
  unfoldable pub choose_target : SchedulerRuntime S → Outcome Error ServerInfo
  unfolding first_server unwrap_or
  choose_target r = do
    choice ← r.scheduler.schedule r.cluster.server_stats
    first ← first_server r.cluster.servers
    ok (unwrap_or choice first)

  -- What `deploy_in_us` writes once the application runs.
  unfoldable pub record_spawn :
      DeploymentInfo → ServerInfo → SchedulerRuntime S → SchedulerRuntime S
  record_spawn d target r = record r {
    deployments = insert r.deployments d.id d;
    cluster = insert_instance r.cluster d (target ∷ []);
  }

module _ ⦃a : AppStore⦄ where
  abbrev pub RuntimeOf : Type 0
  RuntimeOf = SchedulerRuntime a.Store

  -- `save_deployment`
  unfoldable pub save_deployment : DeploymentInfo → RuntimeOf → Outcome Error (Unit {0}) × RuntimeOf
  save_deployment d r =
      let (o, db) = a.add_app d r.database in
      (
        map_err (λ e. text (str_append "Failed to save deployment: " e)) o,
        record r { database = db },
      )

-- A connection to another daemon, and its `spawn`.
pub record Network : Type 0 where
  pub connect : ServerInfo → Outcome String (Unit {0})
  pub spawn : ServerInfo → SpawnRequest → Outcome Status SpawnResponse

-- What `lookup` hands to the task that it spawns.
pub record Background : Type 0 where
  pub id : Uuid
  pub target : ServerInfo

module _ ⦃k : Crates⦄ where
  -- `client(&target_server).await?`, `client.spawn(request).await?` and the test of its answer.
  unfoldable pub spawn_on : Network → DeploymentInfo → ServerInfo → Outcome Error SpawnResponse
  spawn_on net d target = do
    map_err transport_error (net.connect target)
    response ←
        map_err from_status (net.spawn target (record { deployment = some (into_deployment d) }))
    if response.success then ok response else err (text "Unsuccessful spawn")

  -- `ok_or(Status::aborted("Failed to schedule"))`
  unfoldable pub find_target :
      {S : Type 0} → LookupRequest → SchedulerRuntime S → Outcome Status Background
  find_target request r = do
    id ← map_err abort (k.parse_str request.deployment_id)
    ids ← map_err (λ e. abort (display e)) (get_instance_server_ids r.cluster id)
    choice ← map_err into_status (r.scheduler.schedule (clone_by_ids r.cluster.server_stats ids))
    target ← ok_or (abort "Failed to schedule") choice
    ok (record { id = id; target = target })
