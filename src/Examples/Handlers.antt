-- ===== src/Examples/Handlers.antt =====
-- The theorems on the handlers of the scheduler, in the cluster of three servers.
use mathlib.Core.List.{Mem}
use laqista.Base.{
  ◌≡◌, refl, true, false, List, [], ◌∷◌, ◌++◌, Option, none, some, Outcome, ok, err, blocked, arith,
}
use laqista.Base.Int.{◌+ℤ◌, ◌-ℤ◌, ◌*ℤ◌, as_i64}
use laqista.Utils.{subtract_window, shl32}
use laqista.Base.Task.{Shared}
use laqista.IdMap.{Uuid, get, empty, clone_by_ids}
use laqista.Types.{
  Status, text, transport_error, ServerInfo, DeployRequest, DeployResponse, LookupRequest,
  LookupResponse, JoinRequest, ReportRequest, ClusterState,
}
use laqista.Types.Convert.{into_server, into_deployment, server_info_from, parse_uuid}
use laqista.Scheduler.Stats.{ServerStats, from_stats, windows_of}
use laqista.Scheduler.Mean.{
  mean_scheduler, schedule, utilized_rate, mul_as_percent, needs_scale_out,
}
use laqista.Cluster.{cluster_from, insert_stats, get_instance_server_ids}
use laqista.Cluster.Instances.{ids_of, reported}
use laqista.Base.{◌==◌, if◌then◌else◌}
use laqista.Cluster.Invariant.{IsWellFormed}
use laqista.Cluster.Removal.{without, Lacks}
use laqista.Runtime.{
  RuntimeOf, Network, Background, choose_target, spawn_on, find_target, save_deployment,
}
use laqista.Rpc.{deploy, deploy_in_us, lookup, join, report, scale_out, handle_failed_server}
use laqista.Rpc.Deploying.{info_of, saved, deploy_registers}
use laqista.Rpc.Looking.{lookup_runs_there}
use laqista.Rpc.ScalingOut.{scale_out_deadlocks}
use laqista.Rpc.Reachable.{Reaches, start, after, joins, reports, deploys, reachable-IsWellFormed}
use laqista.Rpc.Members.{join_cluster-join, report_answers, failed_server_leaves}
use laqista.Daemon.{DaemonState, running}
use laqista.Daemon.Run.{Outside, join_cluster}
use laqista.Examples.Sample.{
  tallies, id_list, whole_numbers, tally, server, face, window, cluster, cluster-DistinctIds,
  cluster-IsWellFormed, runtime, reachable,
}

abbrev pub free : Shared RuntimeOf
free = record { held = false; inner = runtime }

abbrev pub idle : RuntimeOf → RuntimeOf
idle r = r

abbrev pub hello : DeployRequest
hello = record { source = "http://hello"; name = "hello" }

abbrev deployed : Shared RuntimeOf
deployed = (deploy reachable idle 9 hello free).1

abbrev pub deployed_answer : DeployResponse
deployed_answer = record { success = true; deployment = some (into_deployment (info_of 9 hello)) }

deploy-sample : deploy reachable idle 9 hello free ≡ (ok deployed_answer, deployed)
unfolding deploy deploy_in_us choose_target schedule windows_of mul_as_percent spawn_on
    save_deployment utilized_rate
deploy-sample = refl

deploy_registers_example :
    (target : ServerInfo) × (choose_target (saved (info_of 9 hello) free).inner ≡ ok target)
    × (deployed_answer.success ≡ true)
    × (deployed_answer.deployment ≡ some (into_deployment (info_of 9 hello)))
    × (get deployed.inner.deployments 9 ≡ some (info_of 9 hello))
    × (get_instance_server_ids deployed.inner.cluster 9
        ≡ ok (
            ids_of (get_instance_server_ids (idle (saved (info_of 9 hello) free).inner).cluster 9)
            ++ target.id ∷ []))
    × (deployed.held ≡ false)
deploy_registers_example =
    deploy_registers reachable idle 9 hello free deployed deployed_answer deploy-sample

abbrev request : LookupRequest
request = record { deployment_id = tally 7 }

abbrev looked_up : LookupResponse
looked_up = record {
  success = true;
  deployment_id = tally 7;
  server = some (into_server (server 3));
}

abbrev task : Background
task = record { id = 7; target = server 3 }

lookup-sample : lookup request free ≡ (ok (looked_up, task), free)
unfolding lookup find_target get_instance_server_ids schedule clone_by_ids utilized_rate windows_of
    ◌+ℤ◌ ◌*ℤ◌ subtract_window as_i64 ◌-ℤ◌ shl32
lookup-sample = refl

lookup_runs_there_example :
    (ids : List Uuid) × (tallies.parse_str (tally 7) ≡ ok 7)
    × (get_instance_server_ids cluster 7 ≡ ok ids)
    × Mem 3 ids
    × (looked_up.success ≡ true)
    × (looked_up.server ≡ some (into_server (server 3)))
    × (free ≡ free)
lookup_runs_there_example =
    lookup_runs_there free free request looked_up task cluster-IsWellFormed refl lookup-sample

abbrev loaded : ServerStats
loaded = record { server = server 3; stats = window 90 ∷ [] }

needs_scale_out-sample : mean_scheduler.needs_scale_out (server 3) loaded ≡ ok true
unfolding needs_scale_out
needs_scale_out-sample = refl

scale_out_deadlocks_example :
    scale_out reachable idle task free ≡ (blocked, record free { held = true })
scale_out_deadlocks_example =
    scale_out_deadlocks reachable idle task free loaded face refl (unfold get in refl)
      needs_scale_out-sample (unfold get in refl)

abbrev stuck : Shared RuntimeOf
stuck = record { held = true; inner = runtime }

abbrev joining_5 : JoinRequest
joining_5 = record { server = some (into_server (server 5)) }

abbrev report_5 : ReportRequest
report_5 = record { server = some (into_server (server 5)); windows = window 20 ∷ [] }

server_5-sample : server_info_from (into_server (server 5)) ≡ ok (server 5)
unfolding server_info_from into_server
server_5-sample = refl

-- A network in which every spawn is refused.
abbrev refusing : Network
refusing = record {
  connect = λ s. ok tt;
  spawn = λ s r. ok (record { success = false; deployment = none; server = none });
}

deploy_in_us-sample : deploy_in_us refusing idle face free ≡ (err (text "Unsuccessful spawn"), free)
unfolding deploy_in_us choose_target schedule windows_of mul_as_percent spawn_on utilized_rate
deploy_in_us-sample = refl

abbrev scheduler_2 : Outside (List Uuid)
scheduler_2 = record {
  connect = λ addr. ok tt;
  join = λ r. (join r free).0;
  serve = ok tt;
  served = λ s. s;
}

join_cluster-join_example :
    (join_cluster scheduler_2 (server 5) "http://host" ≡ ok (running cluster.group))
    × ((join joining_5 free).1.inner.cluster.servers ≡ cluster.servers ++ server 5 ∷ [])
join_cluster-join_example =
    join_cluster-join scheduler_2 (server 5) "http://host" free (omega arith) (omega arith) refl
      refl refl

abbrev report_3 : ReportRequest
report_3 = record { server = some (into_server (server 3)); windows = window 20 ∷ [] }

report_answers_example :
    (state : ClusterState) × (report report_3 free ≡ (
      ok (record { success = true; cluster = some state }),
      record {
        held = false;
        inner = record runtime {
          cluster = insert_stats cluster (from_stats (server 3) (window 20 ∷ []));
        };
      },
    ))
    × (cluster_from state ≡ ok (record cluster { server_stats = empty }))
    × (reported (insert_stats cluster (from_stats (server 3) (window 20 ∷ []))) 3
        ≡ (if 3 == 3 then reported cluster 3 ++ window 20 ∷ [] else reported cluster 3))
report_answers_example =
    report_answers (server 3) (window 20 ∷ []) free 3 (omega arith) refl cluster-IsWellFormed

parse_uuid-sample : parse_uuid (into_server (server 3)).id ≡ ok 3
unfolding parse_uuid into_server
parse_uuid-sample = refl

abbrev after_loss : Outcome Status (Option (DaemonState (List Uuid))) × Shared RuntimeOf
after_loss =
    handle_failed_server {A = Unit {0}} (err (transport_error "gone")) (into_server (server 3)) free

failed_server_leaves_example :
    (after_loss.0 ≡ ok none)
    × Lacks 3 after_loss.1.inner.cluster.servers
    × (after_loss.1.inner.cluster.servers ≡ without 3 cluster.servers)
    × (handle_failed_server {A = Unit {0}} (ok tt) (into_server (server 3)) free ≡ (ok none, free))
failed_server_leaves_example =
    failed_server_leaves "gone" tt (into_server (server 3)) 3 free refl parse_uuid-sample
      cluster-DistinctIds

-- A server reports while a deployment waits for the network, and another one joins afterwards.
abbrev meanwhile : Shared RuntimeOf
meanwhile = (deploy_in_us reachable (λ r. (report report_5 free).1.inner) face free).1

session : Reaches free (join joining_5 meanwhile).1
session =
    after
      (deploys reachable (λ r. (report report_5 free).1.inner) face (omega arith) refl
        (after (reports report_5 refl) start) refl refl)
      (after (joins joining_5 refl) start)

reachable-IsWellFormed_example : IsWellFormed (join joining_5 meanwhile).1.inner.cluster
reachable-IsWellFormed_example = reachable-IsWellFormed session cluster-IsWellFormed
