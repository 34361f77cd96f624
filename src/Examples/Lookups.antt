-- ===== src/Examples/Lookups.antt =====
-- A deployment that is looked up after its target has reported.
use mathlib.Core.List.{Mem}
use laqista.Base.{ℕ, ◌≡◌, refl, [], ◌∷◌, ◌++◌, some, ok, arith}
use laqista.Base.Task.{Shared}
use laqista.IdMap.Keys.{Entries}
use laqista.Base.{false}
use laqista.Base.Int.{◌+ℤ◌, ◌-ℤ◌, ◌*ℤ◌, as_i64}
use laqista.Utils.{subtract_window, shl32}
use laqista.Types.{ServerInfo}
use laqista.Types.Convert.{into_server}
use laqista.Scheduler.Stats.{window_of, windows_of}
use laqista.Scheduler.Mean.{schedule, utilized_rate, mul_as_percent, mean_scheduler}
use laqista.Scheduler.Mean.Total.{IsWhole, AreWhole}
use laqista.Cluster.{insert_instance, get_instance_server_ids}
use laqista.Cluster.Instances.{ids_of}
use laqista.Cluster.Invariant.{IsWellFormed, insert_instance-IsWellFormed}
use laqista.Runtime.{RuntimeOf, choose_target, record_spawn, save_deployment, spawn_on}
use laqista.Rpc.{deploy, deploy_in_us, report, lookup}
use laqista.Rpc.Deploying.{info_of, saved}
use laqista.Rpc.Finding.{answer_for, deployed_is_found}
use laqista.Examples.Sample.{
  tallies, id_list, whole_numbers, tally, server, window, cluster, cluster-IsWellFormed, reachable,
}
use laqista.Examples.Handlers.{free, idle, hello, deployed_answer}

window-IsWhole : (load : ℕ) → IsWhole (window load)
unfolding window_of
window-IsWhole load = (_, refl)

chosen-sample : choose_target (saved (info_of 9 hello) free).inner ≡ ok (server 3)
unfolding choose_target schedule windows_of mul_as_percent save_deployment utilized_rate ◌+ℤ◌ ◌*ℤ◌
    subtract_window as_i64 ◌-ℤ◌ shl32
chosen-sample = refl

-- What the deployment leaves: server 3 runs it.
abbrev spawned : Shared RuntimeOf
spawned = record {
  held = false;
  inner = record_spawn (info_of 9 hello) (server 3) (saved (info_of 9 hello) free).inner;
}

spawned-sample : deploy reachable idle 9 hello free ≡ (ok deployed_answer, spawned)
unfolding deploy deploy_in_us choose_target schedule windows_of mul_as_percent spawn_on
    save_deployment utilized_rate ◌+ℤ◌ ◌*ℤ◌ subtract_window as_i64 ◌-ℤ◌ shl32
spawned-sample = refl

spawned-IsWellFormed : IsWellFormed spawned.inner.cluster
unfolding record_spawn save_deployment
spawned-IsWellFormed =
    insert_instance-IsWellFormed cluster (info_of 9 hello) (server 3 ∷ []) (omega arith)
      (omega arith, tt) cluster-IsWellFormed

spawned-policy : spawned.inner.scheduler ≡ mean_scheduler
unfolding record_spawn save_deployment
spawned-policy = refl

spawned-AreWhole : Entries AreWhole spawned.inner.cluster.server_stats
unfolding record_spawn save_deployment insert_instance
spawned-AreWhole = ((window-IsWhole 90, tt), tt)

-- The scheduler after the report of server 3.
abbrev told : Shared RuntimeOf
told =
    (report (record { server = some (into_server (server 3)); windows = window 20 ∷ [] }) spawned).1

deployed_is_found_example :
    (t : ServerInfo) × (lookup (record { deployment_id = tally 9 }) told
      ≡ (ok (answer_for 9 t, record { id = 9; target = t }), told))
    × Mem t.id (
        ids_of (get_instance_server_ids (idle (saved (info_of 9 hello) free).inner).cluster 9)
        ++ 3 ∷ [])
deployed_is_found_example =
    deployed_is_found reachable idle 9 hello free spawned deployed_answer (server 3)
      (window 20 ∷ []) spawned-sample chosen-sample (omega arith) (omega arith) spawned-IsWellFormed
      spawned-policy spawned-AreWhole (window-IsWhole 20, tt)
