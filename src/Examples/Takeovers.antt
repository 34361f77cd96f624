-- ===== src/Examples/Takeovers.antt =====
-- The theorems on reporters and daemons: server 1 takes over from the scheduler, server 2.
use mathlib.Core.List.{Mem, mem-cons_self}
use laqista.Base.{
  ◌++◌, ◌∙◌, ap, false, Bool, ◌⊎◌, inr, panic, length, suc, ◌<◌, ℕ, ◌≡◌, refl, ◌≢◌, true, List, [],
  ◌∷◌, none, some, ok, err, arith,
}
use laqista.Base.Task.{Shared}
use laqista.Cluster.Instances.{reported, ids_of, infos_ids}
use laqista.IdMap.{get, Uuid, empty, from_pairs}
use laqista.Types.{AppInstancesInfo, ServerInfo, unavailable, LookupRequest, LookupResponse}
use laqista.Scheduler.Mean.{mean_scheduler}
use laqista.Types.Convert.{group_info_from, into_group, instances_info_from, into_locations}
use laqista.Cluster.{
  Cluster, insert_instance, get_instance_server_ids, into_cluster_state, cluster_from,
  remove_server, choose_scheduler, lowest_of,
}
use laqista.Cluster.Election.{IsLowest}
use laqista.Runtime.{RuntimeOf, Network, Background, from_cluster, spawn_on}
use laqista.Rpc.{lookup}
use laqista.Report.{put_cluster, MetricsReporter, Peer, Reporting, elect, command_of, next_command}
use laqista.Report.Task.{Wake, Started, Answers, reporter_task, monitor_sends, start-lost}
use laqista.Report.Staleness.{put_cluster-insert_instance, takeover_misses_instance}
use laqista.Report.Failover.{next_command_agrees, elect-IsLowest}
use laqista.Report.Succession.{IsGoverned, elect-IsGoverned}
use laqista.Daemon.{DaemonState, running, authoritative, failed, become_scheduler, keep}
use laqista.Daemon.Run.{Event, received, run_start, determine_state, next_state, unlocked}
use laqista.Daemon.Reachable.{never_failed}
use laqista.Daemon.Takeover.{takeover_forgets}
use laqista.Daemon.Handlers.{ServerDaemon, spawn}
use laqista.Daemon.Spawning.{request_for, stored, spawn_on-spawn}
use laqista.Examples.Sample.{
  tallies, id_list, whole_numbers, tally, server, face, window, cluster, cluster-DistinctIds,
  cluster-IsWellFormed,
}

abbrev reporter : ℕ → MetricsReporter
reporter n = record {
  scheduler = server 2;
  server = server n;
  last_cluster_state = some (into_cluster_state cluster);
}

-- What is left of the cluster, with its new scheduler.
abbrev elected : Cluster
elected = record {
  group = record { number = 4; scheduler_info = server 1 };
  servers = server 3 ∷ server 1 ∷ [];
  instances = cluster.instances;
  server_stats = empty;
}

elect-sample : elect (some (into_cluster_state cluster)) ≡ ok (server 1, elected)
unfolding elect cluster_from into_cluster_state group_info_from into_group instances_info_from
    into_locations remove_server choose_scheduler lowest_of from_pairs
elect-sample = refl

elect-IsLowest_example :
    Mem (server 1) cluster.servers
    × ((server 1).id ≢ cluster.group.scheduler_info.id)
    × IsLowest (server 1) elected.servers
    × (elected.group ≡ record cluster.group { scheduler_info = server 1 })
elect-IsLowest_example =
    elect-IsLowest cluster elected (server 1) cluster-IsWellFormed cluster-DistinctIds elect-sample

next_command-sample : next_command {S = List Uuid} (reporter 1) ≡ ok (become_scheduler elected)
unfolding next_command elect cluster_from into_cluster_state group_info_from into_group
    instances_info_from into_locations remove_server choose_scheduler lowest_of from_pairs
next_command-sample = refl

next_command_agrees_example :
    (elected.group.scheduler_info.id ≡ 1)
    × (next_command {S = List Uuid} (reporter 3) ≡ ok (command_of (server 1) elected 3))
next_command_agrees_example =
    next_command_agrees {S = List Uuid} (reporter 1) (reporter 3) elected refl next_command-sample

-- `face` runs on server 3; the scheduler starts it on server 1 as well.
abbrev running_face : AppInstancesInfo
running_face = record { deployment = face; servers = server 3 ∷ [] }

abbrev scaled : Cluster
scaled = insert_instance cluster face (server 1 ∷ [])

running_face-known : get cluster.instances 7 ≡ some running_face
unfolding get
running_face-known = refl

elect-unnoticed :
    elect (put_cluster (reporter 1) (some (into_cluster_state scaled))).1.last_cluster_state
    ≡ ok (server 1, elected)
elect-unnoticed =
    ap (λ (t : Bool × MetricsReporter). elect t.1.last_cluster_state)
      (put_cluster-insert_instance (reporter 1) cluster face (server 1 ∷ []) running_face
        running_face-known refl)
    ∙ elect-sample

takeover_misses_instance_example :
    (put_cluster (reporter 1) (some (into_cluster_state scaled)) ≡ (false, reporter 1))
    × (get_instance_server_ids elected 7 ≡ get_instance_server_ids cluster 7)
    × (get_instance_server_ids scaled 7
        ≡ ok (ids_of (get_instance_server_ids cluster 7) ++ infos_ids (server 1 ∷ [])))
takeover_misses_instance_example =
    takeover_misses_instance (reporter 1) cluster elected face (server 1 ∷ []) running_face
      (server 1) cluster-IsWellFormed running_face-known refl elect-unnoticed

-- A scheduler that cannot be reached any more.
abbrev lost : Peer (List Uuid)
lost = record {
  connect = λ addr. ok tt;
  report = λ r. err (record { code = unavailable; message = "connection refused" });
  send = λ command. ok tt;
}

abbrev reporting : Reporting (List Uuid)
reporting = record { reporter = reporter 1; sent = [] }

abbrev started : Started (List Uuid)
started = record { reporting = reporting; receiving = true; monitoring = true }

-- A scheduler that answers every report.
abbrev answering : Peer (List Uuid)
answering = record {
  connect = λ addr. ok tt;
  report = λ r. ok (record { success = true; cluster = none });
  send = λ command. ok tt;
}

answering-Answers : Answers answering
answering-Answers = (λ addr. refl, λ q. (record { success = true; cluster = none }, refl))

start-lost_example :
    (after : Started (List Uuid)) × (reporter_task started (
        Wake.window answering (window 10)
        ∷ Wake.window lost (window 20)
        ∷ Wake.window lost (window 30)
        ∷ [])
      ≡ (panic, after))
    × (after.reporting.sent ≡ [])
    × (monitor_sends after ≡ (panic, record after { monitoring = false }))
start-lost_example =
    start-lost started (Wake.window answering (window 10) ∷ []) (Wake.window lost (window 30) ∷ [])
      lost (window 20) (answering-Answers, tt)
      (inr (
        (λ addr. refl),
        (λ q. (record { code = unavailable; message = "connection refused" }, refl)),
      ))

abbrev member : DaemonState (List Uuid)
member = running (record { number = 0; scheduler_info = server 1 })

-- Each reporter has a window to report.
abbrev one_window : ℕ → List (Wake (List Uuid))
one_window place = Wake.window answering (window 20) ∷ []

abbrev events : List (Event (List Uuid))
events = received (some keep) ∷ received (some (become_scheduler elected)) ∷ []

abbrev taken_over : DaemonState (List Uuid)
taken_over = authoritative (unlocked (from_cluster elected mean_scheduler []))

run_start-sample :
    run_start (server 1) [] (determine_state (some "http://host") (server 1) []) events
    ≡ ok taken_over
unfolding run_start determine_state
run_start-sample = refl

never_failed_example : taken_over ≢ failed
never_failed_example =
    never_failed (some "http://host") (server 1) [] taken_over events (tt, (tt, tt))
      run_start-sample

abbrev request : LookupRequest
request = record { deployment_id = tally 7 }

abbrev answer : LookupResponse
answer = record { success = true; deployment_id = tally 7; server = none }

abbrev task : Background
task = record { id = 7; target = server 3 }

takeover_forgets_example :
    (m : Shared RuntimeOf) × (next_state [] failed (become_scheduler elected) ≡ authoritative m)
    × (m.held ≡ false)
    × (m.inner.cluster ≡ elected)
    × (get m.inner.deployments 7 ≡ none)
    × (reported m.inner.cluster 7 ≡ [])
    × (lookup request m ≢ (ok (answer, task), unlocked (from_cluster elected mean_scheduler [])))
takeover_forgets_example =
    takeover_forgets (reporter 1) elected [] failed 7 request answer task
      (unlocked (from_cluster elected mean_scheduler [])) next_command-sample

abbrev daemon : ServerDaemon (List Uuid)
daemon = record {
  runtime = record { info = server 3; database = [] };
  state = running cluster.group;
}

-- The network that leads to that daemon.
abbrev network : Network
network = record { connect = λ s. ok tt; spawn = λ s r. (spawn r daemon).0 }

spawn_on-spawn_example :
    (spawn_on network face (server 3) ≡ stored (ok tt))
    × ((spawn (request_for face) daemon).1.runtime.database ≡ 7 ∷ [])
spawn_on-spawn_example = spawn_on-spawn network face (server 3) daemon (omega arith) refl refl

cluster-IsGoverned : IsGoverned cluster
cluster-IsGoverned = record { formed = cluster-IsWellFormed; member = mem-cons_self }

elect-IsGoverned_example :
    ((length cluster.servers ≡ 1) × (elect (some (into_cluster_state cluster)) ≡ panic))
    ⊎ ((1 < length cluster.servers)
        × (next : ServerInfo) × (c' : Cluster) × (elect (some (into_cluster_state cluster))
            ≡ ok (next, c'))
        × IsGoverned c'
        × (suc (length c'.servers) ≡ length cluster.servers))
elect-IsGoverned_example = elect-IsGoverned cluster cluster-IsGoverned
