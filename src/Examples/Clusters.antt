-- ===== src/Examples/Clusters.antt =====
-- The theorems on clusters, id maps and policies, in a cluster of three servers.
use mathlib.Core.List.Perm
use laqista.Base.{◌≡◌, refl, String, List, [], ◌∷◌, some, ok, arith}
use laqista.Cluster.{
  Cluster, choose_scheduler, lowest, lowest_of, with_scheduler, remove_server, into_cluster_state,
  cluster_from,
}
use laqista.Cluster.Election.{choose_scheduler_agrees}
use laqista.Cluster.Invariant.{IsWellFormed}
use laqista.Cluster.RoundTrip.{cluster_from-into_cluster_state}
use laqista.Cluster.Received.{cluster_from-IsWellFormed}
use laqista.IdMap.{Uuid}
use laqista.Cluster.Membership.{view, dismiss}
use laqista.Runtime.Refinement.{leaves, membership_refines}
use laqista.Examples.Sample.{
  tallies, server, cluster, cluster-IsWellFormed, cluster-DistinctIds, runtime,
}

abbrev pub reordered : Cluster
reordered = record cluster { servers = server 3 ∷ server 2 ∷ server 1 ∷ [] }

choose_scheduler-sample :
    choose_scheduler {E = String} cluster ≡ ok (server 1, with_scheduler cluster (server 1))
unfolding choose_scheduler lowest_of lowest
choose_scheduler-sample = refl

choose_scheduler-reordered :
    choose_scheduler {E = String} reordered ≡ ok (server 1, with_scheduler reordered (server 1))
unfolding choose_scheduler lowest_of lowest
choose_scheduler-reordered = refl

choose_scheduler_agrees_example : (server 1).id ≡ (server 1).id
choose_scheduler_agrees_example =
    choose_scheduler_agrees {E = String} cluster reordered (with_scheduler cluster (server 1))
      (with_scheduler reordered (server 1)) (server 1) (server 1)
      (Perm.swap (server 3) (server 2) (server 1 ∷ [])) choose_scheduler-sample
      choose_scheduler-reordered

cluster_from-into_cluster_state_example :
    cluster_from (into_cluster_state cluster) ≡ ok (record cluster { server_stats = [] })
cluster_from-into_cluster_state_example =
    cluster_from-into_cluster_state cluster cluster-IsWellFormed

cluster_from-IsWellFormed_example : IsWellFormed (record cluster { server_stats = [] })
cluster_from-IsWellFormed_example =
    cluster_from-IsWellFormed (into_cluster_state cluster) (record cluster { server_stats = [] })
      (cluster_from-into_cluster_state cluster cluster-IsWellFormed) (omega arith)

membership_refines_example :
    view (record cluster { servers = server 3 ∷ server 1 ∷ [] }) ≡ dismiss 2 (view cluster)
unfolding remove_server
membership_refines_example =
    membership_refines {S = List Uuid} (leaves 2) runtime
      (record cluster { servers = server 3 ∷ server 1 ∷ [] }) cluster-DistinctIds
      (some (server 2), refl)
