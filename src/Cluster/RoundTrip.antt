-- ===== src/Cluster/RoundTrip.antt =====
-- A cluster that travels as a message: `report` answers with one, and a server that takes over
-- starts from it.
use laqista.Base.{◌≡◌, refl, ap, [], ◌∷◌, map, ok, collect}
use laqista.IdMap.{IdMap, values, empty}
use laqista.IdMap.Keys.{Entries, from_pairs-Distinct}
use laqista.Types.{Crates, AppInstancesInfo}
use laqista.Types.Convert.{into_locations}
use laqista.Types.RoundTrip.{
  group_info_from-into_group, collect-map-into_server, instances_info_from-into_locations,
}
use laqista.Cluster.{Cluster, into_cluster_state, keyed_instances, cluster_from}
use laqista.Cluster.Invariant.{IsWellFormed, InstanceAt}

module _ ⦃k : Crates⦄ where
  collect-map-into_locations :
      (m : IdMap AppInstancesInfo)
      → Entries InstanceAt m
      → collect keyed_instances (map into_locations (values m)) ≡ ok m
  collect-map-into_locations [] h = refl
  collect-map-into_locations ((id, i) ∷ m) h =
      rw (instances_info_from-into_locations i h.0.1, collect-map-into_locations m h.1)
        (ap (λ j. ok ((j, i) ∷ m)) h.0.0)

  -- A well-formed cluster is read back from its message, without what the servers have reported.
  pub cluster_from-into_cluster_state :
      (c : Cluster)
      → IsWellFormed c
      → cluster_from (into_cluster_state c) ≡ ok (record c { server_stats = empty })
  unfolding cluster_from into_cluster_state
  cluster_from-into_cluster_state c w = rw (
    group_info_from-into_group c.group w.scheduler,
    collect-map-into_server c.servers w.servers,
    collect-map-into_locations c.instances w.instances_at,
    from_pairs-Distinct c.instances w.instances_distinct,
  )
