-- ===== src/Report/Staleness.antt =====
-- What a reporter misses of the cluster, and what is lost when it takes over.
use mathlib.Core.List.Perm
use laqista.Base.{
  ◌≡◌, refl, sym, ap, ◌∙◌, ◌==◌, Bool, false, List, [], ◌∷◌, ◌++◌, map, length, length-map, Option,
  some, ok, String, ==_self, arith,
}
use laqista.IdMap.{Uuid, IdMap, get, modify_or_insert, values, empty}
use laqista.Types.{
  Crates, ServerInfo, DeploymentInfo, AppInstancesInfo, Group, Server, AppInstanceLocations,
}
use laqista.Types.Convert.{into_locations, into_group, into_server}
use laqista.Utils.{cluster_differs, instances_differ}
use laqista.Utils.Differs.{group_changed_self, servers_differ_iff}
use laqista.Cluster.{
  Cluster, insert_instance, into_cluster_state, remove_server, get_instance_server_ids,
}
use laqista.Cluster.Invariant.{IsWellFormed}
use laqista.Cluster.Election.{choose_scheduler-IsLowest}
use laqista.Cluster.Instances.{ids_of, infos_ids, get_instance_server_ids-insert_instance}
use laqista.Report.{MetricsReporter, put_cluster, is_changed, elect}
use laqista.Report.Failover.{election-steps, elect-into_cluster_state}

length-modify :
    {T : Type 0} (m : IdMap T) (k : Uuid) (f : T → T) (v w : T)
    → get m k ≡ some w
    → length (values (modify_or_insert m k f v)) ≡ length (values m)
unfolding get modify_or_insert
length-modify [] k f v w h = absurd (ground (arith, h))
length-modify ((j, x) ∷ m) k f v w h = ground (arith, length-modify m k f v w)

remove_server-instances :
    (c left : Cluster) (id : Uuid) (o : Option ServerInfo)
    → remove_server {E = String} c id ≡ ok (o, left)
    → left.instances ≡ c.instances
unfolding remove_server
remove_server-instances c left id o h = ground arith

get_instance_server_ids-same :
    (c c' : Cluster) (id : Uuid)
    → c'.instances ≡ c.instances
    → get_instance_server_ids c' id ≡ get_instance_server_ids c id
unfolding get_instance_server_ids
get_instance_server_ids-same c c' id e = rw e refl

-- Where the group and the servers are the same, only the number of the instances counts.
cluster_differs-same :
    (group : Group) (servers : List Server) (i j : List AppInstanceLocations)
    → length i ≡ length j
    → cluster_differs
        (record { group = some group; servers = servers; instances = i })
        (record { group = some group; servers = servers; instances = j })
      ≡ false
unfolding cluster_differs instances_differ
cluster_differs-same group servers i j same = ground (
  arith,
  group_changed_self (some group),
  (servers_differ_iff servers servers).1 (Perm.refl _),
  ==_self (length j),
  ap (λ n. n == length j) same,
)

module _ ⦃k : Crates⦄ where
  -- Another instance of a deployment that the cluster knows already makes no difference.
  cluster_differs-insert_instance :
      (c : Cluster) (d : DeploymentInfo) (ss : List ServerInfo) (i : AppInstancesInfo)
      → get c.instances d.id ≡ some i
      → cluster_differs (into_cluster_state c) (into_cluster_state (insert_instance c d ss)) ≡ false
  unfolding into_cluster_state insert_instance
  cluster_differs-insert_instance c d ss i known =
      let more =
        modify_or_insert c.instances d.id
          (λ (x : AppInstancesInfo). record x { servers = x.servers ++ ss })
          (record { deployment = d; servers = ss }) in
      cluster_differs-same (into_group c.group) (map into_server c.servers)
        (map into_locations (values c.instances)) (map into_locations (values more))
        (length-map into_locations (values c.instances)
          ∙ sym (length-modify c.instances d.id _ _ i known)
          ∙ sym (length-map into_locations (values more)))

  pub put_cluster-insert_instance :
      (r : MetricsReporter) (c : Cluster) (d : DeploymentInfo) (ss : List ServerInfo)
      (i : AppInstancesInfo)
      → get c.instances d.id ≡ some i
      → r.last_cluster_state ≡ some (into_cluster_state c)
      → put_cluster r (some (into_cluster_state (insert_instance c d ss))) ≡ (false, r)
  unfolding put_cluster is_changed
  put_cluster-insert_instance r c d ss i known last =
      rw (last, cluster_differs-insert_instance c d ss i known) refl

  elect-instances :
      (c c' : Cluster) (next : ServerInfo)
      → IsWellFormed c
      → elect (some (into_cluster_state c)) ≡ ok (next, c')
      → c'.instances ≡ c.instances
  elect-instances c c' next w h =
      let m = record c { server_stats = empty } in
      let (o, left, gone, chosen) =
        election-steps m c' next (sym (elect-into_cluster_state c w) ∙ h) in
      let (_, _, result) = choose_scheduler-IsLowest {E = String} left c' next chosen in
      ap (λ (x : Cluster). x.instances) result
      ∙ remove_server-instances m left m.group.scheduler_info.id o gone

  -- The scheduler starts one more instance of a deployment that runs already, on servers `ss`, and
  -- answers the reporter with that cluster. The reporter keeps the state that it has: two states
  -- with equally many deployments are alike. If it takes over then, in the cluster of its election
  -- the deployment runs on the servers where it ran before that start, and on no further one.
  pub takeover_misses_instance :
      (r : MetricsReporter) (c c' : Cluster) (d : DeploymentInfo) (ss : List ServerInfo)
      (i : AppInstancesInfo) (next : ServerInfo)
      → IsWellFormed c
      → get c.instances d.id ≡ some i
      → r.last_cluster_state ≡ some (into_cluster_state c)
      → let told = put_cluster r (some (into_cluster_state (insert_instance c d ss))) in
        elect told.1.last_cluster_state ≡ ok (next, c')
        → (told ≡ (false, r))
          × (get_instance_server_ids c' d.id ≡ get_instance_server_ids c d.id)
          × (get_instance_server_ids (insert_instance c d ss) d.id
              ≡ ok (ids_of (get_instance_server_ids c d.id) ++ infos_ids ss))
  takeover_misses_instance r c c' d ss i next w known last h =
      let unnoticed = put_cluster-insert_instance r c d ss i known last in
      let elected : elect (some (into_cluster_state c)) ≡ ok (next, c') =
        ap elect (sym last)
        ∙ ap (λ (t : Bool × MetricsReporter). elect t.1.last_cluster_state) (sym unnoticed)
        ∙ h in
      (
        unnoticed,
        get_instance_server_ids-same c c' d.id (elect-instances c c' next w elected),
        get_instance_server_ids-insert_instance c d ss d.id ∙ rw (==_self d.id) refl,
      )
