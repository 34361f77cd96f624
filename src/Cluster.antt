-- ===== src/Cluster.antt =====
-- The `Cluster` of src/scheduler.rs: the group with its scheduler, the servers, where applications
-- run, and what the servers have reported. A method with `&mut self` returns the new cluster.
pub mod Election
pub mod Removal
pub mod Instances
pub mod Invariant
pub mod RoundTrip
pub mod Received
pub mod Membership
use laqista.Base.{
  ℕ, suc, ◌+◌, ◌%◌, ◌^◌, ◌==◌, if◌then◌else◌, ltb, String, List, [], ◌∷◌, ◌++◌, map, Option, none,
  some, Outcome, ok, err, panic, ◌>>=◌, ok_or, map_ok, collect,
}
use laqista.IdMap.{Uuid, IdMap, empty, get, modify_or_insert, values, from_pairs}
use laqista.Types.{
  Crates, Error, text, ServerInfo, GroupInfo, DeploymentInfo, AppInstancesInfo, AppInstanceMap,
  AppInstanceLocations, ClusterState, Nomination,
}
use laqista.Types.Convert.{
  new_group, with_number, into_server, into_group, into_locations, server_info_from,
  group_info_from, instances_info_from,
}
use laqista.Scheduler.Stats.{ServerStats, StatsMap, append}

pub record Cluster : Type 0 where
  pub group : GroupInfo
  pub servers : List ServerInfo
  pub instances : AppInstanceMap
  pub server_stats : StatsMap

-- `Cluster::with_group`
unfoldable pub with_group : GroupInfo → Cluster
with_group g = record {
  group = g;
  servers = g.scheduler_info ∷ [];
  instances = empty;
  server_stats = empty;
}

-- `Cluster::new`
unfoldable pub new : ServerInfo → Cluster
unfolding new_group
new scheduler = record {
  group = new_group scheduler;
  servers = scheduler ∷ [];
  instances = empty;
  server_stats = empty;
}

-- The loop of `choose_scheduler`: the server with the lowest id so far.
unfoldable pub lowest : ServerInfo → List ServerInfo → ServerInfo
lowest best [] = best
lowest best (s ∷ ss) = lowest (if ltb s.id best.id then s else best) ss

abbrev pub with_scheduler : Cluster → ServerInfo → Cluster
with_scheduler c s = record c { group = record c.group { scheduler_info = s } }

-- `self.servers[0]` panics if there is no server.
unfoldable pub lowest_of {ℓ} : {E : Type ℓ} → List ServerInfo → Outcome E ServerInfo
unfolding lowest
lowest_of [] = panic
lowest_of (s ∷ ss) = ok (lowest s (s ∷ ss))

unfoldable pub choose_scheduler {ℓ} : {E : Type ℓ} → Cluster → Outcome E (ServerInfo × Cluster)
choose_scheduler c = lowest_of c.servers >>= λ s. ok (s, with_scheduler c s)

-- The number is of 32 bits, and wraps in a release build.
unfoldable pub next_cluster : Cluster → ServerInfo → Cluster
unfolding with_group with_number
next_cluster c s = with_group (with_number s ((c.group.number + 1) % 2 ^ 32))

unfoldable pub insert_instance : Cluster → DeploymentInfo → List ServerInfo → Cluster
insert_instance c deployment servers = record c {
  instances =
      modify_or_insert c.instances deployment.id (λ i. record i { servers = i.servers ++ servers })
        (record { deployment = deployment; servers = servers });
}

unfoldable pub insert_stats : Cluster → ServerStats → Cluster
unfolding append
insert_stats c stats = record c {
  server_stats = modify_or_insert c.server_stats stats.server.id (append stats.stats) stats;
}

-- `iter().position(|s| &s.id == id)`
unfoldable pub position : Uuid → List ServerInfo → Option ℕ
position id [] = none
position id (s ∷ ss) =
    if s.id == id then some 0 else (elim (position id ss) [ none ↦ none | some i ↦ some (suc i) ])

-- `Vec::remove`, which panics out of range: none.
unfoldable pub remove_at : ℕ → List ServerInfo → Option (ServerInfo × List ServerInfo)
remove_at i [] = none
remove_at ℕ.zero (s ∷ ss) = some (s, ss)
remove_at (suc i) (s ∷ ss) = elim (remove_at i ss) [ none ↦ none | some (t, ts) ↦ some (t, s ∷ ts) ]

unfoldable pub remove_server {ℓ} :
    {E : Type ℓ} → Cluster → Uuid → Outcome E (Option ServerInfo × Cluster)
unfolding position remove_at
remove_server c id = elim (position id c.servers) [
  | none ↦ ok (none, c)
  | some i ↦ elim (remove_at i c.servers) [
    | none ↦ panic
    | some (s, rest) ↦ ok (some s, record c { servers = rest })
  ]
]

unfoldable pub get_instance_server_ids : Cluster → Uuid → Outcome Error (List Uuid)
get_instance_server_ids c id = do
  i ← ok_or (text "Deployment not found") (get c.instances id)
  ok (map (λ (s : ServerInfo). s.id) i.servers)

abbrev pub get_addr : Cluster → String
get_addr c = c.group.scheduler_info.addr

module _ ⦃k : Crates⦄ where
  unfoldable pub into_cluster_state : Cluster → ClusterState
  into_cluster_state c = record {
    group = some (into_group c.group);
    servers = map into_server c.servers;
    instances = map into_locations (values c.instances);
  }

  unfoldable pub to_nomination : Cluster → Nomination
  unfolding into_cluster_state
  to_nomination c = record { cluster = some (into_cluster_state c) }

  abbrev pub keyed_instances : AppInstanceLocations → Outcome Error (Uuid × AppInstancesInfo)
  keyed_instances l =
      map_ok (λ (i : AppInstancesInfo). (i.deployment.id, i)) (instances_info_from l)

  -- `TryFrom<ClusterState>`: what the servers have reported is not part of the message.
  unfoldable pub cluster_from : ClusterState → Outcome Error Cluster
  cluster_from state = do
    g ← ok_or (text "Group cannot be empty") state.group
    group ← group_info_from g
    servers ← collect server_info_from state.servers
    instances ← collect keyed_instances state.instances
    ok (record {
      group = group;
      servers = servers;
      instances = from_pairs instances;
      server_stats = empty;
    })
