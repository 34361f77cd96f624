-- ===== src/Cluster/Invariant.antt =====
-- A well-formed cluster, and that every operation keeps it so.
use mathlib.Core.List.{Mem, mem-cons, not-mem-nil}
use mathlib.Core.Logic.Or
use native.Mathlib.Bridge.{le_prop}
use laqista.Base.{
  ◌^◌, ◌<◌, ◌≡◌, refl, sym, subst, List, [], ◌∷◌, ◌++◌, Option, arith, ok, All, All-append, inl,
  inr,
}
use laqista.IdMap.{Uuid}
use laqista.IdMap.Keys.{Distinct, Entries, modify_or_insert-Distinct, modify_or_insert-Entries}
use laqista.Types.{ServerInfo, DeploymentInfo, AppInstancesInfo, IsUuid, HasId, HasIds}
use laqista.Scheduler.Stats.{ServerStats}
use laqista.Cluster.{
  Cluster, new, choose_scheduler, next_cluster, insert_instance, insert_stats, remove_server,
}
use laqista.Cluster.Election.{choose_scheduler-IsLowest}
use laqista.Cluster.Removal.{remove_server-splits}

abbrev pub InstanceAt : Uuid → AppInstancesInfo → Type 0
InstanceAt k i = (i.deployment.id ≡ k) × HasIds i

abbrev pub StatsAt : Uuid → ServerStats → Type 0
StatsAt k s = (s.server.id ≡ k) × HasId s.server

-- Ids have 128 bits, the group number 32, and a map holds each entry once, under its own id.
pub record IsWellFormed (c : Cluster) : Type 0 where
  pub scheduler : HasId c.group.scheduler_info
  pub number : c.group.number < 2 ^ 32
  pub servers : All HasId c.servers
  pub instances_at : Entries InstanceAt c.instances
  pub instances_distinct : Distinct c.instances
  pub stats_at : Entries StatsAt c.server_stats
  pub stats_distinct : Distinct c.server_stats

pub new-IsWellFormed : (s : ServerInfo) → HasId s → IsWellFormed (new s)
unfolding new
new-IsWellFormed s h = record {
  scheduler = h;
  number = omega arith;
  servers = (h, tt);
  instances_at = tt;
  instances_distinct = tt;
  stats_at = tt;
  stats_distinct = tt;
}

pub next_cluster-IsWellFormed :
    (c : Cluster) (s : ServerInfo) → HasId s → IsWellFormed (next_cluster c s)
unfolding next_cluster
next_cluster-IsWellFormed c s h = record {
  scheduler = h;
  number = omega arith;
  servers = (h, tt);
  instances_at = tt;
  instances_distinct = tt;
  stats_at = tt;
  stats_distinct = tt;
}

pub insert_instance-IsWellFormed :
    (c : Cluster) (d : DeploymentInfo) (ss : List ServerInfo)
    → IsUuid d.id
    → All HasId ss
    → IsWellFormed c
    → IsWellFormed (insert_instance c d ss)
unfolding insert_instance
insert_instance-IsWellFormed c d ss hd hs w = record {
  scheduler = w.scheduler;
  number = w.number;
  servers = w.servers;
  instances_at =
      modify_or_insert-Entries InstanceAt c.instances d.id _ _
        (λ j i same (at, (hi, hss)). (at, (hi, All-append HasId i.servers ss hss hs)))
        (refl, (hd, hs)) w.instances_at;
  instances_distinct = modify_or_insert-Distinct c.instances d.id _ _ w.instances_distinct;
  stats_at = w.stats_at;
  stats_distinct = w.stats_distinct;
}

pub insert_stats-IsWellFormed :
    (c : Cluster) (s : ServerStats)
    → HasId s.server
    → IsWellFormed c
    → IsWellFormed (insert_stats c s)
unfolding insert_stats
insert_stats-IsWellFormed c s h w = record {
  scheduler = w.scheduler;
  number = w.number;
  servers = w.servers;
  instances_at = w.instances_at;
  instances_distinct = w.instances_distinct;
  stats_at =
      modify_or_insert-Entries StatsAt c.server_stats s.server.id _ _ (λ j t same at. at) (refl, h)
        w.stats_at;
  stats_distinct = modify_or_insert-Distinct c.server_stats s.server.id _ _ w.stats_distinct;
}

All-middle :
    (before after : List ServerInfo) (s : ServerInfo)
    → All HasId (before ++ s ∷ after)
    → All HasId (before ++ after)
All-middle [] after s h = h.1
All-middle (t ∷ before) after s h = (h.0, All-middle before after s h.1)

abbrev with_servers : Cluster → List ServerInfo → Cluster
with_servers c ss = record c { servers = ss }

with_servers-IsWellFormed :
    (c : Cluster) (ss : List ServerInfo)
    → All HasId ss
    → IsWellFormed c
    → IsWellFormed (with_servers c ss)
with_servers-IsWellFormed c ss h w = record {
  scheduler = w.scheduler;
  number = w.number;
  servers = h;
  instances_at = w.instances_at;
  instances_distinct = w.instances_distinct;
  stats_at = w.stats_at;
  stats_distinct = w.stats_distinct;
}

-- Whether or not a server is removed, the cluster stays well-formed.
pub remove_server-IsWellFormed {ℓ} :
    {E : Type ℓ} (c c' : Cluster) (id : Uuid) (o : Option ServerInfo)
    → remove_server {E = E} c id ≡ ok (o, c')
    → IsWellFormed c
    → IsWellFormed c'
remove_server-IsWellFormed {E} c c' id o h w = elim (remove_server-splits {E = E} c id) [
  | inl (_, e) ↦ subst IsWellFormed (cc) w
  | inr (before, s, after, whole, _, _, e) ↦ subst IsWellFormed (cc) (
      with_servers-IsWellFormed c (before ++ after)
        (All-middle before after s (subst (All HasId) whole w.servers)) w)
]

All-mem : (s : ServerInfo) (ss : List ServerInfo) → Mem s ss → All HasId ss → HasId s
All-mem s [] m h = absurd (not-mem-nil m)
All-mem s (t ∷ ss) m h =
    Or.elim le_prop (mem-cons.0 m) (λ e. subst HasId (sym e) h.0) (λ n. All-mem s ss n h.1)

-- The new scheduler is a server of the cluster, so its id is valid.
pub choose_scheduler-IsWellFormed {ℓ} :
    {E : Type ℓ} (c c' : Cluster) (s : ServerInfo)
    → choose_scheduler {E = E} c ≡ ok (s, c')
    → IsWellFormed c
    → IsWellFormed c'
choose_scheduler-IsWellFormed {E} c c' s h w =
    let (m, low, e) = choose_scheduler-IsLowest {E = E} c c' s h in
    subst IsWellFormed (sym e) (record {
      scheduler = All-mem s c.servers m w.servers;
      number = w.number;
      servers = w.servers;
      instances_at = w.instances_at;
      instances_distinct = w.instances_distinct;
      stats_at = w.stats_at;
      stats_distinct = w.stats_distinct;
    })
