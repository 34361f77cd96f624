-- ===== src/Daemon/Takeover.antt =====
-- The state in which a server takes over the cluster of a lost scheduler.
use laqista.Base.{
  false, inl, inr, ◌++◌, ◌≡◌, ◌≢◌, refl, ap, ◌∙◌, String, Option, none, some, arith, ok, map_err,
  >>=-ok, List, [], ◌∷◌,
}
use laqista.Types.{Crates, ClusterState, ServerInfo, LookupRequest, LookupResponse, display}
use laqista.Scheduler.Mean.{Floats, schedule, mean_scheduler}
use laqista.Scheduler.Stats.{ServerStats, StatsMap}
use laqista.Cluster.Instances.{reported}
use laqista.IdMap.{get, Uuid, empty, clone_by_ids, pairs_of}
use laqista.Base.Task.{Shared}
use laqista.Cluster.{Cluster, cluster_from, remove_server}
use laqista.Cluster.Removal.{remove_server-splits}
use laqista.Cluster.Election.{choose_scheduler-IsLowest}
use laqista.Runtime.{AppStore, RuntimeOf, Background, from_cluster}
use laqista.Rpc.{lookup}
use laqista.Rpc.Looking.{find_target-inner, lookup-inner}
use laqista.Report.{MetricsReporter, elect, command_of, next_command}
use laqista.Report.Failover.{election-steps}
use laqista.Daemon.{DaemonState, authoritative, become_scheduler}
use laqista.Daemon.Run.{next_state, unlocked}

remove_server-stats :
    (c left : Cluster) (id : Uuid) (o : Option ServerInfo)
    → remove_server {E = String} c id ≡ ok (o, left)
    → left.server_stats ≡ c.server_stats
remove_server-stats c left id o h = elim (remove_server-splits {E = String} c id) [
  | inl (_, e) ↦ let same : left ≡ c = cc in ap (λ (x : Cluster). x.server_stats) same
  | inr (before, s, after, _, _, _, e) ↦
      let same : left ≡ record c { servers = before ++ after } = cc in
      ap (λ (x : Cluster). x.server_stats) same
]

module _ ⦃k : Crates⦄ where
  cluster_from-stats :
      (state : ClusterState) (c : Cluster)
      → map_err display (cluster_from state) ≡ ok c
      → c.server_stats ≡ empty
  unfolding cluster_from
  cluster_from-stats state c h = ground arith

  elect-stats :
      (last : Option ClusterState) (n : ServerInfo) (c : Cluster)
      → elect last ≡ ok (n, c)
      → c.server_stats ≡ empty
  unfolding elect
  elect-stats none n c h = cc
  elect-stats (some state) n c h =
      let (read, from, rest) = >>=-ok (map_err display (cluster_from state)) _ h in
      let (o, left, gone, chosen) = election-steps read c n rest in
      let (_, _, same) = choose_scheduler-IsLowest {E = String} left c n chosen in
      ap (λ (x : Cluster). x.server_stats) same
      ∙ remove_server-stats read left read.group.scheduler_info.id o gone
      ∙ cluster_from-stats state read from

module _ ⦃k : Crates⦄ {S : Type 0} where
  next_command-elect :
      (r : MetricsReporter) (c : Cluster)
      → next_command {S = S} r ≡ ok (become_scheduler c)
      → c.server_stats ≡ empty
  unfolding next_command
  next_command-elect r c h =
      let ((n, c'), found, e) = >>=-ok (elect r.last_cluster_state) _ h in
      ap (λ (x : Cluster). x.server_stats) (taken n c' (cc))
      ∙ elect-stats r.last_cluster_state n c' found
    where
      taken :
          (n : ServerInfo) (c' : Cluster)
          → command_of {S = S} n c' r.server.id ≡ become_scheduler c
          → c ≡ c'
      taken n c' e = ground arith

module _ ⦃k : Crates⦄ ⦃f : Floats⦄ where
  pairs_of-empty : (ids : List Uuid) → pairs_of {T = ServerStats} empty ids ≡ []
  unfolding pairs_of
  pairs_of-empty [] = refl
  pairs_of-empty (i ∷ ids) = pairs_of-empty ids

  schedule-empty : (ids : List Uuid) → schedule (clone_by_ids empty ids) ≡ ok none
  unfolding schedule clone_by_ids
  schedule-empty ids = rw (pairs_of-empty ids)

  schedule_none :
      (stats : StatsMap) (ids : List Uuid) (s : ServerInfo)
      → stats ≡ empty
      → schedule (clone_by_ids stats ids) ≢ ok (some s)
  schedule_none stats ids s none_reported h =
      cc (ap (λ m. schedule (clone_by_ids m ids)) none_reported, schedule-empty ids)

module _ ⦃k : Crates⦄ ⦃a : AppStore⦄ ⦃f : Floats⦄ where
  -- The server that a reporter's command makes the scheduler has the elected cluster, a free mutex,
  -- and no deployment under any id, although the cluster says where instances run. It has no report
  -- of any server, so no lookup succeeds.
  pub takeover_forgets :
      (r : MetricsReporter) (c : Cluster) (database : a.Store) (state : DaemonState a.Store)
      (id : Uuid) (request : LookupRequest) (resp : LookupResponse) (b : Background)
      (m' : Shared RuntimeOf)
      → next_command {S = a.Store} r ≡ ok (become_scheduler c)
      → (m : Shared RuntimeOf) × (next_state database state (become_scheduler c) ≡ authoritative m)
        × (m.held ≡ false)
        × (m.inner.cluster ≡ c)
        × (get m.inner.deployments id ≡ none)
        × (reported m.inner.cluster id ≡ [])
        × (lookup request m ≢ (ok (resp, b), m'))
  unfolding next_state from_cluster get reported
  takeover_forgets r c database state id request resp b m' h = (
    unlocked (from_cluster c mean_scheduler database),
    refl,
    refl,
    refl,
    refl,
    rw (next_command-elect r c h) refl,
    λ e.
        let m = unlocked (from_cluster c mean_scheduler database) in
        let (found, _, _, _) = lookup-inner m m' request resp b e in
        let (ids, _, _, picked) = find_target-inner m.inner request b found in
        schedule_none c.server_stats ids b.target (next_command-elect r c h) picked,
  )
