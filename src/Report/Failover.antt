-- ===== src/Report/Failover.antt =====
-- Who takes over when the scheduler is lost, and whether anybody does.
use mathlib.Core.List.{Mem, mem-cons, not-mem-nil}
use mathlib.Core.Logic.Or
use laqista.Base.{
  subst, ◌≡◌, ◌≢◌, ◌⊎◌, sym, ap, ◌∙◌, String, true, false, ◌==◌, List, [], ◌∷◌, Option, none, some,
  arith, ok, ◌>>=◌, map_err, >>=-ok, Bool-cases, inl, inr,
}
use laqista.Types.{Crates, display, from_status, ServerInfo, MonitorWindow}
use laqista.Cluster.{Cluster, remove_server, choose_scheduler, cluster_from}
use laqista.IdMap.{Uuid, empty}
use laqista.Types.{ClusterState}
use laqista.Cluster.{into_cluster_state}
use laqista.Cluster.Invariant.{IsWellFormed}
use laqista.Cluster.Removal.{DistinctIds, Lacks, remove_server-Lacks}
use laqista.Cluster.RoundTrip.{cluster_from-into_cluster_state}
use laqista.Cluster.Election.{IsLowest, choose_scheduler-IsLowest}
use laqista.Daemon.{become_scheduler}
use laqista.Report.{MetricsReporter, Peer, Reporting, elect, command_of, next_command, report}

-- The steps of an election after the scheduler's removal.
pub election-steps :
    (m c' : Cluster) (n : ServerInfo)
    → (remove_server {E = String} m m.group.scheduler_info.id >>= λ removed.
        choose_scheduler {E = String} removed.1)
      ≡ ok (n, c')
    → (o : Option ServerInfo) × (left : Cluster) × (remove_server {E = String} m
          m.group.scheduler_info.id
        ≡ ok (o, left))
      × (choose_scheduler {E = String} left ≡ ok (n, c'))
election-steps m c' n h =
    let ((o, left), gone, chosen) =
      >>=-ok (remove_server {E = String} m m.group.scheduler_info.id) _ h in
    (o, left, gone, chosen)

pub removed_mem :
    (id : Uuid) (ss : List ServerInfo) → Lacks id ss → (s : ServerInfo) → Mem s ss → s.id ≢ id
removed_mem id [] l s m = absurd (not-mem-nil m)
removed_mem id (t ∷ ss) l s m = λ k.
    Or.elim (λ a b. absurd a) (mem-cons.0 m) (λ e. l.0 (ap (λ (x : ServerInfo). x.id) (sym e) ∙ k))
      (λ n. removed_mem id ss l.1 s n k)

election-IsLowest :
    (m left c' : Cluster) (n : ServerInfo) (o : Option ServerInfo)
    → DistinctIds m.servers
    → remove_server {E = String} m m.group.scheduler_info.id ≡ ok (o, left)
    → choose_scheduler {E = String} left ≡ ok (n, c')
    → Mem n m.servers
      × (n.id ≢ m.group.scheduler_info.id)
      × IsLowest n c'.servers
      × (c'.group ≡ record m.group { scheduler_info = n })
election-IsLowest m left c' n o d gone chosen =
    let (lacks, kept, whole) =
      remove_server-Lacks {E = String} m left m.group.scheduler_info.id o d gone in
    let (in_left, low, result) = choose_scheduler-IsLowest {E = String} left c' n chosen in
    (
      kept n in_left,
      removed_mem m.group.scheduler_info.id left.servers lacks n in_left,
      subst (IsLowest n) (sym (ap (λ (x : Cluster). x.servers) result)) low,
      ap (λ (x : Cluster). x.group) result
          ∙ ap (λ (x : Cluster). record x.group { scheduler_info = n }) whole,
    )

module _ ⦃k : Crates⦄ where
  -- Whatever was elected is the scheduler of the cluster that it takes over.
  elect_scheduler :
      (last : Option ClusterState) (n : ServerInfo) (c' : Cluster)
      → elect last ≡ ok (n, c')
      → c'.group.scheduler_info ≡ n
  unfolding elect
  elect_scheduler none n c' h = cc
  elect_scheduler (some state) n c' h =
      let (c, from, rest) = >>=-ok (map_err display (cluster_from state)) _ h in
      let (o, left, gone, chosen) = election-steps c c' n rest in
      let (_, _, same) = choose_scheduler-IsLowest {E = String} left c' n chosen in
      ap (λ (x : Cluster). x.group.scheduler_info) same

  pub elect-into_cluster_state :
      (c : Cluster)
      → IsWellFormed c
      → elect (some (into_cluster_state c)) ≡ (
          remove_server {E = String} (record c { server_stats = empty }) c.group.scheduler_info.id
          >>= λ removed. choose_scheduler {E = String} removed.1)
  unfolding elect
  elect-into_cluster_state c w = rw (cluster_from-into_cluster_state c w)

module _ ⦃k : Crates⦄ {S : Type 0} where
  -- A status is never read as a transport error, so nothing that the scheduler or the network does
  -- makes `report` send a command: the branch for a lost scheduler is never taken.
  pub report_sends_nothing :
      (peer : Peer S) (s : Reporting S) (metrics : MonitorWindow)
      → (report peer s metrics).1.sent ≡ s.sent
  unfolding report from_status
  report_sends_nothing peer s metrics = ground arith

  follows :
      (r q : MetricsReporter) (c : Cluster) (n : ServerInfo) (c' : Cluster)
      → r.last_cluster_state ≡ q.last_cluster_state
      → elect r.last_cluster_state ≡ ok (n, c')
      → command_of {S = S} n c' r.server.id ≡ become_scheduler c
      → ((n.id == r.server.id) ≡ true) ⊎ ((n.id == r.server.id) ≡ false)
      → (c.group.scheduler_info.id ≡ r.server.id)
        × (next_command {S = S} q ≡ ok (command_of c.group.scheduler_info c q.server.id))
  unfolding next_command
  follows r q c n c' same found e (inl own) =
      let taken : c' ≡ c = ground (arith, own) in
      let it : c.group.scheduler_info ≡ n =
        subst (λ (x : Cluster). x.group.scheduler_info ≡ n) taken
          (elect_scheduler r.last_cluster_state n c' found) in
      (
        ground (arith, own, ap (λ (x : ServerInfo). x.id) it),
        rw (← same, found)
            (ap (λ (x : ServerInfo). ok (command_of x c' q.server.id)) (sym it)
              ∙ ap (λ x. ok (command_of c.group.scheduler_info x q.server.id)) taken),
      )
  follows r q c n c' same found e (inr other) = ground (arith, other)

  -- The server that the branch elects decides alike for every reporter of one last state. Where one
  -- becomes the scheduler, it is the elected server itself, and another becomes the scheduler only
  -- if it has that id too, and joins it otherwise.
  pub next_command_agrees :
      (r q : MetricsReporter) (c : Cluster)
      → r.last_cluster_state ≡ q.last_cluster_state
      → next_command {S = S} r ≡ ok (become_scheduler c)
      → (c.group.scheduler_info.id ≡ r.server.id)
        × (next_command {S = S} q ≡ ok (command_of c.group.scheduler_info c q.server.id))
  unfolding next_command
  next_command_agrees r q c same h =
      let ((n, c'), found, e) = >>=-ok (elect r.last_cluster_state) _ h in
      follows r q c n c' same found (cc) (Bool-cases (n.id == r.server.id))

module _ ⦃k : Crates⦄ where
  -- The scheduler that the branch elects after the loss of the one of a well-formed cluster, whose
  -- servers have distinct ids: it is one of the servers, it is not the lost one, and no other
  -- server that is left has a lower id. The rest of the group is kept.
  pub elect-IsLowest :
      (c c' : Cluster) (next : ServerInfo)
      → IsWellFormed c
      → DistinctIds c.servers
      → elect (some (into_cluster_state c)) ≡ ok (next, c')
      → Mem next c.servers
        × (next.id ≢ c.group.scheduler_info.id)
        × IsLowest next c'.servers
        × (c'.group ≡ record c.group { scheduler_info = next })
  elect-IsLowest c c' next w d h =
      let m = record c { server_stats = empty } in
      let (o, left, gone, chosen) =
        election-steps m c' next (sym (elect-into_cluster_state c w) ∙ h) in
      election-IsLowest m left c' next o d gone chosen
