-- ===== src/Report/Succession.antt =====
-- The schedulers that succeed one another when each of them is lost (src/report.rs,
-- `failed_server_sequence`).
use mathlib.Core.List.{Mem}
use mathlib.Core.WellFounded.{Acc}
use laqista.Base.{
  ℕ, zero, suc, ◌<◌, ◌≤◌, ◌≡◌, ◌⊎◌, inl, inr, refl, sym, ap, subst, ◌∙◌, String, ◌∷◌, ◌++◌, length,
  length-append, Option, some, ok, panic, List-cases, arith,
}
use laqista.Types.{Crates, ServerInfo}
use laqista.IdMap.{empty}
use laqista.Cluster.{
  Cluster, remove_server, choose_scheduler, lowest_of, lowest, with_scheduler, into_cluster_state,
}
use laqista.Cluster.Removal.{remove_server-splits}
use laqista.Cluster.Election.{choose_scheduler-IsLowest, choose_scheduler-panic_iff}
use laqista.Cluster.Invariant.{
  IsWellFormed, remove_server-IsWellFormed, choose_scheduler-IsWellFormed,
}
use laqista.Report.{elect}
use laqista.Report.Failover.{removed_mem, elect-into_cluster_state}

-- A well-formed cluster whose scheduler is one of its servers.
pub record IsGoverned (c : Cluster) : Type 0 where
  pub formed : IsWellFormed c
  pub member : Mem c.group.scheduler_info c.servers

-- What is sent to the reporters: all but the statistics.
abbrev without_stats : Cluster → Cluster
without_stats c = record c { server_stats = empty }

without_stats-IsWellFormed : (c : Cluster) → IsWellFormed c → IsWellFormed (without_stats c)
without_stats-IsWellFormed c w = record {
  scheduler = w.scheduler;
  number = w.number;
  servers = w.servers;
  instances_at = w.instances_at;
  instances_distinct = w.instances_distinct;
  stats_at = tt;
  stats_distinct = tt;
}

-- A scheduler that is one of the servers is taken out, and nobody else.
removal :
    (c : Cluster)
    → Mem c.group.scheduler_info c.servers
    → (o : Option ServerInfo) × (left : Cluster) × (remove_server {E = String} c
          c.group.scheduler_info.id
        ≡ ok (o, left))
      × (suc (length left.servers) ≡ length c.servers)
removal c m = elim (remove_server-splits {E = String} c c.group.scheduler_info.id) [
  | inl (lacks, e) ↦
      absurd (removed_mem c.group.scheduler_info.id c.servers lacks c.group.scheduler_info m refl)
  | inr (before, s, after, whole, has_id, lacks, e) ↦ (
    some s,
    record c { servers = before ++ after },
    e,
    omega (arith, ap length whole, length-append before after, length-append before (s ∷ after)),
  )
]

governed :
    (left c' : Cluster) (next : ServerInfo)
    → IsWellFormed left
    → choose_scheduler {E = String} left ≡ ok (next, c')
    → IsGoverned c' × (length c'.servers ≡ length left.servers)
governed left c' next w chosen =
    let (member, low, same) = choose_scheduler-IsLowest {E = String} left c' next chosen in
    (
      record {
        formed = choose_scheduler-IsWellFormed {E = String} left c' next chosen w;
        member = subst (λ (x : Cluster). Mem x.group.scheduler_info x.servers) (sym same) member;
      },
      ap (λ (x : Cluster). length x.servers) same,
    )

module _ ⦃k : Crates⦄ where
  -- `c'` is the cluster that the reporters elect when the scheduler of `c` is lost.
  pub data Succeeds : Cluster → Cluster → Type 0 where
    lost :
        {c c' : Cluster} (next : ServerInfo)
        → elect (some (into_cluster_state c)) ≡ ok (next, c')
        → Succeeds c' c

  -- What is left when the scheduler is lost.
  survivors :
      (c : Cluster)
      → IsGoverned c
      → (left : Cluster) × IsWellFormed left
        × (suc (length left.servers) ≡ length c.servers)
        × (elect (some (into_cluster_state c)) ≡ choose_scheduler {E = String} left)
  survivors c g =
      let (o, left, gone, shorter) = removal (without_stats c) g.member in
      (
        left,
        remove_server-IsWellFormed {E = String} (without_stats c) left _ o gone
            (without_stats-IsWellFormed c g.formed),
        shorter,
        elect-into_cluster_state c g.formed ∙ rw gone refl,
      )

  -- The election that follows the loss of a scheduler which is one of the servers of a well-formed
  -- cluster: it has a result exactly when another server is left, and otherwise the reporter
  -- panics. The elected cluster is well-formed again, its scheduler is one of its servers, and it
  -- has one server less.
  pub elect-IsGoverned :
      (c : Cluster)
      → IsGoverned c
      → ((length c.servers ≡ 1) × (elect (some (into_cluster_state c)) ≡ panic))
        ⊎ ((1 < length c.servers)
            × (next : ServerInfo) × (c' : Cluster) × (elect (some (into_cluster_state c))
                ≡ ok (next, c'))
            × IsGoverned c'
            × (suc (length c'.servers) ≡ length c.servers))
  unfolding choose_scheduler lowest_of
  elect-IsGoverned c g =
      let (left, w, shorter, e) = survivors c g in
      elim (List-cases left.servers) [
        | inl none_left ↦ inl (
          omega (arith, ap length none_left),
          e ∙ (choose_scheduler-panic_iff {E = String} left).1 none_left,
        )
        | inr (s, ss, some_left) ↦
            let chosen : choose_scheduler {E = String} left
                ≡ ok (lowest s (s ∷ ss), with_scheduler left (lowest s (s ∷ ss))) =
              rw (some_left, choose_scheduler) refl in
            let (g', same) = governed left _ _ w chosen in
            inr (omega (arith, ap length some_left), _, _, e ∙ chosen, g', omega (arith, same))
      ]

  step :
      (c c' : Cluster)
      → IsGoverned c
      → Succeeds c' c
      → IsGoverned c' × (suc (length c'.servers) ≡ length c.servers)
  step c c' g (lost next h) =
      let (left, w, shorter, e) = survivors c g in
      let (g', same) = governed left c' next w (sym e ∙ h) in (g', omega (arith, same))

  within : (n : ℕ) (c : Cluster) → IsGoverned c → length c.servers ≤ n → Acc Succeeds c
  within zero c g h = Acc.intro c (λ c' s. absurd (omega (arith, step c c' g s)))
  within (suc n) c g h =
      Acc.intro c (λ c' s. let (g', less) = step c c' g s in within n c' g' (omega arith))

  -- The schedulers succeed one another only finitely often: from a well-formed cluster whose
  -- scheduler is one of its servers, every sequence of losses and elections ends.
  pub succession_ends : (c : Cluster) → IsGoverned c → Acc Succeeds c
  succession_ends c g = within (length c.servers) c g (omega arith)
