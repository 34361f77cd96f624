-- ===== src/Rpc/Invariant.antt =====
-- The scheduler's cluster stays well-formed under its handlers, however they end.
use mathlib.Core.List.{Mem, mem-cons, not-mem-nil}
use mathlib.Core.Logic.Or
use native.Mathlib.Bridge.{le_prop}
use laqista.Base.{
  ◌≡◌, ◌⊎◌, sym, ap, ◌∙◌, subst, List, [], ◌∷◌, Option, none, some, arith, ok, Outcome-cases,
  Option-cases, Bool-cases, inl, inr, All, All-append, >>=-ok,
}
use laqista.Base.Task.{Shared}
use laqista.IdMap.{Uuid, values}
use laqista.IdMap.Keys.{Entries}
use laqista.Types.{
  Status, Crates, ServerInfo, DeploymentInfo, JoinRequest, ReportRequest, IsUuid, HasId,
}
use laqista.Types.Convert.{server_info_from}
use laqista.Types.RoundTrip.{server_info_from-HasId}
use laqista.Scheduler.Stats.{ServerStats, StatsMap, from_stats}
use laqista.Scheduler.Interface.{DeploymentScheduler}
use laqista.Scheduler.Mean.{Floats, cpu_utilized_rate, schedule, mean_scheduler}
use laqista.Scheduler.Mean.Choice.{schedule-picks}
use laqista.Cluster.Invariant.{
  IsWellFormed, StatsAt, remove_server-IsWellFormed, insert_stats-IsWellFormed,
  insert_instance-IsWellFormed,
}
use laqista.Runtime.{
  AppStore, SchedulerRuntime, RuntimeOf, push_server, choose_target, first_server, unwrap_or,
  record_spawn, Network, spawn_on,
}
use laqista.Cluster.{remove_server}
use laqista.Rpc.{join, report, removing, deploy_in_us}
use laqista.Rpc.Looking.{PickedAt-mem}

push_server-IsWellFormed :
    {S : Type 0} (s : ServerInfo) (r : SchedulerRuntime S)
    → HasId s
    → IsWellFormed r.cluster
    → IsWellFormed (push_server s r).cluster
unfolding push_server
push_server-IsWellFormed s r valid w = record {
  scheduler = w.scheduler;
  number = w.number;
  servers = All-append HasId r.cluster.servers (s ∷ []) w.servers (valid, tt);
  instances_at = w.instances_at;
  instances_distinct = w.instances_distinct;
  stats_at = w.stats_at;
  stats_distinct = w.stats_distinct;
}

values-HasId :
    (m : StatsMap) (e : ServerStats) → Entries StatsAt m → Mem e (values m) → HasId e.server
values-HasId [] e d h = absurd (not-mem-nil h)
values-HasId ((k, v) ∷ m) e d h =
    Or.elim le_prop (mem-cons.0 h) (λ p. subst (λ (t : ServerStats). HasId t.server) (sym p) d.0.1)
      (values-HasId m e d.1)

module _ ⦃k : Crates⦄ ⦃a : AppStore⦄ where
  -- However a join ends, the cluster is well-formed after it if it was before.
  pub join-IsWellFormed :
      (request : JoinRequest) (m : Shared RuntimeOf)
      → IsWellFormed m.inner.cluster
      → IsWellFormed (join request m).1.inner.cluster
  unfolding join
  join-IsWellFormed request m w = elim (Option-cases request.server) [
    | inl e ↦ rw e w
    | inr (s, e) ↦ elim (Outcome-cases (server_info_from s)) [
      | inl (info, valid) ↦ elim (Bool-cases m.held) [
        | inl held ↦ rw (e, valid, held) w
        | inr free ↦
            rw (e, valid, free)
              (push_server-IsWellFormed info m.inner (server_info_from-HasId s info valid) w)
      ]
      | inr (inl (x, invalid)) ↦ rw (e, invalid) w
      | inr (inr (inl invalid)) ↦ rw (e, invalid) w
      | inr (inr (inr invalid)) ↦ rw (e, invalid) w
    ]
  ]

  -- However a report ends, the cluster is well-formed after it if it was before.
  pub report-IsWellFormed :
      (request : ReportRequest) (m : Shared RuntimeOf)
      → IsWellFormed m.inner.cluster
      → IsWellFormed (report request m).1.inner.cluster
  unfolding report
  report-IsWellFormed request m w = elim (Option-cases request.server) [
    | inl e ↦ rw e w
    | inr (s, e) ↦ elim (Outcome-cases (server_info_from s)) [
      | inl (info, valid) ↦ elim (Bool-cases m.held) [
        | inl held ↦ rw (e, valid, held) w
        | inr free ↦
            rw (e, valid, free)
              (insert_stats-IsWellFormed m.inner.cluster (from_stats info request.windows)
                (server_info_from-HasId s info valid) w)
      ]
      | inr (inl (x, invalid)) ↦ rw (e, invalid) w
      | inr (inr (inl invalid)) ↦ rw (e, invalid) w
      | inr (inr (inr invalid)) ↦ rw (e, invalid) w
    ]
  ]

  -- However the removal of a failed server ends.
  pub removing-IsWellFormed :
      (id : Uuid) (m : Shared RuntimeOf)
      → IsWellFormed m.inner.cluster
      → IsWellFormed (removing id m).1.inner.cluster
  removing-IsWellFormed id m w = elim (Bool-cases m.held) [
    | inl held ↦ rw held w
    | inr free ↦ elim (Outcome-cases (remove_server {E = Status} m.inner.cluster id)) [
      | inl ((o, c), e) ↦
          rw (free, e) (remove_server-IsWellFormed {E = Status} m.inner.cluster c id o e w)
      | inr (inl (x, e)) ↦ rw (free, e) w
      | inr (inr (inl e)) ↦ rw (free, e) w
      | inr (inr (inr e)) ↦ rw (free, e) w
    ]
  ]

  -- What is left in the scheduler, whichever way `deploy_in_us` ends.
  deploy_in_us-writes :
      (net : Network) (others : RuntimeOf → RuntimeOf) (d : DeploymentInfo) (m : Shared RuntimeOf)
      → ((deploy_in_us net others d m).1.inner ≡ m.inner)
        ⊎ ((deploy_in_us net others d m).1.inner ≡ others m.inner)
        ⊎ ((t : ServerInfo) × (choose_target m.inner ≡ ok t)
            × ((deploy_in_us net others d m).1.inner ≡ record_spawn d t (others m.inner)))
  unfolding deploy_in_us
  deploy_in_us-writes net others d m = elim (Bool-cases m.held) [
    | inl e ↦ inl (ground arith)
    | inr e ↦ elim (Outcome-cases (choose_target m.inner)) [
      | inl (t, et) ↦ elim (Outcome-cases (spawn_on net d t)) [
        | inl (r, er) ↦ inr (inr (t, et, ground arith))
        | inr failed ↦ inr (inl (ground arith))
      ]
      | inr failed ↦ inl (ground arith)
    ]
  ]

first_server-HasId :
    (ss : List ServerInfo) (s : ServerInfo) → All HasId ss → first_server ss ≡ ok s → HasId s
unfolding first_server
first_server-HasId [] s valid h = cc
first_server-HasId (t ∷ ss) s valid h = let same : t ≡ s = cc in subst HasId same valid.0

module _ ⦃f : Floats⦄ {S : Type 0} where
  choose_target-HasId :
      (r : SchedulerRuntime S) (t : ServerInfo)
      → r.scheduler ≡ mean_scheduler
      → IsWellFormed r.cluster
      → choose_target r ≡ ok t
      → HasId t
  unfolding choose_target unwrap_or
  choose_target-HasId r t policy w h =
      let (choice, picked, h₁) = >>=-ok (r.scheduler.schedule r.cluster.server_stats) _ h in
      let (first, there, h₂) = >>=-ok (first_server r.cluster.servers) _ h₁ in
      of_choice choice first
        (ap (λ (p : DeploymentScheduler). p.schedule r.cluster.server_stats) (sym policy) ∙ picked)
        there (cc)
    where
      of_choice :
          (choice : Option ServerInfo) (first : ServerInfo)
          → schedule r.cluster.server_stats ≡ ok choice
          → first_server r.cluster.servers ≡ ok first
          → unwrap_or choice first ≡ t
          → HasId t
      of_choice none first picked there same =
          subst HasId same (first_server-HasId r.cluster.servers first w.servers there)
      of_choice (some s) first picked there same =
          let (e, x, is_it, at, _) = schedule-picks r.cluster.server_stats s picked in
          subst HasId (is_it ∙ same) (
            values-HasId r.cluster.server_stats e w.stats_at
              (PickedAt-mem cpu_utilized_rate e x (values r.cluster.server_stats) at))

module _ ⦃k : Crates⦄ ⦃a : AppStore⦄ ⦃f : Floats⦄ where
  record_spawn-IsWellFormed :
      (d : DeploymentInfo) (t : ServerInfo) (r : RuntimeOf)
      → IsUuid d.id
      → HasId t
      → IsWellFormed r.cluster
      → IsWellFormed (record_spawn d t r).cluster
  unfolding record_spawn
  record_spawn-IsWellFormed d t r valid target w =
      insert_instance-IsWellFormed r.cluster d (t ∷ []) valid (target, tt) w

  -- A deployment under a valid id, by the policy of mean.rs, keeps the cluster well-formed,
  -- however it ends, if what the other tasks do in between does.
  pub deploy_in_us-IsWellFormed :
      (net : Network) (others : RuntimeOf → RuntimeOf) (d : DeploymentInfo) (m : Shared RuntimeOf)
      → IsUuid d.id
      → m.inner.scheduler ≡ mean_scheduler
      → IsWellFormed m.inner.cluster
      → IsWellFormed (others m.inner).cluster
      → IsWellFormed (deploy_in_us net others d m).1.inner.cluster
  deploy_in_us-IsWellFormed net others d m valid policy w kept =
      elim (deploy_in_us-writes net others d m) [
        | inl e ↦ rw e w
        | inr (inl e) ↦ rw e kept
        | inr (inr (t, chosen, e)) ↦ rw e (
            record_spawn-IsWellFormed d t (others m.inner) valid
              (choose_target-HasId m.inner t policy w chosen) kept)
      ]
