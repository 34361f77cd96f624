-- ===== src/Rpc/Looking.antt =====
-- What `lookup` answers.
use mathlib.Core.List.{Mem, Mem-prop, mem-cons, mem-cons_self, not-mem-nil}
use mathlib.Core.Logic.Or
use laqista.Base.{
  ◌≡◌, sym, ap, ◌∙◌, subst, true, List, [], ◌∷◌, some, arith, Outcome, ok, err, panic, blocked,
  map_err, ok_or, Outcome-cases, >>=-ok, inl, inr,
}
use laqista.Base.Task.{Shared}
use laqista.IdMap.{Uuid, values, clone_by_ids}
use laqista.IdMap.Keys.{Entries, clone_by_ids-Entries}
use laqista.Types.{Crates, Error, abort, into_status, ServerInfo, LookupRequest, LookupResponse}
use laqista.Types.Convert.{into_server}
use laqista.Scheduler.Stats.{ServerStats, StatsMap}
use laqista.Scheduler.Interface.{DeploymentScheduler}
use laqista.Scheduler.Mean.{Floats, cpu_utilized_rate, schedule, mean_scheduler}
use laqista.Scheduler.Mean.Choice.{PickedAt, schedule-picks}
use laqista.Cluster.{get_instance_server_ids}
use laqista.Cluster.Invariant.{IsWellFormed, StatsAt}
use laqista.Runtime.{AppStore, SchedulerRuntime, RuntimeOf, Background, find_target}
use laqista.Rpc.{lookup}

-- A server whose statistics are kept under ids of a list has its own id there.
Mem-values :
    (ids : List Uuid) (m : StatsMap) (e : ServerStats)
    → Entries (λ k v. Mem k ids × StatsAt k v) m
    → Mem e (values m)
    → Mem e.server.id ids
Mem-values ids [] e d h = absurd (not-mem-nil h)
Mem-values ids ((k, v) ∷ m) e d h =
    Or.elim Mem-prop (mem-cons.0 h)
      (λ p.
        subst (λ (t : ServerStats). Mem t.server.id ids) (sym p)
          (subst (λ j. Mem j ids) (sym d.0.1.0) d.0.0))
      (Mem-values ids m e d.1)

map_err-eq-ok {ℓ κ μ} :
    {E : Type ℓ} {F : Type κ} {A : Type μ} (f : E → F) (m : Outcome E A) (a : A)
    → map_err f m ≡ ok a
    → m ≡ ok a
map_err-eq-ok f (ok b) a h = cc
map_err-eq-ok f (err e) a h = cc
map_err-eq-ok f panic a h = cc
map_err-eq-ok f blocked a h = cc

module _ ⦃k : Crates⦄ where
  pub find_target-inner :
      {S : Type 0} (r : SchedulerRuntime S) (request : LookupRequest) (b : Background)
      → find_target request r ≡ ok b
      → (ids : List Uuid) × (k.parse_str request.deployment_id ≡ ok b.id)
        × (get_instance_server_ids r.cluster b.id ≡ ok ids)
        × (r.scheduler.schedule (clone_by_ids r.cluster.server_stats ids) ≡ ok (some b.target))
  unfolding find_target
  find_target-inner r request b h =
      let (id, parsed, h₁) = >>=-ok (map_err abort (k.parse_str request.deployment_id)) _ h in
      let (ids, located, h₂) = >>=-ok (map_err _ (get_instance_server_ids r.cluster id)) _ h₁ in
      let stats = clone_by_ids r.cluster.server_stats ids in
      let (choice, picked, h₃) = >>=-ok (map_err into_status (r.scheduler.schedule stats)) _ h₂ in
      let (t, there, same) = >>=-ok (ok_or (abort "Failed to schedule") choice) _ h₃ in
      (
        ids,
        map_err-eq-ok abort _ id parsed ∙ ground arith,
        ap (get_instance_server_ids r.cluster) (ground arith) ∙ map_err-eq-ok _ _ ids located,
        map_err-eq-ok into_status _ choice picked ∙ ground arith,
      )

module _ ⦃f : Floats⦄ where
  open f use {F64}

  pub PickedAt-mem :
      (rate : ServerStats → Outcome Error F64) (e : ServerStats) (r : F64) (ss : List ServerStats)
      → PickedAt rate e r ss
      → Mem e ss
  PickedAt-mem rate e r [] p = elim p [ ]
  PickedAt-mem rate e r (s ∷ ss) (inl (p, q)) = subst (λ t. Mem t (s ∷ ss)) (sym p) mem-cons_self
  PickedAt-mem rate e r (s ∷ ss) (inr (m, q)) = m

  schedule-mem :
      (stats : StatsMap) (ids : List Uuid) (s : ServerInfo)
      → Entries StatsAt stats
      → schedule (clone_by_ids stats ids) ≡ ok (some s)
      → Mem s.id ids
  schedule-mem stats ids s d h =
      let sub = clone_by_ids stats ids in
      let (e, r, same, picked, _) = schedule-picks sub s h in
      subst (λ (t : ServerInfo). Mem t.id ids) same
        (Mem-values ids sub e (clone_by_ids-Entries StatsAt stats ids d)
          (PickedAt-mem cpu_utilized_rate e r (values sub) picked))

module _ ⦃k : Crates⦄ ⦃a : AppStore⦄ where
  pub lookup-inner :
      (m m' : Shared RuntimeOf) (request : LookupRequest) (resp : LookupResponse) (b : Background)
      → lookup request m ≡ (ok (resp, b), m')
      → (find_target request m.inner ≡ ok b)
        × (resp.success ≡ true)
        × (resp.server ≡ some (into_server b.target))
        × (m' ≡ m)
  unfolding lookup
  lookup-inner m m' request resp b h = elim (Outcome-cases (find_target request m.inner)) [
    | inl (c, e) ↦ (ground arith, ground arith, ground arith, ground arith)
    | inr failed ↦ absurd (ground arith)
  ]

module _ ⦃k : Crates⦄ ⦃a : AppStore⦄ ⦃f : Floats⦄ where
  -- A lookup that succeeds under the policy of mean.rs, on a well-formed cluster, answers with a
  -- server that an instance of the deployment runs on, and changes nothing.
  pub lookup_runs_there :
      (m m' : Shared RuntimeOf) (request : LookupRequest) (resp : LookupResponse) (b : Background)
      → IsWellFormed m.inner.cluster
      → m.inner.scheduler ≡ mean_scheduler
      → lookup request m ≡ (ok (resp, b), m')
      → (ids : List Uuid) × (k.parse_str request.deployment_id ≡ ok b.id)
        × (get_instance_server_ids m.inner.cluster b.id ≡ ok ids)
        × Mem b.target.id ids
        × (resp.success ≡ true)
        × (resp.server ≡ some (into_server b.target))
        × (m' ≡ m)
  lookup_runs_there m m' request resp b w policy h =
      let (found, success, server, same) = lookup-inner m m' request resp b h in
      let (ids, parsed, located, picked) = find_target-inner m.inner request b found in
      let stats = clone_by_ids m.inner.cluster.server_stats ids in
      let mean : schedule stats ≡ ok (some b.target) =
        ap (λ (p : DeploymentScheduler). p.schedule stats) (sym policy) ∙ picked in
      let there = schedule-mem m.inner.cluster.server_stats ids b.target w.stats_at mean in
      (ids, parsed, located, there, success, server, same)
