-- ===== src/Rpc/Finding.antt =====
-- When `lookup` succeeds, and that it does after `deploy` and a report of its target.
use mathlib.Core.List.{mem-append_right, Mem, Mem-prop, mem-cons, mem-cons_self, not-mem-nil}
use mathlib.Core.Logic.Or
use laqista.Base.{
  ok_inj, ◌≡◌, refl, sym, ap, ◌∙◌, subst, true, false, List, [], ◌∷◌, ◌++◌, some, arith, ok, All,
  All-append, ◌==◌, Option-cases, Bool-cases, inl, inr, ==_self,
}
use laqista.Base.Task.{Shared}
use laqista.IdMap.{Uuid, IdMap, get, modify_or_insert, clone_by_ids}
use laqista.IdMap.Keys.{Entries, clone_by_ids-Entries, modify_or_insert-Entries, All-weaken}
use laqista.IdMap.Laws.{contains, get-clone_by_ids, get-modify_or_insert}
use laqista.Types.{
  Crates, ServerInfo, MonitorWindow, IsUuid, HasId, LookupRequest, LookupResponse, DeployRequest,
  DeployResponse,
}
use laqista.Types.Convert.{into_server}
use laqista.Scheduler.Stats.{ServerStats, from_stats, append}
use laqista.Scheduler.Mean.{Floats, mean_scheduler}
use laqista.Scheduler.Mean.Total.{IsWhole, AreWhole, schedule-total}
use laqista.Cluster.{Cluster, get_instance_server_ids, insert_stats}
use laqista.Cluster.Instances.{ids_of}
use laqista.Cluster.Invariant.{IsWellFormed, insert_stats-IsWellFormed}
use laqista.Runtime.{AppStore, RuntimeOf, Network, find_target, choose_target}
use laqista.Rpc.{deploy, report, lookup}
use laqista.Rpc.Deploying.{info_of, saved, deploy_registers}
use laqista.Rpc.Looking.{lookup_runs_there}
use laqista.Rpc.Members.{report_answers}

Mem-contains : (k : Uuid) (ids : List Uuid) → Mem k ids → contains ids k ≡ true
Mem-contains k [] m = absurd (not-mem-nil m)
Mem-contains k (j ∷ ids) m = elim (Bool-cases (j == k)) [
  | inl e ↦ rw e refl
  | inr e ↦
      let later =
        Or.elim Mem-prop (mem-cons.0 m) (λ p. absurd (ground (arith, p, ==_self k))) (λ m'. m') in
      rw e (Mem-contains k ids later)
]

-- The reports of a server, stored behind those that are there already.
insert_stats-AreWhole :
    (c : Cluster) (info : ServerInfo) (windows : List MonitorWindow)
    → All IsWhole windows
    → Entries AreWhole c.server_stats
    → Entries AreWhole (insert_stats c (from_stats info windows)).server_stats
unfolding insert_stats append
insert_stats-AreWhole c info windows whole stored =
    modify_or_insert-Entries AreWhole c.server_stats info.id _ _
      (λ j s same old. All-append IsWhole s.stats windows old whole) whole stored

get-added :
    {T : Type 0} (m : IdMap T) (k : Uuid) (f : T → T) (v : T)
    → (w : T) × (get (modify_or_insert m k f v) k ≡ some w)
get-added m k f v = elim (Option-cases (get m k)) [
  | inl e ↦ (v, get-modify_or_insert m k k f v ∙ rw (==_self k, e) refl)
  | inr (w, e) ↦ (f w, get-modify_or_insert m k k f v ∙ rw (==_self k, e) refl)
]

insert_stats-get :
    (c : Cluster) (info : ServerInfo) (windows : List MonitorWindow)
    → (s : ServerStats) × (get (insert_stats c (from_stats info windows)).server_stats info.id
        ≡ some s)
unfolding insert_stats
insert_stats-get c info windows =
    get-added c.server_stats info.id (append windows) (from_stats info windows)

module _ ⦃k : Crates⦄ ⦃a : AppStore⦄ ⦃f : Floats⦄ where
  find_target-total :
      (r : RuntimeOf) (request : LookupRequest) (id at : Uuid) (ids : List Uuid) (s : ServerStats)
      → r.scheduler ≡ mean_scheduler
      → k.parse_str request.deployment_id ≡ ok id
      → get_instance_server_ids r.cluster id ≡ ok ids
      → Mem at ids
      → get r.cluster.server_stats at ≡ some s
      → Entries AreWhole r.cluster.server_stats
      → (t : ServerInfo) × (find_target request r ≡ ok (record { id = id; target = t }))
  unfolding find_target
  find_target-total r request id at ids s policy parsed located member stored whole =
      let stats = clone_by_ids r.cluster.server_stats ids in
      let (t, picked) =
        schedule-total stats at s
          (All-weaken _ (λ e. AreWhole e.0 e.1) stats (λ e p. p.1)
            (clone_by_ids-Entries AreWhole r.cluster.server_stats ids whole))
          (get-clone_by_ids r.cluster.server_stats ids at
            ∙ rw (Mem-contains at ids member) stored) in
      (t, rw (parsed, located, policy, picked) refl)

  -- What a client is told that asks for an id.
  abbrev pub answer_for : Uuid → ServerInfo → LookupResponse
  answer_for id t = record {
    success = true;
    deployment_id = k.to_string id;
    server = some (into_server t);
  }

  lookup-total :
      (m : Shared RuntimeOf) (request : LookupRequest) (id at : Uuid) (ids : List Uuid)
      (s : ServerStats)
      → m.held ≡ false
      → m.inner.scheduler ≡ mean_scheduler
      → k.parse_str request.deployment_id ≡ ok id
      → get_instance_server_ids m.inner.cluster id ≡ ok ids
      → Mem at ids
      → get m.inner.cluster.server_stats at ≡ some s
      → Entries AreWhole m.inner.cluster.server_stats
      → (t : ServerInfo) × (lookup request m
          ≡ (ok (answer_for id t, record { id = id; target = t }), m))
  unfolding lookup
  lookup-total m request id at ids s free policy parsed located member stored whole =
      let (t, found) =
        find_target-total m.inner request id at ids s policy parsed located member stored whole in
      (t, ground (arith, found))

  -- On a well-formed cluster, where a server that the deployment runs on has reported and all
  -- reports have their parts, `lookup` succeeds under the policy of mean.rs: with a server that it
  -- runs on.
  pub lookup_succeeds :
      (m : Shared RuntimeOf) (request : LookupRequest) (id at : Uuid) (ids : List Uuid)
      (s : ServerStats)
      → m.held ≡ false
      → m.inner.scheduler ≡ mean_scheduler
      → k.parse_str request.deployment_id ≡ ok id
      → get_instance_server_ids m.inner.cluster id ≡ ok ids
      → Mem at ids
      → get m.inner.cluster.server_stats at ≡ some s
      → Entries AreWhole m.inner.cluster.server_stats
      → IsWellFormed m.inner.cluster
      → (t : ServerInfo) × (lookup request m
          ≡ (ok (answer_for id t, record { id = id; target = t }), m))
        × Mem t.id ids
  lookup_succeeds m request id at ids s free policy parsed located member stored whole w =
      let (t, found) =
        lookup-total m request id at ids s free policy parsed located member stored whole in
      let (ids', _, located', picked, _, _, _) =
        lookup_runs_there m m request (answer_for id t) (record { id = id; target = t }) w policy
          found in
      (t, found, subst (Mem t.id) (ok_inj (sym located' ∙ located)) picked)

  -- The servers that a deployment runs on once it has succeeded, where it was started on `target`.
  abbrev runs_on :
      (RuntimeOf → RuntimeOf) → Uuid → DeployRequest → Shared RuntimeOf → ServerInfo → List Uuid
  runs_on others id request m target =
      ids_of (get_instance_server_ids (others (saved (info_of id request) m).inner).cluster id)
      ++ target.id ∷ []

  -- The scheduler after a report.
  abbrev reported_to : ServerInfo → List MonitorWindow → Shared RuntimeOf → Shared RuntimeOf
  reported_to s windows m = record {
    held = false;
    inner = record m.inner { cluster = insert_stats m.inner.cluster (from_stats s windows) };
  }

  -- A deployment has succeeded, and its target has reported since. Then a lookup of the deployment
  -- succeeds, answers with a server that the deployment runs on, and changes nothing: on a
  -- well-formed cluster, under the policy of mean.rs, where the ids of the deployment and of the
  -- target have 128 bits and all reports have all their parts. The servers that the deployment runs
  -- on are those that other tasks have started it on and the target.
  pub deployed_is_found :
      (net : Network) (others : RuntimeOf → RuntimeOf) (id : Uuid) (request : DeployRequest)
      (m m' : Shared RuntimeOf) (resp : DeployResponse) (target : ServerInfo)
      (windows : List MonitorWindow)
      → deploy net others id request m ≡ (ok resp, m')
      → choose_target (saved (info_of id request) m).inner ≡ ok target
      → IsUuid id
      → HasId target
      → IsWellFormed m'.inner.cluster
      → m'.inner.scheduler ≡ mean_scheduler
      → Entries AreWhole m'.inner.cluster.server_stats
      → All IsWhole windows
      → let after =
          (report (record { server = some (into_server target); windows = windows }) m').1 in
        (t : ServerInfo) × (lookup (record { deployment_id = k.to_string id }) after
          ≡ (ok (answer_for id t, record { id = id; target = t }), after))
        × Mem t.id (
            ids_of
              (get_instance_server_ids (others (saved (info_of id request) m).inner).cluster id)
            ++ target.id ∷ [])
  unfolding insert_stats get_instance_server_ids
  deployed_is_found net others id request m m' resp target windows h chosen hid htarget w policy
        stored whole =
      let (_, chosen', _, _, _, located, free) =
        deploy_registers net others id request m m' resp h in
      let there =
        located ∙ ap (λ s. ok (runs_on others id request m s)) (ok_inj (sym chosen' ∙ chosen)) in
      let stats = from_stats target windows in
      let (s, kept) = insert_stats-get m'.inner.cluster target windows in
      let (t, found, member) =
        lookup_succeeds (reported_to target windows m') (record { deployment_id = k.to_string id })
          id target.id (runs_on others id request m target) s refl policy
          (k.parse_str-to_string id hid) there (mem-append_right _ mem-cons_self) kept
          (insert_stats-AreWhole m'.inner.cluster target windows whole stored)
          (insert_stats-IsWellFormed m'.inner.cluster stats htarget w) in
      let (_, answered, _, _) = report_answers target windows m' id htarget free w in
      (
        t,
        subst
            (λ (x : Shared RuntimeOf).
              lookup (record { deployment_id = k.to_string id }) x
              ≡ (ok (answer_for id t, record { id = id; target = t }), x))
            (sym (ap (λ r. r.1) answered)) found,
        member,
      )
