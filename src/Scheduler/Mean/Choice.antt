-- ===== src/Scheduler/Mean/Choice.antt =====
-- What the policy of src/scheduler/mean.rs picks.
use mathlib.Core.List.{Mem, mem-cons_self, mem-cons_of_mem}
use laqista.Base.{
  ◌≡◌, refl, sym, ap, subst, ◌⊎◌, inl, inr, true, false, List, [], ◌∷◌, none, some, Outcome, ok,
  Bool-cases, All, >>=-ok,
}
use laqista.Base.Int.{pos}
use laqista.IdMap.{Uuid, values}
use laqista.Types.{Error, ServerInfo}
use laqista.Scheduler.Stats.{ServerStats, StatsMap}
use laqista.Scheduler.Mean.{
  Floats, cpu_utilized_rate, gpu_utilized_rate, least, schedule_by, schedule, schedule_gpu,
}

module _ ⦃f : Floats⦄ where
  open f use {F64, of_i64, lt, lt_irrefl, lt_trans}

  abbrev pub zero_rate : F64
  zero_rate = of_i64 (pos 0)

  -- No rate of the list is below `r`.
  abbrev pub NoneBelow : (ServerStats → Outcome Error F64) → F64 → List ServerStats → Type 0
  NoneBelow rate r ss = All (λ s. (x : F64) → rate s ≡ ok x → lt x r ≡ false) ss

  -- `e` is picked with the rate `r`: the first of the list with the rate zero, or one with its own.
  abbrev pub PickedAt :
      (ServerStats → Outcome Error F64) → ServerStats → F64 → List ServerStats → Type 0
  PickedAt rate e r [] = ⊥
  PickedAt rate e r (s ∷ ss) = ((e ≡ s) × (r ≡ zero_rate)) ⊎ (Mem e (s ∷ ss) × (rate e ≡ ok r))

  lower : (x b y : F64) → lt x b ≡ true → lt y b ≡ false → lt y x ≡ false
  lower x b y h k = elim (Bool-cases (lt y x)) [ inl e ↦ cc (lt_trans y x b e h) | inr e ↦ e ]

  -- Where the loop ends: what it started from or an entry, below which no entry lies.
  record LeastFrom (rate : ServerStats → Outcome Error F64) (best : ServerStats) (b : F64)
      (ss : List ServerStats) (res : ServerStats) : Type 0 where
    r : F64
    source : ((res ≡ best) × (r ≡ b)) ⊎ (Mem res ss × (rate res ≡ ok r))
    keeps : (y : F64) → lt y b ≡ false → lt y r ≡ false
    least_of : NoneBelow rate r ss

  least-take :
      (rate : ServerStats → Outcome Error F64) (best : ServerStats) (b : F64) (s : ServerStats)
      (ss : List ServerStats) (res : ServerStats) (x : F64)
      → rate s ≡ ok x
      → lt x b ≡ true
      → LeastFrom rate s x ss res
      → LeastFrom rate best b (s ∷ ss) res
  least-take rate best b s ss res x e below rest = record {
    r = rest.r;
    source = elim rest.source [
      | inl (p, q) ↦ inr (subst (λ t. Mem t (s ∷ ss)) (sym p) mem-cons_self, cc (ap rate p))
      | inr (m, q) ↦ inr (mem-cons_of_mem s m, q)
    ];
    keeps = λ y k. rest.keeps y (lower x b y below k);
    least_of = (λ y q. rest.keeps y (cc (lt_irrefl x)), rest.least_of);
  }

  least-skip :
      (rate : ServerStats → Outcome Error F64) (best : ServerStats) (b : F64) (s : ServerStats)
      (ss : List ServerStats) (res : ServerStats) (x : F64)
      → rate s ≡ ok x
      → lt x b ≡ false
      → LeastFrom rate best b ss res
      → LeastFrom rate best b (s ∷ ss) res
  least-skip rate best b s ss res x e above rest = record {
    r = rest.r;
    source = elim rest.source [ inl p ↦ inl p | inr (m, q) ↦ inr (mem-cons_of_mem s m, q) ];
    keeps = rest.keeps;
    least_of = (λ y q. rest.keeps y (cc), rest.least_of);
  }

  least-LeastFrom :
      (rate : ServerStats → Outcome Error F64) (best : ServerStats) (b : F64)
      (ss : List ServerStats) (res : ServerStats)
      → least rate best b ss ≡ ok res
      → LeastFrom rate best b ss res
  unfolding least
  least-LeastFrom rate best b [] res h = record {
    r = b;
    source = inl (cc, refl);
    keeps = λ y k. k;
    least_of = tt;
  }
  least-LeastFrom rate best b (s ∷ ss) res h =
      let (x, e, h') = >>=-ok (rate s) _ h in
      elim (Bool-cases (lt x b)) [
        | inl t ↦
            least-take rate best b s ss res x e t (least-LeastFrom rate s x ss res (rw t at h'))
        | inr t ↦
            least-skip rate best b s ss res x e t (least-LeastFrom rate best b ss res (rw t at h'))
      ]

  schedule_by-picks :
      (rate : ServerStats → Outcome Error F64) (ss : List ServerStats) (s : ServerInfo)
      → schedule_by rate ss ≡ ok (some s)
      → (e : ServerStats) × (r : F64) × (e.server ≡ s) × PickedAt rate e r ss × NoneBelow rate r ss
  unfolding schedule_by
  schedule_by-picks rate [] s h = cc
  schedule_by-picks rate (t ∷ ts) s h =
      let (e, found, same) = >>=-ok (least rate t zero_rate (t ∷ ts)) _ h in
      let l = least-LeastFrom rate t zero_rate (t ∷ ts) e found in
      (e, l.r, cc, l.source, l.least_of)

  -- A server that `schedule` picks has reported, and no server has a CPU rate below the one that it
  -- was picked with: its own, or zero for the first server of the map.
  pub schedule-picks :
      (m : StatsMap) (s : ServerInfo)
      → schedule m ≡ ok (some s)
      → (e : ServerStats) × (r : F64) × (e.server ≡ s)
        × PickedAt cpu_utilized_rate e r (values m)
        × NoneBelow cpu_utilized_rate r (values m)
  unfolding schedule
  schedule-picks m s h = schedule_by-picks cpu_utilized_rate (values m) s h

  -- The same for `schedule_gpu` and the GPU rates.
  pub schedule_gpu-picks :
      (m : StatsMap) (s : ServerInfo)
      → schedule_gpu m ≡ ok (some s)
      → (e : ServerStats) × (r : F64) × (e.server ≡ s)
        × PickedAt gpu_utilized_rate e r (values m)
        × NoneBelow gpu_utilized_rate r (values m)
  unfolding schedule_gpu
  schedule_gpu-picks m s h = schedule_by-picks gpu_utilized_rate (values m) s h

  -- Every server of the list has a rate, and none is below zero.
  abbrev pub AllRated : (ServerStats → Outcome Error F64) → List ServerStats → Type 0
  AllRated rate ss = All (λ s. (x : F64) × (rate s ≡ ok x) × (lt x zero_rate ≡ false)) ss

  least_stays :
      (rate : ServerStats → Outcome Error F64) (best : ServerStats) (ss : List ServerStats)
      → AllRated rate ss
      → least rate best zero_rate ss ≡ ok best
  unfolding least
  least_stays rate best [] h = refl
  least_stays rate best (s ∷ ss) ((x, e, above), h) = rw (e, above) (least_stays rate best ss h)

  -- While every server of the map has a CPU rate and none is below zero, `schedule` picks the
  -- first server, however loaded it is and however idle the others are.
  pub schedule_first :
      (id : Uuid) (first : ServerStats) (m : StatsMap)
      → AllRated cpu_utilized_rate (first ∷ values m)
      → schedule ((id, first) ∷ m) ≡ ok (some first.server)
  unfolding schedule
  schedule_first id first m h = rw (least_stays cpu_utilized_rate first (first ∷ values m) h)

  schedule_by-none :
      (rate : ServerStats → Outcome Error F64) (ss : List ServerStats)
      → schedule_by rate ss ≡ ok none
      → ss ≡ []
  unfolding schedule_by
  schedule_by-none rate [] h = refl
  schedule_by-none rate (t ∷ ts) h =
      let (e, found, same) = >>=-ok (least rate t zero_rate (t ∷ ts)) _ h in cc
