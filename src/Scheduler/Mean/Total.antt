-- ===== src/Scheduler/Mean/Total.antt =====
-- When the policy of src/scheduler/mean.rs picks a server at all: a report with a missing part is a
-- panic of its rate.
use laqista.Base.{◌≡◌, refl, List, [], ◌∷◌, some, Outcome, ok, All, arith, if◌then◌else◌, ◌>>=◌}
use laqista.Base.Int.{ℤ}
use laqista.IdMap.{Uuid, values, get}
use laqista.IdMap.Keys.{Entries}
use laqista.Types.{Error, ServerInfo, MonitorWindow, ResourceUtilization}
use laqista.Scheduler.Stats.{ServerStats, StatsMap, Window, window_of, windows_of, windows}
use laqista.Scheduler.Mean.{Floats, utilized_rate, cpu_utilized_rate, least, schedule_by, schedule}

-- A report has all its parts.
abbrev pub IsWhole : MonitorWindow → Type 0
IsWhole w = (x : Window) × (window_of w ≡ ok x)

abbrev pub AreWhole : Uuid → ServerStats → Type 0
AreWhole k s = All IsWhole s.stats

windows_of-whole :
    (ss : List MonitorWindow) → All IsWhole ss → (ws : List Window) × (windows_of ss ≡ ok ws)
unfolding windows_of
windows_of-whole [] whole = ([], refl)
windows_of-whole (s ∷ ss) ((w, e), later) =
    let (ws, es) = windows_of-whole ss later in (w ∷ ws, rw (e, es) refl)

computed :
    {E A B : Type 0} (o : Outcome E A) (k : A → B) (a : A)
    → o ≡ ok a
    → (b : B) × ((o >>= λ x. ok (k x)) ≡ ok b)
computed o k a e = (k a, rw e refl)

module _ ⦃f : Floats⦄ where
  open f use {F64}

  abbrev HasRate : (ServerStats → Outcome Error F64) → ServerStats → Type 0
  HasRate rate s = (x : F64) × (rate s ≡ ok x)

  utilized_rate-whole :
      (load : ResourceUtilization → ℤ) (s : ServerStats)
      → All IsWhole s.stats
      → HasRate (utilized_rate load) s
  unfolding utilized_rate
  utilized_rate-whole load s whole =
      let (ws, e) = windows_of-whole s.stats whole in computed (windows s) _ ws e

  least-total :
      (rate : ServerStats → Outcome Error F64) (best : ServerStats) (b : F64)
      (ss : List ServerStats)
      → All (HasRate rate) ss
      → (e : ServerStats) × (least rate best b ss ≡ ok e)
  unfolding least
  least-total rate best b [] rated = (best, refl)
  least-total rate best b (s ∷ ss) ((x, e), later) =
      let (t, found) =
        least-total rate (if f.lt x b then s else best) (if f.lt x b then x else b) ss later in
      (t, rw e found)

  rated : (m : StatsMap) → Entries AreWhole m → All (HasRate cpu_utilized_rate) (values m)
  rated [] whole = tt
  rated ((k, s) ∷ m) (here, later) = (utilized_rate-whole _ s here, rated m later)

  schedule_by-total :
      (rate : ServerStats → Outcome Error F64) (s : ServerStats) (ss : List ServerStats)
      → All (HasRate rate) (s ∷ ss)
      → (t : ServerInfo) × (schedule_by rate (s ∷ ss) ≡ ok (some t))
  unfolding schedule_by
  schedule_by-total rate s ss h =
      let (e, found) = least-total rate s (f.of_i64 (ℤ.pos 0)) (s ∷ ss) h in
      (e.server, rw found refl)

  -- Where some server has reported, and all reports have their parts, a server is picked.
  pub schedule-total :
      (m : StatsMap) (k : Uuid) (s : ServerStats)
      → Entries AreWhole m
      → get m k ≡ some s
      → (t : ServerInfo) × (schedule m ≡ ok (some t))
  unfolding schedule get
  schedule-total [] k s whole found = absurd (ground (arith, found))
  schedule-total ((j, x) ∷ m) k s whole found =
      schedule_by-total cpu_utilized_rate x (values m) (rated ((j, x) ∷ m) whole)
