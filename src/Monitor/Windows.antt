-- ===== src/Monitor/Windows.antt =====
-- What the windows of the monitors mean to the scheduler, which reads them in
-- src/scheduler/stats.rs and src/scheduler/mean.rs.
use laqista.Base.{
  zero, suc, ◌⊎◌, inl, inr, ℕ, ◌<◌, ◌^◌, ◌≡◌, refl, ◌∙◌, false, List, [], ◌∷◌, Option, none, some,
  All, All-append, last?, Outcome, ok, err, expect, Outcome-cases, >>=-ok, to_option-some, ok_inj,
  expect-ok, subst, arith,
}
use laqista.Base.Int.{ℤ, pos, as_i32-IsI32, sub_self}
use laqista.Types.{MonitorWindow, ServerInfo}
use laqista.Utils.{subtract_window}
use laqista.Utils.Window.{subtract_window-eq}
use laqista.Scheduler.Stats.{ServerStats, Window, window_of, append}
use laqista.Scheduler.Mean.{Floats, needs_scale_out}
use laqista.Monitor.Nom.{Nom, MetricsParseError}
use laqista.Monitor.Data.{Chrono, RadeonMetrics}
use laqista.Monitor.Report.{gpu_only, to_i32, datetime_to_prost}
use laqista.Monitor.Radeon
use laqista.Monitor.Apple
use mathlib.Core.Option
use laqista.Monitor.Apple.{
  PowerMetrics, MetricsWindow, Plist, Ending, send_first, after_next, spawn,
}

-- Only the load of the GPU is measured.
abbrev pub IsGpuOnly : MonitorWindow → Type 0
IsGpuOnly w = (gpu : ℤ) × (w.utilization ≡ some (gpu_only gpu))

-- The scheduler reads the window, and its length is zero.
abbrev pub HasNoLength : MonitorWindow → Type 0
HasNoLength w = (x : Window) × (window_of w ≡ ok x) × (x.nanos ≡ pos 0)

-- Of all windows that a loop sends.
abbrev AllSent : Option (List MonitorWindow × Ending) → Type 0
AllSent none = Unit
AllSent (some (ws, ending)) = All IsGpuOnly ws

last-IsGpuOnly :
    (ws : List MonitorWindow)
    → All IsGpuOnly ws
    → (last? ws ≡ none) ⊎ ((w : MonitorWindow) × (last? ws ≡ some w) × IsGpuOnly w)
last-IsGpuOnly [] h = inl refl
last-IsGpuOnly (w ∷ []) (h, t) = inr (w, refl, h)
last-IsGpuOnly (w ∷ v ∷ ws) (h, t) = last-IsGpuOnly (v ∷ ws) t

needs-last :
    (server : ServerInfo) (stats : ServerStats)
    → (last? stats.stats ≡ none)
      ⊎ ((w : MonitorWindow) × (last? stats.stats ≡ some w) × IsGpuOnly w)
    → needs_scale_out server stats ≡ ok false
unfolding needs_scale_out
needs-last server stats (inl e) = ground (arith)
needs-last server stats (inr (w, e, (gpu, u))) = ground (arith)

first-IsGpuOnly :
    (first : Option MonitorWindow) (more : List MonitorWindow)
    → ((w : MonitorWindow) → first ≡ some w → IsGpuOnly w)
    → All IsGpuOnly more
    → All IsGpuOnly (Radeon.send_first first more)
first-IsGpuOnly none more h k = tt
first-IsGpuOnly (some w) more h k = (h w refl, k)

module _ ⦃n : Nom⦄ ⦃f : Floats⦄ ⦃c : Chrono⦄ where
  open n use {Kind}
  open f use {F64, of_i64, mul}
  open c use {DateTime, nanosecond, nanosecond-lt, add_seconds, nanosecond-add_seconds}

  into_window-IsGpuOnly :
      (m : RadeonMetrics F64 DateTime) {w : MonitorWindow}
      → Radeon.into_window m ≡ ok w
      → IsGpuOnly w
  unfolding Radeon.into_window Radeon.into_utilization
  into_window-IsGpuOnly m {w} h =
      let (window, e, k) = >>=-ok (Radeon.time_window m) _ h in
      (to_i32 (mul m.gpu (of_i64 (pos 100))), cc (k))

  next-IsGpuOnly :
      (next : Outcome (MetricsParseError Kind) (Option (RadeonMetrics F64 DateTime)))
      {w : MonitorWindow}
      → Radeon.window_of_next next ≡ some w
      → IsGpuOnly w
  next-IsGpuOnly (ok (some m)) h = into_window-IsGpuOnly m (to_option-some (Radeon.into_window m) h)
  next-IsGpuOnly (ok none) h = cc
  next-IsGpuOnly (err e) h = cc
  next-IsGpuOnly Outcome.panic h = cc
  next-IsGpuOnly Outcome.blocked h = cc

  send_all-IsGpuOnly : (lines : List Radeon.Line) → All IsGpuOnly (Radeon.send_all lines)
  unfolding Radeon.send_all Radeon.send_window
  send_all-IsGpuOnly [] = tt
  send_all-IsGpuOnly (line ∷ rest) =
      first-IsGpuOnly (Radeon.send_window line) (Radeon.send_all rest)
        (λ w. next-IsGpuOnly (Radeon.next_metrics line)) (send_all-IsGpuOnly rest)

  run-IsGpuOnly : (lines : List Radeon.Line) → All IsGpuOnly (Radeon.run lines)
  unfolding Radeon.run
  run-IsGpuOnly lines = elim (Outcome-cases (Radeon.skip_header (Radeon.new lines))) [
    | inl ((line, r), e) ↦ rw (e, Radeon.run) (send_all-IsGpuOnly r.inner)
    | inr (inl (e, h)) ↦ rw (h, Radeon.run) tt
    | inr (inr (inl h)) ↦ rw (h, Radeon.run) tt
    | inr (inr (inr h)) ↦ rw (h, Radeon.run) tt
  ]

  -- A window from a time to one with the same fraction of a second has no length.
  same_fraction :
      (start end : DateTime)
      → nanosecond end ≡ nanosecond start
      → subtract_window (datetime_to_prost end) (datetime_to_prost start) ≡ pos 0
  unfolding datetime_to_prost
  same_fraction start end h =
      subtract_window-eq (datetime_to_prost end) (datetime_to_prost start)
        (as_i32-IsI32 (pos (nanosecond end))) (as_i32-IsI32 (pos (nanosecond start)))
      ∙ rw h (sub_self _)

  -- The metrics hold for one second, but their window has the length zero for the scheduler: it
  -- starts and ends at the same fraction of a second. Outside of a leap second.
  pub radeon_window-length :
      (m : RadeonMetrics F64 DateTime) {w : MonitorWindow}
      → nanosecond m.timestamp < 10 ^ 9
      → Radeon.into_window m ≡ ok w
      → HasNoLength w
  unfolding Radeon.into_window Radeon.time_window window_of
  radeon_window-length m {w} small h =
      let (window, e, k) = >>=-ok (Radeon.time_window m) _ h in
      let (end, later, k') = >>=-ok (expect (add_seconds (pos 1) m.timestamp)) _ e in
      let same = nanosecond-add_seconds (pos 1) m.timestamp (expect-ok _ later) small in
      subst HasNoLength (ok_inj k) (
        subst
          (λ t.
            HasNoLength
              (record { window = some t; utilization = some (Radeon.into_utilization m) }))
          (ok_inj k') (_, refl, same_fraction m.timestamp end same))

  -- Whatever `radeontop` writes, the windows that the monitor sends never make the scheduler scale
  -- out: after them, a server whose earlier windows are such windows as well needs no more
  -- instances.
  pub radeon_never_scales_out :
      (server : ServerInfo) (lines : List Radeon.Line) (stats : ServerStats)
      → All IsGpuOnly stats.stats
      → (needs_scale_out server (append (Radeon.run lines) stats) ≡ ok false)
        × All IsGpuOnly (append (Radeon.run lines) stats).stats
  unfolding append
  radeon_never_scales_out server lines stats h =
      let after = All-append IsGpuOnly stats.stats (Radeon.run lines) h (run-IsGpuOnly lines) in
      (needs-last server (append (Radeon.run lines) stats) (last-IsGpuOnly _ after), after)

module _ ⦃f : Floats⦄ ⦃c : Chrono⦄
    ⦃p : Plist (PowerMetrics (Floats.F64 f) (Chrono.DateTime c))⦄ where
  open f use {F64}
  open c use {DateTime}
  open p use {Error}

  map-AllSent :
      (w : MetricsWindow F64 DateTime) (o : Option (List MonitorWindow × Ending))
      → AllSent o
      → AllSent (Option.map (send_first (Apple.into_window w)) o)
  unfolding Apple.into_window Apple.into_utilization
  map-AllSent w none h = tt
  map-AllSent w (some (ws, ending)) h = ((_, refl), h)

  after_next-AllSent :
      (more : List Apple.Line → Option (List MonitorWindow × Ending))
      → ((lines : List Apple.Line) → AllSent (more lines))
      → (found : Outcome Error (Option (MetricsWindow F64 DateTime) × List Apple.Line))
      → AllSent (after_next more found)
  unfolding after_next
  after_next-AllSent more ih (ok (some w, rest)) = map-AllSent w (more rest) (ih rest)
  after_next-AllSent more ih (ok (none, rest)) = tt
  after_next-AllSent more ih (err x) = tt
  after_next-AllSent more ih Outcome.panic = tt
  after_next-AllSent more ih Outcome.blocked = tt

  spawn-AllSent : (rounds : ℕ) (lines : List Apple.Line) → AllSent (spawn rounds lines)
  unfolding spawn
  spawn-AllSent zero lines = tt
  spawn-AllSent (suc rounds) lines =
      after_next-AllSent (spawn rounds) (spawn-AllSent rounds) (Apple.next lines)

  -- The same of the windows that the monitor for macOS sends, whatever `powermetrics` writes.
  pub apple_never_scales_out :
      (server : ServerInfo) (rounds : ℕ) (lines : List Apple.Line) (stats : ServerStats)
      {ws : List MonitorWindow} {ending : Ending}
      → spawn rounds lines ≡ some (ws, ending)
      → All IsGpuOnly stats.stats
      → (needs_scale_out server (append ws stats) ≡ ok false)
        × All IsGpuOnly (append ws stats).stats
  unfolding append
  apple_never_scales_out server rounds lines stats {ws} h k =
      let after =
        All-append IsGpuOnly stats.stats ws k (subst AllSent h (spawn-AllSent rounds lines)) in
      (needs-last server (append ws stats) (last-IsGpuOnly _ after), after)
