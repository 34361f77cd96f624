-- ===== src/Monitor/Apple.antt =====
-- src/monitor/apple.rs: the monitor for macOS. The lines that `powermetrics` writes are the input,
-- and the crate `plist`, which reads one document, is a parameter.
pub mod Reading
use laqista.Base.{
  ℕ, zero, suc, String, Bool, true, false, not, ◌&&◌, ◌||◌, leb, ◌==◌, if◌then◌else◌, List, [], ◌∷◌,
  map, Option, none, some, is_none, Outcome, ok, err, panic, ◌>>=◌, expect, str_eq,
}
use Prim.Native.Char.{code}
use mathlib.Core.Option
use laqista.Chars.{◌⊕◌, strip_prefix}
use laqista.Base.Int.{ℤ, pos}
use laqista.Types.{TimeWindow, MonitorWindow, ResourceUtilization}
use laqista.Scheduler.Mean.{Floats}
use laqista.Monitor.Data.{Chrono}
use laqista.Monitor.Report.{to_i32, datetime_to_prost, gpu_only}

abbrev pub commands : List String
commands =
    "sudo" ∷ "/usr/bin/powermetrics" ∷ "--sampler=gpu_power" ∷ "--sample-rate=1000"
    ∷ "--format=plist" ∷ []

pub record DvfmState : Type 0 where
  pub freq : ℕ

pub record Gpu (F : Type 0) : Type 0 where
  pub freq_hz : F
  pub idle_ratio : F
  pub dvfm_states : List DvfmState

-- The time is that of the crate `chrono`, into which the one of `plist` is cast.
pub record PowerMetrics (F T : Type 0) : Type 0 where
  pub gpu : Gpu F
  pub elapsed_ns : ℤ
  pub timestamp : T

pub record MetricsWindow (F T : Type 0) : Type 0 where
  pub start : T
  pub end : T
  pub metrics : PowerMetrics F T

-- `Iterator::max` and `Iterator::min`.
unfoldable pub max_of : List ℕ → Option ℕ
max_of [] = none
max_of (x ∷ xs) = elim (max_of xs) [ none ↦ some x | some m ↦ some (if leb x m then m else x) ]

unfoldable pub min_of : List ℕ → Option ℕ
min_of [] = none
min_of (x ∷ xs) = elim (min_of xs) [ none ↦ some x | some m ↦ some (if leb x m then x else m) ]

-- `Gpu::max_frequency` and `Gpu::min_frequency`: a GPU without states is a panic.
unfoldable pub max_frequency : {F : Type 0} → Gpu F → Outcome (Unit {0}) ℕ
unfolding max_of
max_frequency g = expect (max_of (map (λ s. s.freq) g.dvfm_states))

unfoldable pub min_frequency : {F : Type 0} → Gpu F → Outcome (Unit {0}) ℕ
unfolding min_of
min_frequency g = expect (min_of (map (λ s. s.freq) g.dvfm_states))

-- `plist::from_bytes`.
pub record Plist (M : Type 0) : Type 1 where
  pub Error : Type 0
  pub from_bytes : String → Outcome Error M

-- A line, or the error of reading it.
abbrev pub Line : Type 0
Line = Outcome String String

abbrev pub is_idle_ratio : String → Bool
is_idle_ratio line = not (is_none (strip_prefix "<key>idle_ratio</key>" line))

-- How the task ends that sends the windows: with the iteration, or in a panic.
pub data Ending : Type 0 where
  finished panicked : Ending

abbrev pub send_first : MonitorWindow → List MonitorWindow × Ending → List MonitorWindow × Ending
send_first w (ws, ending) = (w ∷ ws, ending)

module _ ⦃f : Floats⦄ ⦃c : Chrono⦄ where
  open f use {F64, of_i64, sub, mul}
  open c use {DateTime, sub_nanoseconds}

  unfoldable pub utilization_ratio : Gpu F64 → F64
  utilization_ratio g = sub (of_i64 (pos 1)) g.idle_ratio

  -- `Into<MetricsWindow>`: a difference that leaves the calendar is a panic.
  unfoldable pub into_metrics_window {ℓ} :
      {E : Type ℓ} → PowerMetrics F64 DateTime → Outcome E (MetricsWindow F64 DateTime)
  into_metrics_window m = do
    start ← expect (sub_nanoseconds m.elapsed_ns m.timestamp)
    ok (record { start = start; end = m.timestamp; metrics = m })

  unfoldable pub time_window : MetricsWindow F64 DateTime → TimeWindow
  unfolding datetime_to_prost
  time_window w = record {
    start = some (datetime_to_prost w.start);
    end = some (datetime_to_prost w.end);
  }

  -- `Into<ResourceUtilization>`
  unfoldable pub into_utilization : PowerMetrics F64 DateTime → ResourceUtilization
  unfolding to_i32 utilization_ratio
  into_utilization m = gpu_only (to_i32 (mul (utilization_ratio m.gpu) (of_i64 (pos 100))))

  -- `Into<MonitorWindow>`
  unfoldable pub into_window : MetricsWindow F64 DateTime → MonitorWindow
  unfolding time_window into_utilization
  into_window w = record {
    window = some (time_window w);
    utilization = some (into_utilization w.metrics);
  }

  module _ ⦃p : Plist (PowerMetrics F64 DateTime)⦄ where
    open p use {Error, from_bytes}

    -- A zero byte in front is dropped. There is no first byte of an empty text.
    unfoldable pub parse : String → Outcome Error (MetricsWindow F64 DateTime)
    unfolding into_metrics_window
    parse String.[] = panic
    parse (String.◌∷◌ first rest) =
        from_bytes (if code first == 0 then rest else String.◌∷◌ first rest) >>= into_metrics_window

    -- `parsed.ok()`, with the lines that are left.
    abbrev pub returned :
        Outcome Error (MetricsWindow F64 DateTime)
        → List Line
        → Outcome Error (Option (MetricsWindow F64 DateTime) × List Line)
    returned (ok w) rest = ok (some w, rest)
    returned (err e) rest = ok (none, rest)
    returned Outcome.panic rest = panic
    returned Outcome.blocked rest = Outcome.blocked

    -- `Iterator::next`: the lines up to the end of a document, of which the second idle ratio and
    -- all later ones are left out. What has been read is the first argument.
    unfoldable pub next_from :
        String → Bool → List Line → Outcome Error (Option (MetricsWindow F64 DateTime) × List Line)
    unfolding strip_prefix parse
    next_from buff seen [] = ok (none, [])
    next_from buff seen (line ∷ rest) = elim line [
      | ok text ↦
          let buff' = if is_idle_ratio text && seen then buff else buff ⊕ text in
          let more = next_from buff' (is_idle_ratio text || seen) rest in
          if is_idle_ratio text && seen
          then more
          else if str_eq text "</plist>"
          then returned (parse buff') rest
          else more
      | _ ↦ panic
    ]

    unfoldable pub next :
        List Line → Outcome Error (Option (MetricsWindow F64 DateTime) × List Line)
    unfolding next_from
    next = next_from "" false

    -- A round of the loop, before the rounds that follow.
    unfoldable pub after_next :
        (List Line → Option (List MonitorWindow × Ending))
        → Outcome Error (Option (MetricsWindow F64 DateTime) × List Line)
        → Option (List MonitorWindow × Ending)
    unfolding into_window
    after_next more (ok (some w, rest)) = Option.map (send_first (into_window w)) (more rest)
    after_next more (ok (none, rest)) = some ([], finished)
    after_next more _ = some ([], panicked)

    -- `MetricsMonitor::spawn`: the windows that the loop sends, and how it ends. The first argument
    -- bounds its rounds.
    unfoldable pub spawn : ℕ → List Line → Option (List MonitorWindow × Ending)
    unfolding next after_next
    spawn zero lines = none
    spawn (suc rounds) lines = after_next (spawn rounds) (next lines)
