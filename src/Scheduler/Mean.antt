-- ===== src/Scheduler/Mean.antt =====
-- src/scheduler/mean.rs. The floating point numbers of Rust are the parameter `Floats`.
pub mod Choice
pub mod Total
use laqista.Base.{
  ℕ, ◌≡◌, Bool, true, false, if◌then◌else◌, List, [], ◌∷◌, map, Option, none, some, Outcome, ok,
  ◌>>=◌, expect, last?,
}
use laqista.Base.Int.{ℤ, pos, ltb_ℤ}
use laqista.IdMap.{values}
use laqista.Types.{Error, ServerInfo, MonitorWindow, ResourceUtilization}
use laqista.Scheduler.Stats.{ServerStats, StatsMap, Window, windows}
use laqista.Scheduler.Interface.{DeploymentScheduler}

-- `f64`: the casts from the integers and to `i64`, the operations that the code uses, and the
-- order, which is irreflexive and transitive also where a number is not a number.
pub record Floats : Type 1 where
  pub F64 : Type 0
  pub of_i64 : ℤ → F64
  pub to_i64 : F64 → ℤ
  pub add : F64 → F64 → F64
  pub sub : F64 → F64 → F64
  pub mul : F64 → F64 → F64
  pub div : F64 → F64 → F64
  pub lt : F64 → F64 → Bool
  pub lt_irrefl : (x : F64) → lt x x ≡ false
  pub lt_trans : (x y z : F64) → lt x y ≡ true → lt y z ≡ true → lt x z ≡ true

abbrev pub scaleout_threashold : ℤ
scaleout_threashold = pos 70

-- The last report of a server decides: it needs more instances when its CPU load is above 70.
unfoldable pub needs_scale_out : ServerInfo → ServerStats → Outcome Error Bool
needs_scale_out server stats = elim (last? stats.stats) [
  | none ↦ ok false
  | some stat ↦ expect stat.utilization >>= λ u. ok (ltb_ℤ scaleout_threashold u.cpu)
]

module _ ⦃f : Floats⦄ where
  open f use {F64, of_i64, to_i64, add, mul, div, lt}

  -- `utils::mul_as_percent`
  unfoldable pub mul_as_percent : ℤ → ℤ → ℤ
  mul_as_percent x percent = to_i64 (mul (of_i64 x) (div (of_i64 percent) (of_i64 (pos 100))))

  -- `sum` adds from the left, starting at zero.
  unfoldable pub sum_from : F64 → List F64 → F64
  sum_from acc [] = acc
  sum_from acc (x ∷ xs) = sum_from (add acc x) xs

  abbrev pub sum : List F64 → F64
  sum = sum_from (of_i64 (pos 0))

  -- `gpu_utilized_rate` and `cpu_utilized_rate` differ in the load that they read.
  unfoldable pub utilized_rate : (ResourceUtilization → ℤ) → ServerStats → Outcome Error F64
  unfolding mul_as_percent sum_from
  utilized_rate load stats = do
    ws ← windows stats
    let total = sum (map (λ (w : Window). of_i64 w.nanos) ws)
    let part = λ (w : Window). of_i64 (mul_as_percent w.nanos (load w.utilization))
    ok (div (sum (map part ws)) total)

  abbrev pub gpu_utilized_rate : ServerStats → Outcome Error F64
  gpu_utilized_rate = utilized_rate (λ u. u.gpu)

  abbrev pub cpu_utilized_rate : ServerStats → Outcome Error F64
  cpu_utilized_rate = utilized_rate (λ u. u.cpu)

  -- The loop over the statistics: the least utilized server so far, and its rate.
  unfoldable pub least :
      (ServerStats → Outcome Error F64)
      → ServerStats
      → F64
      → List ServerStats
      → Outcome Error ServerStats
  least rate best best_rate [] = ok best
  least rate best best_rate (s ∷ ss) = rate s >>= λ r.
      least rate (if lt r best_rate then s else best) (if lt r best_rate then r else best_rate) ss

  -- `schedule` and `schedule_gpu`: the loop starts at the first server, with the rate zero.
  unfoldable pub schedule_by :
      (ServerStats → Outcome Error F64) → List ServerStats → Outcome Error (Option ServerInfo)
  unfolding least
  schedule_by rate [] = ok none
  schedule_by rate (s ∷ ss) =
      least rate s (of_i64 (pos 0)) (s ∷ ss) >>= λ best. ok (some best.server)

  unfoldable pub schedule : StatsMap → Outcome Error (Option ServerInfo)
  unfolding schedule_by
  schedule m = schedule_by cpu_utilized_rate (values m)

  unfoldable pub schedule_gpu : StatsMap → Outcome Error (Option ServerInfo)
  unfolding schedule_by
  schedule_gpu m = schedule_by gpu_utilized_rate (values m)

  abbrev pub mean_scheduler : DeploymentScheduler
  mean_scheduler = record {
    schedule = schedule;
    schedule_gpu = schedule_gpu;
    needs_scale_out = needs_scale_out;
  }
