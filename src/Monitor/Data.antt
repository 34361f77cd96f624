-- ===== src/Monitor/Data.antt =====
-- The data of src/monitor/linux/parse.rs and src/monitor/linux/radeon.rs, and the calendar, which
-- is a parameter.
use Prim.Native.String.{String}
use laqista.Base.{ℕ, ◌*◌, ◌^◌, ◌<◌, ◌≡◌, Option, some}
use laqista.Base.Int.{ℤ}

-- The date and time of the crate `chrono`: `from_timestamp` wants a second that the calendar
-- reaches, `second` and `nanosecond` are those of the minute and of the second, and a sum may
-- leave the calendar. A sum of whole seconds keeps the fraction, outside of a leap second, where
-- it is less than a second.
pub record Chrono : Type 1 where
  pub DateTime : Type 0
  pub from_timestamp : ℤ → ℕ → Option DateTime
  pub second : DateTime → ℕ
  pub nanosecond : DateTime → ℕ
  pub add_seconds : ℤ → DateTime → Option DateTime
  pub sub_nanoseconds : ℤ → DateTime → Option DateTime
  pub nanosecond-lt : (t : DateTime) → nanosecond t < 2 * 10 ^ 9
  pub nanosecond-add_seconds :
      (k : ℤ) (t : DateTime) {u : DateTime}
      → add_seconds k t ≡ some u
      → nanosecond t < 10 ^ 9
      → nanosecond u ≡ nanosecond t

pub record Fraction : Type 0 where
  pub whole : ℕ
  pub frac : ℕ

pub data AbsoluteUtilization : Type 0 where
  absent : AbsoluteUtilization
  mb : Fraction → AbsoluteUtilization
  ghz : Fraction → AbsoluteUtilization

pub data Utilization : Type 0 where
  id : ℕ → Utilization
  percent : Fraction → AbsoluteUtilization → Utilization

pub record ResourceUtilization : Type 0 where
  pub name : String
  pub util : Utilization

-- `RadeonMetrics` of radeon.rs, over the types of numbers and times.
pub record RadeonMetrics (F T : Type 0) : Type 0 where
  pub timestamp : T
  pub gpu : F
  pub ee : F
  pub vgt : F
  pub ta : F
  pub sx : F
  pub sh : F
  pub spi : F
  pub sc : F
  pub pa : F
  pub db : F
  pub cb : F
  pub vram : F
  pub gtt : F
