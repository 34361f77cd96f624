-- ===== src/Monitor/Parse.antt =====
-- src/monitor/linux/parse.rs: the lines that `radeontop` dumps. The floating point numbers, the
-- parser combinators and the calendar are parameters.
pub mod Numerals
pub mod Printed
pub mod Items
pub mod Lines
use laqista.Base.{
  ℕ, ◌+◌, ◌*◌, ◌/◌, ◌^◌, ◌-◌, ◌<◌, ◌≡◌, String, Bool, ◌&&◌, ◌||◌, ◌==◌, ltb, leb, if◌then◌else◌,
  List, [], ◌∷◌, Option, none, some, Outcome, ok, err, panic, ◌>>=◌, ok_or, str_eq, map,
}
use Prim.Native.Char.{code}
use laqista.Base.Int.{ℤ, pos}
use laqista.Scheduler.Mean.{Floats}
use laqista.Monitor.Data.{
  Chrono, Fraction, AbsoluteUtilization, absent, mb, ghz, Utilization, id, percent,
  ResourceUtilization, RadeonMetrics,
}
use laqista.Chars.{count, strip_prefix}
use laqista.Monitor.Nom.{
  Nom, Parsed, MetricsParseError, timestamp, int, key_error, not_header_line, nom,
}

abbrev pub is_hex_digit : ℕ → Bool
is_hex_digit c = leb b'0' c && leb c b'9' || leb b'a' c && leb c b'f' || leb b'A' c && leb c b'F'

-- The digit that a character of `is_hex_digit` stands for.
abbrev pub hex_digit : ℕ → ℕ
hex_digit c = if leb b'a' c then c - b'a' + 10 else if leb b'A' c then c - b'A' + 10 else c - b'0'

unfoldable pub hex_from : ℕ → String → ℕ
hex_from n String.[] = n
hex_from n (String.◌∷◌ c s) = hex_from (n * 16 + hex_digit (code c)) s

-- `u64::from_str_radix(_, 16)` on one or more hexadecimal digits: it fails where they overflow.
abbrev pub from_str_radix : String → Option ℕ
from_str_radix s = if ltb (hex_from 0 s) (2 ^ 64) then some (hex_from 0 s) else none

abbrev pub is_lf : ℕ → Bool
is_lf c = c == b'\n'

-- `HashMap::get` on the pairs that were put in, from the first to the last: the last one counts.
unfoldable pub get_last : String → List (String × ResourceUtilization) → Option ResourceUtilization
get_last k [] = none
get_last k ((j, u) ∷ m) = elim (get_last k m) [
  | some later ↦ some later
  | none ↦ if str_eq j k then some u else none
]

-- The digits behind the dot, as hundredths.
abbrev pub hundredths : {K : Type 0} → ℕ → ℕ → Outcome (MetricsParseError K) ℕ
hundredths len num =
    if len == 1
    then ok (num * 10)
    else if len == 2
    then ok num
    else if len == 3
    then ok (num / 10)
    else panic

module _ ⦃n : Nom⦄ where
  open n use {
    Kind, tag, alpha1, digit1, take_while1, take_till, text_u64, text_u32, text_i64, alt,
    separated_list1,
  }

  abbrev pub space : String → Parsed Kind Unit
  space input = do (input, t) ← tag " " input; ok (input, tt)

  abbrev pub dot : String → Parsed Kind Unit
  dot input = do (input, t) ← tag "." input; ok (input, tt)

  abbrev pub nextline : String → Parsed Kind String
  nextline = take_till is_lf

  abbrev pub header_line : String → Parsed Kind String
  header_line input = elim (strip_prefix "Dumping to" input) [
    | none ↦ err not_header_line
    | some rest ↦ nextline input
  ]

  unfoldable pub hex : String → Parsed Kind ℕ
  unfolding hex_from
  hex input = do
    (input, value) ← take_while1 is_hex_digit input
    parsed ← ok_or int (from_str_radix value)
    ok (input, parsed)

  unfoldable pub fractional_part : String → Parsed Kind ℕ
  unfolding count
  fractional_part input = do
    (input, frac_part) ← digit1 input
    (rest, num) ← text_u64 frac_part
    out ← hundredths (count frac_part) num
    ok (input, out)

  unfoldable pub fraction : String → Parsed Kind Fraction
  unfolding fractional_part
  fraction input = do
    (input, whole) ← text_u64 input
    (input, t) ← dot input
    (input, frac) ← fractional_part input
    ok (input, record { whole = whole; frac = frac })

  -- `absolute_utilization_mb` and `absolute_utilization_ghz`
  unfoldable pub in_unit :
      String → (Fraction → AbsoluteUtilization) → String → Parsed Kind AbsoluteUtilization
  unfolding fraction
  in_unit unit absolute input = do
    (input, t) ← space input
    (input, amount) ← fraction input
    (input, u) ← tag unit input
    ok (input, absolute amount)

  abbrev pub absolute_utilization_none : String → Parsed Kind AbsoluteUtilization
  absolute_utilization_none input = ok (input, absent)

  unfoldable pub absolute_utilization : String → Parsed Kind AbsoluteUtilization
  unfolding in_unit
  absolute_utilization = alt (in_unit "mb" mb ∷ in_unit "ghz" ghz ∷ absolute_utilization_none ∷ [])

  unfoldable pub utilization_percent : String → Parsed Kind Utilization
  unfolding fraction absolute_utilization
  utilization_percent input = do
    (input, ratio) ← fraction input
    (input, t) ← tag "%" input
    (input, absolute) ← absolute_utilization input
    ok (input, percent ratio absolute)

  unfoldable pub utilization_id : String → Parsed Kind Utilization
  unfolding hex
  utilization_id input = do (input, parsed) ← hex input; ok (input, id parsed)

  unfoldable pub utilization : String → Parsed Kind Utilization
  unfolding utilization_percent utilization_id
  utilization = alt (utilization_percent ∷ utilization_id ∷ [])

  unfoldable pub resource_utilzation : String → Parsed Kind ResourceUtilization
  unfolding utilization
  resource_utilzation input = do
    (input, name) ← alpha1 input
    (input, t) ← space input
    (input, util) ← utilization input
    ok (input, record { name = name; util = util })

  unfoldable pub utilization_map : String → Parsed Kind (List (String × ResourceUtilization))
  unfolding resource_utilzation
  utilization_map input = do
    (input, list) ← separated_list1 ", " resource_utilzation input
    ok (input, map (λ (u : ResourceUtilization). (u.name, u)) list)

  module _ ⦃f : Floats⦄ ⦃c : Chrono⦄ where
    open f use {F64, of_i64, add, mul, div}
    open c use {DateTime, from_timestamp}

    -- `Into<f64>`; the constant 0.01 is 1 divided by 100.
    unfoldable pub fraction_into : Fraction → F64
    fraction_into x =
        add (of_i64 (pos x.whole))
          (mul (of_i64 (pos x.frac)) (div (of_i64 (pos 1)) (of_i64 (pos 100))))

    unfoldable pub parse_timestamp : String → Parsed Kind DateTime
    parse_timestamp input = do
      (input, secs) ← text_i64 input
      (input, t) ← dot input
      (input, nsecs) ← text_u32 input
      dt ← ok_or (timestamp secs nsecs) (from_timestamp secs nsecs)
      ok (input, dt)

    -- `get_key!`: an id in the place of a percentage is a panic.
    unfoldable pub get_key :
        List (String × ResourceUtilization) → String → Outcome (MetricsParseError Kind) F64
    unfolding get_last fraction_into
    get_key m key = do
      value ← ok_or (key_error key) (get_last key m)
      elim value.util [ id i ↦ panic | percent ratio absolute ↦ ok (fraction_into ratio) ]

    unfoldable pub radeon_from_map :
        List (String × ResourceUtilization)
        → DateTime
        → Outcome (MetricsParseError Kind) (String × RadeonMetrics F64 DateTime)
    unfolding get_key
    radeon_from_map m ts = do
      gpu ← get_key m "gpu"
      ee ← get_key m "ee"
      vgt ← get_key m "vgt"
      ta ← get_key m "ta"
      sx ← get_key m "sx"
      sh ← get_key m "sh"
      spi ← get_key m "spi"
      sc ← get_key m "sc"
      pa ← get_key m "pa"
      db ← get_key m "db"
      cb ← get_key m "cb"
      vram ← get_key m "vram"
      gtt ← get_key m "gtt"
      ok (
        "",
        record {
          timestamp = ts;
          gpu = gpu;
          ee = ee;
          vgt = vgt;
          ta = ta;
          sx = sx;
          sh = sh;
          spi = spi;
          sc = sc;
          pa = pa;
          db = db;
          cb = cb;
          vram = vram;
          gtt = gtt;
        },
      )

    unfoldable pub metrics_line : String → Parsed Kind (RadeonMetrics F64 DateTime)
    unfolding parse_timestamp utilization_map radeon_from_map
    metrics_line input = do
      (input, ts) ← parse_timestamp input
      (input, colon) ← tag ": " input
      (input, m) ← utilization_map input
      (rest, metrics) ← radeon_from_map m ts
      ok (input, metrics)
