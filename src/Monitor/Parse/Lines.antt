-- ===== src/Monitor/Parse/Lines.antt =====
-- What the parsers of src/monitor/linux/parse.rs make of a line of `radeontop`.
use Prim.Native.String.{String}
use laqista.Base.{
  ◌⊎◌, inl, inr, ◌<◌, ◌^◌, ◌≡◌, refl, true, List, [], ◌∷◌, map, none, some, All, ok, err, arith,
}
use laqista.Base.Int.{pos}
use laqista.Scheduler.Mean.{Floats}
use laqista.Chars.{◌⊕◌, is_digit, strip_prefix, strip_prefix-append, value, stops, count}
use laqista.Monitor.Nom.{Nom, MetricsParseError}
use laqista.Monitor.Data.{Chrono, ResourceUtilization, RadeonMetrics}
use laqista.Monitor.Parse.{
  resource_utilzation, utilization_map, parse_timestamp, radeon_from_map, metrics_line, get_key,
  get_last, fraction_into,
}
use laqista.Monitor.Parse.Numerals.{Numeral, IsDigits, number_below-append, tag-append, fraction_of}
use laqista.Monitor.Parse.Printed.{
  Amount, only, in_mb, hex_id, Item, IsItem, put_item, item_of, is_inner, count-put_item,
}
use laqista.Monitor.Parse.Items.{resource_utilzation-put_item}

-- Items with commas between them, and then a rest.
abbrev pub put_items : Item → List Item → String → String
put_items i [] rest = put_item i rest
put_items i (j ∷ more) rest = put_item i (", " ⊕ put_items j more rest)

-- The two clock rates at the end of a line: they are no items where a rate is printed as `inf%`.
pub data Clocks : Type 0 where
  unread : Clocks
  rates : Amount → Amount → Clocks

abbrev pub clock_items : Clocks → List Item
clock_items unread = []
clock_items (rates memory shader) =
    record { name = "mclk"; amount = memory } ∷ record { name = "sclk"; amount = shader } ∷ []

-- What `radeontop` prints in a line, up to `gtt`.
pub record Reading : Type 0 where
  pub secs : String
  pub behind : String
  pub bus : String
  pub gpu : Numeral
  pub ee : Numeral
  pub vgt : Numeral
  pub ta : Numeral
  pub sx : Numeral
  pub sh : Numeral
  pub spi : Numeral
  pub sc : Numeral
  pub pa : Numeral
  pub db : Numeral
  pub cb : Numeral
  pub vram : Numeral
  pub vram_mb : Numeral
  pub gtt : Numeral
  pub gtt_mb : Numeral

abbrev pub bus : Reading → Item
bus r = record { name = "bus"; amount = hex_id r.bus }

abbrev pub percentage : String → Numeral → Item
percentage name x = record { name = name; amount = only x }

abbrev pub loads : Reading → Clocks → List Item
loads r clocks =
    percentage "gpu" r.gpu
    ∷ percentage "ee" r.ee
    ∷ percentage "vgt" r.vgt
    ∷ percentage "ta" r.ta
    ∷ percentage "sx" r.sx
    ∷ percentage "sh" r.sh
    ∷ percentage "spi" r.spi
    ∷ percentage "sc" r.sc
    ∷ percentage "pa" r.pa
    ∷ percentage "db" r.db
    ∷ percentage "cb" r.cb
    ∷ record { name = "vram"; amount = in_mb r.vram r.vram_mb }
    ∷ record { name = "gtt"; amount = in_mb r.gtt r.gtt_mb }
    ∷ clock_items clocks

pub record IsReading (r : Reading) (clocks : Clocks) : Type 0 where
  pub secs : IsDigits r.secs
  pub fits : value r.secs < 2 ^ 63
  pub behind : IsDigits r.behind
  pub short : value r.behind < 2 ^ 32
  pub items : All IsItem (bus r ∷ loads r clocks)

abbrev pub put_reading : Reading → Clocks → String → String
put_reading r clocks rest = r.secs ⊕ "." ⊕ r.behind ⊕ ": " ⊕ put_items (bus r) (loads r clocks) rest

abbrev named : ResourceUtilization → String × ResourceUtilization
named u = (u.name, u)

shorter : (i : Item) (next : String) → count next < count (put_item i (", " ⊕ next))
unfolding count
shorter i next = omega (arith, count-put_item i (", " ⊕ next))

module _ ⦃n : Nom⦄ where
  open n use {
    Kind, separated_list1, list-single, list-stop, list-more, text_i64, text_u32, text_i64-eq,
    text_u32-eq, digit_kind,
  }

  -- The list of items ends here: no comma follows, or no item behind the comma.
  abbrev pub IsEnd : String → Type 0
  IsEnd rest =
      (strip_prefix ", " rest ≡ none)
      ⊎ ((next : String) × (strip_prefix ", " rest ≡ some next)
          × (e : MetricsParseError Kind) × (resource_utilzation next ≡ err e))

  list-put_items :
      (i : Item) (more : List Item) (rest : String)
      → All IsItem (i ∷ more)
      → stops is_inner rest ≡ true
      → IsEnd rest
      → separated_list1 ", " resource_utilzation (put_items i more rest)
        ≡ ok (rest, map item_of (i ∷ more))
  list-put_items i [] rest (h, t) s (inl e) =
      list-single ", " resource_utilzation _ rest _ (resource_utilzation-put_item i rest h s) e
  list-put_items i [] rest (h, t) s (inr (next, k, e, stop)) =
      list-stop ", " resource_utilzation _ rest next _ (resource_utilzation-put_item i rest h s) k
        stop
  list-put_items i (j ∷ more) rest (h, t) s end =
      list-more ", " resource_utilzation _ (", " ⊕ put_items j more rest) (put_items j more rest)
        rest _ _ (resource_utilzation-put_item i (", " ⊕ put_items j more rest) h refl)
        (strip_prefix-append ", " (put_items j more rest)) (shorter i (put_items j more rest))
        (list-put_items j more rest t s end)

  module _ ⦃f : Floats⦄ ⦃c : Chrono⦄ where
    open f use {F64}
    open c use {DateTime, from_timestamp}

    abbrev pub reading_metrics : Reading → DateTime → RadeonMetrics F64 DateTime
    reading_metrics r t =
        let at = λ (x : Numeral). fraction_into (fraction_of x) in
        record {
          timestamp = t;
          gpu = at r.gpu;
          ee = at r.ee;
          vgt = at r.vgt;
          ta = at r.ta;
          sx = at r.sx;
          sh = at r.sh;
          spi = at r.spi;
          sc = at r.sc;
          pa = at r.pa;
          db = at r.db;
          cb = at r.cb;
          vram = at r.vram;
          gtt = at r.gtt;
        }

    timestamp-append :
        (secs nsecs rest : String) (t : DateTime)
        → IsDigits secs
        → value secs < 2 ^ 63
        → IsDigits nsecs
        → value nsecs < 2 ^ 32
        → stops is_digit rest ≡ true
        → from_timestamp (pos (value secs)) (value nsecs) ≡ some t
        → parse_timestamp (secs ⊕ "." ⊕ nsecs ⊕ rest) ≡ ok (rest, t)
    unfolding parse_timestamp
    timestamp-append secs nsecs rest t h fits k short s e =
        rw
          (text_i64-eq _ _ _
            (number_below-append digit_kind (2 ^ 63) secs ("." ⊕ nsecs ⊕ rest) h fits refl))
          (rw (tag-append "." (nsecs ⊕ rest)) (
            rw (text_u32-eq (nsecs ⊕ rest))
              (rw (number_below-append digit_kind (2 ^ 32) nsecs rest k short s) (rw e refl))))

    reading_from_map :
        (r : Reading) (clocks : Clocks) (t : DateTime)
        → radeon_from_map (map named (map item_of (bus r ∷ loads r clocks))) t
          ≡ ok ("", reading_metrics r t)
    unfolding radeon_from_map get_key get_last
    reading_from_map r unread t = refl
    reading_from_map r (rates memory shader) t = refl

    -- A line of `radeontop` is read field by field: its time, where the digits behind the dot count
    -- as nanoseconds, and the thirteen percentages from `gpu` to `gtt`, the clock rates behind them
    -- being items or not. What stands at the end may be anything that is no further item.
    pub metrics_line-put_reading :
        (r : Reading) (clocks : Clocks) (rest : String) (t : DateTime)
        → IsReading r clocks
        → stops is_inner rest ≡ true
        → IsEnd rest
        → from_timestamp (pos (value r.secs)) (value r.behind) ≡ some t
        → metrics_line (put_reading r clocks rest) ≡ ok (rest, reading_metrics r t)
    unfolding metrics_line utilization_map
    metrics_line-put_reading r clocks rest t h s end e =
        rw
          (timestamp-append r.secs r.behind (": " ⊕ put_items (bus r) (loads r clocks) rest) t
            h.secs h.fits h.behind h.short refl e)
          (rw (tag-append ": " (put_items (bus r) (loads r clocks) rest)) (
            rw (list-put_items (bus r) (loads r clocks) rest h.items s end)
              (rw (reading_from_map r clocks t) refl)))
