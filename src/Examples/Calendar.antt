-- ===== src/Examples/Calendar.antt =====
-- A calendar that counts seconds and nanoseconds.
use laqista.Base.{ℕ, ◌<◌, ◌*◌, ◌^◌, ◌%◌, ◌≡◌, ap, sym, Option, none, some, arith}
use laqista.Base.Int.{ℤ, pos_part, ◌+ℤ◌}
use laqista.Monitor.Data.{Chrono}

abbrev pub Moment : Type 0
Moment = ℤ × ℕ

abbrev pub fraction_of : Moment → ℕ
fraction_of (secs, nsecs) = nsecs % 10 ^ 9

abbrev pub second_of : Moment → ℕ
second_of (secs, nsecs) = pos_part secs % 60

abbrev pub later : ℤ → Moment → Option Moment
later k (secs, nsecs) = some (secs +ℤ k, nsecs)

pub fraction_of-lt : (t : Moment) → fraction_of t < 2 * 10 ^ 9
fraction_of-lt (secs, nsecs) = omega arith

pub fraction_of-later :
    (k : ℤ) (t : Moment) {u : Moment}
    → later k t ≡ some u
    → fraction_of t < 10 ^ 9
    → fraction_of u ≡ fraction_of t
fraction_of-later k (secs, nsecs) {u} h small =
    ap (λ (o : Option Moment). elim o [ none ↦ 0 | some v ↦ fraction_of v ]) (sym h)

instance abbrev pub moments : Chrono
moments = record {
  DateTime = Moment;
  from_timestamp = λ secs nsecs. some (secs, nsecs);
  second = second_of;
  nanosecond = fraction_of;
  add_seconds = later;
  sub_nanoseconds = λ k t. some t;
  nanosecond-lt = fraction_of-lt;
  nanosecond-add_seconds = fraction_of-later;
}
