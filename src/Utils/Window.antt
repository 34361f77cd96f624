-- ===== src/Utils/Window.antt =====
-- What `subtract_window` computes.
use laqista.Base.{◌≡◌, ap, ◌∙◌}
use laqista.Base.Int.{ℤ, ◌+ℤ◌, ◌-ℤ◌, int_laws, as_i64, IsI32, IsI64, as_i64-eq}
use laqista.Types.{Timestamp}
use laqista.Utils.{shl32, subtract_window}

sub-IsI64 : (a b : ℤ) → IsI32 a → IsI32 b → IsI64 (a -ℤ b)
sub-IsI64 a b ha hb = omega int_laws

cancel_common : (a b c : ℤ) → a +ℤ c -ℤ (b +ℤ c) ≡ a -ℤ b
cancel_common a b c = omega int_laws

-- With nanoseconds of 32 bits, the length of a window is the difference of the two fractions of a
-- second: the whole seconds, of the start and of the end alike, do not count.
pub subtract_window-eq :
    (end start : Timestamp)
    → IsI32 end.nanos
    → IsI32 start.nanos
    → subtract_window end start ≡ end.nanos -ℤ start.nanos
unfolding subtract_window
subtract_window-eq end start he hs =
    ap as_i64 (cancel_common end.nanos start.nanos (shl32 end.seconds))
    ∙ as_i64-eq _ (sub-IsI64 end.nanos start.nanos he hs)
