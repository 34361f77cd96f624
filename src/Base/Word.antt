-- ===== src/Base/Word.antt =====
-- Unsigned numbers below a bound: the bytes of Rust's `u8`, and `u64`.
use Prim.Native.Nat.{ℕ, ◌%◌, ◌^◌, ◌<◌}
use mathlib.Core.Path.{◌≡◌, ap, subst}
use native.Mathlib.Omega.{arith}
use native.Mathlib.Bridge.{le_prop}

pub record Word (bound : ℕ) : Type 0 where
  pub value : ℕ
  pub small : value < bound

abbrev pub Byte : Type 0
Byte = Word 256

abbrev pub U64 : Type 0
U64 = Word (2 ^ 64)

-- `as u8` and `as u64`
abbrev pub as_u8 : ℕ → Byte
as_u8 n = record { value = n % 256; small = omega arith }

abbrev pub as_u64 : ℕ → U64
as_u64 n = record { value = n % 2 ^ 64; small = omega arith }

pub Word-value : {bound : ℕ} (w v : Word bound) → w.value ≡ v.value → w ≡ v
Word-value {bound} w v e =
    subst (λ n. (q : n < bound) → w ≡ record { value = n; small = q }) e
      (λ q. ap (λ s. record { value = w.value; small = s }) (le_prop w.small q)) v.small
