-- ===== src/Wasm/Pointers.antt =====
-- The pointers that the two sides exchange.
use laqista.Base.{ℕ, ◌+◌, ◌-◌, ◌^◌, ◌<◌, ◌≤◌, ◌≡◌, ap, ◌∙◌, ltb, inl, inr, Bool-cases, arith}
use laqista.Base.Int.{pos, ◌+ℤ◌, ◌-ℤ◌, as_i32}
use laqista.Wasm.{WasmPointer, last, next, consume, join, from_i64, slice_to_i64}

-- The daemon reads back the slice that the application hands over, below 2 GiB.
pub from_i64-slice_to_i64 :
    (ptr len : ℕ)
    → ptr < 2 ^ 31
    → len < 2 ^ 31
    → from_i64 (slice_to_i64 ptr len) ≡ record { start = pos ptr; len = pos len }
unfolding from_i64 slice_to_i64
from_i64-slice_to_i64 ptr len hp hl = ground arith

abbrev pub pointer : ℕ → ℕ → WasmPointer
pointer start len = record { start = pos start; len = pos len }

pub next-pointer : (s l : ℕ) → s + l < 2 ^ 31 → next (pointer s l) ≡ pos (s + l)
unfolding next last as_i32 ◌+ℤ◌ ◌-ℤ◌
next-pointer s l h = ground arith

-- What is written next stands right behind what has been consumed.
pub next-consume :
    (s l n : ℕ)
    → s + l + n < 2 ^ 31
    → next (consume (pointer s l) (pos n)) ≡ next (pointer s l) +ℤ pos n
unfolding consume as_i32 ◌+ℤ◌
next-consume s l n h = ground (arith, next-pointer s l, next-pointer s (l + n))

last-pointer : (s l : ℕ) → 0 < s + l → s + l < 2 ^ 31 → last (pointer s l) ≡ pos (s + l - 1)
unfolding last as_i32 ◌+ℤ◌ ◌-ℤ◌
last-pointer s l h₀ h = ground arith

join-pointer :
    (s l t n : ℕ)
    → 0 < s + l
    → s + l < t + n
    → t + n < 2 ^ 31
    → join (pointer s l) (pointer t n) ≡ pointer s (t + n - (s + l))
unfolding join as_i32 ◌-ℤ◌
join-pointer s l t n h₀ h₁ h₂ =
    rw (last-pointer s l h₀ (omega arith), last-pointer t n (omega arith) (omega arith))
      (ground arith)

-- After `join` with a pointer that ends further on, the next write does not start behind that one:
-- it starts as far behind the own start as the other ends behind the own end.
pub next-join :
    (s l t n : ℕ)
    → 0 < s + l
    → s + l < t + n
    → s + (t + n) < 2 ^ 31
    → next (join (pointer s l) (pointer t n)) ≡ pos (s + (t + n - (s + l)))
next-join s l t n h₀ h₁ h₂ =
    ap next (join-pointer s l t n h₀ h₁ (omega arith))
    ∙ next-pointer s (t + n - (s + l)) (omega arith)

join-pointer_inside :
    (s l t n : ℕ)
    → 0 < t + n
    → t + n ≤ s + l
    → s + l < 2 ^ 31
    → join (pointer s l) (pointer t n) ≡ pointer s l
unfolding join
join-pointer_inside s l t n h₀ h₁ h₂ =
    rw (last-pointer s l (omega arith) h₂, last-pointer t n h₀ (omega arith)) (ground arith)

-- `join` keeps the own start, and its length is the own one, or the distance of the two ends.
pub join-within :
    (s l t n : ℕ)
    → 0 < s + l
    → 0 < t + n
    → s + l < 2 ^ 31
    → t + n < 2 ^ 31
    → (k : ℕ) × (0 < s + k)
      × (k ≤ l + (t + n - (s + l)))
      × (join (pointer s l) (pointer t n) ≡ pointer s k)
join-within s l t n h₀ h₁ h₂ h₃ = elim (Bool-cases (ltb (s + l) (t + n))) [
  | inl less ↦
      (t + n - (s + l), ground arith, omega arith, join-pointer s l t n h₀ (ground arith) h₃)
  | inr not_less ↦ (l, h₀, omega arith, join-pointer_inside s l t n h₁ (ground arith) h₂)
]
