-- ===== src/Chars/Decimal.antt =====
-- Numbers as Rust prints them.
use Prim.Native.Char.{Char, code}
use Prim.Native.String.{String}
use laqista.Base.{
  ℕ, zero, suc, ◌<◌, ◌+◌, ◌-◌, ◌*◌, ◌/◌, ◌%◌, ◌≡◌, refl, Bool, true, false, ltb, if◌then◌else◌,
  arith,
}
use laqista.Chars.{◌⊕◌, is_digit, is_empty, all_chars, value_from, value}

unfoldable pub digit_char : ℕ → Char
digit_char zero = "0"
digit_char (suc zero) = "1"
digit_char (suc (suc zero)) = "2"
digit_char (suc (suc (suc zero))) = "3"
digit_char (suc (suc (suc (suc zero)))) = "4"
digit_char (suc (suc (suc (suc (suc zero))))) = "5"
digit_char (suc (suc (suc (suc (suc (suc zero)))))) = "6"
digit_char (suc (suc (suc (suc (suc (suc (suc zero))))))) = "7"
digit_char (suc (suc (suc (suc (suc (suc (suc (suc zero)))))))) = "8"
digit_char (suc (suc (suc (suc (suc (suc (suc (suc (suc n))))))))) = "9"

-- The decimal print, of a bounded number of digits.
unfoldable pub decimal : ℕ → ℕ → String
unfolding digit_char
decimal zero n = ""
decimal (suc k) n =
    let rest = decimal k (n / 10) in
    if ltb n 10 then String.◌∷◌ (digit_char n) "" else rest ⊕ String.◌∷◌ (digit_char (n % 10)) ""

-- 10 to the power of a number of digits.
abbrev pub limit : ℕ → ℕ
limit zero = 1
limit (suc k) = 10 * limit k

code-digit_char : (n : ℕ) → n < 10 → code (digit_char n) ≡ b'0' + n
unfolding digit_char
code-digit_char zero h = omega arith
code-digit_char (suc zero) h = omega arith
code-digit_char (suc (suc zero)) h = omega arith
code-digit_char (suc (suc (suc zero))) h = omega arith
code-digit_char (suc (suc (suc (suc zero)))) h = omega arith
code-digit_char (suc (suc (suc (suc (suc zero))))) h = omega arith
code-digit_char (suc (suc (suc (suc (suc (suc zero)))))) h = omega arith
code-digit_char (suc (suc (suc (suc (suc (suc (suc zero))))))) h = omega arith
code-digit_char (suc (suc (suc (suc (suc (suc (suc (suc zero)))))))) h = omega arith
code-digit_char (suc (suc (suc (suc (suc (suc (suc (suc (suc n))))))))) h = omega arith

value_from-last :
    (m : ℕ) (s : String) (c : Char)
    → value_from m (s ⊕ String.◌∷◌ c "") ≡ value_from m s * 10 + (code c - b'0')
unfolding value_from
value_from-last m String.[] c = refl
value_from-last m (String.◌∷◌ d s) c = value_from-last (m * 10 + (code d - b'0')) s c

all_chars-last :
    (p : ℕ → Bool) (s : String) (c : Char)
    → all_chars p s ≡ true
    → p (code c) ≡ true
    → all_chars p (s ⊕ String.◌∷◌ c "") ≡ true
unfolding all_chars
all_chars-last p String.[] c h k = ground arith
all_chars-last p (String.◌∷◌ d s) c h k = ground (arith, all_chars-last p s c)

pub value-decimal : (k n : ℕ) → n < limit k → value (decimal k n) ≡ n
unfolding decimal value_from
value-decimal zero n h = omega arith
value-decimal (suc k) n h = ground (
  arith,
  code-digit_char n,
  code-digit_char (n % 10),
  value-decimal k (n / 10),
  value_from-last 0 (decimal k (n / 10)) (digit_char (n % 10)),
)

pub decimal-all_chars : (k n : ℕ) → all_chars is_digit (decimal k n) ≡ true
unfolding decimal all_chars
decimal-all_chars zero n = refl
decimal-all_chars (suc k) n = ground (
  arith,
  code-digit_char n,
  code-digit_char (n % 10),
  decimal-all_chars k (n / 10),
  all_chars-last is_digit (decimal k (n / 10)) (digit_char (n % 10)),
)

last-not-empty : (s : String) (c : Char) → is_empty (s ⊕ String.◌∷◌ c "") ≡ false
last-not-empty String.[] c = refl
last-not-empty (String.◌∷◌ d s) c = refl

pub decimal-is_empty : (k n : ℕ) → is_empty (decimal (suc k) n) ≡ false
unfolding decimal
decimal-is_empty k n = ground (arith, last-not-empty (decimal k (n / 10)) (digit_char (n % 10)))
