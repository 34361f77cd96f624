-- ===== src/Monitor/Parse/Numerals.antt =====
-- What the parsers of src/monitor/linux/parse.rs make of the numbers in a line.
use Prim.Native.Char.{code}
use Prim.Native.String.{String}
use laqista.Base.{
  ℕ, ◌<◌, ◌≤◌, ◌+◌, ◌*◌, ◌-◌, ◌^◌, ◌≡◌, refl, ◌∙◌, Bool, true, false, ok, panic, arith, lt→ltb,
  subst,
}
use laqista.Chars.{
  ◌⊕◌, ⊕-nil, is_digit, is_empty, value, value_from, count, all_chars, stops, strip_prefix-append,
  taken-append, left-append,
}
use laqista.Monitor.Nom.{Nom, one_or_more, number_below}
use laqista.Monitor.Data.{Fraction}
use laqista.Monitor.Parse.{fraction, fractional_part, hundredths}

-- A text of one or more digits.
abbrev pub IsDigits : String → Type 0
IsDigits s = (is_empty s ≡ false) × (all_chars is_digit s ≡ true)

-- The first two digits behind the dot, where a missing one is zero.
abbrev pub cents : String → ℕ
cents String.[] = 0
cents (String.◌∷◌ c String.[]) = (code c - b'0') * 10
cents (String.◌∷◌ c (String.◌∷◌ d s)) = (code c - b'0') * 10 + (code d - b'0')

-- A number with a fraction: the text before the dot, and the one behind it.
pub record Numeral : Type 0 where
  pub before : String
  pub behind : String

abbrev pub put_numeral : Numeral → String → String
put_numeral n rest = n.before ⊕ "." ⊕ n.behind ⊕ rest

abbrev pub fraction_of : Numeral → Fraction
fraction_of n = record { whole = value n.before; frac = cents n.behind }

pub record IsNumeral (n : Numeral) : Type 0 where
  pub before : IsDigits n.before
  pub fits : value n.before < 2 ^ 64
  pub behind : IsDigits n.behind
  pub short : count n.behind ≤ 3

-- Three digits are cut to two, and one is filled up.
hundredths-cents :
    {K : Type 0} (s : String)
    → IsDigits s
    → count s ≤ 3
    → (value s < 2 ^ 64) × (hundredths {K = K} (count s) (value s) ≡ ok (cents s))
unfolding count value_from all_chars
hundredths-cents String.[] (e, h) k = cc
hundredths-cents (String.◌∷◌ c String.[]) (e, h) k = (ground arith, ground arith)
hundredths-cents (String.◌∷◌ c (String.◌∷◌ d String.[])) (e, h) k = (ground arith, ground arith)
hundredths-cents (String.◌∷◌ c (String.◌∷◌ d (String.◌∷◌ b String.[]))) (e, h) k =
    (ground arith, ground arith)
hundredths-cents (String.◌∷◌ c (String.◌∷◌ d (String.◌∷◌ b (String.◌∷◌ a s)))) (e, h) k =
    absurd (omega arith)

module _ ⦃n : Nom⦄ where
  open n use {Kind, tag, digit1, text_u64, tag-eq, digit1-eq, text_u64-eq, digit_kind}

  pub tag-append : (t rest : String) → tag t (t ⊕ rest) ≡ ok (rest, t)
  tag-append t rest = rw (tag-eq t (t ⊕ rest)) (rw (strip_prefix-append t rest) refl)

  pub one_or_more-append :
      (k : Kind) (p : ℕ → Bool) (d rest : String)
      → is_empty d ≡ false
      → all_chars p d ≡ true
      → stops p rest ≡ true
      → one_or_more k p (d ⊕ rest) ≡ ok (rest, d)
  one_or_more-append k p d rest e h s =
      rw (taken-append p d rest h s) (rw (left-append p d rest h s) (rw e refl))

  pub number_below-append :
      (k : Kind) (bound : ℕ) (d rest : String)
      → IsDigits d
      → value d < bound
      → stops is_digit rest ≡ true
      → number_below k bound (d ⊕ rest) ≡ ok (rest, value d)
  number_below-append k bound d rest (e, h) fits s =
      rw (taken-append is_digit d rest h s)
        (rw (left-append is_digit d rest h s) (rw e (rw (lt→ltb (value d) bound fits) refl)))

  pub text_u64-append :
      (d rest : String)
      → IsDigits d
      → value d < 2 ^ 64
      → stops is_digit rest ≡ true
      → text_u64 (d ⊕ rest) ≡ ok (rest, value d)
  text_u64-append d rest h fits s =
      text_u64-eq (d ⊕ rest) ∙ number_below-append digit_kind (2 ^ 64) d rest h fits s

  -- With nothing behind it.
  text_u64-whole : (d : String) → IsDigits d → value d < 2 ^ 64 → text_u64 d ≡ ok ("", value d)
  text_u64-whole d h fits =
      subst (λ t. text_u64 t ≡ ok ("", value d)) (⊕-nil d) (text_u64-append d "" h fits refl)

  pub digit1-append :
      (d rest : String) → IsDigits d → stops is_digit rest ≡ true → digit1 (d ⊕ rest) ≡ ok (rest, d)
  digit1-append d rest (e, h) s =
      digit1-eq (d ⊕ rest) ∙ one_or_more-append digit_kind is_digit d rest e h s

  -- A number that is printed with at most three digits behind the dot is read as its whole part and
  -- its hundredths, the third digit cut off.
  pub fraction-put_numeral :
      (x : Numeral) (rest : String)
      → IsNumeral x
      → stops is_digit rest ≡ true
      → fraction (put_numeral x rest) ≡ ok (rest, fraction_of x)
  unfolding fraction fractional_part
  fraction-put_numeral x rest h s =
      let (fits, cut) = hundredths-cents {K = Kind} x.behind h.behind h.short in
      rw (text_u64-append x.before ("." ⊕ x.behind ⊕ rest) h.before h.fits refl) (
        rw (tag-append "." (x.behind ⊕ rest)) (
          rw (digit1-append x.behind rest h.behind s)
            (rw (text_u64-whole x.behind h.behind fits) (rw cut refl))))

  -- With more digits behind the dot the program panics, as long as they spell a 64-bit number.
  pub fraction-long :
      (x : Numeral) (rest : String)
      → IsDigits x.before
      → value x.before < 2 ^ 64
      → IsDigits x.behind
      → value x.behind < 2 ^ 64
      → 3 < count x.behind
      → stops is_digit rest ≡ true
      → fraction (put_numeral x rest) ≡ panic
  unfolding fraction fractional_part
  fraction-long x rest h fits k short long s =
      rw (text_u64-append x.before ("." ⊕ x.behind ⊕ rest) h fits refl) (
        rw (tag-append "." (x.behind ⊕ rest)) (
          rw (digit1-append x.behind rest k s)
            (rw (text_u64-whole x.behind k short) (ground arith))))
