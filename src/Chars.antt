-- ===== src/Chars.antt =====
-- Texts cut in two, and the numbers that digits spell: the words in which the behaviour of the
-- parser combinators is stated.
pub mod Decimal
use Prim.Native.Char.{code}
use laqista.Base.{
  ℕ, suc, ◌+◌, ◌-◌, ◌*◌, ◌≡◌, refl, ap, String, Bool, true, false, not, ◌&&◌, ◌||◌, leb, ◌==◌,
  if◌then◌else◌, Option, none, some, arith, ==_self,
}

-- A text and then another one.
infixr 60 ◌⊕◌
abbrev pub ◌⊕◌ : String → String → String
String.[] ⊕ t = t
String.◌∷◌ c s ⊕ t = String.◌∷◌ c (s ⊕ t)

abbrev pub is_digit : ℕ → Bool
is_digit c = leb b'0' c && leb c b'9'

abbrev pub is_alpha : ℕ → Bool
is_alpha c = leb b'a' c && leb c b'z' || leb b'A' c && leb c b'Z'

abbrev pub is_empty : String → Bool
is_empty String.[] = true
is_empty (String.◌∷◌ c s) = false

-- The longest front whose characters pass a test, and what stands behind it.
unfoldable pub taken : (ℕ → Bool) → String → String
taken p String.[] = ""
taken p (String.◌∷◌ c s) = let rest = taken p s in if p (code c) then String.◌∷◌ c rest else ""

unfoldable pub left : (ℕ → Bool) → String → String
left p String.[] = ""
left p (String.◌∷◌ c s) = let rest = left p s in if p (code c) then rest else String.◌∷◌ c s

-- What follows a given front.
unfoldable pub strip_prefix : String → String → Option String
strip_prefix String.[] s = some s
strip_prefix (String.◌∷◌ c t) String.[] = none
strip_prefix (String.◌∷◌ c t) (String.◌∷◌ d s) =
    let rest = strip_prefix t s in if code c == code d then rest else none

-- The number that decimal digits spell, behind the digits read so far.
unfoldable pub value_from : ℕ → String → ℕ
value_from n String.[] = n
value_from n (String.◌∷◌ c s) = value_from (n * 10 + (code c - b'0')) s

abbrev pub value : String → ℕ
value = value_from 0

unfoldable pub count : String → ℕ
count String.[] = 0
count (String.◌∷◌ c s) = suc (count s)

-- Every character passes the test.
unfoldable pub all_chars : (ℕ → Bool) → String → Bool
all_chars p String.[] = true
all_chars p (String.◌∷◌ c s) = let rest = all_chars p s in if p (code c) then rest else false

-- The text is empty, or its first character fails the test.
abbrev pub stops : (ℕ → Bool) → String → Bool
stops p String.[] = true
stops p (String.◌∷◌ c s) = not (p (code c))

pub ⊕-nil : (s : String) → s ⊕ "" ≡ s
⊕-nil String.[] = refl
⊕-nil (String.◌∷◌ c s) = ap (String.◌∷◌ c) (⊕-nil s)

pub ⊕_assoc : (s t u : String) → (s ⊕ t) ⊕ u ≡ s ⊕ t ⊕ u
⊕_assoc String.[] t u = refl
⊕_assoc (String.◌∷◌ c s) t u = ap (String.◌∷◌ c) (⊕_assoc s t u)

pub count-⊕ : (s t : String) → count (s ⊕ t) ≡ count s + count t
unfolding count
count-⊕ String.[] t = omega arith
count-⊕ (String.◌∷◌ c s) t = omega (arith, count-⊕ s t)

pub strip_prefix-append : (t s : String) → strip_prefix t (t ⊕ s) ≡ some s
unfolding strip_prefix
strip_prefix-append String.[] s = refl
strip_prefix-append (String.◌∷◌ c t) s = ground (arith, strip_prefix-append t s, ==_self (code c))

pub taken-append :
    (p : ℕ → Bool) (t s : String) → all_chars p t ≡ true → stops p s ≡ true → taken p (t ⊕ s) ≡ t
unfolding taken all_chars
taken-append p String.[] String.[] h k = refl
taken-append p String.[] (String.◌∷◌ c s) h k = ground arith
taken-append p (String.◌∷◌ c t) s h k = ground (arith, taken-append p t s)

pub left-append :
    (p : ℕ → Bool) (t s : String) → all_chars p t ≡ true → stops p s ≡ true → left p (t ⊕ s) ≡ s
unfolding left all_chars
left-append p String.[] String.[] h k = refl
left-append p String.[] (String.◌∷◌ c s) h k = ground arith
left-append p (String.◌∷◌ c t) s h k = ground (arith, left-append p t s)
