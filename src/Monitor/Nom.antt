-- ===== src/Monitor/Nom.antt =====
-- The parser combinators of the crate `nom` that monitor/linux/parse.rs calls, as a parameter: the
-- functions, and the documented behaviour that the parsers rely on. The errors are those of
-- parse.rs.
use laqista.Base.{
  ℕ, ◌<◌, ◌^◌, ◌≡◌, String, Bool, not, ltb, if◌then◌else◌, List, [], ◌∷◌, none, some, Outcome, ok,
  err, panic,
}
use laqista.Base.Int.{ℤ, pos}
use laqista.Chars.{is_digit, is_alpha, is_empty, taken, left, strip_prefix, value, count}

-- `MetricsParseError`. `Kind` stands for nom's `ErrorKind`. The payload of `int` is left out, and
-- so is the print of the map in the text of `key_error`.
pub data MetricsParseError (Kind : Type 0) : Type 0 where
  timestamp : ℤ → ℕ → MetricsParseError Kind
  int : MetricsParseError Kind
  key_error : String → MetricsParseError Kind
  not_header_line : MetricsParseError Kind
  nom : String → Kind → MetricsParseError Kind

-- `ParseError::from_error_kind`.
abbrev pub from_error_kind : {Kind : Type 0} → String → Kind → MetricsParseError Kind
from_error_kind input kind = nom input kind

-- `IResult`: what is left of the input comes first.
abbrev pub Parsed : Type 0 → Type 0 → Type 0
Parsed Kind A = Outcome (MetricsParseError Kind) (String × A)

-- One or more characters that pass a test.
abbrev pub one_or_more : {Kind : Type 0} → Kind → (ℕ → Bool) → String → Parsed Kind String
one_or_more kind p s =
    if is_empty (taken p s) then err (from_error_kind s kind) else ok (left p s, taken p s)

-- Decimal digits that spell a number below a bound.
abbrev pub number_below : {Kind : Type 0} → Kind → ℕ → String → Parsed Kind ℕ
number_below kind bound s =
    if is_empty (taken is_digit s)
    then err (from_error_kind s kind)
    else if ltb (value (taken is_digit s)) bound
    then ok (left is_digit s, value (taken is_digit s))
    else err (from_error_kind s kind)

pub record Nom : Type 1 where
  pub Kind : Type 0
  pub tag_kind : Kind
  pub digit_kind : Kind
  pub alpha_kind : Kind
  pub while_kind : Kind
  pub tag : String → String → Parsed Kind String
  pub alpha1 : String → Parsed Kind String
  pub digit1 : String → Parsed Kind String
  pub take_while1 : (ℕ → Bool) → String → Parsed Kind String
  pub take_till : (ℕ → Bool) → String → Parsed Kind String
  pub text_i64 : String → Parsed Kind ℤ
  pub text_u32 : String → Parsed Kind ℕ
  pub text_u64 : String → Parsed Kind ℕ
  pub alt : {A : Type 0} → List (String → Parsed Kind A) → String → Parsed Kind A
  pub separated_list1 :
      {A : Type 0} → String → (String → Parsed Kind A) → String → Parsed Kind (List A)
  pub tag-eq :
      (t s : String)
      → tag t s ≡ elim (strip_prefix t s) [
        | none ↦ err (from_error_kind s tag_kind)
        | some rest ↦ ok (rest, t)
      ]
  pub alpha1-eq : (s : String) → alpha1 s ≡ one_or_more alpha_kind is_alpha s
  pub digit1-eq : (s : String) → digit1 s ≡ one_or_more digit_kind is_digit s
  pub take_while1-eq : (p : ℕ → Bool) (s : String) → take_while1 p s ≡ one_or_more while_kind p s
  pub take_till-eq :
      (p : ℕ → Bool) (s : String)
      → take_till p s ≡ ok (left (λ c. not (p c)) s, taken (λ c. not (p c)) s)
  pub text_u64-eq : (s : String) → text_u64 s ≡ number_below digit_kind (2 ^ 64) s
  pub text_u32-eq : (s : String) → text_u32 s ≡ number_below digit_kind (2 ^ 32) s
  -- With no sign in front.
  pub text_i64-eq :
      (s rest : String) (n : ℕ)
      → number_below digit_kind (2 ^ 63) s ≡ ok (rest, n)
      → text_i64 s ≡ ok (rest, pos n)
  -- The first parser that gives no error decides.
  pub alt-first :
      {A : Type 0} (p : String → Parsed Kind A) (ps : List (String → Parsed Kind A)) (s : String)
      {r : String × A}
      → p s ≡ ok r
      → alt (p ∷ ps) s ≡ ok r
  pub alt-panic :
      {A : Type 0} (p : String → Parsed Kind A) (ps : List (String → Parsed Kind A)) (s : String)
      → p s ≡ panic
      → alt (p ∷ ps) s ≡ panic
  pub alt-next :
      {A : Type 0} (p q : String → Parsed Kind A) (ps : List (String → Parsed Kind A)) (s : String)
      {e : MetricsParseError Kind}
      → p s ≡ err e
      → alt (p ∷ q ∷ ps) s ≡ alt (q ∷ ps) s
  pub alt-last : {A : Type 0} (p : String → Parsed Kind A) (s : String) → alt (p ∷ []) s ≡ p s
  -- A list goes on while a separator and an item follow, which make the input shorter.
  pub list-single :
      {A : Type 0} (sep : String) (p : String → Parsed Kind A) (s rest : String) (a : A)
      → p s ≡ ok (rest, a)
      → strip_prefix sep rest ≡ none
      → separated_list1 sep p s ≡ ok (rest, a ∷ [])
  pub list-stop :
      {A : Type 0} (sep : String) (p : String → Parsed Kind A) (s rest next : String) (a : A)
      {e : MetricsParseError Kind}
      → p s ≡ ok (rest, a)
      → strip_prefix sep rest ≡ some next
      → p next ≡ err e
      → separated_list1 sep p s ≡ ok (rest, a ∷ [])
  pub list-more :
      {A : Type 0} (sep : String) (p : String → Parsed Kind A) (s rest next last : String) (a : A)
      (more : List A)
      → p s ≡ ok (rest, a)
      → strip_prefix sep rest ≡ some next
      → count next < count s
      → separated_list1 sep p next ≡ ok (last, more)
      → separated_list1 sep p s ≡ ok (last, a ∷ more)
