-- ===== src/Examples/Parsers.antt =====
-- Parser combinators in which the theorems on the lines of `radeontop` are applied.
use Prim.Native.String.{String}
use laqista.Base.{
  ℕ, zero, suc, ◌<◌, ◌≤◌, ◌^◌, ◌≡◌, refl, not, List, [], ◌∷◌, Option, none, some, ok, err, panic,
  blocked, ◌>>=◌, map_ok, arith, >>=-ok,
}
use laqista.Base.Int.{ℤ, pos}
use laqista.Chars.{is_digit, is_alpha, taken, left, strip_prefix, count}
use laqista.Monitor.Nom.{Nom, Parsed, MetricsParseError, from_error_kind, one_or_more, number_below}

abbrev pub Read : Type 0 → Type 0
Read A = String → Parsed String A

abbrev pub tag : String → Read String
tag t s = elim (strip_prefix t s) [
  | none ↦ err (from_error_kind s "Tag")
  | some rest ↦ ok (rest, t)
]

abbrev pub integer : String × ℕ → Parsed String ℤ
integer (rest, n) = ok (rest, pos n)

abbrev pub text_i64 : Read ℤ
text_i64 s = number_below "Digit" (2 ^ 63) s >>= λ r. integer r

abbrev pub either : {A : Type 0} → Parsed String A → Parsed String A → Parsed String A
either (err e) second = second
either first second = first

unfoldable pub alt : {A : Type 0} → List (Read A) → Read A
alt [] s = err (from_error_kind s "Alt")
alt (p ∷ []) s = p s
alt (p ∷ q ∷ ps) s = let rest = alt (q ∷ ps) s in either (p s) rest

abbrev pub cons : {A : Type 0} → A → String × List A → String × List A
cons a (rest, more) = (rest, a ∷ more)

-- A list ends where no separator or no item follows. `found` is the next item.
abbrev pub go_next :
    {A : Type 0}
    → (String → Parsed String (List A))
    → A
    → String
    → String
    → Parsed String A
    → Parsed String (List A)
go_next more a rest next (err e) = ok (rest, a ∷ [])
go_next more a rest next panic = panic
go_next more a rest next blocked = blocked
go_next more a rest next (ok found) = map_ok (cons a) (more next)

abbrev pub go_on :
    {A : Type 0}
    → (String → Parsed String (List A))
    → Read A
    → A
    → String
    → Option String
    → Parsed String (List A)
go_on more p a rest none = ok (rest, a ∷ [])
go_on more p a rest (some next) = go_next more a rest next (p next)

abbrev pub from_first :
    {A : Type 0}
    → (String → Parsed String (List A))
    → String
    → Read A
    → Parsed String A
    → Parsed String (List A)
from_first more sep p (ok (rest, a)) = go_on more p a rest (strip_prefix sep rest)
from_first more sep p (err e) = err e
from_first more sep p panic = panic
from_first more sep p blocked = blocked

unfoldable pub list_within : {A : Type 0} → ℕ → String → Read A → String → Parsed String (List A)
unfolding strip_prefix
list_within zero sep p s = panic
list_within (suc n) sep p s = from_first (list_within n sep p) sep p (p s)

unfoldable pub separated_list1 : {A : Type 0} → String → Read A → String → Parsed String (List A)
unfolding list_within count
separated_list1 sep p s = list_within (suc (count s)) sep p s

module _ {A : Type 0} (more further : String → Parsed String (List A))
    (extends : (s : String) (r : String × List A) → more s ≡ ok r → further s ≡ ok r) where
  go_next_mono :
      (a : A) (rest next : String) (found : Parsed String A) {r : String × List A}
      → go_next more a rest next found ≡ ok r
      → go_next further a rest next found ≡ ok r
  go_next_mono a rest next (err e) h = h
  go_next_mono a rest next panic h = h
  go_next_mono a rest next blocked h = h
  go_next_mono a rest next (ok found) {r} h =
      let (q, e, k) = >>=-ok (more next) (λ q. ok (cons a q)) h in rw (extends next q e) k

  go_on_mono :
      (p : Read A) (a : A) (rest : String) (o : Option String) {r : String × List A}
      → go_on more p a rest o ≡ ok r
      → go_on further p a rest o ≡ ok r
  go_on_mono p a rest none h = h
  go_on_mono p a rest (some next) h = go_next_mono a rest next (p next) h

  from_first_mono :
      (sep : String) (p : Read A) (first : Parsed String A) {r : String × List A}
      → from_first more sep p first ≡ ok r
      → from_first further sep p first ≡ ok r
  from_first_mono sep p (ok (rest, a)) h = go_on_mono p a rest (strip_prefix sep rest) h
  from_first_mono sep p (err e) h = h
  from_first_mono sep p panic h = h
  from_first_mono sep p blocked h = h

list_within_mono :
    {A : Type 0} (n m : ℕ) (sep : String) (p : Read A) (s : String) {r : String × List A}
    → list_within n sep p s ≡ ok r
    → n ≤ m
    → list_within m sep p s ≡ ok r
unfolding list_within
list_within_mono zero m sep p s h k = cc
list_within_mono (suc n) zero sep p s h k = absurd (omega arith)
list_within_mono (suc n) (suc m) sep p s h k =
    from_first_mono (list_within n sep p) (list_within m sep p)
      (λ t r e. list_within_mono n m sep p t e (omega arith)) sep p (p s) h

first-ok :
    {A : Type 0} (more : String → Parsed String (List A)) (sep : String) (p : Read A)
    (first : Parsed String A) {r : String × List A}
    → from_first more sep p first ≡ ok r
    → (x : String × A) × (first ≡ ok x)
first-ok more sep p (ok x) h = (x, refl)
first-ok more sep p (err e) h = cc
first-ok more sep p panic h = cc
first-ok more sep p blocked h = cc

pub alt-first :
    {A : Type 0} (p : Read A) (ps : List (Read A)) (s : String) {r : String × A}
    → p s ≡ ok r
    → alt (p ∷ ps) s ≡ ok r
unfolding alt
alt-first p [] s h = h
alt-first p (q ∷ ps) s h = rw h refl

pub alt-panic :
    {A : Type 0} (p : Read A) (ps : List (Read A)) (s : String)
    → p s ≡ panic
    → alt (p ∷ ps) s ≡ panic
unfolding alt
alt-panic p [] s h = h
alt-panic p (q ∷ ps) s h = rw h refl

pub alt-next :
    {A : Type 0} (p q : Read A) (ps : List (Read A)) (s : String) {e : MetricsParseError String}
    → p s ≡ err e
    → alt (p ∷ q ∷ ps) s ≡ alt (q ∷ ps) s
unfolding alt
alt-next p q ps s h = rw h refl

pub alt-last : {A : Type 0} (p : Read A) (s : String) → alt (p ∷ []) s ≡ p s
unfolding alt
alt-last p s = refl

pub list-single :
    {A : Type 0} (sep : String) (p : Read A) (s rest : String) (a : A)
    → p s ≡ ok (rest, a)
    → strip_prefix sep rest ≡ none
    → separated_list1 sep p s ≡ ok (rest, a ∷ [])
unfolding separated_list1 list_within
list-single sep p s rest a h k = rw h (rw k refl)

pub list-stop :
    {A : Type 0} (sep : String) (p : Read A) (s rest next : String) (a : A)
    {e : MetricsParseError String}
    → p s ≡ ok (rest, a)
    → strip_prefix sep rest ≡ some next
    → p next ≡ err e
    → separated_list1 sep p s ≡ ok (rest, a ∷ [])
unfolding separated_list1 list_within
list-stop sep p s rest next a h k e = rw h (rw k (rw e refl))

pub list-more :
    {A : Type 0} (sep : String) (p : Read A) (s rest next last : String) (a : A) (more : List A)
    → p s ≡ ok (rest, a)
    → strip_prefix sep rest ≡ some next
    → count next < count s
    → separated_list1 sep p next ≡ ok (last, more)
    → separated_list1 sep p s ≡ ok (last, a ∷ more)
unfolding separated_list1 list_within
list-more sep p s rest next last a more h k shorter e =
    let longer = list_within_mono (suc (count next)) (count s) sep p next e (omega arith) in
    let (x, found) = first-ok (list_within (count next) sep p) sep p (p next) e in
    rw h (rw k (rw found (rw longer refl)))

pub text_i64-eq :
    (s rest : String) (n : ℕ)
    → number_below {Kind = String} "Digit" (2 ^ 63) s ≡ ok (rest, n)
    → text_i64 s ≡ ok (rest, pos n)
text_i64-eq s rest n h = rw h refl

instance abbrev pub parsers : Nom
parsers = record {
  Kind = String;
  tag_kind = "Tag";
  digit_kind = "Digit";
  alpha_kind = "Alpha";
  while_kind = "TakeWhile1";
  tag = tag;
  alpha1 = one_or_more "Alpha" is_alpha;
  digit1 = one_or_more "Digit" is_digit;
  take_while1 = one_or_more "TakeWhile1";
  take_till = λ p s. ok (left (λ c. not (p c)) s, taken (λ c. not (p c)) s);
  text_i64 = text_i64;
  text_u32 = number_below "Digit" (2 ^ 32);
  text_u64 = number_below "Digit" (2 ^ 64);
  alt = alt;
  separated_list1 = separated_list1;
  tag-eq = λ t s. refl;
  alpha1-eq = λ s. refl;
  digit1-eq = λ s. refl;
  take_while1-eq = λ p s. refl;
  take_till-eq = λ p s. refl;
  text_u64-eq = λ s. refl;
  text_u32-eq = λ s. refl;
  text_i64-eq = text_i64-eq;
  alt-first = alt-first;
  alt-panic = alt-panic;
  alt-next = alt-next;
  alt-last = alt-last;
  list-single = list-single;
  list-stop = list-stop;
  list-more = list-more;
}
