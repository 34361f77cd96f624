-- ===== src/Examples/Wire.antt =====
-- A wire format for the messages between a daemon and an application, as a concrete `Codec`.
use Prim.Native.Nat.{Ordering, compare}
use Prim.Native.Char.{Char, char, code, IsLt}
use Prim.Native.String.{String}
use laqista.Base.{
  ℕ, zero, suc, ◌+◌, ◌*◌, ◌/◌, ◌%◌, ◌<◌, ◌≡◌, refl, ap, ◌∙◌, ltb, ◌==◌, if◌then◌else◌, Bool-cases,
  inl, inr, List, [], ◌∷◌, Option, none, some, ok, arith,
}
use laqista.Base.Word.{Byte, U64, as_u8, as_u64, Word-value}
use laqista.Wasm.Runner.{Codec, MemorySlice, HostCall, InvokeResult}

abbrev pub BothLess : Ordering → Ordering → Type 0
BothLess Ordering.lt o = IsLt o
BothLess Ordering.eq o = ⊥
BothLess Ordering.gt o = ⊥

-- What makes a number the one of a character, from the comparisons with its bounds.
abbrev pub Scalar : Ordering → Ordering → Ordering → Type 0
Scalar Ordering.lt o p = Unit
Scalar Ordering.eq o p = BothLess o p
Scalar Ordering.gt o p = BothLess o p

abbrev pub both_less : (o p : Ordering) → Option (BothLess o p)
both_less Ordering.lt Ordering.lt = some tt
both_less Ordering.lt Ordering.eq = none
both_less Ordering.lt Ordering.gt = none
both_less Ordering.eq p = none
both_less Ordering.gt p = none

abbrev pub scalar : (o p q : Ordering) → Option (Scalar o p q)
scalar Ordering.lt p q = some tt
scalar Ordering.eq p q = both_less p q
scalar Ordering.gt p q = both_less p q

both_less-some : (o p : Ordering) (s : BothLess o p) → both_less o p ≡ some s
both_less-some Ordering.lt Ordering.lt s = refl
both_less-some Ordering.lt Ordering.eq s = absurd s
both_less-some Ordering.lt Ordering.gt s = absurd s
both_less-some Ordering.eq p s = absurd s
both_less-some Ordering.gt p s = absurd s

scalar-some : (o p q : Ordering) (s : Scalar o p q) → scalar o p q ≡ some s
scalar-some Ordering.lt p q s = refl
scalar-some Ordering.eq p q s = both_less-some p q s
scalar-some Ordering.gt p q s = both_less-some p q s

abbrev pub character : ℕ → Char
character n = elim (scalar (compare n 55296) (compare 57343 n) (compare n 1114112)) [
  | none ↦ char 0 tt
  | some s ↦ char n s
]

character-code : (c : Char) → character (code c) ≡ c
character-code (char n s) =
    rw (character, scalar-some (compare n 55296) (compare 57343 n) (compare n 1114112) s) refl

scalar-bounded :
    (n : ℕ) → Scalar (compare n 55296) (compare 57343 n) (compare n 1114112) → n < 16777216
scalar-bounded n s = elim (Bool-cases (ltb n 16777216)) [
  | inl e ↦ ground (arith, e)
  | inr e ↦ absurd (ground (arith, e, s))
]

code-lt : (c : Char) → code c < 16777216
code-lt (char n s) = scalar-bounded n s

-- The numbers that fit into some bytes.
abbrev fitting : ℕ → ℕ
fitting zero = 1
fitting (suc k) = 256 * fitting k

-- The bytes of a number, the lowest one first.
abbrev digits : ℕ → ℕ → List Byte → List Byte
digits zero n rest = rest
digits (suc k) n rest = as_u8 n ∷ digits k (n / 256) rest

abbrev number : ℕ → List Byte → ℕ × List Byte
number zero l = (0, l)
number (suc k) [] = (0, [])
number (suc k) (b ∷ l) = let (n, rest) = number k l in (b.value + 256 * n, rest)

number-digits :
    (k n : ℕ) (rest : List Byte) → n < fitting k → number k (digits k n rest) ≡ (n, rest)
number-digits zero n rest small = let e : 0 ≡ n = omega arith in ap (λ n. (n, rest)) e
number-digits (suc k) n rest small =
    let whole : n % 256 + 256 * (n / 256) ≡ n = omega arith in
    ap (λ (r : ℕ × List Byte). (n % 256 + 256 * r.0, r.1))
      (number-digits k (n / 256) rest (omega arith))
    ∙ ap (λ n. (n, rest)) whole

abbrev shift : Byte → ℕ → ℕ
shift b n = b.value + 256 * n

-- A sign has three bytes behind a one, and a text ends with a zero.
abbrev pub put_text : String → List Byte → List Byte
put_text String.[] rest = as_u8 0 ∷ rest
put_text (String.◌∷◌ c s) rest = as_u8 1 ∷ digits 3 (code c) (put_text s rest)

abbrev pub text : List Byte → String × List Byte
text [] = ("", [])
text (b ∷ []) = ("", [])
text (b ∷ x ∷ []) = ("", x ∷ [])
text (b ∷ x ∷ y ∷ []) = ("", x ∷ y ∷ [])
text (b ∷ x ∷ y ∷ z ∷ l) =
    let (s, rest) = text l in
    if b.value == 0
    then ("", x ∷ y ∷ z ∷ l)
    else (String.◌∷◌ (character (shift x (shift y (shift z 0)))) s, rest)

three-bytes :
    (n : ℕ)
    → n < 16777216
    → shift (as_u8 n) (shift (as_u8 (n / 256)) (shift (as_u8 (n / 256 / 256)) 0)) ≡ n
three-bytes n small = omega arith

text-end : (rest : List Byte) → text (as_u8 0 ∷ rest) ≡ ("", rest)
text-end [] = refl
text-end (x ∷ []) = refl
text-end (x ∷ y ∷ []) = refl
text-end (x ∷ y ∷ z ∷ l) = refl

pub text-put_text : (s : String) (rest : List Byte) → text (put_text s rest) ≡ (s, rest)
text-put_text String.[] rest = text-end rest
text-put_text (String.◌∷◌ c s) rest =
    ap
      (λ (r : String × List Byte). (
        String.◌∷◌
            (character (
              shift (as_u8 (code c))
                (shift (as_u8 (code c / 256)) (shift (as_u8 (code c / 256 / 256)) 0))))
            r.0,
        r.1,
      ))
      (text-put_text s rest)
    ∙ ap (λ n. (String.◌∷◌ (character n) s, rest)) (three-bytes (code c) (code-lt c))
    ∙ ap (λ d. (String.◌∷◌ d s, rest)) (character-code c)

abbrev put_u64 : U64 → List Byte → List Byte
put_u64 w rest = digits 8 w.value rest

abbrev u64 : List Byte → U64 × List Byte
u64 l = let (n, rest) = number 8 l in (as_u64 n, rest)

u64-put_u64 : (w : U64) (rest : List Byte) → u64 (put_u64 w rest) ≡ (w, rest)
u64-put_u64 w rest =
    let same : as_u64 w.value ≡ w = Word-value (as_u64 w.value) w (omega (arith, w.small)) in
    ap (λ (r : ℕ × List Byte). (as_u64 r.0, r.1))
      (number-digits 8 w.value rest (omega (arith, w.small)))
    ∙ ap (λ v. (v, rest)) same

-- A slice is behind a one, if it is there.
abbrev put_slice : Option MemorySlice → List Byte
put_slice none = []
put_slice (some s) = as_u8 1 ∷ put_u64 s.start (put_u64 s.len [])

abbrev slice : List Byte → Option MemorySlice
slice [] = none
slice (n ∷ l) =
    let (start, rest) = u64 l in
    let (len, rest) = u64 rest in some (record { start = start; len = len })

slice-put_slice : (s : Option MemorySlice) → slice (put_slice s) ≡ s
slice-put_slice none = refl
slice-put_slice (some s) =
    ap (λ (r : U64 × List Byte). some (record { start = r.0; len = (u64 r.1).0 }))
      (u64-put_u64 s.start (put_u64 s.len []))
    ∙ ap (λ (r : U64 × List Byte). some (record { start = s.start; len = r.0 }))
        (u64-put_u64 s.len [])

abbrev put_cont : Option String → List Byte → List Byte
put_cont none rest = as_u8 0 ∷ rest
put_cont (some s) rest = as_u8 1 ∷ put_text s rest

abbrev cont : List Byte → Option String × List Byte
cont [] = (none, [])
cont (b ∷ rest) = let (s, left) = text rest in if b.value == 0 then (none, rest) else (some s, left)

cont-put_cont : (c : Option String) (rest : List Byte) → cont (put_cont c rest) ≡ (c, rest)
cont-put_cont none rest = refl
cont-put_cont (some s) rest =
    ap (λ (r : String × List Byte). (some r.0, r.1)) (text-put_text s rest)

abbrev put_result : Option InvokeResult → List Byte
put_result none = []
put_result (some (InvokeResult.finished s)) = as_u8 0 ∷ put_slice s
put_result (some (InvokeResult.error m s)) = as_u8 1 ∷ put_text m (put_slice s)
put_result (some (InvokeResult.host_call c)) =
    as_u8 2 ∷ put_text c.name (put_cont c.cont (put_slice c.parameters))

abbrev call_of : List Byte → HostCall
call_of l =
    let (name, rest) = text l in
    let (next, rest) = cont rest in record { name = name; cont = next; parameters = slice rest }

abbrev error_of : List Byte → InvokeResult
error_of l = let (m, rest) = text l in InvokeResult.error m (slice rest)

abbrev result : List Byte → Option InvokeResult
result [] = none
result (b ∷ l) =
    if b.value == 0
    then some (InvokeResult.finished (slice l))
    else if b.value == 1
    then some (error_of l)
    else some (InvokeResult.host_call (call_of l))

pub result-put_result : (r : Option InvokeResult) → result (put_result r) ≡ r
result-put_result none = refl
result-put_result (some (InvokeResult.finished s)) =
    ap (λ s. some (InvokeResult.finished s)) (slice-put_slice s)
result-put_result (some (InvokeResult.error m s)) =
    ap (λ (r : String × List Byte). some (InvokeResult.error r.0 (slice r.1)))
      (text-put_text m (put_slice s))
    ∙ ap (λ s. some (InvokeResult.error m s)) (slice-put_slice s)
result-put_result (some (InvokeResult.host_call c)) =
    ap
      (λ (r : String × List Byte).
        let (next, rest) = cont r.1 in
        some (InvokeResult.host_call (record { name = r.0; cont = next; parameters = slice rest })))
      (text-put_text c.name (put_cont c.cont (put_slice c.parameters)))
    ∙ ap
        (λ (r : Option String × List Byte).
          some
            (InvokeResult.host_call (record { name = c.name; cont = r.0; parameters = slice r.1 })))
        (cont-put_cont c.cont (put_slice c.parameters))
    ∙ ap
        (λ p.
          some (InvokeResult.host_call (record { name = c.name; cont = c.cont; parameters = p })))
        (slice-put_slice c.parameters)

abbrev pub wire : Codec (Option InvokeResult)
wire = record {
  encode = put_result;
  decode = λ l. ok (result l);
  decode-encode = λ r. ap ok (result-put_result r);
}
