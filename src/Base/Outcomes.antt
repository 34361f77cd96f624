-- ===== src/Base/Outcomes.antt =====
-- How a run of the program's code ends: with a value, with an error that it hands to its caller, in
-- a panic, or waiting for a lock that is never released.
use mathlib.Core.Path.{◌≡◌, refl}
use mathlib.Core.Logic.{◌⊎◌, inl, inr}
use mathlib.Core.Option.{Option, none, some}
use mathlib.Core.List.{List, [], ◌∷◌}

pub data Outcome {ℓ κ} (E : Type ℓ) (A : Type κ) : Type (ℓ ⊔ κ) where
  ok : A → Outcome E A
  err : E → Outcome E A
  panic : Outcome E A
  blocked : Outcome E A

infixl 5 ◌>>=◌
abbrev pub ◌>>=◌ {ℓ κ μ} :
    {E : Type ℓ} {A : Type κ} {B : Type μ} → Outcome E A → (A → Outcome E B) → Outcome E B
panic >>= next = panic
blocked >>= next = blocked
err e >>= next = err e
ok a >>= next = next a

infixl 5 ◌>>◌
abbrev pub ◌>>◌ {ℓ κ μ} :
    {E : Type ℓ} {A : Type κ} {B : Type μ} → Outcome E A → Outcome E B → Outcome E B
first >> second = first >>= λ _. second

-- `Result::map`, `Result::map_err`, `Option::ok_or`, `Option::expect` and `Option::unwrap`.
abbrev pub map_ok {ℓ κ μ} :
    {E : Type ℓ} {A : Type κ} {B : Type μ} → (A → B) → Outcome E A → Outcome E B
map_ok f m = m >>= λ a. ok (f a)

abbrev pub map_err {ℓ κ μ} :
    {E : Type ℓ} {F : Type κ} {A : Type μ} → (E → F) → Outcome E A → Outcome F A
map_err f (ok a) = ok a
map_err f (err e) = err (f e)
map_err f panic = panic
map_err f blocked = blocked

abbrev pub ok_or {ℓ κ} : {E : Type ℓ} {A : Type κ} → E → Option A → Outcome E A
ok_or e none = err e
ok_or e (some a) = ok a

abbrev pub expect {ℓ κ} : {E : Type ℓ} {A : Type κ} → Option A → Outcome E A
expect none = panic
expect (some a) = ok a

-- `Result::ok`: an error is dropped.
abbrev pub to_option {ℓ κ} : {E : Type ℓ} {A : Type κ} → Outcome E A → Option A
to_option (ok a) = some a
to_option _ = none

-- `iter().map(f).collect::<Result<_>>()`: stops at the first failure.
abbrev pub collect {ℓ κ μ} :
    {E : Type ℓ} {A : Type κ} {B : Type μ} → (A → Outcome E B) → List A → Outcome E (List B)
collect f [] = ok []
collect f (x ∷ xs) = f x >>= λ y. collect f xs >>= λ ys. ok (y ∷ ys)

pub Outcome-cases {ℓ κ} :
    {E : Type ℓ} {A : Type κ} (m : Outcome E A)
    → ((a : A) × (m ≡ ok a)) ⊎ ((e : E) × (m ≡ err e)) ⊎ (m ≡ panic) ⊎ (m ≡ blocked)
Outcome-cases (ok a) = inl (a, refl)
Outcome-cases (err e) = inr (inl (e, refl))
Outcome-cases panic = inr (inr (inl refl))
Outcome-cases blocked = inr (inr (inr refl))

-- What a run that has come to a value has gone through.
pub >>=-ok {ℓ κ μ} :
    {E : Type ℓ} {A : Type κ} {B : Type μ} (run : Outcome E A) (next : A → Outcome E B) {last : B}
    → (run >>= next) ≡ ok last
    → (first : A) × (run ≡ ok first) × (next first ≡ ok last)
>>=-ok panic next ended = cc
>>=-ok blocked next ended = cc
>>=-ok (err e) next ended = cc
>>=-ok (ok first) next ended = (first, refl, ended)

pub to_option-some {ℓ κ} :
    {E : Type ℓ} {A : Type κ} (run : Outcome E A) {a : A} → to_option run ≡ some a → run ≡ ok a
to_option-some (ok b) h = cc
to_option-some (err e) h = cc
to_option-some panic h = cc
to_option-some blocked h = cc

pub ok_inj {ℓ κ} : {E : Type ℓ} {A : Type κ} {a b : A} → ◌≡◌ {A = Outcome E A} (ok a) (ok b) → a ≡ b
ok_inj h = cc

pub expect-ok {ℓ κ} :
    {E : Type ℓ} {A : Type κ} (o : Option A) {a : A} → expect {E = E} o ≡ ok a → o ≡ some a
expect-ok none h = cc
expect-ok (some b) h = cc
