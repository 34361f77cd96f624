-- ===== src/Base/Task.antt =====
-- Asynchronous code over a shared state: an action returns how it ended and the state that it left.
-- What it wrote before an error or a panic stays written.
use mathlib.Core.Bool.{Bool, true, false}
use mathlib.Core.Option.{Option}
use mathlib.Core.Path.{◌≡◌, refl, ap}
use native.Mathlib.Omega.{arith}
use laqista.Base.Tests.{if◌then◌else◌, is_none}
use laqista.Base.Outcomes.{Outcome, ok, err, panic, blocked}

abbrev pub Task {ℓ κ μ} : Type ℓ → Type κ → Type μ → Type (ℓ ⊔ κ ⊔ μ)
Task S E A = S → Outcome E A × S

module _ {ℓ κ μ} {S : Type ℓ} {E : Type κ} {A : Type μ} where
  abbrev pub pure : A → Task S E A
  pure a s = (ok a, s)

  abbrev pub lift : Outcome E A → Task S E A
  lift o s = (o, s)

module _ {ℓ κ μ ν} {S : Type ℓ} {E : Type κ} {A : Type μ} {B : Type ν} where
  abbrev pub continue : Outcome E A → (A → Task S E B) → Task S E B
  continue (ok a) f s = f a s
  continue (err e) f s = (err e, s)
  continue panic f s = (panic, s)
  continue blocked f s = (blocked, s)

  infixl 5 ◌>>=◌
  abbrev pub ◌>>=◌ : Task S E A → (A → Task S E B) → Task S E B
  ◌>>=◌ m f s = let (o, s') = m s in continue o f s'

module _ {ℓ κ μ} {S : Type ℓ} {E : Type κ} {B : Type μ} where
  infixl 5 ◌>>◌
  abbrev pub ◌>>◌ : Task S E (Unit {0}) → Task S E B → Task S E B
  m >> k = m >>= λ _. k

-- What a task that has come to a value has gone through.
pub continue-ok :
    {S E A B : Type 0} (o : Outcome E A) (f : A → Task S E B) (s : S) {last : B} {s' : S}
    → continue o f s ≡ (ok last, s')
    → (first : A) × (o ≡ ok first) × (f first s ≡ (ok last, s'))
continue-ok (ok a) f s h = (a, refl, h)
continue-ok (err e) f s h = absurd (ground (arith, ap (λ r. r.0) h))
continue-ok panic f s h = absurd (ground (arith, ap (λ r. r.0) h))
continue-ok blocked f s h = absurd (ground (arith, ap (λ r. r.0) h))

-- How a task ends, with the state that it leaves.
pub pair : {S E A : Type 0} {r : Outcome E A × S} {a : A} → r.0 ≡ ok a → r ≡ (ok a, r.1)
pair {r} h = ap (λ o. (o, r.1)) h

-- What is there is not lost by a continuation that does not lose it.
pub continue-some :
    {E A B C : Type 0} (o : Outcome E A) (f : A → Task (Option C) E B) (d : Option C)
    → is_none d ≡ false
    → ((a : A) → is_none (f a d).1 ≡ false)
    → is_none (continue o f d).1 ≡ false
continue-some (ok a) f d h k = k a
continue-some (err e) f d h k = h
continue-some panic f d h k = h
continue-some blocked f d h k = h

-- A value behind a mutex. The mutex of tokio is not reentrant.
pub record Shared {ℓ} (R : Type ℓ) : Type ℓ where
  pub held : Bool
  pub inner : R

module _ {ℓ κ μ} {R : Type ℓ} {E : Type κ} {A : Type μ} where
  -- The guard is dropped when the action ends. One that waits forever never drops it.
  abbrev pub drop_guard : Outcome E A × Shared R → Outcome E A × Shared R
  drop_guard (blocked, m) = (blocked, m)
  drop_guard (o, m) = (o, record m { held = false })

  -- `let guard = mutex.lock().await; …`
  abbrev pub holding : (R → Task (Shared R) E A) → Task (Shared R) E A
  holding body m =
      if m.held then (blocked, m) else drop_guard (body m.inner (record m { held = true }))

  -- A critical section that takes no other lock.
  abbrev pub critical : (R → Outcome E A × R) → Task (Shared R) E A
  critical f = holding (λ r m. let (o, r') = f r in (o, record m { inner = r' }))

  abbrev pub reading : (R → Outcome E A) → Task (Shared R) E A
  reading f = critical (λ r. (f r, r))
