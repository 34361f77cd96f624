-- ===== src/Retry.antt =====
-- laqista-core/src/client.rs: a request that is tried up to three times.
pub mod Attempts
use laqista.Base.{ℕ, zero, suc, Option, none, some, Outcome, ok, err, panic, blocked}
use laqista.Base.Task.{Task}

module _ {S E A : Type 0} where
  -- `Err(last_err.unwrap())`
  abbrev pub give_up : Option E → Task S E A
  give_up none s = (panic, s)
  give_up (some e) s = (err e, s)

  -- The loop, which has `n` rounds left.
  unfoldable pub rounds : ℕ → Task S E A → Option E → Task S E A
  rounds zero func last_err s = give_up last_err s
  rounds (suc n) func last_err s =
      let (o, s') = func s in
      elim o [
        | ok out ↦ (ok out, s')
        | err e ↦ rounds n func (some e) s'
        | panic ↦ (panic, s')
        | blocked ↦ (blocked, s')
      ]

  unfoldable pub retry : Task S E A → Task S E A
  unfolding rounds
  retry func = rounds 3 func none
