-- ===== src/Retry/Attempts.antt =====
-- How often `retry` tries.
use laqista.Base.{◌≡◌, arith, ok, err, panic, blocked}
use laqista.Base.Task.{Task}
use laqista.Retry.{retry, rounds}

module _ {S E A : Type 0} where
  -- The second task, from where the first has failed.
  abbrev pub or_else : Task S E A → Task S E A → Task S E A
  or_else first second s =
      let (o, s') = first s in
      elim o [
        | ok out ↦ (ok out, s')
        | err e ↦ second s'
        | panic ↦ (panic, s')
        | blocked ↦ (blocked, s')
      ]

  -- A request is sent until it succeeds, three times at most, and the answer is the last one's: the
  -- loop never gives up without an error to hand on.
  pub retry-or_else :
      (func : Task S E A) (s : S) → retry func s ≡ or_else func (or_else func func) s
  unfolding retry rounds
  retry-or_else func s = ground arith
