-- ===== src/Face/Probability.antt =====
-- Which label the face detector answers with.
use mathlib.Core.List.{Perm, Mem, mem-cons_self, not-mem-nil}
use mathlib.Core.List.Perm
use Prim.Native.Nat.{Ordering}
use laqista.Base.{
  ℕ, ◌⊎◌, inl, inr, ◌≡◌, ◌≢◌, refl, subst, ap, List, [], ◌∷◌, Option, some, none, ok, panic,
}
use laqista.Wasm.{Memory, contents}
use laqista.Wasm.Runner.{Codec}
use laqista.Wasm.Exits.{len}
use laqista.Face.{
  Detection, IsOrder, InferReply, enumerate_from, by_probability, first_ranked, reply_of,
  get_prob_run,
}

-- `unwrap_or(Ordering::Equal)`
abbrev in_order : Option Ordering → Ordering
in_order none = Ordering.eq
in_order (some o) = o

module _ ⦃d : Detection⦄ where
  open d use {F32, partial_cmp, sort_by, sort_by-Perm, sort_by-first}

  -- An index with its probability, of which there is none higher.
  abbrev pub IsBest : List F32 → ℕ × F32 → Type 0
  IsBest probs (i, p) =
      Mem (i, p) (enumerate_from 0 probs)
      × ((j : ℕ) (q : F32)
          → Mem (j, q) (enumerate_from 0 probs)
          → partial_cmp q p ≢ some Ordering.gt)

  perm_of :
      (probs : List F32) (sorted : List (ℕ × F32))
      → sort_by by_probability (enumerate_from 0 probs) ≡ sorted
      → Perm sorted (enumerate_from 0 probs)
  perm_of probs sorted e =
      subst (λ l. Perm l (enumerate_from 0 probs)) e
        (sort_by-Perm by_probability (enumerate_from 0 probs))

  IsBest-first :
      (probs : List F32) (sorted : List (ℕ × F32))
      → sort_by by_probability (enumerate_from 0 probs) ≡ sorted
      → IsOrder by_probability (enumerate_from 0 probs)
      → ((probs ≡ []) × (first_ranked sorted ≡ panic))
        ⊎ ((best : ℕ × F32) × IsBest probs best × (first_ranked sorted ≡ ok best))
  IsBest-first [] [] e order = inl (refl, refl)
  IsBest-first (p ∷ probs) [] e order =
      absurd (not-mem-nil ((Perm.mem_iff (perm_of (p ∷ probs) [] e)).1 mem-cons_self))
  IsBest-first probs ((i, p) ∷ rest) e order = inr (
    (i, p),
    (
      (Perm.mem_iff (perm_of probs ((i, p) ∷ rest) e)).0 mem-cons_self,
      (λ j q m k.
          sort_by-first by_probability (enumerate_from 0 probs) (i, p) rest order e (j, q) m
            (ap in_order k)),
    ),
    refl,
  )

  -- The reply to an inference: without any probability the function panics. Otherwise it answers
  -- with a label whose probability no other exceeds, or with an error if there is no label at its
  -- index. The probabilities are taken to be in order, which is that none is not a number.
  pub get_prob_run-IsBest :
      (outputs : Codec (InferReply F32)) (memory : Memory) (resp : InferReply F32)
      → outputs.decode (contents memory.bytes memory.head (len memory)) ≡ ok resp
      → IsOrder by_probability (enumerate_from 0 resp.squeezenet0_flatten0_reshape0)
      → ((resp.squeezenet0_flatten0_reshape0 ≡ []) × (get_prob_run outputs memory ≡ panic))
        ⊎ ((best : ℕ × F32) × IsBest resp.squeezenet0_flatten0_reshape0 best
            × (get_prob_run outputs memory ≡ reply_of best))
  unfolding get_prob_run
  get_prob_run-IsBest outputs memory resp read order =
      elim (IsBest-first resp.squeezenet0_flatten0_reshape0 _ refl order) [
        | inl (none_there, e) ↦ inl (none_there, rw read (rw e refl))
        | inr (best, most, e) ↦ inr (best, most, rw read (rw e refl))
      ]
