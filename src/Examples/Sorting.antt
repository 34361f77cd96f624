-- ===== src/Examples/Sorting.antt =====
-- A sort by insertion, as a concrete `sort_unstable_by`.
use mathlib.Core.List.{Perm, Mem, mem-cons, mem-cons_self, mem-cons_of_mem, not-mem-nil}
use mathlib.Core.List.Perm
use mathlib.Core.Logic.Or
use Prim.Native.Nat.{Ordering}
use laqista.Base.{
  ◌≡◌, ◌≢◌, ◌⊎◌, inl, inr, refl, sym, ◌∙◌, subst, ap, Bool, true, false, if◌then◌else◌, List, [],
  ◌∷◌, arith,
}
use laqista.Face.{IsOrder}

abbrev pub is_gt : Ordering → Bool
is_gt Ordering.lt = false
is_gt Ordering.eq = false
is_gt Ordering.gt = true

gt_or_not :
    (o : Ordering)
    → ((o ≡ Ordering.gt) × (is_gt o ≡ true)) ⊎ ((o ≢ Ordering.gt) × (is_gt o ≡ false))
gt_or_not Ordering.lt = inr ((λ e. ground (arith, ap is_gt e)), refl)
gt_or_not Ordering.eq = inr ((λ e. ground (arith, ap is_gt e)), refl)
gt_or_not Ordering.gt = inl (refl, refl)

lt≢gt : Ordering.lt ≢ Ordering.gt
lt≢gt e = ground (arith, ap is_gt e)

module _ {A : Type 0} (cmp : A → A → Ordering) where
  abbrev pub insert : A → List A → List A
  insert x [] = x ∷ []
  insert x (y ∷ ys) = let rest = insert x ys in if is_gt (cmp x y) then y ∷ rest else x ∷ y ∷ ys

  abbrev pub insertion : List A → List A
  insertion [] = []
  insertion (x ∷ xs) = insert x (insertion xs)

  insert-perm : (x : A) (l : List A) → Perm (insert x l) (x ∷ l)
  insert-perm x [] = Perm.refl _
  insert-perm x (y ∷ ys) = elim (gt_or_not (cmp x y)) [
    | inl (e, h) ↦ rw h (Perm.trans (Perm.cons y (insert-perm x ys)) (Perm.swap x y ys))
    | inr (e, h) ↦ rw h (Perm.refl _)
  ]

  pub insertion-perm : (l : List A) → Perm (insertion l) l
  insertion-perm [] = Perm.refl _
  insertion-perm (x ∷ xs) =
      Perm.trans (insert-perm x (insertion xs)) (Perm.cons x (insertion-perm xs))

  -- The first element of a list is not behind this one.
  abbrev Leads : List A → A → Type 0
  Leads [] y = ⊥
  Leads (x ∷ xs) y = cmp x y ≢ Ordering.gt

  Leads-prop : (l : List A) (y : A) → IsProp (Leads l y)
  Leads-prop [] y = hlevel
  Leads-prop (x ∷ xs) y = hlevel

  module _ (all : List A) (order : IsOrder cmp all) where
    not_behind_self : (x : A) → Mem x all → cmp x x ≢ Ordering.gt
    not_behind_self x mx e = lt≢gt (sym (IsOrder.flip order x x mx mx e) ∙ e)

    insert-Leads_self :
        (x : A) (l : List A) → Mem x all → ((y : A) → Mem y l → Mem y all) → Leads (insert x l) x
    insert-Leads_self x [] mx sub = not_behind_self x mx
    insert-Leads_self x (y ∷ ys) mx sub = elim (gt_or_not (cmp x y)) [
      | inl (e, h) ↦ rw h (λ k. lt≢gt (sym (IsOrder.flip order x y mx (sub y mem-cons_self) e) ∙ k))
      | inr (e, h) ↦ rw h (not_behind_self x mx)
    ]

    insert-Leads :
        (x z : A) (l : List A)
        → Mem x all
        → ((y : A) → Mem y l → Mem y all)
        → Mem z all
        → Leads l z
        → Leads (insert x l) z
    insert-Leads x z [] mx sub mz leads = absurd leads
    insert-Leads x z (y ∷ ys) mx sub mz leads = elim (gt_or_not (cmp x y)) [
      | inl (e, h) ↦ rw h leads
      | inr (e, h) ↦ rw h (IsOrder.trans order x y z mx (sub y mem-cons_self) mz e leads)
    ]

    insertion-Leads :
        (l : List A) (z : A) → ((y : A) → Mem y l → Mem y all) → Mem z l → Leads (insertion l) z
    insertion-Leads [] z sub m = absurd (not-mem-nil m)
    insertion-Leads (x ∷ xs) z sub m =
        let within = λ (y : A) (n : Mem y (insertion xs)).
          sub y (mem-cons_of_mem x ((Perm.mem_iff (insertion-perm xs)).0 n)) in
        Or.elim (Leads-prop (insert x (insertion xs)) z) (mem-cons.0 m)
          (λ e.
            subst (Leads (insert x (insertion xs))) (sym e)
              (insert-Leads_self x (insertion xs) (sub x mem-cons_self) within))
          (λ n.
            insert-Leads x z (insertion xs) (sub x mem-cons_self) within (sub z m)
              (insertion-Leads xs z (λ y k. sub y (mem-cons_of_mem x k)) n))

pub insertion-first :
    {A : Type 0} (cmp : A → A → Ordering) (l : List A) (x : A) (rest : List A)
    → IsOrder cmp l
    → insertion cmp l ≡ x ∷ rest
    → (y : A) → Mem y l
    → cmp x y ≢ Ordering.gt
insertion-first cmp l x rest order e y m =
    subst (λ k. Leads cmp k y) e (insertion-Leads cmp l order l y (λ z n. n) m)
