-- ===== src/Cluster/Election.antt =====
-- The choice of a scheduler: every server with the same list of servers elects the same one.
use mathlib.Core.List.{Mem, mem-cons, mem-cons_self, mem-cons_of_mem, not-mem-nil, Perm}
use mathlib.Core.List.Perm
use mathlib.Core.Logic.Or
use native.Mathlib.Bridge.{le_prop}
use native.Mathlib.Nat.{le_antisymm}
use laqista.Base.{
  ◌≤◌, ◌≡◌, refl, sym, ap, subst, ◌⊎◌, inl, inr, List, [], ◌∷◌, arith, ok, true, false, >>=-ok,
  panic, All, Bool-cases, List-cases, ltb, ◌↔◌,
}
use laqista.Types.{ServerInfo}
use laqista.Cluster.{Cluster, lowest, lowest_of, with_scheduler, choose_scheduler}

abbrev pub IsLowest : ServerInfo → List ServerInfo → Type 0
IsLowest s ss = All (λ t. s.id ≤ t.id) ss

IsLowest-mem :
    (s : ServerInfo) (ss : List ServerInfo)
    → IsLowest s ss
    → (t : ServerInfo) → Mem t ss
    → s.id ≤ t.id
IsLowest-mem s [] h t m = absurd (not-mem-nil m)
IsLowest-mem s (x ∷ xs) h t m =
    Or.elim le_prop (mem-cons.0 m) (λ e. subst (λ (y : ServerInfo). s.id ≤ y.id) (sym e) h.0)
      (IsLowest-mem s xs h.1 t)

lowest-le : (best : ServerInfo) (ss : List ServerInfo) → (lowest best ss).id ≤ best.id
unfolding lowest
lowest-le best [] = omega arith
lowest-le best (s ∷ ss) = ground (arith, lowest-le s ss, lowest-le best ss)

lowest-lower :
    (best s : ServerInfo) (ss : List ServerInfo)
    → ltb s.id best.id ≡ true
    → lowest best (s ∷ ss) ≡ lowest s ss
unfolding lowest
lowest-lower best s ss e = rw e

lowest-kept :
    (best s : ServerInfo) (ss : List ServerInfo)
    → ltb s.id best.id ≡ false
    → lowest best (s ∷ ss) ≡ lowest best ss
unfolding lowest
lowest-kept best s ss e = rw e

lowest-IsLowest : (best : ServerInfo) (ss : List ServerInfo) → IsLowest (lowest best ss) ss
lowest-IsLowest best [] = tt
lowest-IsLowest best (s ∷ ss) = elim (Bool-cases (ltb s.id best.id)) [
  | inl e ↦
      subst (λ l. IsLowest l (s ∷ ss)) (sym (lowest-lower best s ss e))
        (lowest-le s ss, lowest-IsLowest s ss)
  | inr e ↦
      subst (λ l. IsLowest l (s ∷ ss)) (sym (lowest-kept best s ss e))
        (ground (arith, lowest-le best ss), lowest-IsLowest best ss)
]

mem_of_source :
    (s : ServerInfo) (ss : List ServerInfo) (t : ServerInfo) → (t ≡ s) ⊎ Mem t ss → Mem t (s ∷ ss)
mem_of_source s ss t (inl p) = subst (λ y. Mem y (s ∷ ss)) (sym p) mem-cons_self
mem_of_source s ss t (inr m) = mem-cons_of_mem s m

lowest-mem :
    (best : ServerInfo) (ss : List ServerInfo) → (lowest best ss ≡ best) ⊎ Mem (lowest best ss) ss
unfolding lowest
lowest-mem best [] = inl refl
lowest-mem best (s ∷ ss) = elim (Bool-cases (ltb s.id best.id)) [
  | inl e ↦ rw e (inr (mem_of_source s ss (lowest s ss) (lowest-mem s ss)))
  | inr e ↦ rw e (elim (lowest-mem best ss) [ inl p ↦ inl p | inr m ↦ inr (mem-cons_of_mem s m) ])
]

lowest-mem_self : (s : ServerInfo) (ss : List ServerInfo) → Mem (lowest s (s ∷ ss)) (s ∷ ss)
lowest-mem_self s ss = elim (lowest-mem s (s ∷ ss)) [
  | inl p ↦ mem_of_source s ss _ (inl p)
  | inr m ↦ m
]

lowest_of-IsLowest {ℓ} :
    {E : Type ℓ} (ss : List ServerInfo) (s : ServerInfo)
    → lowest_of {E = E} ss ≡ ok s
    → Mem s ss × IsLowest s ss
unfolding lowest_of
lowest_of-IsLowest [] s h = cc
lowest_of-IsLowest (t ∷ ts) s h =
    subst (λ l. Mem l (t ∷ ts) × IsLowest l (t ∷ ts)) (cc)
      (lowest-mem_self t ts, lowest-IsLowest t (t ∷ ts))

-- The chosen server is one of the cluster, none has a lower id, and it becomes the scheduler of the
-- group; nothing else changes.
pub choose_scheduler-IsLowest {ℓ} :
    {E : Type ℓ} (c c' : Cluster) (s : ServerInfo)
    → choose_scheduler {E = E} c ≡ ok (s, c')
    → Mem s c.servers × IsLowest s c.servers × (c' ≡ with_scheduler c s)
unfolding choose_scheduler
choose_scheduler-IsLowest {E} c c' s h =
    let (t, found, e) = >>=-ok (lowest_of {E = E} c.servers) _ h in
    let same : t ≡ s = cc in
    let (m, low) = lowest_of-IsLowest {E = E} c.servers s (cc) in (m, low, cc)

-- A choice is made exactly when there is a server: on an empty list the code panics.
pub choose_scheduler-panic_iff {ℓ} :
    {E : Type ℓ} (c : Cluster) → (choose_scheduler {E = E} c ≡ panic) ↔ (c.servers ≡ [])
unfolding choose_scheduler lowest_of
choose_scheduler-panic_iff {E} c = elim (List-cases c.servers) [
  | inl e ↦ ground (arith, ap (lowest_of {E = E}) e)
  | inr (t, ts, e) ↦ ground (arith, ap (lowest_of {E = E}) e)
]

-- Two clusters whose server lists hold the same entries, in whatever order, elect schedulers of
-- one id.
pub choose_scheduler_agrees {ℓ} :
    {E : Type ℓ} (a b a' b' : Cluster) (s t : ServerInfo)
    → Perm a.servers b.servers
    → choose_scheduler {E = E} a ≡ ok (s, a')
    → choose_scheduler {E = E} b ≡ ok (t, b')
    → s.id ≡ t.id
choose_scheduler_agrees {E} a b a' b' s t p h k =
    let (s_in, s_low, _) = choose_scheduler-IsLowest {E = E} a a' s h in
    let (t_in, t_low, _) = choose_scheduler-IsLowest {E = E} b b' t k in
    le_antisymm (IsLowest-mem s a.servers s_low t ((Perm.mem_iff p).1 t_in))
      (IsLowest-mem t b.servers t_low s ((Perm.mem_iff p).0 s_in))
