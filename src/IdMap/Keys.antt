-- ===== src/IdMap/Keys.antt =====
-- Maps whose ids are distinct, and properties of every entry: the operations keep both.
use mathlib.Core.List.{append-nil, append_assoc}
use mathlib.Core.List.{Mem, mem-cons_self, mem-cons_of_mem}
use laqista.Base.{
  ◌≡◌, refl, sym, ◌∙◌, ◌≢◌, List, [], ◌∷◌, ◌++◌, arith, ◌==◌, All, ==_iff, subst, Bool-cases,
  Option-cases, some, inl, inr,
}
use laqista.IdMap.{
  Uuid, IdMap, get, insert, modify_or_insert, collect_from, from_pairs, pair_of, pairs_of,
  clone_by_ids,
}

-- The id is not among the keys.
abbrev pub Fresh {ℓ} : {T : Type ℓ} → Uuid → IdMap T → Type 0
Fresh k m = All (λ e. k ≢ e.0) m

abbrev pub Distinct {ℓ} : {T : Type ℓ} → IdMap T → Type 0
Distinct [] = Unit
Distinct (e ∷ m) = Fresh e.0 m × Distinct m

abbrev pub Entries {ℓ κ} : {T : Type ℓ} → (Uuid → T → Type κ) → IdMap T → Type κ
Entries P m = All (λ e. P e.0 e.1) m

module _ {ℓ} {T : Type ℓ} where
  insert-Fresh : (m : IdMap T) (j k : Uuid) (v : T) → j ≢ k → Fresh j m → Fresh j (insert m k v)
  unfolding insert
  insert-Fresh [] j k v h d = (h, tt)
  insert-Fresh ((i, w) ∷ m) j k v h d = ground (arith, insert-Fresh m j k v h)

  pub insert-Distinct : (m : IdMap T) (k : Uuid) (v : T) → Distinct m → Distinct (insert m k v)
  unfolding insert
  insert-Distinct [] k v d = (tt, tt)
  insert-Distinct ((i, w) ∷ m) k v d =
      ground (arith, insert-Fresh m i k v, insert-Distinct m k v d.1)

  modify_or_insert-Fresh :
      (m : IdMap T) (j k : Uuid) (f : T → T) (v : T)
      → j ≢ k
      → Fresh j m
      → Fresh j (modify_or_insert m k f v)
  unfolding modify_or_insert
  modify_or_insert-Fresh [] j k f v h d = (h, tt)
  modify_or_insert-Fresh ((i, w) ∷ m) j k f v h d =
      ground (arith, modify_or_insert-Fresh m j k f v h)

  pub modify_or_insert-Distinct :
      (m : IdMap T) (k : Uuid) (f : T → T) (v : T)
      → Distinct m
      → Distinct (modify_or_insert m k f v)
  unfolding modify_or_insert
  modify_or_insert-Distinct [] k f v d = (tt, tt)
  modify_or_insert-Distinct ((i, w) ∷ m) k f v d =
      ground (arith, modify_or_insert-Fresh m i k f v, modify_or_insert-Distinct m k f v d.1)

  -- A new id goes to the end.
  insert-Fresh' : (m : IdMap T) (k : Uuid) (v : T) → Fresh k m → insert m k v ≡ m ++ (k, v) ∷ []
  unfolding insert
  insert-Fresh' [] k v h = refl
  insert-Fresh' ((i, w) ∷ m) k v h = ground (arith, insert-Fresh' m k v h.1)

  Fresh-append : (m n : IdMap T) (k : Uuid) → Fresh k (m ++ n) → Fresh k m × Fresh k n
  Fresh-append [] n k h = (tt, h)
  Fresh-append (e ∷ m) n k h = let (a, b) = Fresh-append m n k h.1 in ((h.0, a), b)

  -- The first entry after a prefix has an id that the prefix lacks.
  Distinct-middle : (m n : IdMap T) (k : Uuid) (v : T) → Distinct (m ++ (k, v) ∷ n) → Fresh k m
  Distinct-middle [] n k v d = tt
  Distinct-middle (e ∷ m) n k v d =
      let (_, h) = Fresh-append m ((k, v) ∷ n) e.0 d.0 in
      (λ p. h.0 (sym p), Distinct-middle m n k v d.1)

  collect_from-Distinct : (m l : IdMap T) → Distinct (m ++ l) → collect_from m l ≡ m ++ l
  unfolding collect_from
  collect_from-Distinct m [] d = sym (append-nil m)
  collect_from-Distinct m ((k, v) ∷ l) d =
      let regroup = append_assoc m ((k, v) ∷ []) l in
      rw (insert-Fresh' m k v (Distinct-middle m l k v d))
        (collect_from-Distinct (m ++ (k, v) ∷ []) l (subst Distinct (sym regroup) d) ∙ regroup)

  -- Pairs with distinct ids are collected as they are.
  pub from_pairs-Distinct : (l : IdMap T) → Distinct l → from_pairs l ≡ l
  unfolding from_pairs
  from_pairs-Distinct l d = collect_from-Distinct [] l d

  pub collect_from-Distinct' : (m l : IdMap T) → Distinct m → Distinct (collect_from m l)
  unfolding collect_from
  collect_from-Distinct' m [] d = d
  collect_from-Distinct' m ((k, v) ∷ l) d =
      collect_from-Distinct' (insert m k v) l (insert-Distinct m k v d)

module _ {ℓ κ} {T : Type ℓ} (P : Uuid → T → Type κ) where
  pub insert-Entries :
      (m : IdMap T) (k : Uuid) (v : T) → P k v → Entries P m → Entries P (insert m k v)
  unfolding insert
  insert-Entries [] k v p d = (p, tt)
  insert-Entries ((i, w) ∷ m) k v p d = elim (Bool-cases (i == k)) [
    | inl e ↦ rw e (subst (λ j. P j v) (sym ((==_iff i k).0 e)) p, d.1)
    | inr e ↦ rw e (d.0, insert-Entries m k v p d.1)
  ]

  pub modify_or_insert-Entries :
      (m : IdMap T) (k : Uuid) (f : T → T) (v : T)
      → ((j : Uuid) (w : T) → j ≡ k → P j w → P j (f w))
      → P k v
      → Entries P m
      → Entries P (modify_or_insert m k f v)
  unfolding modify_or_insert
  modify_or_insert-Entries [] k f v h p d = (p, tt)
  modify_or_insert-Entries ((i, w) ∷ m) k f v h p d = elim (Bool-cases (i == k)) [
    | inl e ↦ rw e (h i w ((==_iff i k).0 e) d.0, d.1)
    | inr e ↦ rw e (d.0, modify_or_insert-Entries m k f v h p d.1)
  ]

  pub collect_from-Entries :
      (m l : IdMap T) → Entries P m → Entries P l → Entries P (collect_from m l)
  unfolding collect_from
  collect_from-Entries m [] d h = d
  collect_from-Entries m ((k, v) ∷ l) d h =
      collect_from-Entries (insert m k v) l (insert-Entries m k v h.0 d) h.1

  pub get-Entries : (m : IdMap T) (k : Uuid) (v : T) → Entries P m → get m k ≡ some v → P k v
  unfolding get
  get-Entries [] k v d h = cc
  get-Entries ((i, w) ∷ m) k v d h = elim (Bool-cases (i == k)) [
    | inl e ↦ subst (λ j. P j v) ((==_iff i k).0 e) (subst (P i) (ground arith) d.0)
    | inr e ↦ get-Entries m k v d.1 (ground arith)
  ]

  -- What `clone_by_ids` keeps: entries of the map, under ids of the list.
  pairs_of-Entries {μ} :
      (Q : Uuid → Type μ) (m : IdMap T) (ks : List Uuid)
      → Entries P m
      → All Q ks
      → Entries (λ k v. Q k × P k v) (pairs_of m ks)
  unfolding pairs_of
  pairs_of-Entries Q m [] d h = tt
  pairs_of-Entries Q m (k ∷ ks) d h = elim (Option-cases (get m k)) [
    | inl e ↦ rw (e, pairs_of, pair_of) (pairs_of-Entries Q m ks d h.1)
    | inr (v, e) ↦
        rw (e, pairs_of, pair_of) ((h.0, get-Entries m k v d e), pairs_of-Entries Q m ks d h.1)
  ]

pub All-weaken {ℓ κ μ} :
    {A : Type ℓ} (P : A → Type κ) (Q : A → Type μ) (xs : List A)
    → ((x : A) → P x → Q x)
    → All P xs
    → All Q xs
All-weaken P Q [] f h = tt
All-weaken P Q (x ∷ xs) f h = (f x h.0, All-weaken P Q xs f h.1)

All-mem_self {ℓ} : {A : Type ℓ} (xs : List A) → All (λ x. Mem x xs) xs
All-mem_self [] = tt
All-mem_self (x ∷ xs) = (
  mem-cons_self,
  All-weaken _ (λ y. Mem y (x ∷ xs)) xs (λ y m. mem-cons_of_mem x m) (All-mem_self xs),
)

-- Every entry of a map cloned by ids is one of the map, under one of the ids.
pub clone_by_ids-Entries {ℓ κ} :
    {T : Type ℓ} (P : Uuid → T → Type κ) (m : IdMap T) (ids : List Uuid)
    → Entries P m
    → Entries (λ k v. Mem k ids × P k v) (clone_by_ids m ids)
unfolding clone_by_ids
clone_by_ids-Entries P m ids d =
    collect_from-Entries (λ k v. Mem k ids × P k v) [] (pairs_of m ids) tt
      (pairs_of-Entries P (λ k. Mem k ids) m ids d (All-mem_self ids))
