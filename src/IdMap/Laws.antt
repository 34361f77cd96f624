-- ===== src/IdMap/Laws.antt =====
-- What a client sees of an `IdMap`: `get` after each operation. With these laws the operations can
-- stay shut.
use laqista.Base.{
  ℕ, ◌≡◌, refl, ◌⊎◌, inl, inr, Bool, true, false, List, [], ◌∷◌, Option, none, some, arith, ◌==◌,
  if◌then◌else◌, Option-cases,
}
use laqista.IdMap.{
  Uuid, IdMap, get, insert, modify_or_insert, collect_from, pair_of, pairs_of, clone_by_ids,
}

-- The test that a list of ids holds an id.
abbrev pub contains : List ℕ → ℕ → Bool
contains [] k = false
contains (j ∷ ks) k = if j == k then true else contains ks k

-- What an entry becomes.
abbrev pub modified {ℓ} : {T : Type ℓ} → (T → T) → T → Option T → T
modified f v none = v
modified f v (some w) = f w

module _ {ℓ} {T : Type ℓ} where
  pub get-insert :
      (m : IdMap T) (k j : Uuid) (v : T)
      → get (insert m k v) j ≡ (if k == j then some v else get m j)
  unfolding get insert
  get-insert [] k j v = refl
  get-insert ((i, w) ∷ m) k j v = ground (arith, get-insert m k j v)

  pub get-modify_or_insert :
      (m : IdMap T) (k j : Uuid) (f : T → T) (v : T)
      → get (modify_or_insert m k f v) j
        ≡ (if k == j then some (modified f v (get m k)) else get m j)
  unfolding get modify_or_insert
  get-modify_or_insert [] k j f v = refl
  get-modify_or_insert ((i, w) ∷ m) k j f v = ground (arith, get-modify_or_insert m k j f v)

  -- What has been collected agrees with the source at `k`.
  abbrev Agrees : IdMap T → IdMap T → Uuid → Type ℓ
  Agrees m acc k = (get acc k ≡ none) ⊎ (get acc k ≡ get m k)

  pairs_of-none :
      (m : IdMap T) (i : Uuid) (ids : List Uuid)
      → get m i ≡ none
      → pairs_of m (i ∷ ids) ≡ pairs_of m ids
  unfolding pairs_of
  pairs_of-none m i ids e = rw (e, pairs_of, pair_of)

  pairs_of-some :
      (m : IdMap T) (i : Uuid) (ids : List Uuid) (v : T)
      → get m i ≡ some v
      → pairs_of m (i ∷ ids) ≡ (i, v) ∷ pairs_of m ids
  unfolding pairs_of
  pairs_of-some m i ids v e = rw (e, pairs_of, pair_of)

  insert-Agrees :
      (m acc : IdMap T) (i k : Uuid) (v : T)
      → get m i ≡ some v
      → Agrees m acc k
      → Agrees m (insert acc i v) k
  insert-Agrees m acc i k v e h = ground (arith, get-insert acc i k v)

  get-collect_from-pairs_of :
      (m acc : IdMap T) (ids : List Uuid) (k : Uuid)
      → Agrees m acc k
      → get (collect_from acc (pairs_of m ids)) k ≡ (if contains ids k then get m k else get acc k)
  unfolding collect_from
  get-collect_from-pairs_of m acc [] k h = unfold pairs_of in refl
  get-collect_from-pairs_of m acc (i ∷ ids) k h = elim (Option-cases (get m i)) [
    | inl e ↦ rw (pairs_of-none m i ids e) (ground (arith, get-collect_from-pairs_of m acc ids k h))
    | inr (v, e) ↦ rw (pairs_of-some m i ids v e) (
        ground (
          arith,
          get-insert acc i k v,
          get-collect_from-pairs_of m (insert acc i v) ids k (insert-Agrees m acc i k v e h),
        ))
  ]

  -- `clone_by_ids` keeps the entries of the given ids, and no other.
  pub get-clone_by_ids :
      (m : IdMap T) (ids : List Uuid) (k : Uuid)
      → get (clone_by_ids m ids) k ≡ (if contains ids k then get m k else none)
  unfolding clone_by_ids
  get-clone_by_ids m ids k = get-collect_from-pairs_of m [] ids k (inl (unfold get in refl))
