-- ===== src/IdMap.antt =====
-- `IdMap` of src/utils.rs: a hash map from ids. It is an association list whose order stands for
-- the order of iteration, which a hash map leaves open: no theorem supposes a particular one.
pub mod Laws
pub mod Keys
use laqista.Base.{ℕ, List, [], ◌∷◌, map, Option, none, some, ◌==◌, if◌then◌else◌}

-- The 128 bits of a UUID, as a number: the order of ids is the order of the numbers.
abbrev pub Uuid : Type 0
Uuid = ℕ

abbrev pub IdMap {ℓ} : Type ℓ → Type ℓ
IdMap T = List (Uuid × T)

module _ {ℓ} {T : Type ℓ} where
  -- `IdMap::new`
  abbrev pub empty : IdMap T
  empty = []

  -- `HashMap::get`
  unfoldable pub get : IdMap T → Uuid → Option T
  get [] k = none
  get ((j, v) ∷ m) k = if j == k then some v else get m k

  -- `HashMap::insert`
  unfoldable pub insert : IdMap T → Uuid → T → IdMap T
  insert [] k v = (k, v) ∷ []
  insert ((j, w) ∷ m) k v = if j == k then (j, v) ∷ m else (j, w) ∷ insert m k v

  -- `entry(k).and_modify(f).or_insert(v)`
  unfoldable pub modify_or_insert : IdMap T → Uuid → (T → T) → T → IdMap T
  modify_or_insert [] k f v = (k, v) ∷ []
  modify_or_insert ((j, w) ∷ m) k f v =
      if j == k then (j, f w) ∷ m else (j, w) ∷ modify_or_insert m k f v

  -- `HashMap::values`
  abbrev pub values : IdMap T → List T
  values = map (λ e. e.1)

  abbrev pub keys : IdMap T → List Uuid
  keys = map (λ e. e.0)

  -- `collect` into a hash map: a later pair replaces an earlier one of its key.
  unfoldable pub collect_from : IdMap T → List (Uuid × T) → IdMap T
  unfolding insert
  collect_from m [] = m
  collect_from m ((k, v) ∷ l) = collect_from (insert m k v) l

  unfoldable pub from_pairs : List (Uuid × T) → IdMap T
  unfolding collect_from
  from_pairs = collect_from empty

  -- The pair of an id that the map holds.
  unfoldable pub pair_of : IdMap T → Uuid → Option (Uuid × T)
  unfolding get
  pair_of m k = elim (get m k) [ none ↦ none | some v ↦ some (k, v) ]

  -- `filter_map` with `pair_of`
  unfoldable pub pairs_of : IdMap T → List Uuid → List (Uuid × T)
  unfolding pair_of
  pairs_of m [] = []
  pairs_of m (k ∷ ks) = elim (pair_of m k) [ none ↦ pairs_of m ks | some p ↦ p ∷ pairs_of m ks ]

  unfoldable pub clone_by_ids : IdMap T → List Uuid → IdMap T
  unfolding pairs_of from_pairs
  clone_by_ids m ids = from_pairs (pairs_of m ids)
