-- ===== src/Cluster/Removal.antt =====
-- `remove_server` takes out the first server of an id.
use mathlib.Core.List.{Mem, Mem-prop, mem-cons, mem-cons_self, mem-cons_of_mem}
use mathlib.Core.Logic.Or
use laqista.Base.{
  ℕ, zero, suc, ◌≡◌, refl, sym, ap, ◌≢◌, ◌⊎◌, inl, inr, List, [], ◌∷◌, ◌++◌, Option, none, some,
  arith, ok, All, true, false, subst, Bool-cases, ◌==◌, Option-cases, if◌then◌else◌, ◌∙◌,
}
use laqista.IdMap.{Uuid}
use laqista.Types.{ServerInfo}
use laqista.Cluster.{Cluster, position, remove_at, remove_server}

-- No server of the list has the id.
abbrev pub Lacks : Uuid → List ServerInfo → Type 0
Lacks id ss = All (λ s. s.id ≢ id) ss

-- The list, split at the first server of the id.
record SplitAt (id : Uuid) (ss : List ServerInfo) (i : ℕ) : Type 0 where
  before : List ServerInfo
  hit : ServerInfo
  after : List ServerInfo
  whole : ss ≡ before ++ hit ∷ after
  has_id : hit.id ≡ id
  lacks : Lacks id before
  removed : remove_at i ss ≡ some (hit, before ++ after)

position-none : (id : Uuid) (ss : List ServerInfo) → position id ss ≡ none → Lacks id ss
unfolding position
position-none id [] h = tt
position-none id (s ∷ ss) h = ground (arith, position-none id ss)

cons-SplitAt :
    (id : Uuid) (s : ServerInfo) (ss : List ServerInfo) (i : ℕ)
    → s.id ≢ id
    → SplitAt id ss i
    → SplitAt id (s ∷ ss) (suc i)
unfolding remove_at
cons-SplitAt id s ss i h p = record {
  before = s ∷ p.before;
  hit = p.hit;
  after = p.after;
  whole = ap (◌∷◌ s) p.whole;
  has_id = p.has_id;
  lacks = (h, p.lacks);
  removed = ground (arith, p.removed);
}

first_SplitAt :
    (id : Uuid) (s : ServerInfo) (ss : List ServerInfo)
    → (s.id == id) ≡ true
    → SplitAt id (s ∷ ss) zero
unfolding remove_at
first_SplitAt id s ss e = record {
  before = [];
  hit = s;
  after = ss;
  whole = refl;
  has_id = ground arith;
  lacks = tt;
  removed = refl;
}

first_hit :
    (id : Uuid) (s : ServerInfo) (ss : List ServerInfo) (i : ℕ)
    → (s.id == id) ≡ true
    → position id (s ∷ ss) ≡ some i
    → zero ≡ i
unfolding position
first_hit id s ss i e h = ground arith

later_hit :
    (id : Uuid) (s : ServerInfo) (ss : List ServerInfo) (i : ℕ)
    → (s.id == id) ≡ false
    → position id (s ∷ ss) ≡ some i
    → (j : ℕ) × (position id ss ≡ some j) × (suc j ≡ i)
unfolding position
later_hit id s ss i e h = elim (Option-cases (position id ss)) [
  | inl n ↦ ground arith
  | inr (j, n) ↦ (j, n, ground arith)
]

position-SplitAt :
    (id : Uuid) (ss : List ServerInfo) (i : ℕ) → position id ss ≡ some i → SplitAt id ss i
position-SplitAt id [] i h = unfold position in cc
position-SplitAt id (s ∷ ss) i h = elim (Bool-cases (s.id == id)) [
  | inl e ↦ subst (SplitAt id (s ∷ ss)) (first_hit id s ss i e h) (first_SplitAt id s ss e)
  | inr e ↦
      let (j, found, same) = later_hit id s ss i e h in
      subst (SplitAt id (s ∷ ss)) same
        (cons-SplitAt id s ss j (ground arith) (position-SplitAt id ss j found))
]

-- One of two things happens. No server has the id, and the cluster stays as it was; or the first
-- server of the id is taken out of the list, and nothing else changes.
pub remove_server-splits {ℓ} :
    {E : Type ℓ} (c : Cluster) (id : Uuid)
    → (Lacks id c.servers × (remove_server {E = E} c id ≡ ok (none, c)))
      ⊎ ((before : List ServerInfo) × (s : ServerInfo) × (after : List ServerInfo) × (c.servers
            ≡ before ++ s ∷ after)
          × (s.id ≡ id)
          × Lacks id before
          × (remove_server {E = E} c id ≡ ok (some s, record c { servers = before ++ after })))
unfolding remove_server
remove_server-splits c id = elim (Option-cases (position id c.servers)) [
  | inl e ↦ inl (position-none id c.servers e, rw (e, remove_server))
  | inr (i, e) ↦
      let p = position-SplitAt id c.servers i e in
      inr (p.before, p.hit, p.after, p.whole, p.has_id, p.lacks, ground (arith, p.removed))
]

abbrev pub DistinctIds : List ServerInfo → Type 0
DistinctIds [] = Unit
DistinctIds (s ∷ ss) = Lacks s.id ss × DistinctIds ss

Lacks-append :
    (id : Uuid) (before after : List ServerInfo) (s : ServerInfo)
    → Lacks id (before ++ s ∷ after)
    → (s.id ≢ id) × Lacks id (before ++ after)
Lacks-append id [] after s h = h
Lacks-append id (t ∷ before) after s h =
    let (ne, rest) = Lacks-append id before after s h.1 in (ne, (h.0, rest))

-- With the first server of an id out of the list, none has it.
pub middle-Lacks :
    (before after : List ServerInfo) (s : ServerInfo)
    → DistinctIds (before ++ s ∷ after)
    → Lacks s.id (before ++ after)
middle-Lacks [] after s d = d.0
middle-Lacks (t ∷ before) after s d =
    ((λ e. (Lacks-append t.id before after s d.0).0 (sym e)), middle-Lacks before after s d.1)

mem-middle :
    (before after : List ServerInfo) (s t : ServerInfo)
    → Mem t (before ++ after)
    → Mem t (before ++ s ∷ after)
mem-middle [] after s t m = mem-cons_of_mem s m
mem-middle (b ∷ before) after s t m =
    Or.elim Mem-prop (mem-cons.0 m)
      (λ e. subst (λ x. Mem x (b ∷ (before ++ s ∷ after))) (sym e) mem-cons_self)
      (λ n. mem-cons_of_mem b (mem-middle before after s t n))

-- Where ids are distinct, no server of the id is left, and those that are left were there before.
pub remove_server-Lacks {ℓ} :
    {E : Type ℓ} (c c' : Cluster) (id : Uuid) (o : Option ServerInfo)
    → DistinctIds c.servers
    → remove_server {E = E} c id ≡ ok (o, c')
    → Lacks id c'.servers
      × ((t : ServerInfo) → Mem t c'.servers → Mem t c.servers)
      × (c' ≡ record c { servers = c'.servers })
remove_server-Lacks {E} c c' id o d h = elim (remove_server-splits {E = E} c id) [
  | inl (none_has, e) ↦ let same : c ≡ c' = cc in rw (← same) (none_has, (λ t m. m), refl)
  | inr (before, s, after, whole, has_id, _, e) ↦
      let same : record c { servers = before ++ after } ≡ c' = cc in
      rw (← same) (
        subst (λ k. Lacks k (before ++ after)) has_id
            (middle-Lacks before after s (subst DistinctIds whole d)),
        (λ t m. subst (Mem t) (sym whole) (mem-middle before after s t m)),
        refl,
      )
]

-- The servers of other ids.
abbrev pub without : Uuid → List ServerInfo → List ServerInfo
without id [] = []
without id (s ∷ ss) = let rest = without id ss in if s.id == id then rest else s ∷ rest

without-Lacks : (id : Uuid) (ss : List ServerInfo) → Lacks id ss → without id ss ≡ ss
without-Lacks id [] t = refl
without-Lacks id (s ∷ ss) (other, more) = grind (arith, without-Lacks id ss more)

without-middle :
    (id : Uuid) (before after : List ServerInfo) (s : ServerInfo)
    → s.id ≡ id
    → Lacks id (before ++ after)
    → without id (before ++ s ∷ after) ≡ before ++ after
without-middle id [] after s same lacks = grind (arith, without-Lacks id after lacks)
without-middle id (b ∷ before) after s same (other, more) =
    grind (arith, without-middle id before after s same more)

-- Where ids are distinct, the servers of other ids are those that are left, in their order.
pub remove_server-without {ℓ} :
    {E : Type ℓ} (c c' : Cluster) (id : Uuid) (o : Option ServerInfo)
    → DistinctIds c.servers
    → remove_server {E = E} c id ≡ ok (o, c')
    → c'.servers ≡ without id c.servers
remove_server-without {E} c c' id o d h = elim (remove_server-splits {E = E} c id) [
  | inl (none_has, e) ↦
      let same : c ≡ c' = cc in rw (← same) (sym (without-Lacks id c.servers none_has))
  | inr (before, s, after, whole, has_id, _, e) ↦
      let same : record c { servers = before ++ after } ≡ c' = cc in
      rw (← same) (
        sym (
          ap (without id) whole
          ∙ without-middle id before after s has_id (
              subst (λ k. Lacks k (before ++ after)) has_id
                (middle-Lacks before after s (subst DistinctIds whole d)))))
]
