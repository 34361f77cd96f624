-- ===== src/Cluster/Membership.antt =====
-- The cluster as a bag of server ids: what the operations of src/scheduler.rs on the list of
-- servers come to, where the order of the list and the addresses are forgotten.
use mathlib.Core.Logic.Or
use mathlib.Core.Quot
use mathlib.Core.Quot.{Quot, Quot-set}
use mathlib.Core.List.{Mem, mem-cons, not-mem-nil}
use native.Mathlib.Bridge.{le_prop}
use native.Mathlib.Nat.{ℕ_set}
use laqista.Base.{
  inl, inr, ℕ, ◌<◌, ◌≤◌, ◌+◌, ◌≡◌, refl, sym, ap, subst, ◌∙◌, ◌==◌, if◌then◌else◌, ==_iff, List, [],
  ◌∷◌, ◌++◌, Option, ok, arith,
}
use laqista.IdMap.{Uuid}
use laqista.Types.{ServerInfo}
use laqista.Cluster.{Cluster, remove_server, choose_scheduler}
use laqista.Cluster.Removal.{Lacks, DistinctIds, middle-Lacks, remove_server-splits}
use laqista.Cluster.Election.{IsLowest, choose_scheduler-IsLowest}

-- How often a server of the id is in the list.
abbrev pub times : Uuid → List ServerInfo → ℕ
times id [] = 0
times id (s ∷ ss) = (if s.id == id then 1 else 0) + times id ss

abbrev pub SameIds : List ServerInfo → List ServerInfo → Type 0
SameIds ss ts = (id : Uuid) → times id ss ≡ times id ts

abbrev pub Members : Type 0
Members = Quot SameIds

abbrev pub view : Cluster → Members
view c = Quot.mk c.servers

abbrev pub without : Uuid → List ServerInfo → List ServerInfo
without id [] = []
without id (s ∷ ss) = if s.id == id then without id ss else s ∷ without id ss

times-without :
    (id j : Uuid) (ss : List ServerInfo)
    → times j (without id ss) ≡ (if id == j then 0 else times j ss)
times-without id j [] = ground arith
times-without id j (s ∷ ss) = ground (arith, times-without id j ss)

pub without-SameIds :
    (id : Uuid) (ss ts : List ServerInfo) → SameIds ss ts → SameIds (without id ss) (without id ts)
without-SameIds id ss ts h j =
    times-without id j ss ∙ ap (λ n. if id == j then 0 else n) (h j) ∙ sym (times-without id j ts)

-- What is promised: a server enters, all servers of an id leave, and a head has the lowest id.
abbrev pub enrol : ServerInfo → Members → Members
enrol s =
    Quot.lift Quot-set (λ ss. Quot.mk (s ∷ ss))
      (λ ss ts h. Quot.sound (λ id. ap (λ n. (if s.id == id then 1 else 0) + n) (h id)))

abbrev pub dismiss : Uuid → Members → Members
dismiss id =
    Quot.lift Quot-set (λ ss. Quot.mk (without id ss))
      (λ ss ts h. Quot.sound (without-SameIds id ss ts h))

abbrev pub count_of : Uuid → Members → ℕ
count_of id = Quot.lift ℕ_set (times id) (λ ss ts h. h id)

abbrev pub IsHead : Uuid → Members → Type 0
IsHead id m = (0 < count_of id m) × ((j : Uuid) → 0 < count_of j m → id ≤ j)

times-append :
    (id : Uuid) (before after : List ServerInfo)
    → times id (before ++ after) ≡ times id before + times id after
times-append id [] after = omega arith
times-append id (s ∷ before) after = omega (arith, times-append id before after)

times-Lacks : (id : Uuid) (ss : List ServerInfo) → Lacks id ss → times id ss ≡ 0
times-Lacks id [] h = refl
times-Lacks id (s ∷ ss) (ne, h) = ground (arith, times-Lacks id ss h)

times-mem : (s : ServerInfo) (ss : List ServerInfo) → Mem s ss → 0 < times s.id ss
times-mem s [] m = absurd (not-mem-nil m)
times-mem s (t ∷ ss) m =
    Or.elim le_prop (mem-cons.0 m) (λ e. ground (arith, ap (λ (x : ServerInfo). x.id) e))
      (λ n. omega (arith, times-mem s ss n))

times-IsLowest :
    (s : ServerInfo) (ss : List ServerInfo) → IsLowest s ss → (j : Uuid) → 0 < times j ss → s.id ≤ j
times-IsLowest s [] h j k = absurd (omega arith)
times-IsLowest s (t ∷ ss) (le, h) j k = ground (arith, times-IsLowest s ss h j)

middle-SameIds :
    (before after : List ServerInfo) (s : ServerInfo)
    → DistinctIds (before ++ s ∷ after)
    → SameIds (before ++ after) (without s.id (before ++ s ∷ after))
middle-SameIds before after s d j = ground (
  arith,
  times-without s.id j (before ++ s ∷ after),
  times-append j before after,
  times-append j before (s ∷ after),
  ==_iff s.id j,
  times-Lacks s.id (before ++ after) (middle-Lacks before after s d),
)

lacking-SameIds : (id : Uuid) (ss : List ServerInfo) → Lacks id ss → SameIds ss (without id ss)
lacking-SameIds id ss h j = ground (arith, times-without id j ss, ==_iff id j, times-Lacks id ss h)

pub remove_server-dismiss {ℓ} :
    {E : Type ℓ} (c c' : Cluster) (id : Uuid) (o : Option ServerInfo)
    → DistinctIds c.servers
    → remove_server {E = E} c id ≡ ok (o, c')
    → view c' ≡ dismiss id (view c)
remove_server-dismiss {E} c c' id o d h = elim (remove_server-splits {E = E} c id) [
  | inl (lacks, e) ↦
      let same : c ≡ c' = cc in ap view (sym same) ∙ Quot.sound (lacking-SameIds id c.servers lacks)
  | inr (before, s, after, whole, has_id, _, e) ↦
      let same : record c { servers = before ++ after } ≡ c' = cc in
      ap view (sym same)
      ∙ Quot.sound (middle-SameIds before after s (subst DistinctIds whole d))
      ∙ (λ i. dismiss (has_id i) (Quot.mk (sym whole i)))
]

pub choose_scheduler-IsHead {ℓ} :
    {E : Type ℓ} (c c' : Cluster) (s : ServerInfo)
    → choose_scheduler {E = E} c ≡ ok (s, c')
    → IsHead s.id (view c) × (view c' ≡ view c)
choose_scheduler-IsHead {E} c c' s h =
    let (member, low, same) = choose_scheduler-IsLowest {E = E} c c' s h in
    ((times-mem s c.servers member, times-IsLowest s c.servers low), ap view same)

pub enrol-last :
    (c : Cluster) (s : ServerInfo)
    → view (record c { servers = c.servers ++ s ∷ [] }) ≡ enrol s (view c)
enrol-last c s = Quot.sound (λ j. ground (arith, times-append j c.servers (s ∷ [])))
