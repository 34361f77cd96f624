-- ===== src/Utils/Differs.antt =====
-- When two cluster states differ.
use mathlib.Core.List.{Perm}
use mathlib.Core.List.Perm
use laqista.Base.{
  ◌≡◌, refl, ap, ◌↔◌, String, Bool, true, false, not, List, [], ◌∷◌, Option, none, some, arith,
  str_eq_iff, length, is_none, ==_self, Option-cases, inl, inr,
}
use laqista.Base.Sort.{sort, sort-eq_iff}
use laqista.Types.{Server, Group, ClusterState, AppInstanceLocations}
use laqista.Utils.{
  texts_eq, server_ids, group_differs, servers_differ, instances_differ, group_changed,
  cluster_differs,
}

texts_eq_iff : (ss ts : List String) → (texts_eq ss ts ≡ true) ↔ (ss ≡ ts)
unfolding texts_eq
texts_eq_iff [] [] = ground arith
texts_eq_iff [] (t ∷ ts) = ground arith
texts_eq_iff (s ∷ ss) [] = ground arith
texts_eq_iff (s ∷ ss) (t ∷ ts) = ground (arith, str_eq_iff s t, texts_eq_iff ss ts)

true_of_not : (b : Bool) → not b ≡ false → b ≡ true
true_of_not b h = ground arith

-- The servers are the same when their ids are, as a multiset: the order does not count.
pub servers_differ_iff :
    (a b : List Server) → (servers_differ a b ≡ false) ↔ Perm (server_ids a) (server_ids b)
unfolding servers_differ
servers_differ_iff a b =
    let same = texts_eq_iff (sort (server_ids a)) (sort (server_ids b)) in
    let perm = sort-eq_iff (server_ids a) (server_ids b) in
    (λ e. perm.0 (same.0 (true_of_not _ e)), λ p. ap not (same.1 (perm.1 p)))

group_differs_self : (g : Group) → group_differs g g ≡ false
unfolding group_differs
group_differs_self g = elim (Option-cases g.scheduler) [
  | inl e ↦ rw (e, group_differs)
  | inr (s, e) ↦ ground (arith, (str_eq_iff s.id s.id).1 refl)
]

pub group_changed_self : (g : Option Group) → group_changed g g ≡ is_none g
unfolding group_changed
group_changed_self none = refl
group_changed_self (some g) = group_differs_self g

instances_differ_self : (l : List AppInstanceLocations) → instances_differ l l ≡ false
unfolding instances_differ
instances_differ_self l = ap not (==_self (length l))

-- A cluster state differs from itself exactly if it has no group.
pub cluster_differs_self : (a : ClusterState) → cluster_differs a a ≡ is_none a.group
unfolding cluster_differs
cluster_differs_self a = ground (
  arith,
  group_changed_self a.group,
  (servers_differ_iff a.servers a.servers).1 (Perm.refl _),
  instances_differ_self a.instances,
)
