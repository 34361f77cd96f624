-- ===== src/Base/Sort.antt =====
-- `Vec::sort` on texts, as an insertion sort: what the program relies on is the sorted order alone.
use Prim.Native.String.{String}
use mathlib.Core.Path.{◌≡◌, refl, sym, ap, subst, ◌∙◌}
use mathlib.Core.Logic.{◌↔◌, inl, inr}
use mathlib.Core.Bool.{Bool, true, false}
use mathlib.Core.HLevel.{hedberg}
use mathlib.Core.List.{List, [], ◌∷◌, foldr, Perm}
use mathlib.Core.List.Perm
use native.Mathlib.Omega.{arith}
use text.Mathlib.Text.{◌==◌}
use text.Mathlib.TextEquality.{eq_iff}
use laqista.Base.Tests.{if◌then◌else◌, Bool-cases}
use laqista.Base.Text.{str_le, str_le_total, str_le_trans, str_le_antisymm}

unfoldable pub insert_sorted : String → List String → List String
insert_sorted a [] = a ∷ []
insert_sorted a (b ∷ l) = if str_le a b then a ∷ b ∷ l else b ∷ insert_sorted a l

unfoldable pub sort : List String → List String
unfolding insert_sorted
sort [] = []
sort (a ∷ l) = insert_sorted a (sort l)

insert_sorted-perm : (a : String) (l : List String) → Perm (insert_sorted a l) (a ∷ l)
unfolding insert_sorted
insert_sorted-perm a [] = Perm.refl _
insert_sorted-perm a (b ∷ l) = elim (Bool-cases (str_le a b)) [
  | inl h ↦ rw h (Perm.refl _)
  | inr h ↦ rw h (Perm.trans (Perm.cons b (insert_sorted-perm a l)) (Perm.swap a b l))
]

pub sort-perm : (l : List String) → Perm (sort l) l
unfolding sort
sort-perm [] = Perm.refl _
sort-perm (a ∷ l) = Perm.trans (insert_sorted-perm a (sort l)) (Perm.cons a (sort-perm l))

-- Two insertions commute, sorted or not.
insert_sorted_comm :
    (a b : String) (l : List String)
    → insert_sorted a (insert_sorted b l) ≡ insert_sorted b (insert_sorted a l)
unfolding insert_sorted
insert_sorted_comm a b [] = ground (arith, str_le_total a b, str_le_antisymm a b)
insert_sorted_comm a b (c ∷ l) = ground (
  arith,
  str_le_total a b,
  str_le_antisymm a b,
  str_le_total a c,
  str_le_total b c,
  str_le_trans a b c,
  str_le_trans b a c,
  str_le_trans a c b,
  str_le_trans b c a,
  insert_sorted_comm a b l,
)

String-discrete : Discrete String
String-discrete s t = decided (s == t) refl
  where
    decided : (b : Bool) → (s == t) ≡ b → Dec (s ≡ t)
    decided true e = yes ((eq_iff s t).0 e)
    decided false e = no (λ p. cc (e, (eq_iff s t).1 p))

Texts-set : IsSet (List String)
Texts-set = hedberg (hlevel String-discrete)

sort-foldr : (l : List String) → sort l ≡ foldr insert_sorted [] l
unfolding sort
sort-foldr [] = refl
sort-foldr (a ∷ l) = ap (insert_sorted a) (sort-foldr l)

-- Sorting forgets the order of the list, and nothing else.
pub sort-eq_iff : (l m : List String) → (sort l ≡ sort m) ↔ Perm l m
sort-eq_iff l m = (
  λ e. Perm.trans (Perm.symm (sort-perm l)) (subst (λ k. Perm k m) (sym e) (sort-perm m)),
  λ p.
      sort-foldr l
      ∙ (Perm.foldr-eq Texts-set insert_sorted insert_sorted_comm p [] ∙ sym (sort-foldr m)),
)
