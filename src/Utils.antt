-- ===== src/Utils.antt =====
-- src/utils.rs: the length of a monitoring window, percentages, and the comparison of two cluster
-- states.
pub mod Window
pub mod Differs
use laqista.Base.{
  ℕ, ◌^◌, String, Bool, true, false, not, ◌&&◌, ◌||◌, List, [], ◌∷◌, map, Option, none, some, ◌==◌,
  str_eq, length,
}
use laqista.Base.Int.{ℤ, pos, ◌+ℤ◌, ◌-ℤ◌, ◌*ℤ◌, as_i64}
use laqista.Base.Sort.{sort}
use laqista.Types.{Server, Group, ClusterState, AppInstanceLocations, Timestamp}

-- `seconds << 32` in 64 bits.
unfoldable pub shl32 : ℤ → ℤ
shl32 s = as_i64 (s *ℤ pos (2 ^ 32))

-- The sums are taken in 128 bits, where they cannot overflow. Both add the seconds of `end`.
unfoldable pub subtract_window : Timestamp → Timestamp → ℤ
subtract_window end start =
    let start_i128 = start.nanos +ℤ shl32 end.seconds in
    let end_i128 = end.nanos +ℤ shl32 end.seconds in as_i64 (end_i128 -ℤ start_i128)

-- Equality of two vectors of texts.
unfoldable pub texts_eq : List String → List String → Bool
texts_eq [] [] = true
texts_eq [] (t ∷ ts) = false
texts_eq (s ∷ ss) [] = false
texts_eq (s ∷ ss) (t ∷ ts) = str_eq s t && texts_eq ss ts

abbrev pub server_ids : List Server → List String
server_ids = map (λ s. s.id)

-- Do two groups that both name a scheduler name different ones?
unfoldable pub group_differs : Group → Group → Bool
group_differs a b = elim a.scheduler [
  | none ↦ false
  | some s_a ↦ elim b.scheduler [ none ↦ false | some s_b ↦ not (str_eq s_a.id s_b.id) ]
]

unfoldable pub servers_differ : List Server → List Server → Bool
servers_differ a b = not (texts_eq (sort (server_ids a)) (sort (server_ids b)))

unfoldable pub instances_differ : List AppInstanceLocations → List AppInstanceLocations → Bool
instances_differ a b = not (length a == length b)

unfoldable pub group_changed : Option Group → Option Group → Bool
group_changed (some g_a) (some g_b) = group_differs g_a g_b
group_changed none none = true
group_changed _ _ = false

unfoldable pub cluster_differs : ClusterState → ClusterState → Bool
cluster_differs a b =
    group_changed a.group b.group
    || servers_differ a.servers b.servers
    || instances_differ a.instances b.instances
