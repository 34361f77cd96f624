-- ===== src/Report/Saving.antt =====
-- The state that `put_cluster` keeps.
use laqista.Base.{◌≡◌, false, some, arith, is_none, Bool-cases, Option-cases, inl, inr}
use laqista.Types.{ClusterState}
use laqista.Utils.{cluster_differs}
use laqista.Utils.Differs.{cluster_differs_self}
use laqista.Report.{MetricsReporter, put_cluster}

-- After an answer with a group, the reporter holds a state that does not differ from it.
pub put_cluster_agrees :
    (r : MetricsReporter) (c : ClusterState)
    → is_none c.group ≡ false
    → (l : ClusterState) × ((put_cluster r (some c)).1.last_cluster_state ≡ some l)
      × (cluster_differs l c ≡ false)
unfolding put_cluster
put_cluster_agrees r c h = elim (Option-cases r.last_cluster_state) [
  | inl e ↦ (c, ground arith, ground (arith, cluster_differs_self c))
  | inr (l, e) ↦ elim (Bool-cases (cluster_differs l c)) [
    | inl changed ↦ (c, ground arith, ground (arith, cluster_differs_self c))
    | inr same ↦ (l, ground arith, same)
  ]
]
