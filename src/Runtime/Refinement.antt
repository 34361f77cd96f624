-- ===== src/Runtime/Refinement.antt =====
-- The promise that the scheduler's operations on the membership keep (src/scheduler.rs).
use laqista.Base.{String, List, Option, ok, ◌≡◌, sym, ap, ◌∙◌}
use laqista.IdMap.{Uuid}
use laqista.Types.{ServerInfo, DeploymentInfo}
use laqista.Scheduler.Stats.{ServerStats}
use laqista.Cluster.{Cluster, remove_server, choose_scheduler, insert_instance, insert_stats}
use laqista.Cluster.Removal.{DistinctIds}
use laqista.Cluster.Membership.{
  Members, view, enrol, dismiss, IsHead, remove_server-dismiss, choose_scheduler-IsHead, enrol-last,
}
use laqista.Runtime.{SchedulerRuntime, push_server}

pub data Change : Type 0 where
  joins : ServerInfo → Change
  leaves : Uuid → Change
  leads : ServerInfo → Change
  runs : DeploymentInfo → List ServerInfo → Change
  reports : ServerStats → Change

-- What the code does.
module _ {S : Type 0} where
  abbrev pub Does : Change → SchedulerRuntime S → Cluster → Type 0
  Does (joins s) r c' = (push_server s r).cluster ≡ c'
  Does (leaves id) r c' =
      (o : Option ServerInfo) × (remove_server {E = String} r.cluster id ≡ ok (o, c'))
  Does (leads s) r c' = choose_scheduler {E = String} r.cluster ≡ ok (s, c')
  Does (runs d ss) r c' = insert_instance r.cluster d ss ≡ c'
  Does (reports stats) r c' = insert_stats r.cluster stats ≡ c'

-- What is promised: one server more, none of the id, a head, or no change.
abbrev pub Promised : Change → Members → Members → Type 0
Promised (joins s) m m' = m' ≡ enrol s m
Promised (leaves id) m m' = m' ≡ dismiss id m
Promised (leads s) m m' = IsHead s.id m × (m' ≡ m)
Promised (runs d ss) m m' = m' ≡ m
Promised (reports stats) m m' = m' ≡ m

module _ {S : Type 0} where
  -- As long as ids are distinct, the operations on a cluster refine those on the bag of its
  -- servers' ids: `push_server` adds one server, `remove_server` leaves none of the id,
  -- `choose_scheduler` elects a lowest id and keeps the bag, and neither an instance nor a report
  -- changes it.
  pub membership_refines :
      (e : Change) (r : SchedulerRuntime S) (c' : Cluster)
      → DistinctIds r.cluster.servers
      → Does e r c'
      → Promised e (view r.cluster) (view c')
  unfolding push_server insert_instance insert_stats
  membership_refines (joins s) r c' d h = ap view (sym h) ∙ enrol-last r.cluster s
  membership_refines (leaves id) r c' d (o, h) =
      remove_server-dismiss {E = String} r.cluster c' id o d h
  membership_refines (leads s) r c' d h = choose_scheduler-IsHead {E = String} r.cluster c' s h
  membership_refines (runs deployment ss) r c' d h = ap view (sym h)
  membership_refines (reports stats) r c' d h = ap view (sym h)
