-- ===== src/Rpc/Reachable.antt =====
-- The states of the scheduler that its handlers reach, one after another.
use laqista.Base.{◌≡◌, subst, sym}
use laqista.Base.Task.{Shared}
use laqista.IdMap.{Uuid}
use laqista.Types.{Crates, DeploymentInfo, JoinRequest, ReportRequest, IsUuid}
use laqista.Scheduler.Mean.{Floats, mean_scheduler}
use laqista.Cluster.Invariant.{IsWellFormed}
use laqista.Runtime.{AppStore, RuntimeOf, Network}
use laqista.Rpc.{join, report, removing, deploy_in_us}
use laqista.Rpc.Invariant.{
  join-IsWellFormed, report-IsWellFormed, removing-IsWellFormed, deploy_in_us-IsWellFormed,
}

module _ ⦃k : Crates⦄ ⦃f : Floats⦄ ⦃a : AppStore⦄ where
  -- One handler, run on the shared runtime. While a deployment waits for the network other
  -- handlers may run: those are again steps, and `others` is what they come to.
  mutual
    pub data Handles : Shared RuntimeOf → Shared RuntimeOf → Type 0 where
      joins :
          {m m' : Shared RuntimeOf} (request : JoinRequest) → (join request m).1 ≡ m' → Handles m m'
      reports :
          {m m' : Shared RuntimeOf} (request : ReportRequest)
          → (report request m).1 ≡ m'
          → Handles m m'
      removes : {m m' : Shared RuntimeOf} (id : Uuid) → (removing id m).1 ≡ m' → Handles m m'
      deploys :
          {m m' between : Shared RuntimeOf} (net : Network) (others : RuntimeOf → RuntimeOf)
          (d : DeploymentInfo)
          → IsUuid d.id
          → m.inner.scheduler ≡ mean_scheduler
          → Reaches m between
          → others m.inner ≡ between.inner
          → (deploy_in_us net others d m).1 ≡ m'
          → Handles m m'

    pub data Reaches : Shared RuntimeOf → Shared RuntimeOf → Type 0 where
      start : {m : Shared RuntimeOf} → Reaches m m
      after :
          {m between m' : Shared RuntimeOf} → Handles m between → Reaches between m' → Reaches m m'

  abbrev pub Holds : Shared RuntimeOf → Type 0
  Holds m = IsWellFormed m.inner.cluster

  mutual
    held_over : {m m' : Shared RuntimeOf} → Handles m m' → Holds m → Holds m'
    held_over {m} (joins request e) w = subst Holds e (join-IsWellFormed request m w)
    held_over {m} (reports request e) w = subst Holds e (report-IsWellFormed request m w)
    held_over {m} (removes id e) w = subst Holds e (removing-IsWellFormed id m w)
    held_over {m} (deploys net others d valid policy meanwhile same e) w = subst Holds e (
        deploy_in_us-IsWellFormed net others d m valid policy w
          (subst (λ (r : RuntimeOf). IsWellFormed r.cluster) (sym same) (held_along meanwhile w)))

    held_along : {m m' : Shared RuntimeOf} → Reaches m m' → Holds m → Holds m'
    held_along start w = w
    held_along (after step rest) w = held_along rest (held_over step w)

  -- From a well-formed cluster, joins, reports, deployments under valid ids by the policy of
  -- mean.rs and removals of failed servers reach only well-formed ones, however each of them ends,
  -- and also where handlers run while a deployment waits for the network.
  pub reachable-IsWellFormed :
      {m m' : Shared RuntimeOf}
      → Reaches m m'
      → IsWellFormed m.inner.cluster
      → IsWellFormed m'.inner.cluster
  reachable-IsWellFormed = held_along
