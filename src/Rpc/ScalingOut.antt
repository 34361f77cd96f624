-- ===== src/Rpc/ScalingOut.antt =====
-- Scaling out: the task that `lookup` spawns holds the mutex of the runtime while `deploy_in_us`
-- waits for it.
use laqista.Base.{◌≡◌, refl, true, false, some, arith, ok, blocked, Option-cases, inl, inr}
use laqista.Base.Task.{Shared}
use laqista.IdMap.{get}
use laqista.Types.{Crates, DeploymentInfo}
use laqista.Scheduler.Stats.{ServerStats}
use laqista.Runtime.{AppStore, RuntimeOf, Network, Background}
use laqista.Rpc.{deploy_in_us, scale_out}

module _ ⦃k : Crates⦄ ⦃a : AppStore⦄ where
  -- While somebody holds the mutex, `deploy_in_us` waits, before it does anything.
  deploy_in_us_waits :
      (net : Network) (others : RuntimeOf → RuntimeOf) (d : DeploymentInfo) (m : Shared RuntimeOf)
      → m.held ≡ true
      → deploy_in_us net others d m ≡ (blocked, m)
  unfolding deploy_in_us
  deploy_in_us_waits net others d m h = ground arith

  -- Whenever the policy, by the statistics of the target, asks to scale out a known deployment,
  -- and the mutex is free at the start, the task waits for the mutex that it holds itself: it
  -- never ends, and it leaves the mutex held.
  pub scale_out_deadlocks :
      (net : Network) (others : RuntimeOf → RuntimeOf) (b : Background) (m : Shared RuntimeOf)
      (stats : ServerStats) (d : DeploymentInfo)
      → m.held ≡ false
      → get m.inner.cluster.server_stats b.target.id ≡ some stats
      → m.inner.scheduler.needs_scale_out b.target stats ≡ ok true
      → get m.inner.deployments b.id ≡ some d
      → scale_out net others b m ≡ (blocked, record m { held = true })
  unfolding scale_out
  scale_out_deadlocks net others b m stats d free reported needs known =
      ground (arith, deploy_in_us_waits net others d (record m { held = true }) refl)

  -- Whatever becomes of the task, the runtime stays as it was: scaling out never adds an instance.
  pub scale_out_never_deploys :
      (net : Network) (others : RuntimeOf → RuntimeOf) (b : Background) (m : Shared RuntimeOf)
      → (scale_out net others b m).1.inner ≡ m.inner
  unfolding scale_out
  scale_out_never_deploys net others b m = elim (Option-cases (get m.inner.deployments b.id)) [
    | inl e ↦ ground arith
    | inr (d, e) ↦ ground (arith, deploy_in_us_waits net others d (record m { held = true }) refl)
  ]
