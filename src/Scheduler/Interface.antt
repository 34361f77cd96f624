-- ===== src/Scheduler/Interface.antt =====
-- src/scheduler/interface.rs: a policy that picks a server from the statistics. A method may panic.
use laqista.Base.{Bool, Option, Outcome}
use laqista.Types.{Error, ServerInfo}
use laqista.Scheduler.Stats.{ServerStats, StatsMap}

pub record DeploymentScheduler : Type 0 where
  pub schedule : StatsMap → Outcome Error (Option ServerInfo)
  pub schedule_gpu : StatsMap → Outcome Error (Option ServerInfo)
  pub needs_scale_out : ServerInfo → ServerStats → Outcome Error Bool
