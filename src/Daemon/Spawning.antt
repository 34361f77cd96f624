-- ===== src/Daemon/Spawning.antt =====
-- What a scheduler and a daemon make of one spawn together, and when a daemon tells its state.
use laqista.Base.{
  inl, inr, Outcome-cases, ◌∙◌, ◌≡◌, ◌↔◌, refl, ap, String, true, none, some, arith, Outcome, ok,
  err, panic, blocked,
}
use laqista.Base.Text.{str_append}
use laqista.Base.Task.{Shared}
use laqista.Types.{
  Crates, Error, request_error, Status, abort, from_status, ServerInfo, DeploymentInfo,
  SpawnRequest, SpawnResponse, IsUuid,
}
use laqista.Types.Convert.{into_deployment}
use laqista.Types.RoundTrip.{deployment_info_from-into_deployment}
use laqista.Runtime.{AppStore, SchedulerRuntime, Network, spawn_on}
use laqista.Daemon.{DaemonState, joining, running, authoritative, failed}
use laqista.Daemon.Handlers.{ServerDaemon, spawn, get_info, group_of, store_instance}

module _ ⦃k : Crates⦄ ⦃a : AppStore⦄ where
  abbrev pub request_for : DeploymentInfo → SpawnRequest
  request_for d = record { deployment = some (into_deployment d) }

  spawn-into_deployment :
      (d : DeploymentInfo) (daemon : ServerDaemon a.Store)
      → IsUuid d.id
      → spawn (request_for d) daemon ≡ store_instance d daemon
  unfolding spawn
  spawn-into_deployment d daemon valid = rw (spawn, deployment_info_from-into_deployment d valid)

  -- What the scheduler gets from a database that ends so.
  unfoldable pub stored : Outcome String (Unit {0}) → Outcome Error SpawnResponse
  stored (ok _) = ok (record { success = true; deployment = none; server = none })
  stored (err e) =
      err (request_error (abort (str_append "failed to insert deployment into database: " e)))
  stored panic = panic
  stored blocked = blocked

  spawn_on-answered :
      (net : Network) (d : DeploymentInfo) (target : ServerInfo) (daemon : ServerDaemon a.Store)
      → net.connect target ≡ ok tt
      → net.spawn target (request_for d) ≡ (store_instance d daemon).0
      → spawn_on net d target ≡ stored (a.add_instance d daemon.runtime.database).0
  unfolding spawn_on from_status stored
  spawn_on-answered net d target daemon connected answered =
      rw (connected, answered)
        (elim (Outcome-cases (a.add_instance d daemon.runtime.database).0) [
          | inl (_, e) ↦ rw e refl
          | inr (inl (m, e)) ↦ rw e refl
          | inr (inr (inl e)) ↦ rw e refl
          | inr (inr (inr e)) ↦ rw e refl
        ])

  -- A deployment with a valid id, spawned on a daemon that can be reached and that answers by its
  -- handler: the database of the daemon takes in that very deployment. The scheduler gets a success
  -- where the database succeeds, and the database's error as the error of a request where it fails.
  pub spawn_on-spawn :
      (net : Network) (d : DeploymentInfo) (target : ServerInfo) (daemon : ServerDaemon a.Store)
      → IsUuid d.id
      → net.connect target ≡ ok tt
      → net.spawn target (request_for d) ≡ (spawn (request_for d) daemon).0
      → (spawn_on net d target ≡ stored (a.add_instance d daemon.runtime.database).0)
        × ((spawn (request_for d) daemon).1.runtime.database
            ≡ (a.add_instance d daemon.runtime.database).1)
  spawn_on-spawn net d target daemon valid connected answered =
      let same = spawn-into_deployment d daemon valid in
      (
        spawn_on-answered net d target daemon connected
            (answered ∙ ap (λ (x : Outcome Status SpawnResponse × ServerDaemon a.Store). x.0) same),
        rw same refl,
      )

module _ ⦃k : Crates⦄ {S : Type 0} where
  -- A daemon waits with the answer to `get_info` exactly when it holds a scheduler whose mutex is
  -- held.
  pub get_info-blocked_iff :
      (d : ServerDaemon S)
      → (get_info d ≡ blocked)
        ↔ ((s : Shared (SchedulerRuntime S)) × (d.state ≡ authoritative s) × (s.held ≡ true))
  unfolding get_info group_of
  get_info-blocked_iff d =
      (λ h. waits d.state (ground arith), λ (s, e, held). ground (arith, e, held))
    where
      waits :
          (state : DaemonState S)
          → group_of state ≡ blocked
          → (s : Shared (SchedulerRuntime S)) × (state ≡ authoritative s) × (s.held ≡ true)
      waits (joining addr) h = absurd (ground arith)
      waits (running g) h = absurd (ground arith)
      waits failed h = absurd (ground arith)
      waits (authoritative s) h = (s, refl, ground arith)
