-- ===== src/Daemon/Reporters.antt =====
-- The reporters that the services of src/server/run.rs start: `start_reporter`, and where
-- `start_running` and `start_authoritative` cancel the token that it returns.
use laqista.Base.{
  ℕ, zero, suc, ◌≡◌, map, Bool, true, false, if◌then◌else◌, List, [], ◌∷◌, ◌++◌, length, Option,
  some, none, ok, err, panic, blocked,
}
use laqista.Types.{Crates, ServerInfo}
use laqista.Scheduler.Mean.{Floats}
use laqista.Daemon.{
  DaemonState, running, joining, authoritative, failed, StateCommand, update, become_scheduler,
  keep,
}
use laqista.Report.Task.{Wake, cancelled, Progress, waiting, new, reporter_task}
use laqista.Base.{String, Outcome}
use laqista.Daemon.Run.{Event, serviced, received, turn}

-- A reporter that has been started: whom it reports to, and whether its token is cancelled.
pub record Reporter : Type 0 where
  pub server : ServerInfo
  pub scheduler : ServerInfo
  pub cancelled : Bool

-- `start_reporter`. The token is the place among all reporters.
unfoldable pub start_reporter : ServerInfo → ServerInfo → List Reporter → ℕ × List Reporter
start_reporter server scheduler all =
    (length all, all ++ record { server = server; scheduler = scheduler; cancelled = false } ∷ [])

unfoldable pub cancel : ℕ → List Reporter → List Reporter
cancel token [] = []
cancel zero (r ∷ all) = record r { cancelled = true } ∷ all
cancel (suc token) (r ∷ all) = r ∷ cancel token all

module _ {S : Type 0} where
  -- Whom the reporter of a state reports to. The scheduler's mutex is locked to find it out.
  abbrev pub reports_to : DaemonState S → Option ServerInfo
  reports_to (running group) = some group.scheduler_info
  reports_to (authoritative s) = if s.held then none else some s.inner.cluster.group.scheduler_info
  reports_to (joining addr) = none
  reports_to failed = none

  -- A service that serves until its end cancels the token. An error of it returns before, and a
  -- service that is dropped because a command has come in gets no further.
  abbrev pub after_service : Event S → ℕ → List Reporter → List Reporter
  after_service (received command) token all = all
  after_service (serviced out) token all = elim out.serve [
    | ok t ↦ cancel token all
    | err e ↦ all
    | panic ↦ all
    | blocked ↦ all
  ]

  -- The reporters after one turn of the loop. The service is polled first: it has started its
  -- reporter before the loop takes a command.
  unfoldable pub turn_reporters :
      ServerInfo → DaemonState S → Event S → List Reporter → List Reporter
  unfolding start_reporter cancel
  turn_reporters info state event all = elim (reports_to state) [
    | none ↦ all
    | some scheduler ↦
        let (token, all) = start_reporter info scheduler all in after_service event token all
  ]

module _ ⦃k : Crates⦄ ⦃f : Floats⦄ {S : Type 0} where
  -- The reporters after the turns of a run.
  unfoldable pub run_reporters :
      ServerInfo → S → DaemonState S → List (Event S) → List Reporter → List Reporter
  unfolding turn_reporters turn
  run_reporters info database state [] all = all
  run_reporters info database state (event ∷ events) all =
      let now = turn_reporters info state event all in
      elim (turn info database state event) [
        | ok next ↦ run_reporters info database next events now
        | err e ↦ now
        | panic ↦ now
        | blocked ↦ now
      ]

-- What a reporter's token adds to what its task meets.
abbrev cancellation : {S : Type 0} → Bool → List (Wake S)
cancellation true = cancelled ∷ []
cancellation false = []

abbrev waits : Outcome String Progress → Bool
waits (ok waiting) = true
waits _ = false

module _ ⦃k : Crates⦄ {S : Type 0} (windows : ℕ → List (Wake S)) where
  -- Whether the task of a reporter is at work, once it has met the windows of its place, and the
  -- cancellation if there is one.
  unfoldable pub works : ℕ → Reporter → Bool
  unfolding reporter_task
  works place r =
      waits (reporter_task (new r.server r.scheduler) (windows place ++ cancellation r.cancelled)).0

  -- The reporters that are at work, from a place on.
  unfoldable pub working : ℕ → List Reporter → ℕ
  unfolding works
  working place [] = 0
  working place (r ∷ all) =
      let rest = working (suc place) all in if works place r then suc rest else rest

module _ {S : Type 0} where
  -- The service of this state starts a reporter.
  abbrev pub Reports : DaemonState S → Type 0
  Reports state = (to : ServerInfo) × (reports_to state ≡ some to)

  -- A command after which the next service starts a reporter too.
  abbrev pub Renews : StateCommand S → Type 0
  Renews keep = Unit
  Renews (update new) = Reports new
  Renews (become_scheduler c) = Unit

  abbrev pub commanded : List (StateCommand S) → List (Event S)
  commanded = map (λ c. received (some c))
