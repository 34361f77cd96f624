-- ===== src/Daemon/Reachable.antt =====
-- The states that a daemon reaches.
use laqista.Base.{
  ◌≡◌, ◌≢◌, ap, subst, String, List, [], ◌∷◌, Option, none, some, arith, ok, All, >>=-ok,
}
use laqista.Types.{Crates, ServerInfo}
use laqista.Scheduler.Mean.{Floats}
use laqista.Daemon.{
  DaemonState, joining, running, authoritative, failed, StateCommand, update, become_scheduler,
  keep,
}
use laqista.Daemon.Run.{
  Outside, Event, serviced, received, start_service, join_cluster, determine_state, next_state,
  state_command, turn, run_start,
}

module _ {S : Type 0} where
  -- The commands that the program sends over the channel: a reporter's, and the database's `Keep`.
  abbrev pub IsSent : StateCommand S → Type 0
  IsSent keep = Unit
  IsSent (become_scheduler c) = Unit
  IsSent (update (joining addr)) = Unit
  IsSent (update _) = ⊥

  abbrev pub IsExpected : Event S → Type 0
  IsExpected (serviced out) = Unit
  IsExpected (received none) = Unit
  IsExpected (received (some command)) = IsSent command

module _ ⦃k : Crates⦄ ⦃f : Floats⦄ {S : Type 0} where
  -- A service never ends in the failed state.
  start_service-succeeds :
      (out : Outside S) (info : ServerInfo) (state : DaemonState S) (command : StateCommand S)
      → start_service out info state ≡ ok command
      → command ≢ update failed
  unfolding start_service join_cluster
  start_service-succeeds out info (joining addr) command h = ground arith
  start_service-succeeds out info (running group) command h = ground arith
  start_service-succeeds out info (authoritative s) command h = ground arith
  start_service-succeeds out info failed command h = ground arith

  next_state-succeeds :
      (database : S) (state : DaemonState S) (command : StateCommand S)
      → command ≢ update failed
      → state ≢ failed
      → next_state database state command ≢ failed
  unfolding next_state
  next_state-succeeds database state keep sent live = live
  next_state-succeeds database state (update new) sent live = λ e. sent (ap (λ x. update x) e)
  next_state-succeeds database state (become_scheduler c) sent live = λ e. cc

  IsSent-succeeds : (command : StateCommand S) → IsSent command → command ≢ update failed
  IsSent-succeeds keep sent = λ e. cc
  IsSent-succeeds (become_scheduler c) sent = λ e. cc
  IsSent-succeeds (update (joining addr)) sent = λ e. cc
  IsSent-succeeds (update (running g)) sent = absurd sent
  IsSent-succeeds (update (authoritative s)) sent = absurd sent
  IsSent-succeeds (update failed) sent = absurd sent

  state_command-succeeds :
      (info : ServerInfo) (state : DaemonState S) (event : Event S) (command : StateCommand S)
      → IsExpected event
      → state_command info state event ≡ ok command
      → command ≢ update failed
  state_command-succeeds info state (serviced out) command expected h =
      start_service-succeeds out info state command h
  state_command-succeeds info state (received none) command expected h = cc
  state_command-succeeds info state (received (some sent)) command expected h =
      subst (λ c. c ≢ update failed) (cc) (IsSent-succeeds sent expected)

  turn-succeeds :
      (info : ServerInfo) (database : S) (state next : DaemonState S) (event : Event S)
      → IsExpected event
      → state ≢ failed
      → turn info database state event ≡ ok next
      → next ≢ failed
  unfolding turn
  turn-succeeds info database state next event e live h =
      let (command, found, same) = >>=-ok (state_command info state event) _ h in
      let sent = state_command-succeeds info state event command e found in
      subst (λ s. s ≢ failed) (cc) (next_state-succeeds database state command sent live)

  run_start-succeeds :
      (info : ServerInfo) (database : S) (state last : DaemonState S) (events : List (Event S))
      → All IsExpected events
      → state ≢ failed
      → run_start info database state events ≡ ok last
      → last ≢ failed
  unfolding run_start
  run_start-succeeds info database state last [] expected live h = subst (λ s. s ≢ failed) (cc) live
  run_start-succeeds info database state last (event ∷ events) expected live h =
      let (next, one, rest) = >>=-ok (turn info database state event) _ h in
      run_start-succeeds info database next last events expected.1
        (turn-succeeds info database state next event expected.0 live one) rest

  -- A daemon never gets into the failed state, in which its service panics, by the commands that
  -- the program sends, however it was started and whatever its services meet.
  pub never_failed :
      (bootstrap : Option String) (info : ServerInfo) (database : S) (last : DaemonState S)
      (events : List (Event S))
      → All IsExpected events
      → run_start info database (determine_state bootstrap info database) events ≡ ok last
      → last ≢ failed
  unfolding determine_state
  never_failed none info database last events expected h =
      run_start-succeeds info database _ last events expected (ground arith) h
  never_failed (some addr) info database last events expected h =
      run_start-succeeds info database _ last events expected (ground arith) h
