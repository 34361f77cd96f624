-- ===== src/Report/Task.antt =====
-- `new`, `start` and `stop` of src/report.rs: the task of a reporter, which reports the windows of
-- its monitor until it is cancelled.
use mathlib.Core.List.{append-nil}
use laqista.Base.{
  sym, if◌then◌else◌, ap, ◌≡◌, refl, ◌∙◌, Bool, true, false, List, [], ◌∷◌, ◌++◌, ◌⊎◌, inl, inr,
  All, none, String, Outcome, ok, err, panic, blocked,
}
use laqista.Types.{
  Crates, Status, ServerInfo, MonitorWindow, ReportRequest, ReportResponse, display, from_status,
}
use laqista.Report.{Peer, Reporting, request_of, put_cluster, report}

-- A reporter, with whether its end of the channel is there, and whether its monitor is running.
pub record Started (S : Type 0) : Type 0 where
  pub reporting : Reporting S
  pub receiving : Bool
  pub monitoring : Bool

-- `MetricsReporter::new`: the monitor is spawned, and no state of the cluster is known.
abbrev pub new : {S : Type 0} → ServerInfo → ServerInfo → Started S
new server scheduler = record {
  reporting = record {
    reporter = record { scheduler = scheduler; server = server; last_cluster_state = none };
    sent = [];
  };
  receiving = true;
  monitoring = true;
}

-- What the loop selects: a window, with the scheduler as the report of it meets it, or the
-- cancellation. That the monitor has ended disables its branch, and is no event.
pub data Wake (S : Type 0) : Type 0 where
  window : Peer S → MonitorWindow → Wake S
  cancelled : Wake S

-- Whether the task has ended, or waits for more.
pub data Progress : Type 0 where
  stopped waiting : Progress

-- `stop`
unfoldable pub stop : {S : Type 0} → Started S → Started S
stop s = record s { monitoring = false }

-- The next window of the monitor, which is sent over the channel: without a receiver, `expect` is a
-- panic of the monitor.
unfoldable pub monitor_sends : {S : Type 0} → Started S → Outcome String (Unit {0}) × Started S
monitor_sends s = if s.receiving then (ok tt, s) else (panic, record s { monitoring = false })

-- A task that ends, in a panic too, drops the reporter that it owns, and with it the end of the
-- channel.
abbrev pub dropping :
    {S : Type 0} → Outcome String Progress × Started S → Outcome String Progress × Started S
dropping (ok waiting, s) = (ok waiting, s)
dropping (blocked, s) = (blocked, s)
dropping (ok stopped, s) = (ok stopped, record s { receiving = false })
dropping (err e, s) = (err e, record s { receiving = false })
dropping (panic, s) = (panic, record s { receiving = false })

module _ ⦃k : Crates⦄ {S : Type 0} where
  -- `expect`: a report that fails is a panic of the task.
  abbrev pub expecting :
      Outcome String (Unit {0}) × Reporting S
      → Started S
      → (Started S → Outcome String Progress × Started S)
      → Outcome String Progress × Started S
  expecting (ok t, reporting) s next = next (record s { reporting = reporting })
  expecting (err e, reporting) s next = (panic, record s { reporting = reporting })
  expecting (panic, reporting) s next = (panic, record s { reporting = reporting })
  expecting (blocked, reporting) s next = (blocked, record s { reporting = reporting })

  unfoldable pub start : Started S → List (Wake S) → Outcome String Progress × Started S
  unfolding stop
  start s [] = (ok waiting, s)
  start s (cancelled ∷ events) = (ok stopped, stop s)
  start s (window peer metrics ∷ events) =
      expecting (report peer s.reporting metrics) s (λ next. start next events)

  -- The task that `start_reporter` of src/server/run.rs spawns.
  unfoldable pub reporter_task : Started S → List (Wake S) → Outcome String Progress × Started S
  unfolding start
  reporter_task s events = dropping (start s events)

  -- The scheduler cannot be reached, or it answers with a status other than success.
  abbrev pub IsLost : Peer S → Type 0
  IsLost peer =
      ((addr : String) → (e : String) × (peer.connect addr ≡ err e))
      ⊎ (((addr : String) → peer.connect addr ≡ ok tt)
          × ((q : ReportRequest) → (e : Status) × (peer.report q ≡ err e)))

  report-lost :
      (peer : Peer S) (s : Reporting S) (metrics : MonitorWindow)
      → IsLost peer
      → (e : String) × (report peer s metrics ≡ (err e, s))
  unfolding report from_status
  report-lost peer s metrics (inl unreachable) =
      let (e, h) = unreachable s.reporter.scheduler.addr in (e, rw (report, h) refl)
  report-lost peer s metrics (inr (reached, refused)) =
      let (e, h) = refused (request_of s.reporter metrics) in
      (display (from_status e), rw (report, reached s.reporter.scheduler.addr, h) refl)

  -- The scheduler answers every report.
  abbrev pub Answers : Peer S → Type 0
  Answers peer =
      ((addr : String) → peer.connect addr ≡ ok tt)
      × ((q : ReportRequest) → (resp : ReportResponse) × (peer.report q ≡ ok resp))

  abbrev pub IsAnswered : Wake S → Type 0
  IsAnswered (window peer metrics) = Answers peer
  IsAnswered cancelled = Unit

  report-answered :
      (peer : Peer S) (s : Reporting S) (metrics : MonitorWindow)
      → Answers peer
      → (next : Reporting S) × (next.sent ≡ s.sent) × (report peer s metrics ≡ (ok tt, next))
  unfolding report
  report-answered peer s metrics (reached, answers) =
      let (resp, h) = answers (request_of s.reporter metrics) in
      (
        record s { reporter = (put_cluster s.reporter resp.cluster).1 },
        refl,
        rw (report, reached s.reporter.scheduler.addr, h) refl,
      )

  -- A window, of which the scheduler answers the report.
  abbrev pub IsReported : Wake S → Type 0
  IsReported (window peer metrics) = Answers peer
  IsReported cancelled = ⊥

  -- What some answered windows leave: the task goes on with what comes behind them.
  start-reported :
      (s : Started S) (events : List (Wake S))
      → All IsReported events
      → (r : Reporting S) × (r.sent ≡ s.reporting.sent)
        × ((later : List (Wake S))
            → start s (events ++ later) ≡ start (record s { reporting = r }) later)
  unfolding start
  start-reported s [] t = (s.reporting, refl, λ later. refl)
  start-reported s (cancelled ∷ events) t = absurd t.0
  start-reported s (window peer metrics ∷ events) (answered, more) =
      let (next, same, h) = report-answered peer s.reporting metrics answered in
      let (r, sent, rest) = start-reported (record s { reporting = next }) events more in
      (r, sent ∙ same, λ later. rw (start, h) (rest later))

  -- A task whose scheduler answers waits for the next window, and keeps its end of the channel.
  pub reporter_task-waits :
      (s : Started S) (events : List (Wake S))
      → All IsReported events
      → (r : Reporting S) × (reporter_task s events ≡ (ok waiting, record s { reporting = r }))
  unfolding reporter_task start
  reporter_task-waits s events reported =
      let (r, _, rest) = start-reported s events reported in
      (r, ap dropping (ap (start s) (sym (append-nil events)) ∙ rest []))

  -- After some reports that are answered, the first one to a scheduler that is lost is a panic of
  -- the task. It reports nothing that comes later, and has sent no command. It drops its end of the
  -- channel, so the next window that its monitor sends is a panic of the monitor.
  pub start-lost :
      (s : Started S) (before later : List (Wake S)) (peer : Peer S) (metrics : MonitorWindow)
      → All IsReported before
      → IsLost peer
      → (after : Started S) × (reporter_task s (before ++ window peer metrics ∷ later)
          ≡ (panic, after))
        × (after.reporting.sent ≡ s.reporting.sent)
        × (monitor_sends after ≡ (panic, record after { monitoring = false }))
  unfolding reporter_task start monitor_sends
  start-lost s before later peer metrics reported lost =
      let (r, sent, rest) = start-reported s before reported in
      let (e, h) = report-lost peer r metrics lost in
      let fails : start (record s { reporting = r }) (window peer metrics ∷ later)
          ≡ (panic, record s { reporting = r }) =
        rw (start, h) refl in
      (
        record s { reporting = r; receiving = false },
        ap dropping (rest (window peer metrics ∷ later) ∙ fails),
        sent,
        refl,
      )

  -- With a scheduler that answers, a task that is cancelled after some windows ends, whatever would
  -- come later: it stops its monitor, and it has sent no command.
  pub start-cancelled :
      (s : Started S) (events later : List (Wake S))
      → All IsAnswered events
      → let (o, after) = start s (events ++ cancelled ∷ later) in
        (o ≡ ok stopped) × (after.monitoring ≡ false) × (after.reporting.sent ≡ s.reporting.sent)
  unfolding start stop
  start-cancelled s [] later t = (refl, refl, refl)
  start-cancelled s (cancelled ∷ events) later t = (refl, refl, refl)
  start-cancelled s (window peer metrics ∷ events) later (answered, more) =
      let (next, same, h) = report-answered peer s.reporting metrics answered in
      let (stops, off, sent) = start-cancelled (record s { reporting = next }) events later more in
      rw (start, h) (stops, off, sent ∙ same)
