-- ===== src/Monitor/Radeon.antt =====
-- src/monitor/linux/radeon.rs and src/monitor/linux/mod.rs: the monitor for Linux. The lines that
-- the process `radeontop` writes are the input, each of them with the error of reading it. The
-- channel's receiver is taken to be there for every window.
pub mod Stopping
use laqista.Base.{
  String, Bool, false, List, [], ◌∷◌, Option, none, some, Outcome, ok, err, panic, ◌>>=◌, expect,
  to_option,
}
use laqista.Base.Int.{pos}
use laqista.Types.{TimeWindow, MonitorWindow, ResourceUtilization}
use laqista.Scheduler.Mean.{Floats}
use laqista.Monitor.Nom.{Nom, MetricsParseError}
use laqista.Monitor.Data.{Chrono, RadeonMetrics}
use laqista.Monitor.Parse.{header_line, metrics_line}
use laqista.Monitor.Report.{to_i32, datetime_to_prost, gpu_only}

pub data HostSystem : Type 0 where
  nvidia radeon unknown : HostSystem

abbrev pub determine : HostSystem
determine = radeon

abbrev pub commands : List String
commands = "radeontop" ∷ "--dump" ∷ "-" ∷ []

-- A line, or the error of reading it.
abbrev pub Line : Type 0
Line = Outcome String String

pub record MetricsReader : Type 0 where
  pub inner : List Line
  pub seen_header : Bool

abbrev pub new : List Line → MetricsReader
new lines = record { inner = lines; seen_header = false }

-- The end of the lines is an error as well, and no error is passed on.
unfoldable pub next_inner : MetricsReader → Option String × MetricsReader
next_inner r = elim r.inner [
  | [] ↦ (none, r)
  | line ∷ rest ↦ (to_option line, record r { inner = rest })
]

abbrev pub send_first : Option MonitorWindow → List MonitorWindow → List MonitorWindow
send_first none more = []
send_first (some w) more = w ∷ more

module _ ⦃n : Nom⦄ ⦃f : Floats⦄ ⦃c : Chrono⦄ where
  open n use {Kind}
  open f use {F64, of_i64, mul}
  open c use {DateTime, add_seconds}

  -- A sum that leaves the calendar is a panic.
  unfoldable pub time_window :
      RadeonMetrics F64 DateTime → Outcome (MetricsParseError Kind) TimeWindow
  unfolding datetime_to_prost
  time_window m = do
    end ← expect (add_seconds (pos 1) m.timestamp)
    ok (record { start = some (datetime_to_prost m.timestamp); end = some (datetime_to_prost end) })

  -- `Into<ResourceUtilization>`
  unfoldable pub into_utilization : RadeonMetrics F64 DateTime → ResourceUtilization
  unfolding to_i32
  into_utilization m = gpu_only (to_i32 (mul m.gpu (of_i64 (pos 100))))

  -- `Into<MonitorWindow>`
  unfoldable pub into_window :
      RadeonMetrics F64 DateTime → Outcome (MetricsParseError Kind) MonitorWindow
  unfolding time_window into_utilization
  into_window m = do
    window ← time_window m
    ok (record { window = some window; utilization = some (into_utilization m) })

  -- The line is returned if it is a header.
  unfoldable pub skip_header :
      MetricsReader → Outcome (MetricsParseError Kind) (String × MetricsReader)
  unfolding next_inner
  skip_header r = do
    let (read, r) = next_inner r
    line ← expect read
    header ← expect (to_option (header_line line))
    ok (line, r)

  -- `Iterator::next` on a line: one that is not read or not parsed ends the iteration, and a panic
  -- of the parser is one here.
  unfoldable pub next_metrics :
      Line → Outcome (MetricsParseError Kind) (Option (RadeonMetrics F64 DateTime))
  unfolding metrics_line
  next_metrics line = elim (to_option line) [
    | none ↦ ok none
    | some text ↦ elim (metrics_line text) [
      | ok (rest, m) ↦ ok (some m)
      | err e ↦ ok none
      | Outcome.panic ↦ panic
      | Outcome.blocked ↦ Outcome.blocked
    ]
  ]

  abbrev pub window_of_next :
      Outcome (MetricsParseError Kind) (Option (RadeonMetrics F64 DateTime)) → Option MonitorWindow
  window_of_next (ok (some m)) = to_option (into_window m)
  window_of_next _ = none

  -- The body of the loop over the metrics: what is sent for a line, if the loop goes on there.
  unfoldable pub send_window : Line → Option MonitorWindow
  unfolding next_metrics into_window
  send_window line = window_of_next (next_metrics line)

  -- The windows that the loop sends before it ends.
  unfoldable pub send_all : List Line → List MonitorWindow
  unfolding send_window
  send_all [] = []
  send_all (line ∷ rest) = send_first (send_window line) (send_all rest)

  -- `RadeonMonitor::run`: the windows that are sent before the task
  -- ends. It ends in a panic: behind the loop stands `unreachable!`.
  unfoldable pub run : List Line → List MonitorWindow
  unfolding skip_header send_all
  run lines = elim (skip_header (new lines)) [ ok (header, r) ↦ send_all r.inner | _ ↦ [] ]

  -- The task of `MetricsMonitor::spawn`, which panics at once on a system that it has no monitor
  -- for.
  unfoldable pub monitor_on : HostSystem → List Line → List MonitorWindow
  unfolding run
  monitor_on radeon lines = run lines
  monitor_on nvidia lines = []
  monitor_on unknown lines = []

  -- `MetricsMonitor::spawn`
  abbrev pub spawn : List Line → List MonitorWindow
  spawn lines = monitor_on determine lines
