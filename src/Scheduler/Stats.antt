-- ===== src/Scheduler/Stats.antt =====
-- src/scheduler/stats.rs: the monitoring windows that a server has reported.
use laqista.Base.{List, [], ◌∷◌, ◌++◌, Outcome, ok, ◌>>=◌, expect}
use laqista.Base.Int.{ℤ}
use laqista.IdMap.{IdMap}
use laqista.Types.{Error, ServerInfo, MonitorWindow, Timestamp, ResourceUtilization}
use laqista.Utils.{subtract_window}

pub record ServerStats : Type 0 where
  pub server : ServerInfo
  pub stats : List MonitorWindow

abbrev pub StatsMap : Type 0
StatsMap = IdMap ServerStats

-- `ServerStats::from_stats`
abbrev pub from_stats : ServerInfo → List MonitorWindow → ServerStats
from_stats server stats = record { server = server; stats = stats }

-- `ServerStats::append`
unfoldable pub append : List MonitorWindow → ServerStats → ServerStats
append window s = record s { stats = s.stats ++ window }

pub record Window : Type 0 where
  pub start : Timestamp
  pub end : Timestamp
  pub nanos : ℤ
  pub utilization : ResourceUtilization

-- `Windows::next` on one report: a missing part is a panic.
unfoldable pub window_of : MonitorWindow → Outcome Error Window
window_of stats = do
  window ← expect stats.window
  start ← expect window.start
  end ← expect window.end
  utilization ← expect stats.utilization
  ok (record {
    start = start;
    end = end;
    nanos = subtract_window end start;
    utilization = utilization;
  })

-- All that the iterator yields.
unfoldable pub windows_of : List MonitorWindow → Outcome Error (List Window)
unfolding window_of
windows_of [] = ok []
windows_of (s ∷ ss) = do w ← window_of s; ws ← windows_of ss; ok (w ∷ ws)

abbrev pub windows : ServerStats → Outcome Error (List Window)
windows s = windows_of s.stats
