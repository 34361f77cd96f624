-- ===== src/Monitor/Radeon/Stopping.antt =====
-- Where the monitor of src/monitor/linux/radeon.rs stops.
use laqista.Base.{String, not, false, List, [], ◌∷◌, ◌++◌, map, none, some, ok, ◌≡◌, refl, ap, All}
use laqista.Types.{MonitorWindow}
use laqista.Scheduler.Mean.{Floats}
use laqista.Chars.{strip_prefix, left, taken}
use laqista.Monitor.Nom.{Nom}
use laqista.Monitor.Data.{Chrono, RadeonMetrics}
use laqista.Monitor.Parse.{header_line, is_lf, metrics_line}
use laqista.Monitor.Radeon.{
  Line, new, next_inner, skip_header, send_window, next_metrics, into_window, send_all, run,
}

module _ ⦃n : Nom⦄ ⦃f : Floats⦄ ⦃c : Chrono⦄ where
  open n use {take_till-eq}

  -- A line, and the window that is sent for it.
  abbrev pub IsSent : Line × MonitorWindow → Type 0
  IsSent (line, w) = send_window line ≡ some w

  abbrev pub line_part : Line × MonitorWindow → Line
  line_part (line, w) = line

  abbrev pub window_part : Line × MonitorWindow → MonitorWindow
  window_part (line, w) = w

  pub send_window-some :
      (text rest : String) (m : RadeonMetrics (Floats.F64 f) (Chrono.DateTime c))
      (w : MonitorWindow)
      → metrics_line text ≡ ok (rest, m)
      → into_window m ≡ ok w
      → send_window (ok text) ≡ some w
  unfolding send_window next_metrics
  send_window-some text rest m w h k =
      let parsed : next_metrics (ok text) ≡ ok (some m) = rw (h, next_metrics) refl in
      rw (parsed, send_window) (rw k refl)

  send_all-stops :
      (front : List (Line × MonitorWindow)) (bad : Line) (rest : List Line)
      → All IsSent front
      → send_window bad ≡ none
      → send_all (map line_part front ++ (bad ∷ rest)) ≡ map window_part front
  unfolding send_all
  send_all-stops [] bad rest h stop = rw stop refl
  send_all-stops ((line, w) ∷ front) bad rest (sent, h) stop =
      rw sent (ap (λ ws. w ∷ ws) (send_all-stops front bad rest h stop))

  header-ok :
      (header after : String)
      → strip_prefix "Dumping to" header ≡ some after
      → (x : String × String) × (header_line header ≡ ok x)
  header-ok header after head = (
    (left (λ c. not (is_lf c)) header, taken (λ c. not (is_lf c)) header),
    rw (head, header_line) (take_till-eq is_lf header),
  )

  skip-ok :
      (header after : String) (lines : List Line)
      → strip_prefix "Dumping to" header ≡ some after
      → skip_header (new (ok header ∷ lines))
        ≡ ok (header, record { inner = lines; seen_header = false })
  unfolding skip_header next_inner
  skip-ok header after lines head = rw (header-ok header after head).1 refl

  -- Behind a header line, the monitor sends a window for each line until the first one that is not
  -- read, not parsed, or not converted. There it ends, and what is written later is never sent.
  pub run-stops :
      (header after : String) (front : List (Line × MonitorWindow)) (bad : Line) (rest : List Line)
      → strip_prefix "Dumping to" header ≡ some after
      → All IsSent front
      → send_window bad ≡ none
      → run (ok header ∷ (map line_part front ++ (bad ∷ rest))) ≡ map window_part front
  unfolding run
  run-stops header after front bad rest head h stop =
      rw (skip-ok header after (map line_part front ++ (bad ∷ rest)) head, run)
        (send_all-stops front bad rest h stop)
