-- ===== src/Examples/Monitors.antt =====
-- The theorems on the two monitors.
use Prim.Native.String.{String}
use laqista.Base.{
  inr, ◌^◌, ◌≡◌, refl, Bool, true, false, List, [], ◌∷◌, ◌++◌, none, some, All, ok, ◌&&◌, not, ltb,
  leb, arith, map,
}
use laqista.Base.Int.{ℤ, pos, ◌+ℤ◌}
use laqista.Types.{MonitorWindow}
use laqista.Scheduler.Stats.{ServerStats, append}
use laqista.Scheduler.Mean.{needs_scale_out}
use laqista.Chars.{
  ◌⊕◌, is_digit, is_alpha, all_chars, value_from, count, strip_prefix, taken, left, is_empty,
}
use laqista.Monitor.Parse.{
  fraction, metrics_line, parse_timestamp, is_hex_digit, hex_from, resource_utilzation, utilization,
  utilization_percent, utilization_id, hex,
}
use laqista.Monitor.Parse.Numerals.{
  Numeral, IsNumeral, put_numeral, fraction_of, fraction-put_numeral,
}
use laqista.Monitor.Parse.Printed.{Item, IsItem, Amount, IsAmount, only, in_mb, in_ghz, hex_id}
use laqista.Monitor.Parse.Lines.{
  Reading, unread, IsReading, IsEnd, put_reading, bus, loads, reading_metrics,
  metrics_line-put_reading,
}
use laqista.Monitor.Report.{gpu_only, datetime_to_prost}
use laqista.Monitor.Radeon
use laqista.Monitor.Apple
use laqista.Monitor.Apple.{
  PowerMetrics, Plist, Ending, next_from, after_next, into_metrics_window, finished, parse,
  returned, spawn, into_window,
}
use laqista.Monitor.Apple.Reading.{kept, Ends, next-document, spawn-Ends}
use laqista.Monitor.Radeon.Stopping.{run-stops, send_window-some}
use laqista.Monitor.Windows.{IsGpuOnly, HasNoLength, radeon_never_scales_out, radeon_window-length}
use laqista.Examples.Sample.{server, whole_numbers}
use laqista.Examples.Parsers.{parsers, alt}
use laqista.Examples.Calendar.{moments, Moment}

abbrev numeral : String → String → Numeral
numeral before behind = record { before = before; behind = behind }

-- A test for numbers, which decides the hypotheses on concrete texts.
abbrev is_numeral : Numeral → Bool
is_numeral x =
    not (is_empty x.before)
    && all_chars is_digit x.before
    && ltb (value_from 0 x.before) (2 ^ 64)
    && not (is_empty x.behind)
    && all_chars is_digit x.behind
    && leb (count x.behind) 3

sound : (x : Numeral) → is_numeral x ≡ true → IsNumeral x
sound x h = record {
  before = (ground arith, ground arith);
  fits = ground arith;
  behind = (ground arith, ground arith);
  short = ground arith;
}

five : is_numeral (numeral "5" "00") ≡ true
unfolding all_chars value_from count
five = refl

fraction-put_numeral_example :
    fraction (put_numeral (numeral "5" "00") "%") ≡ ok ("%", fraction_of (numeral "5" "00"))
fraction-put_numeral_example = fraction-put_numeral (numeral "5" "00") "%" (sound _ five) refl

abbrev reading : Reading
reading =
    let five = numeral "5" "00" in
    record {
      secs = "1730461004";
      behind = "264057";
      bus = "02";
      gpu = five;
      ee = five;
      vgt = five;
      ta = five;
      sx = five;
      sh = five;
      spi = five;
      sc = five;
      pa = five;
      db = five;
      cb = five;
      vram = numeral "0" "52";
      vram_mb = numeral "10" "61";
      gtt = numeral "0" "04";
      gtt_mb = numeral "5" "93";
    }

abbrev is_amount : Amount → Bool
is_amount (only x) = is_numeral x
is_amount (in_mb x y) = is_numeral x && is_numeral y
is_amount (in_ghz x y) = is_numeral x && is_numeral y
is_amount (hex_id s) = not (is_empty s) && all_chars is_hex_digit s && ltb (hex_from 0 s) (2 ^ 64)

amount_sound : (a : Amount) → is_amount a ≡ true → IsAmount a
amount_sound (only x) h = sound x h
amount_sound (in_mb x y) h = (sound x (ground arith), sound y (ground arith))
amount_sound (in_ghz x y) h = (sound x (ground arith), sound y (ground arith))
amount_sound (hex_id s) h = (ground arith, ground arith, ground arith)

abbrev is_item : Item → Bool
is_item i = not (is_empty i.name) && all_chars is_alpha i.name && is_amount i.amount

item_sound : (i : Item) → is_item i ≡ true → IsItem i
item_sound i h = record {
  named = ground arith;
  letters = ground arith;
  amount = amount_sound i.amount (ground arith);
}

abbrev all_items : List Item → Bool
all_items [] = true
all_items (i ∷ is) = is_item i && all_items is

items_sound : (is : List Item) → all_items is ≡ true → All IsItem is
items_sound [] h = tt
items_sound (i ∷ is) h = (item_sound i (ground arith), items_sound is (ground arith))

reading-IsReading : IsReading reading unread
unfolding all_chars value_from count hex_from
reading-IsReading = record {
  secs = (refl, refl);
  fits = omega arith;
  behind = (refl, refl);
  short = omega arith;
  items = items_sound (bus reading ∷ loads reading unread) refl;
}

abbrev infinite : String
infinite = ", mclk inf% 0.355ghz, sclk 38.53% 0.328ghz"

infinite-IsEnd : IsEnd infinite
unfolding resource_utilzation utilization utilization_percent utilization_id fraction hex
    strip_prefix taken left alt value_from
infinite-IsEnd = inr ("mclk inf% 0.355ghz, sclk 38.53% 0.328ghz", refl, _, refl)

metrics_line-put_reading_example :
    metrics_line (put_reading reading unread infinite)
    ≡ ok (infinite, reading_metrics reading (pos 1730461004, 264057))
unfolding value_from
metrics_line-put_reading_example =
    metrics_line-put_reading reading unread infinite (pos 1730461004, 264057) reading-IsReading refl
      infinite-IsEnd refl

abbrev lines : List Radeon.Line
lines = ok "Dumping to -, line limit 0." ∷ ok (put_reading reading unread infinite) ∷ []

abbrev measured : MonitorWindow
measured = record { window = none; utilization = some (gpu_only (pos 5)) }

abbrev history : ServerStats
history = record { server = server 3; stats = measured ∷ [] }

radeon_never_scales_out_example :
    (needs_scale_out (server 3) (append (Radeon.run lines) history) ≡ ok false)
    × All IsGpuOnly (append (Radeon.run lines) history).stats
radeon_never_scales_out_example =
    radeon_never_scales_out (server 3) lines history ((pos 5, refl), tt)

radeon_window-length_example : HasNoLength (record {
  window = some (record {
    start = some (datetime_to_prost (pos 1730461004, 264057));
    end = some (datetime_to_prost (pos 1730461005, 264057));
  });
  utilization = some (Radeon.into_utilization (reading_metrics reading (pos 1730461004, 264057)));
})
unfolding ◌+ℤ◌ Radeon.into_window
radeon_window-length_example =
    radeon_window-length (reading_metrics reading (pos 1730461004, 264057)) (omega arith) refl

abbrev half_idle : PowerMetrics ℤ Moment
half_idle = record {
  gpu = record { freq_hz = pos 444; idle_ratio = pos 1; dvfm_states = [] };
  elapsed_ns = pos 1000;
  timestamp = (pos 1730461004, 264057);
}

instance abbrev plists : Plist (PowerMetrics ℤ Moment)
plists = record { Error = String; from_bytes = λ s. ok half_idle }

abbrev document : List String
document = "<plist>" ∷ "<key>idle_ratio</key>" ∷ "<key>idle_ratio</key><x/>" ∷ []

next-document_example :
    Apple.next (map ok document ++ (ok "</plist>" ∷ []))
    ≡ returned (parse (kept false document ⊕ "</plist>")) []
next-document_example = next-document document [] (refl, (refl, (refl, tt)))

spawn-Ends_example : Ends (spawn 9 (map ok document ++ (ok "</plist>" ∷ [])))
spawn-Ends_example = spawn-Ends 9 (map ok document ++ (ok "</plist>" ∷ [])) (omega arith)

abbrev half : MonitorWindow
half = Apple.into_window (record {
  start = (pos 1730461004, 264057);
  end = (pos 1730461004, 264057);
  metrics = half_idle;
})

spawn-document : spawn 9 (map ok document ++ (ok "</plist>" ∷ [])) ≡ some (half ∷ [], finished)
unfolding spawn next_from strip_prefix after_next parse into_metrics_window
spawn-document = refl

abbrev line : Radeon.Line
line = ok (put_reading reading unread infinite)

abbrev sent_window : MonitorWindow
sent_window = record {
  window = some (record {
    start = some (datetime_to_prost (pos 1730461004, 264057));
    end = some (datetime_to_prost (pos 1730461005, 264057));
  });
  utilization = some (Radeon.into_utilization (reading_metrics reading (pos 1730461004, 264057)));
}

line-sent : Radeon.send_window line ≡ some sent_window
unfolding ◌+ℤ◌ Radeon.into_window
line-sent =
    send_window-some _ infinite (reading_metrics reading (pos 1730461004, 264057)) sent_window
      metrics_line-put_reading_example refl

run-stops_example :
    Radeon.run (ok "Dumping to -, line limit 0." ∷ line ∷ ok "bus" ∷ line ∷ []) ≡ sent_window ∷ []
unfolding strip_prefix Radeon.send_window Radeon.next_metrics metrics_line taken left
    parse_timestamp
run-stops_example =
    run-stops "Dumping to -, line limit 0." " -, line limit 0." ((line, sent_window) ∷ [])
      (ok "bus") (line ∷ []) refl (line-sent, tt) refl
