-- ===== src/Monitor/Apple/Reading.antt =====
-- The loop of src/monitor/apple.rs over the lines of `powermetrics`: that it ends, and what it
-- makes of the lines of a document.
use Prim.Native.String.{String}
use laqista.Base.{
  inl, inr, ℕ, zero, suc, ◌<◌, ◌≡◌, refl, Bool, false, ◌&&◌, ◌||◌, if◌then◌else◌, List, [], ◌∷◌,
  ◌++◌, length, map, Option, none, some, Outcome, ok, err, Outcome-cases, str_eq, All, arith,
  Bool-cases,
}
use laqista.Types.{MonitorWindow}
use laqista.Scheduler.Mean.{Floats}
use laqista.Chars.{◌⊕◌, ⊕_assoc, strip_prefix}
use laqista.Monitor.Data.{Chrono}
use laqista.Monitor.Apple.{
  PowerMetrics, MetricsWindow, Plist, Line, Ending, finished, panicked, is_idle_ratio, next_from,
  next, parse, spawn, after_next, returned, into_window,
}

-- A loop with a bound on its rounds comes to its end.
abbrev pub Ends : Option (List MonitorWindow × Ending) → Type 0
Ends o = (r : List MonitorWindow × Ending) × (o ≡ some r)

-- The lines of a document put together, without the second idle ratio and all later ones.
unfoldable pub kept : Bool → List String → String
kept seen [] = ""
kept seen (t ∷ ts) =
    let rest = kept (is_idle_ratio t || seen) ts in
    if is_idle_ratio t && seen then rest else t ⊕ rest

module _ ⦃f : Floats⦄ ⦃c : Chrono⦄
    ⦃p : Plist (PowerMetrics (Floats.F64 f) (Chrono.DateTime c))⦄ where
  open f use {F64}
  open c use {DateTime}
  open p use {Error}

  next_from-lt :
      (buff : String) (seen : Bool) (lines : List Line) {w : MetricsWindow F64 DateTime}
      {rest : List Line}
      → next_from buff seen lines ≡ ok (some w, rest)
      → length rest < length lines
  unfolding next_from
  next_from-lt buff seen [] h = cc
  next_from-lt buff seen (ok text ∷ lines) {w} {rest} h =
      let skip = is_idle_ratio text && seen in
      let ih =
        next_from-lt (if skip then buff else buff ⊕ text) (is_idle_ratio text || seen) lines {w = w}
          {rest = rest} in
      elim (Outcome-cases (parse (if skip then buff else buff ⊕ text))) [
        | inl (v, e) ↦ ground (arith, ih)
        | inr (inl (v, e)) ↦ ground (arith, ih)
        | inr (inr (inl e)) ↦ ground (arith, ih)
        | inr (inr (inr e)) ↦ ground (arith, ih)
      ]
  next_from-lt buff seen (err e ∷ lines) h = cc
  next_from-lt buff seen (Outcome.panic ∷ lines) h = cc
  next_from-lt buff seen (Outcome.blocked ∷ lines) h = cc

  after-Ends :
      (rounds : ℕ) (ih : (lines : List Line) → length lines < rounds → Ends (spawn rounds lines))
      (lines : List Line) (found : Outcome Error (Option (MetricsWindow F64 DateTime) × List Line))
      → next lines ≡ found
      → length lines < suc rounds
      → Ends (after_next (spawn rounds) found)
  unfolding after_next next
  after-Ends rounds ih lines (ok (some w, rest)) e h =
      let ((ws, ending), k) = ih rest (omega (arith, next_from-lt "" false lines e)) in
      ((into_window w ∷ ws, ending), rw k refl)
  after-Ends rounds ih lines (ok (none, rest)) e h = (([], finished), refl)
  after-Ends rounds ih lines (err x) e h = (([], panicked), refl)
  after-Ends rounds ih lines Outcome.panic e h = (([], panicked), refl)
  after-Ends rounds ih lines Outcome.blocked e h = (([], panicked), refl)

  -- On any finite run of lines the loop that sends the windows ends, after at most one round more
  -- than there are lines.
  pub spawn-Ends :
      (rounds : ℕ) (lines : List Line) → length lines < rounds → Ends (spawn rounds lines)
  unfolding spawn
  spawn-Ends zero lines h = absurd (omega arith)
  spawn-Ends (suc rounds) lines h =
      after-Ends rounds (λ rest. spawn-Ends rounds rest) lines (next lines) refl h

  document_from :
      (buff : String) (seen : Bool) (texts : List String) (rest : List Line)
      → All (λ t. str_eq t "</plist>" ≡ false) texts
      → next_from buff seen (map ok texts ++ (ok "</plist>" ∷ rest))
        ≡ returned (parse (buff ⊕ kept seen texts ⊕ "</plist>")) rest
  unfolding next_from kept strip_prefix
  document_from buff seen [] rest h = refl
  document_from buff seen (t ∷ texts) rest (here, later) =
      elim (Bool-cases (is_idle_ratio t && seen)) [
        | inl e ↦ ground (arith, document_from buff (is_idle_ratio t || seen) texts rest later)
        | inr e ↦ ground (
          arith,
          ⊕_assoc buff t (kept (is_idle_ratio t || seen) texts ⊕ "</plist>"),
          document_from (buff ⊕ t) (is_idle_ratio t || seen) texts rest later,
          ⊕_assoc t (kept (is_idle_ratio t || seen) texts) "</plist>",
        )
      ]

  -- Where no line before it is the end of the document, the monitor parses all lines up to the end,
  -- put together without the second idle ratio and all later ones, and goes on behind the end. An
  -- error of the parser ends the iteration.
  pub next-document :
      (texts : List String) (rest : List Line)
      → All (λ t. str_eq t "</plist>" ≡ false) texts
      → next (map ok texts ++ (ok "</plist>" ∷ rest))
        ≡ returned (parse (kept false texts ⊕ "</plist>")) rest
  unfolding next
  next-document texts rest = document_from "" false texts rest
