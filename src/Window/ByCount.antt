-- ===== src/Window/ByCount.antt =====
-- windowByCount of window.go: the last `period` points, emitted every `every` points.
pub mod Laws
use kapacitor.Prelude.{
  ℕ, zero, suc, ◌+◌, ◌-◌, ◌%◌, List, [], ◌∷◌, ◌++◌, Option, none, some, Bool, ltb, ◌==◌,
  if◌then◌else◌, length, set, take, drop, replicate, slice, get_elem?,
}
use kapacitor.Window.Slots.{fill, copy_to}

-- The points are moved and never changed, so their type `P` is any type. The name, group and
-- diagnostic of the Go struct are constant and go into the emitted message only.
pub record WindowByCount (P : Type 0) : Type 0 where
  pub buf : List (Option P)
  pub start : ℕ
  pub stop : ℕ
  pub period : ℕ
  pub every : ℕ
  pub next_emit : ℕ
  pub size : ℕ
  pub count : ℕ

-- The outcome of a call: a panic, or the new state with the message that is emitted, if any.
abbrev pub Outcome : Type 0 → Type 0
Outcome P = Option (WindowByCount P × Option (List (Option P)))

module _ {P : Type 0} where
  pub new_window_by_count : ℕ → ℕ → Bool → WindowByCount P
  new_window_by_count period every fill_period = record {
    buf = replicate period none;
    start = 0;
    stop = 0;
    period = period;
    every = every;
    next_emit = if fill_period then period else every;
    size = 0;
    count = 0;
  }

  -- `none` is a panic: an index out of range.
  pub points : WindowByCount P → Option (List (Option P))
  points w =
      if w.size == 0
      then some []
      else if ltb w.start w.stop
      then some (copy_to w.size (slice w.start w.stop w.buf))
      else fill w.size (drop w.start w.buf ++ take w.stop w.buf)

  -- What is emitted: the points, the last of which gives the batch its time. A batch of no points
  -- panics at `points[len(points)-1]`.
  pub batch : WindowByCount P → Option (List (Option P))
  batch w = elim (points w) [ none ↦ none | some ps ↦ if length ps == 0 then none else some ps ]

  -- `w.buf[w.stop] = …` and the moves of the indices.
  pub advance : P → WindowByCount P → WindowByCount P
  advance p w = record w {
    buf = set w.buf w.stop (some p);
    stop = (w.stop + 1) % w.period;
    start = if w.size == w.period then (w.start + 1) % w.period else w.start;
    size = if w.size == w.period then w.size else w.size + 1;
    count = w.count + 1;
  }

  pub point : P → WindowByCount P → Outcome P
  point p w =
      if ltb w.stop (length w.buf)
      then (let w' = advance p w in
          if w'.count == w'.next_emit
          then (elim (batch (record w' { next_emit = w'.next_emit + w'.every })) [
            | none ↦ none
            | some msg ↦ some (record w' { next_emit = w'.next_emit + w'.every }, some msg)
          ])
          else some (w', none))
      else none

  -- The points of a group, in order, and what each emits.
  pub run : List P → WindowByCount P → Option (WindowByCount P × List (Option (List (Option P))))
  run [] w = some (w, [])
  run (p ∷ ps) w = elim (point p w) [
    | none ↦ none
    | some (w', msg) ↦ elim (run ps w') [ none ↦ none | some (w'', msgs) ↦ some (w'', msg ∷ msgs) ]
  ]
