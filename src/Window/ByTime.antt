-- ===== src/Window/ByTime.antt =====
-- windowByTime of window.go: the points of the last `period`, emitted every `every`.
-- A time is the number of nanoseconds since Go's zero time, a duration a number of nanoseconds;
-- times before the zero time arise only by subtraction and are integers.
pub mod Valid
pub mod Steps
pub mod Barriers
use kapacitor.Prelude.{
  ℕ, ◌+◌, ◌-◌, ◌%◌, List, Option, none, some, Bool, true, false, not, ltb, ◌==◌, if◌then◌else◌,
}
use kapacitor.Prelude.Int.{ℤ, pos, sub_ℕ, ltb_ℤ}
use kapacitor.Window.TimeBuffer.{TimeBuffer, empty, insert, purge, points}

-- t.Truncate(d): the last multiple of `d` not after `t`; `t` itself if `d` is 0.
abbrev pub truncate : ℕ → ℕ → ℕ
truncate d t = if d == 0 then t else t - t % d

-- The test of purge: left aligned windows hold their oldest time, right aligned ones do not.
abbrev pub include : ℤ → Bool → ℕ → Bool
include oldest inclusive t = if inclusive then not (ltb_ℤ (pos t) oldest) else ltb_ℤ oldest (pos t)

-- The name, group and diagnostic of the Go struct are constant and go into the messages only.
pub record WindowByTime (P : Type 0) : Type 0 where
  pub next_emit : ℕ
  pub buf : TimeBuffer P
  pub align : Bool
  pub fill_period : Bool
  pub period : ℕ
  pub every : ℕ

-- A buffered batch: the time of its begin message, and its points.
pub record Batch (P : Type 0) : Type 0 where
  pub tmax : ℕ
  pub points : List (Option P)

pub first_emit : (t period every : ℕ) (align fill_period : Bool) → ℕ
first_emit t period every align fill_period =
    if fill_period
    then (let first_period = t + period in
        if align
        then (let aligned = truncate every first_period in
            if not (ltb first_period aligned) then aligned + every else aligned)
        else first_period)
    else (if align then truncate every (t + every) else t + every)

-- `none` is a panic.
abbrev pub Outcome : Type 0 → Type 0
Outcome P = Option (WindowByTime P × Option (Batch P))

module _ {P : Type 0} (time : P → ℕ) where
  pub new_window_by_time : (t period every : ℕ) (align fill_period : Bool) → WindowByTime P
  new_window_by_time t period every align fill_period = record {
    next_emit = first_emit t period every align fill_period;
    buf = empty;
    align = align;
    fill_period = fill_period;
    period = period;
    every = every;
  }

  -- Purge what is older than `tick - period`, and emit what is left with the time `tick`.
  pub emit : (tick : ℕ) (inclusive : Bool) → WindowByTime P → Outcome P
  emit tick inclusive w =
      elim (purge (λ p. include (sub_ℕ tick w.period) inclusive (time p)) w.buf) [
        | none ↦ none
        | some b ↦ elim (points b) [
          | none ↦ none
          | some ps ↦ some (record w { buf = b }, some (record { tmax = tick; points = ps }))
        ]
      ]

  -- The next time to emit depends on the current time, not on the last one that was emitted.
  abbrev pub next_tick : WindowByTime P → ℕ → ℕ
  next_tick w now = if w.align then truncate w.every (now + w.every) else now + w.every

  -- `w.nextEmit = …` at the end of a branch that emitted.
  abbrev pub with_next : ℕ → Outcome P → Outcome P
  with_next n none = none
  with_next n (some (w, msg)) = some (record w { next_emit = n }, msg)

  pub barrier : (now : ℕ) → WindowByTime P → Outcome P
  barrier now w =
      if w.every == 0
      then (if not (ltb now w.next_emit) then with_next now (emit now false w) else some (w, none))
      else (if not (ltb now w.next_emit)
          then with_next (next_tick w now) (emit w.next_emit true w)
          else some (w, none))

  -- `w.buf.insert(p)`.
  pub insert_point : P → WindowByTime P → Option (WindowByTime P)
  insert_point p w = elim (insert p w.buf) [ none ↦ none | some b ↦ some (record w { buf = b }) ]

  -- `w.buf.insert(p)` behind the rest of Point.
  abbrev pub then_insert : P → Outcome P → Outcome P
  then_insert p none = none
  then_insert p (some (w, msg)) = elim (insert_point p w) [ none ↦ none | some w' ↦ some (w', msg) ]

  pub point : P → WindowByTime P → Outcome P
  point p w =
      if w.every == 0
      then (elim (insert_point p w) [
        | none ↦ none
        | some w' ↦
            if not (ltb (time p) w'.next_emit)
            then with_next (time p) (emit (time p) false w')
            else some (w', none)
      ])
      else (then_insert p (
          if not (ltb (time p) w.next_emit)
          then with_next (next_tick w (time p)) (emit w.next_emit true w)
          else some (w, none)))
