-- ===== src/Examples/Windows.antt =====
-- Windows (window.go) of numbers, which are their own times.
use kapacitor.Prelude.{
  ℕ, [], ◌∷◌, none, some, Bool, true, false, ◌≡◌, refl, arith, leb, inl, inr, ◌<◌,
}
use kapacitor.Window.ByCount
use kapacitor.Window.ByCount.Laws.{run-emissions}
use kapacitor.Window.TimeBuffer.{purge, TimeBuffer, insert}
use kapacitor.Window.TimeBuffer.Holding.{Holds}
use kapacitor.Window.TimeBuffer.Insert.{insert-Holds}
use kapacitor.Window.TimeBuffer.Purge.{AtEnd, purge-AtEnd}
use kapacitor.Window.ByTime.{WindowByTime, point, barrier}
use kapacitor.Window.ByTime.Valid.{Valid}
use kapacitor.Window.ByTime.Steps.{Refines, point-Refines}
use kapacitor.Window.ByTime.Barriers.{barrier-Refines}

run-emissions_example :
    (w : ByCount.WindowByCount ℕ) × (ByCount.run
        (3 ∷ 1 ∷ 4 ∷ 1 ∷ [])
        (ByCount.new_window_by_count 2 3 false)
      ≡ some (w, none ∷ none ∷ some (some 1 ∷ some 4 ∷ []) ∷ none ∷ []))
    × (ByCount.points w ≡ some (some 4 ∷ some 1 ∷ []))
run-emissions_example = run-emissions 2 3 false (3 ∷ 1 ∷ 4 ∷ 1 ∷ []) (omega arith) (omega arith)

abbrev AnyPoint : ℕ → Type 0
AnyPoint p = Unit

-- A full buffer whose points go round the end: 2, 3, 4.
abbrev wrapped : TimeBuffer ℕ
wrapped = record { window = some 4 ∷ some 2 ∷ some 3 ∷ []; cap = 3; start = 1; stop = 1; size = 3 }

wrapped-Holds : {D : ℕ → Type 0} → Holds D wrapped (2 ∷ 3 ∷ 4 ∷ [])
wrapped-Holds = inr (record {
  back = 4 ∷ [];
  gap = [];
  front = 2 ∷ 3 ∷ [];
  order = refl;
  layout = refl;
  start_at = refl;
  stop_at = refl;
  size_at = refl;
  fits = refl;
  gap_dead = tt;
})

insert-Holds_example :
    (b : TimeBuffer ℕ) × (insert 5 wrapped ≡ some b) × Holds AnyPoint b (2 ∷ 3 ∷ 4 ∷ 5 ∷ [])
insert-Holds_example = insert-Holds AnyPoint 5 {b = wrapped} {q = 2 ∷ 3 ∷ 4 ∷ []} wrapped-Holds

abbrev from_three : ℕ → Bool
from_three p = leb 3 p

abbrev BelowThree : ℕ → Type 0
BelowThree p = p < 3

-- A full buffer that begins at its first slot and whose `start` is at the end.
abbrev at_end : TimeBuffer ℕ
at_end = record { window = some 1 ∷ some 2 ∷ some 5 ∷ []; cap = 3; start = 3; stop = 3; size = 3 }

at_end-Holds : {D : ℕ → Type 0} → Holds D at_end (1 ∷ 2 ∷ 5 ∷ [])
at_end-Holds = inr (record {
  back = 1 ∷ 2 ∷ 5 ∷ [];
  gap = [];
  front = [];
  order = refl;
  layout = refl;
  start_at = refl;
  stop_at = refl;
  size_at = refl;
  fits = refl;
  gap_dead = tt;
})

abbrev time : ℕ → ℕ
time p = p

-- It holds 6 and 8, and emits at 10 what is not before 5.
abbrev window : WindowByTime ℕ
window = record {
  next_emit = 10;
  buf = record { window = some 4 ∷ some 6 ∷ some 8 ∷ []; cap = 4; start = 1; stop = 3; size = 2 };
  align = true;
  fill_period = false;
  period = 3;
  every = 5;
}

window-Valid : Valid time window (6 ∷ 8 ∷ [])
window-Valid = record {
  holds = inl (record {
    before = 4 ∷ [];
    after = [];
    layout = refl;
    start_at = refl;
    stop_at = refl;
    size_at = refl;
    fits = omega arith;
    before_dead = (omega arith, tt);
    after_dead = tt;
  });
  sorted = ((omega arith, tt), (tt, tt));
}

window_early : ¬ AtEnd window.buf
window_early h = omega (arith, h)

point-Refines_example :
    Refines time
      (point time 11 window)
      window
      (15, 8 ∷ 11 ∷ [], some (record { tmax = 10; points = some 8 ∷ [] }))
point-Refines_example =
    point-Refines time 11 window (6 ∷ 8 ∷ []) window-Valid (omega arith, (omega arith, tt))
      (λ b e h. window_early (ground (arith, e, h)))

barrier-Refines_example :
    Refines time
      (barrier time 13 window)
      window
      (15, 8 ∷ [], some (record { tmax = 10; points = some 8 ∷ [] }))
barrier-Refines_example = barrier-Refines time 13 window (6 ∷ 8 ∷ []) window-Valid window_early

purge-AtEnd_example : purge from_three at_end ≡ some at_end
purge-AtEnd_example =
    purge-AtEnd from_three BelowThree (λ p h. ground arith) {b = at_end} (1 ∷ 2 ∷ []) 5 at_end-Holds
      (omega arith, refl, refl) refl
