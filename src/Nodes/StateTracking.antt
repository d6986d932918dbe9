-- ===== src/Nodes/StateTracking.antt =====
-- The nodes stateDuration and stateCount (state_tracking.go), for one group.
pub mod Runs
use kapacitor.Prelude.{ℕ, ◌+◌, Bool, true, false, Option, none, some, if◌then◌else◌, ◌==◌}
use kapacitor.Prelude.Int.{ℤ, pos, negsuc, sub_ℕ}

-- stateTracker: `T` is its state and `V` the value of the new field.
pub record StateTracker (T V : Type 0) : Type 0 where
  pub track : (t : ℕ) → (in_state : Bool) → T → V × T
  pub reset : T

-- The state is startTime, the zero time 0 if there is none; `ratio` divides the time since by the
-- unit, as floating-point numbers.
pub duration_tracker : {F : Type 0} → (minus_one : F) → (ratio : ℤ → F) → StateTracker ℕ F
duration_tracker minus_one ratio = record {
  track = λ t in_state start.
      let start' = if start == 0 then t else start in
      if in_state then (ratio (sub_ℕ t start'), start') else (minus_one, 0);
  reset = 0;
}

-- The state is count.
pub count_tracker : StateTracker ℕ ℤ
count_tracker = record {
  track = λ t in_state count. if in_state then (pos (count + 1), count + 1) else (negsuc 0, 0);
  reset = 0;
}

module _ {P T V : Type 0} (tracker : StateTracker T V) (time : P → ℕ) (pass : P → Option Bool)
    (with_field : V → P → P) where
  -- BatchPoint and Point: where the expression cannot be evaluated, the point is dropped.
  pub point : P → T → T × Option P
  point p s = elim (pass p) [
    | none ↦ (s, none)
    | some b ↦ let (v, s') = tracker.track (time p) b s in (s', some (with_field v p))
  ]

  pub begin_batch : T → T
  begin_batch s = tracker.reset
