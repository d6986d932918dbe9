-- ===== src/Nodes/StateTracking/Runs.antt =====
-- What stateDuration and stateCount (state_tracking.go) add to the points of a group.
use kapacitor.Prelude.{
  ℕ, ◌+◌, ◌<◌, ◌≡◌, refl, Bool, Option, none, some, if◌then◌else◌, List, [], ◌∷◌, arith,
  Option-cases, inl, inr,
}
use kapacitor.Prelude.Int.{ℤ, pos, negsuc, sub_ℕ}
use kapacitor.Nodes.StateTracking.{StateTracker, duration_tracker, count_tracker, point}

module _ {P : Type 0} (time : P → ℕ) (pass : P → Option Bool) where
  -- Of the points so far, the last one first: how many passed in a row, up to the last one, and the
  -- time of the first of them. Points at which the expression cannot be evaluated do not count.
  abbrev pub run_length : List P → ℕ
  run_length [] = 0
  run_length (p ∷ ps) = elim (pass p) [
    | none ↦ run_length ps
    | some b ↦ if b then run_length ps + 1 else 0
  ]

  abbrev pub run_start : List P → Option ℕ
  run_start [] = none
  run_start (p ∷ ps) = elim (pass p) [
    | none ↦ run_start ps
    | some b ↦ if b then elim (run_start ps) [ none ↦ some (time p) | some t ↦ some t ] else none
  ]

  module _ {T V : Type 0} (tracker : StateTracker T V) (with_field : V → P → P) where
    -- The state after points, the last one first, from a reset on.
    abbrev pub state_after : List P → T
    state_after [] = tracker.reset
    state_after (p ∷ ps) = (point tracker time pass with_field p (state_after ps)).0

  count-state :
      (with_field : ℤ → P → P) (ps : List P)
      → state_after count_tracker with_field ps ≡ run_length ps
  unfolding count_tracker point
  count-state with_field [] = refl
  count-state with_field (p ∷ ps) = ground (arith, count-state with_field ps)

  or_zero : Option ℕ → ℕ
  or_zero none = 0
  or_zero (some t) = t

  start-positive : ((p : P) → 0 < time p) → (ps : List P) (t : ℕ) → run_start ps ≡ some t → 0 < t
  start-positive positive [] t h = cc
  start-positive positive (p ∷ ps) t h = elim (Option-cases (run_start ps)) [
    | inl e ↦ ground (arith, h, e, positive p)
    | inr (u, e) ↦ ground (arith, h, e, start-positive positive ps u e)
  ]

  duration-state :
      {F : Type 0} (minus_one : F) (ratio : ℤ → F) (with_field : F → P → P)
      → ((p : P) → 0 < time p)
      → (ps : List P)
      → state_after (duration_tracker minus_one ratio) with_field ps ≡ or_zero (run_start ps)
  unfolding duration_tracker point or_zero
  duration-state minus_one ratio with_field positive [] = refl
  duration-state minus_one ratio with_field positive (p ∷ ps) = elim (Option-cases (run_start ps)) [
    | inl e ↦ ground (arith, e, duration-state minus_one ratio with_field positive ps)
    | inr (t, e) ↦ ground (
      arith,
      e,
      start-positive positive ps t e,
      duration-state minus_one ratio with_field positive ps,
    )
  ]

  count-point :
      (with_field : ℤ → P → P) (p : P) (ps : List P)
      → (point count_tracker time pass with_field p (state_after count_tracker with_field ps)).1
        ≡ (elim (pass p) [
          | none ↦ none
          | some b ↦ some (with_field (if b then pos (run_length ps + 1) else negsuc 0) p)
        ])
  unfolding count_tracker point
  count-point with_field p ps = elim (Option-cases (pass p)) [
    | inl e ↦ ground (arith, e)
    | inr (b, e) ↦ ground (arith, e, count-state with_field ps)
  ]

  -- The time of the first point of the run that a passing point belongs to.
  abbrev pub since : P → List P → ℕ
  since p ps = elim (run_start ps) [ none ↦ time p | some t ↦ t ]

  -- A point after any others, from the start or from the begin of a batch on, where no time is the
  -- zero time. Both nodes drop it if the expression cannot be evaluated. Else stateCount adds the
  -- number of points in a row that passed up to it, and stateDuration the time since the first of
  -- them by the unit; both add -1 if the point does not pass.
  pub track-point :
      {F : Type 0} (minus_one : F) (ratio : ℤ → F) (count_field : ℤ → P → P)
      (duration_field : F → P → P)
      → ((p : P) → 0 < time p)
      → (p : P) (ps : List P)
      → ((point count_tracker time pass count_field p (state_after count_tracker count_field ps)).1
          ≡ (elim (pass p) [
            | none ↦ none
            | some b ↦ some (count_field (if b then pos (run_length ps + 1) else negsuc 0) p)
          ]))
        × ((point
              (duration_tracker minus_one ratio)
              time
              pass
              duration_field
              p
              (state_after (duration_tracker minus_one ratio) duration_field ps)).1
            ≡ (elim (pass p) [
              | none ↦ none
              | some b ↦
                  some (
                    duration_field (if b then ratio (sub_ℕ (time p) (since p ps)) else minus_one) p)
            ]))
  unfolding duration_tracker point or_zero
  track-point minus_one ratio count_field duration_field positive p ps = (
    count-point count_field p ps,
    elim (Option-cases (run_start ps)) [
      | inl e ↦ ground (arith, e, duration-state minus_one ratio duration_field positive ps)
      | inr (t, e) ↦ ground (
        arith,
        e,
        start-positive positive ps t e,
        duration-state minus_one ratio duration_field positive ps,
      )
    ],
  )
