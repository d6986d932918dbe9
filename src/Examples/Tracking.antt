-- ===== src/Examples/Tracking.antt =====
-- The state tracking nodes (state_tracking.go) on points at 10, 20 and 30.
use kapacitor.Prelude.{ℕ, ◌+◌, ◌≡◌, Bool, [], ◌∷◌, Option, some, ltb, arith}
use kapacitor.Prelude.Int.{ℤ, pos, negsuc, sub_ℕ}
use kapacitor.Nodes.StateTracking.{count_tracker, duration_tracker, point}
use kapacitor.Nodes.StateTracking.Runs.{run_length, since, state_after, track-point}

record Reading : Type 0 where
  at : ℕ
  field : ℤ

-- Points after 10 pass.
abbrev late : Reading → Option Bool
late r = some (ltb 10 r.at)

abbrev time : Reading → ℕ
time r = r.at + 1

abbrev reading : ℕ → Reading
reading t = record { at = t; field = pos 0 }

abbrev noted : ℤ → Reading → Reading
noted v r = record r { field = v }

track-point_example :
    let ps = reading 20 ∷ reading 10 ∷ [] in
    let tracker = duration_tracker (negsuc 0) (λ d. d) in
    ((point count_tracker time late noted
        (reading 30)
        (state_after time late count_tracker noted ps)).1
      ≡ some (noted (pos (run_length time late ps + 1)) (reading 30)))
    × ((point tracker time late noted (reading 30) (state_after time late tracker noted ps)).1
        ≡ some (noted (sub_ℕ 31 (since time late (reading 30) ps)) (reading 30)))
track-point_example =
    track-point time late (negsuc 0) (λ d. d) noted noted (λ p. omega arith) (reading 30)
      (reading 20 ∷ reading 10 ∷ [])
