-- ===== src/Examples/Unions.antt =====
-- The union node (union.go) on two parents whose messages are their times.
use kapacitor.Prelude.{ℕ, ◌+◌, ◌≡◌, refl, Bool, List, [], ◌∷◌, none, some, set}
use kapacitor.Union.{Source, waiting, keep_marks, receive, finish}
use kapacitor.Union.Drain.{tally, tally_waiting, note_message, finish-drains}
use kapacitor.Union.Hold.{receive-holds}

abbrev parents : List (Source ℕ)
parents =
    record { values = 3 ∷ 5 ∷ 9 ∷ []; low_mark = 3 }
    ∷ record { values = 4 ∷ 5 ∷ []; low_mark = 4 }
    ∷ []

finish-drains_example :
    (left : List (Source ℕ)) × ((sent : List ℕ) × ((finish (λ m. m) note_message 6 parents (1 ∷ [])
          ≡ some (left, (sent, none)))
        × ((waiting left ≡ 0)
            × ((p : ℕ → Bool) → tally p sent ≡ tally p (1 ∷ []) + tally_waiting p parents))))
finish-drains_example = finish-drains (λ m. m) parents (1 ∷ [])

-- The second parent has sent nothing yet.
abbrev early : List (Source ℕ)
early = record { values = 3 ∷ []; low_mark = 3 } ∷ record { values = []; low_mark = 0 } ∷ []

receive-holds_example :
    receive (λ m. m) note_message 0 7 4 early []
    ≡ some (
      keep_marks (λ m. m) (set early 0 (record { values = 3 ∷ 7 ∷ []; low_mark = 3 })),
      ([], none),
    )
receive-holds_example =
    receive-holds (λ m. m) note_message 0 7 3 early (record { values = 3 ∷ []; low_mark = 3 }) []
      refl refl
