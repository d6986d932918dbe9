-- ===== src/Examples/Joins.antt =====
-- Groups of the join node (join.go) on a few messages.
use kapacitor.Join.{new_group, receive_all}
use kapacitor.Join.Sets.{tally_sets}
use kapacitor.Join.Quiet.{Rising, Waiting}
use kapacitor.Join.InOrder.{heads_after}
use kapacitor.Join.Point.Stream.{points_of, joining}
use kapacitor.Join.Point.InTime.{join_all-InOrder, receive_all-InOrder}
use kapacitor.Join.Point.{emit_joined_set}
use kapacitor.Prelude.{
  ◌<◌, length, inr, ◌||◌, Bool, ℕ, ◌+◌, ◌≡◌, refl, List, [], ◌∷◌, Option, none, some, arith,
}
use kapacitor.Prelude.Dict.{Dict}
use kapacitor.Join.Point.{source_fields, Naming, other_fill, field_name, join_into_point}
use kapacitor.Join.Point.Fields.{at}
use kapacitor.Join.Point.Laws.{Joins, filled, join_into_point_lem}
use kapacitor.Join.{
  has, ready, sets_at, JoinSet, JoinGroup, Input, a_point, a_barrier, new_joinset, set_value,
  emit_all, join_all,
}
use kapacitor.Join.Sets.{tally_list}
use kapacitor.Join.Rounds.{Own}
use kapacitor.Join.Finish.{tally_inputs}
use kapacitor.Join.Stuck.{emit_all-diverges}
use kapacitor.Prelude.{All}

-- Points are their times; the second parent lacks the point at 10.
abbrev messages : List (Input ℕ)
messages = a_point 0 10 ∷ a_point 0 20 ∷ a_point 1 20 ∷ a_barrier 1 30 ∷ a_point 0 20 ∷ []

abbrev identity : ℕ → ℕ
identity t = t

abbrev one_set : JoinSet ℕ
one_set = set_value 0 10 (new_joinset 2 10)

abbrev one_group : JoinGroup ℕ
one_group = record { sets = (10, one_set ∷ []) ∷ []; head = 10 ∷ 0 ∷ []; oldest_time = 10 }

abbrev always_fails : JoinSet ℕ → ℕ → ℕ × Option ℕ
always_fails js calls = (calls + 1, some 7)

emit_all-diverges_example : emit_all always_fails 9 none one_group 0 ≡ none
unfolding sets_at
emit_all-diverges_example =
    emit_all-diverges always_fails (λ js calls. (7, refl)) one_group one_set [] refl 9 none 0

-- The set of the points at 10 of two parents, whose fields are their times.
abbrev two_points : JoinSet ℕ
two_points = set_value 1 10 (set_value 0 10 (new_joinset 2 10))

abbrev fields_at : ℕ → Dict ℕ
fields_at t = ("value", t) ∷ []

abbrev naming : Naming ℕ
naming = record { prefixes = "left" ∷ "right" ∷ []; delimiter = "."; fill = other_fill; nil = 0 }

join_into_point_lem_example :
    Joins
      (filled naming.fill || ready two_points)
      10
      (field_name naming 1 "value")
      (at fields_at naming (fields_at 10) two_points.values 1 "value")
      (join_into_point fields_at naming two_points)
unfolding set_value new_joinset has field_name source_fields
join_into_point_lem_example =
    join_into_point_lem fields_at naming 2 identity 10 two_points
      ((refl, (refl, (refl, (refl, (refl, inr refl))))), (omega arith, omega arith)) 10 refl 1
      "value" refl

-- The first parent goes ahead; the second one lacks the point at 10.
abbrev ordered : List (Input ℕ)
ordered = a_point 0 10 ∷ a_point 0 20 ∷ a_point 1 20 ∷ a_barrier 1 30 ∷ a_point 0 40 ∷ []

join_all-InOrder_example :
    (g : JoinGroup ℕ) × ((sets : List (JoinSet ℕ)) × ((join_all
            (emit_joined_set fields_at naming)
            2
            6
            identity
            ordered
            (some [])
          ≡ some (g, (some (points_of fields_at naming sets), none)))
        × ((g.sets ≡ [])
            × ((length (points_of fields_at naming sets) ≡ joining fields_at naming sets)
                × (((high : ℕ) × Rising 0 sets high)
                    × (((test : ℕ → ℕ → Bool) → tally_list test sets ≡ tally_inputs test ordered)
                        × (All (Own 2 identity) sets)))))))
join_all-InOrder_example =
    join_all-InOrder fields_at naming 2 identity ordered
      (omega arith, (omega arith, (omega arith, (omega arith, (omega arith, tt)))))
      (omega arith, (omega arith, (omega arith, (omega arith, (omega arith, tt)))))

receive_all-InOrder_example :
    (g : JoinGroup ℕ) × ((sets : List (JoinSet ℕ)) × ((receive_all
            (emit_joined_set fields_at naming)
            2
            identity
            ordered
            (new_group 2)
            (some [])
          ≡ some (g, some (points_of fields_at naming sets)))
        × (((sent : ℕ) × ((Rising 0 sets sent)
                × (All (λ e. (sent < e.0) × (length e.1 ≡ 1)) g.sets)))
            × ((All
                  (λ e. Waiting 2 identity (heads_after identity (0 ∷ 0 ∷ []) ordered) e.0 e.1)
                  g.sets)
                × ((test : ℕ → ℕ → Bool)
                    → tally_list test sets + tally_sets test g.sets ≡ tally_inputs test ordered)))))
receive_all-InOrder_example =
    receive_all-InOrder fields_at naming 2 identity ordered
      (omega arith, (omega arith, (omega arith, (omega arith, (omega arith, tt)))))
      (omega arith, (omega arith, (omega arith, (omega arith, (omega arith, tt)))))
