-- ===== src/Examples/Nodes.antt =====
-- Small runs of the combine and the autoscale node and of the inhibitors.
use mathlib.Core.List.{Perm}
use kapacitor.Prelude.{
  ℕ, ◌+◌, ◌<◌, ◌≡◌, ◌↔◌, ◌⊎◌, refl, arith, List, [], ◌∷◌, ◌++◌, zero, suc, get_or, Option, none,
  some, true, false, ltb, ◌==◌, if◌then◌else◌,
}
use kapacitor.Prelude.Int.{ℤ, pos, negsuc}
use kapacitor.Prelude.Dict.{lookup, insert}
use kapacitor.Combine.{do_all}
use kapacitor.Combine.Choices.{choices, visit_all}
use kapacitor.Combine.Count.{choose, NoOverflow, do_all_lem}
use kapacitor.Combine.Buffer.{assign, add_point, new_group, round, take_match}
use kapacitor.Combine.Buffer.Matching.{Matches, assign-Matches, add_point-new_group}
use kapacitor.Nodes.Autoscale.{
  Config, Autoscaler, AutoscaleNode, handle_point, apply, change, decide, clamp,
}
use kapacitor.Nodes.Autoscale.Bounds.{Held, handle_point-Within, handle_point-kept}
use kapacitor.Nodes.Autoscale.Laws.{first_state}
use kapacitor.Nodes.Autoscale.Runs.{replies, Spaced, increases-Spaced}
use kapacitor.Alert.Inhibit.{InhibitorLookup, is_inhibited}
use kapacitor.Alert.Inhibit.Laws.{
  add, remove, assign as set_to, perform_all, balance, flag, times_of, Inhibits,
  is_inhibited-perform_all,
}

-- The action notes the choice and fails at the first choice that starts with 1.
abbrev note_choice : List ℕ → List (List ℕ) → List (List ℕ) × Option ℕ
note_choice indices seen =
    if get_or indices 0 0 == 1 then (seen, some 7) else (indices ∷ seen, none)

small : NoOverflow 4 2
small zero h = omega arith
small (suc zero) h = omega arith
small (suc (suc i)) h = omega arith

do_all_lem_example :
    do_all note_choice 9 1000 6 4 2 []
    ≡ some
        (if ltb 1000 (choose 4 2) then ([], some 9) else visit_all note_choice (choices 0 4 2) [])
do_all_lem_example = do_all_lem note_choice 9 1000 6 4 2 [] small (omega arith) (omega arith)

-- The first expression matches the points 1 and 2, the second matches 0 and 1.
assign-Matches_example :
    Matches ((λ i. ltb 0 i) ∷ (λ i. ltb i 2) ∷ []) (1 ∷ 0 ∷ [])
    × ((others : List ℕ) × Perm ((1 ∷ 0 ∷ []) ++ others) (0 ∷ 1 ∷ []))
unfolding assign take_match
assign-Matches_example =
    assign-Matches ((λ i. ltb 0 i) ∷ (λ i. ltb i 2) ∷ []) (0 ∷ 1 ∷ []) (1 ∷ 0 ∷ []) refl

-- A point at 13 of a group whose times are rounded to tens.
add_point-new_group_example :
    add_point (λ p. p) (λ t p. t) 10 13 (new_group (λ p. p) (λ t p. t) 10 13) ≡ (
      if round 10 13 == 13
      then some (record { time = 13; points = 13 ∷ []; cap = 1 }, none)
      else none)
add_point-new_group_example = add_point-new_group (λ p. p) (λ t p. t) 10 13

-- Points are times; each asks for three replicas more, of at most ten.
abbrev config : Config
config = record {
  min_count = pos 1;
  max_count = pos 10;
  increase_cooldown = 60;
  decrease_cooldown = 60;
}

abbrev scaler : Autoscaler ℕ (List ℤ)
scaler = record {
  resource_id = λ p. if ltb p 1000 then some "web" else none;
  replicas = λ id s. (s, some (pos 2));
  set_replicas = λ id n s. (n ∷ s, true);
}

abbrev three_more : ℤ → ℕ → Option ℤ
three_more (pos n) p = some (pos (n + 3))
three_more (negsuc n) p = none

abbrev idle : AutoscaleNode
idle = record { states = []; increases = 0; decreases = 0; cooldown_drops = 0 }

handle_point-Within_example :
    Held config scaler
      (λ p. p)
      three_more
      refl
      "web"
      (handle_point config scaler (λ p. p) three_more 500 idle [])
      (record { old = pos 2; new = pos 5 })
unfolding handle_point decide change apply clamp lookup insert
handle_point-Within_example =
    handle_point-Within config scaler (λ p. p) three_more refl 500 idle [] "web"
      (record { old = pos 2; new = pos 5 }) refl refl

-- At 30 the resource is still hot: its count is learnt, and nothing is done.
handle_point-kept_example :
    (lookup "web" (handle_point config scaler (λ p. p) three_more 30 idle []).0.states ≡ none)
    ⊎ ((count : ℤ) × ((scaler.resource_id 30 ≡ some "web")
          × ((lookup "web" idle.states ≡ none)
              × (((scaler.replicas "web" []).1 ≡ some count)
                  × (lookup "web"
                        (handle_point config scaler (λ p. p) three_more 30 idle []).0.states
                      ≡ some (first_state count))))))
unfolding handle_point decide change apply clamp lookup insert
handle_point-kept_example =
    handle_point-kept config scaler (λ p. p) three_more refl 30 idle [] "web" refl

increases-Spaced_example :
    Spaced config scaler
      (λ p. p)
      three_more
      "web"
      500
      (replies config scaler
        (λ p. p)
        three_more
        (520 ∷ 560 ∷ 559 ∷ 620 ∷ [])
        (handle_point config scaler (λ p. p) three_more 500 idle []).0
        (handle_point config scaler (λ p. p) three_more 500 idle []).1)
unfolding handle_point decide change apply clamp lookup insert
increases-Spaced_example =
    increases-Spaced config scaler (λ p. p) three_more refl 500 (520 ∷ 560 ∷ 559 ∷ 620 ∷ []) idle []
      "web" (refl, (record { old = pos 2; new = pos 5 }, (refl, refl)))

abbrev inhibitors : InhibitorLookup
inhibitors = record {
  heap = λ i. record { category = "cpu"; tags = ("host", "a") ∷ []; inhibited = false };
  inhibitors = [];
}

is_inhibited-perform_all_example :
    is_inhibited "cpu"
        (("host", "a") ∷ ("dc", "b") ∷ [])
        (perform_all (add 1 ∷ add 2 ∷ set_to 1 true ∷ remove 2 ∷ []) inhibitors)
      ≡ true
    ↔ ((i : ℕ) × ((0
            < balance i (add 1 ∷ add 2 ∷ set_to 1 true ∷ remove 2 ∷ []) (times_of i inhibitors))
          × Inhibits "cpu" (("host", "a") ∷ ("dc", "b") ∷ []) (record {
            category = "cpu";
            tags = ("host", "a") ∷ [];
            inhibited = flag i (add 1 ∷ add 2 ∷ set_to 1 true ∷ remove 2 ∷ []) false;
          })))
is_inhibited-perform_all_example =
    is_inhibited-perform_all (add 1 ∷ add 2 ∷ set_to 1 true ∷ remove 2 ∷ []) "cpu"
      (("host", "a") ∷ ("dc", "b") ∷ []) inhibitors
