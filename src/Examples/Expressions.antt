-- ===== src/Examples/Expressions.antt =====
-- Expressions (tick/stateful) on two points.
use kapacitor.Prelude.{ℕ, ◌≡◌, refl, [], ◌∷◌, true, false, not, ltb, ◌==◌, All}
use kapacitor.Prelude.Dict.{Dict, lookup}
use kapacitor.Tick.Values.{Value, Primitives, t_int, t_string, int_value, missing_value}
use kapacitor.Tick.Functions.{return_type, calculate, token_plus, token_less, failed}
use kapacitor.Tick.Functions.Entries.{fits, calculate-fits}
use kapacitor.Tick.Eval.{
  Node, reference_node, binary_node, new_state, BinaryState, entry_fn, nil_fn, is_dynamic,
}
use kapacitor.Tick.Expression.{eval_expression}
use kapacitor.Tick.Expression.Leaves.{eval_expression-calculate}
use kapacitor.Tick.Expression.Stuck.{eval_ints, eval_ints-failed}

-- Whole numbers stand for floats and for regular expressions.
abbrev prims : Primitives ℕ ℕ
prims = record {
  of_int = λ n. n;
  to_int = λ n. n;
  eq_float = λ a b. a == b;
  lt_float = λ a b. ltb a b;
  le_float = λ a b. not (ltb b a);
  add_float = λ a b. a;
  sub_float = λ a b. a;
  mul_float = λ a b. a;
  div_float = λ a b. a;
  match_string = λ r t. true;
  lt_string = λ a b. false;
}

calculate-fits_example :
    fits
      (return_type token_less t_int t_int)
      (calculate prims token_less (int_value 3) (int_value 4))
    ≡ true
calculate-fits_example = calculate-fits prims token_less (int_value 3) (int_value 4)

-- A sum that was last evaluated on strings.
abbrev kept : BinaryState
kept = record {
  evaluation_fn = entry_fn t_string t_string;
  left_type = t_string;
  right_type = t_string;
}

abbrev a_plus_b : Node ℕ ℕ
a_plus_b = binary_node token_plus (reference_node "a") (reference_node "b")

abbrev scope : Dict (Value ℕ ℕ)
scope = ("a", int_value 3) ∷ ("b", int_value 4) ∷ []

not_nil : entry_fn t_string t_string ≡ nil_fn → ⊥
not_nil h = cc

eval_expression-calculate_example :
    (eval_expression prims 3 scope a_plus_b (kept, (tt, tt))).1
    ≡ calculate prims token_plus (int_value 3) (int_value 4)
unfolding lookup is_dynamic return_type
eval_expression-calculate_example =
    eval_expression-calculate prims 0 scope token_plus (reference_node "a") (reference_node "b")
      (int_value 3) (int_value 4) refl refl refl refl kept (tt, tt) not_nil

eval_ints-failed_example :
    All
      (λ r. r ≡ failed)
      (eval_ints prims 0 a_plus_b
        ((("a", missing_value) ∷ ("b", int_value 4) ∷ []) ∷ scope ∷ scope ∷ [])
        (new_state a_plus_b))
unfolding lookup
eval_ints-failed_example =
    eval_ints-failed prims 0 token_plus "a" "b" (("a", missing_value) ∷ ("b", int_value 4) ∷ [])
      (int_value 4) (scope ∷ scope ∷ []) refl refl
