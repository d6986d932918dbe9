-- ===== src/Tick/Expression/Stuck.antt =====
-- How the function that a binary node keeps can make it fail on later values (tick/stateful).
use Prim.Native.String.{String, ◌++◌ as concat}
use kapacitor.Prelude.{
  ℕ, suc, false, ◌≡◌, refl, sym, ◌∙◌, ap, subst, some, arith, List, [], ◌∷◌, All,
}
use kapacitor.Prelude.Dict.{Dict, lookup}
use kapacitor.Tick.Values.{
  ValueType, t_int, t_missing, type_of, Value, Primitives, string_value, int_value, missing_value,
  add_64,
}
use kapacitor.Tick.Functions.{
  TokenType, token_plus, Result, value, failed, return_type, calculate, string_fn, int_fn,
}
use kapacitor.Tick.Eval.{
  Node, reference_node, binary_node, State, BinaryState, after_type, node_type, is_dynamic,
  constant_type, nil_fn, dynamic_fn, new_state, lookup_fn,
}
use kapacitor.Tick.Binary.{Sides, eval_binary, evaluate_dynamic_node, determine_error, settle, call}
use kapacitor.Tick.Expression.{eval_reference, eval, eval_expression, answered}

module _ {F R A B : Type 0} (prims : Primitives F R) (op : TokenType) (s : Sides F R A B) where
  at_nil :
      (k : ℕ) (c : BinaryState × (A × B))
      → c.0.evaluation_fn ≡ nil_fn
      → eval_binary prims op s (suc k) c ≡ (determine_error prims op s c, (false, failed))
  unfolding eval_binary
  at_nil k c h = ground (arith, h)

  determine_error-keeps :
      (c : BinaryState × (A × B))
      → (determine_error prims op s c).0.evaluation_fn ≡ c.0.evaluation_fn
  unfolding determine_error
  determine_error-keeps (b, (cl, cr)) = ground arith

  no_entry : (t : ValueType) → lookup_fn op t_missing t ≡ nil_fn
  unfolding lookup_fn return_type
  no_entry t = ground arith

  dynamic-missing :
      (k : ℕ) (b : BinaryState) (cl : A) (cr : B) (t : ValueType)
      → b.evaluation_fn ≡ dynamic_fn
      → s.left_type ≡ value t_missing
      → s.right_type ≡ value t
      → (d : BinaryState × (A × B)) × ((eval_binary prims op s (suc (suc k)) (b, (cl, cr))
            ≡ (d, (false, failed)))
          × (d.0.evaluation_fn ≡ nil_fn))
  unfolding settle evaluate_dynamic_node eval_binary
  dynamic-missing k b cl cr t h left right =
      let b' : BinaryState = record {
        evaluation_fn = lookup_fn op t_missing t;
        left_type = t_missing;
        right_type = t;
      } in
      let c' : BinaryState × (A × B) = (b', (s.after_left cl, s.after_right cr)) in
      let run = eval_binary prims op s (suc k) in
      let d = determine_error prims op s c' in
      let enters : eval_binary prims op s (suc (suc k)) (b, (cl, cr))
          ≡ settle prims op s run (evaluate_dynamic_node prims op s run (b, (cl, cr))) =
        ground (arith, h) in
      let looks : evaluate_dynamic_node prims op s run (b, (cl, cr)) ≡ run c' =
        ground (arith, left, right) in
      (
        d,
        (
          enters ∙ ap (settle prims op s run) (looks ∙ at_nil k c' (no_entry t)),
          determine_error-keeps c' ∙ no_entry t,
        ),
      )

module _ {F R : Type 0} (prims : Primitives F R) (k : ℕ) where
  abbrev sides : Dict (Value F R) → (l r : Node F R) → Sides F R (State l) (State r)
  sides scope l r = record {
    eval_left = λ u cl. eval prims (suc (suc k)) scope u l cl;
    eval_right = λ u cr. eval prims (suc (suc k)) scope u r cr;
    left_type = node_type scope l;
    right_type = node_type scope r;
    after_left = after_type scope l;
    after_right = after_type scope r;
  }

  int-fails :
      (op : TokenType) (l r : Node F R) (scope : Dict (Value F R))
      (c d : State (binary_node op l r))
      → eval_binary prims op (sides scope l r) (suc (suc k)) c ≡ (d, (false, failed))
      → d.0.evaluation_fn ≡ nil_fn
      → ((eval prims (suc (suc k)) scope t_int (binary_node op l r) c).1 ≡ failed)
        × ((eval prims (suc (suc k)) scope t_int (binary_node op l r) c).0.0.evaluation_fn ≡ nil_fn)
  unfolding eval answered
  int-fails op l r scope c d e h =
      let constant = constant_type (binary_node op l r) in
      subst
        (λ o.
          ((answered prims (suc (suc k)) scope t_int constant (o.0, o.1.1) c).1 ≡ failed)
          × ((answered prims (suc (suc k)) scope t_int constant (o.0, o.1.1) c).0.0.evaluation_fn
              ≡ nil_fn))
        (sym e) (refl, h)

  -- The results of EvalInt in one scope after another.
  abbrev pub eval_ints :
      (n : Node F R) → List (Dict (Value F R)) → State n → List (Result (Value F R))
  eval_ints n [] c = []
  eval_ints n (scope ∷ scopes) c =
      let r = eval prims (suc (suc k)) scope t_int n c in r.1 ∷ eval_ints n scopes r.0

  nil-fails :
      (op : TokenType) (l r : Node F R) (c : State (binary_node op l r)) (scope : Dict (Value F R))
      → c.0.evaluation_fn ≡ nil_fn
      → ((eval prims (suc (suc k)) scope t_int (binary_node op l r) c).1 ≡ failed)
        × ((eval prims (suc (suc k)) scope t_int (binary_node op l r) c).0.0.evaluation_fn ≡ nil_fn)
  unfolding eval answered
  nil-fails op l r c scope h =
      int-fails op l r scope c (determine_error prims op (sides scope l r) c)
        (at_nil prims op (sides scope l r) (suc k) c h)
        (determine_error-keeps prims op (sides scope l r) c ∙ h)

  -- Once its function is nil, a binary node fails in every scope that follows.
  every_int_fails :
      (op : TokenType) (l r : Node F R) (scopes : List (Dict (Value F R)))
      (c : State (binary_node op l r))
      → c.0.evaluation_fn ≡ nil_fn
      → All (λ r. r ≡ failed) (eval_ints (binary_node op l r) scopes c)
  every_int_fails op l r [] c h = tt
  every_int_fails op l r (scope ∷ scopes) c h =
      let (f, n) = nil-fails op l r c scope h in
      (
        f,
        every_int_fails op l r scopes
            (eval prims (suc (suc k)) scope t_int (binary_node op l r) c).0 n,
      )

  first-fails :
      (op : TokenType) (a b : String) (scope : Dict (Value F R)) (v : Value F R)
      → lookup a scope ≡ some missing_value
      → lookup b scope ≡ some v
      → let n = binary_node op (reference_node a) (reference_node b) in
        let r = eval prims (suc (suc k)) scope t_int n (new_state n) in
        (r.1 ≡ failed) × (r.0.0.evaluation_fn ≡ nil_fn)
  unfolding new_state node_type is_dynamic
  first-fails op a b scope v h g =
      let l : Node F R = reference_node a in
      let r : Node F R = reference_node b in
      let (d, (e, n)) =
        dynamic-missing prims op (sides scope l r) k (new_state (binary_node op l r)).0 tt tt
          (type_of v) refl (ground (arith, h)) (ground (arith, g)) in
      int-fails op l r scope (new_state (binary_node op l r)) d e n

  -- A new node for an operator between two references, of which EvalInt is asked for one point after
  -- another, as the autoscale node does: if the first point lacks the left reference, and has the
  -- right one, EvalInt fails at this point and at all that follow, whatever values they have.
  pub eval_ints-failed :
      (op : TokenType) (a b : String) (scope : Dict (Value F R)) (v : Value F R)
      (scopes : List (Dict (Value F R)))
      → lookup a scope ≡ some missing_value
      → lookup b scope ≡ some v
      → let n = binary_node op (reference_node a) (reference_node b) in
        All (λ r. r ≡ failed) (eval_ints n (scope ∷ scopes) (new_state n))
  eval_ints-failed op a b scope v scopes h g =
      let n : Node F R = binary_node op (reference_node a) (reference_node b) in
      let (f, m) = first-fails op a b scope v h g in
      (
        f,
        every_int_fails op (reference_node a) (reference_node b) scopes
            (eval prims (suc (suc k)) scope t_int n (new_state n)).0 m,
      )

  pub strings : (s t u : String) → Dict (Value F R)
  strings s t u = ("a", string_value s) ∷ ("b", string_value t) ∷ ("c", string_value u) ∷ []

  pub ints : (x y z : ℕ) → Dict (Value F R)
  ints x y z = ("a", int_value x) ∷ ("b", int_value y) ∷ ("c", int_value z) ∷ []

  pub sum_of_three : Node F R
  sum_of_three =
      binary_node token_plus (binary_node token_plus (reference_node "a") (reference_node "b"))
        (reference_node "c")

  -- Of three references that were strings, and are ints at the next point, Expression.Eval on the
  -- sum that was evaluated on the strings fails, although the sum of a new node has a value.
  pub stale_sum :
      (s t u : String) (x y z : ℕ)
      → let n = sum_of_three in
        let first = eval_expression prims (suc (suc (suc k))) (strings s t u) n (new_state n) in
        (first.1 ≡ value (string_value (concat (concat s t) u)))
        × ((eval_expression prims (suc (suc (suc k))) (ints x y z) n first.0).1 ≡ failed)
        × ((eval_expression prims (suc (suc (suc k))) (ints x y z) n (new_state n)).1
            ≡ value (int_value (add_64 (add_64 x y) z)))
  unfolding strings ints sum_of_three new_state eval_expression eval eval_reference eval_binary
      answered determine_error settle call evaluate_dynamic_node lookup node_type after_type
      constant_type is_dynamic lookup_fn return_type calculate string_fn int_fn
  stale_sum s t u x y z = (refl, refl, refl)
