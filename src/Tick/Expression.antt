-- ===== src/Tick/Expression.antt =====
-- The methods EvalBool, EvalInt, … of the nodes, and Expression.Eval (tick/stateful).
pub mod Leaves
pub mod Stuck
use Prim.Native.String.{String}
use kapacitor.Prelude.{◌&&◌, ℕ, Bool, true, false, not, if◌then◌else◌, ◌||◌, Option, none, some}
use kapacitor.Prelude.Dict.{Dict, lookup}
use kapacitor.Combine.{mul_64, minus_one}
use kapacitor.Tick.Values.{
  ValueType, invalid_type, t_float, t_int, t_string, t_bool, t_regex, t_time, t_duration, t_missing,
  t_lambda, t_list, t_star, eq_type, type_of, Value, float_value, int_value, bool_value,
  duration_value, Primitives,
}
use kapacitor.Tick.Functions.{TokenType, Result, value, type_guard, failed}
use kapacitor.Tick.Eval.{
  Node, literal_node, reference_node, unary_node, binary_node, lambda_node, State, BinaryState,
  constant_type, is_dynamic, node_type, after_type,
}
use kapacitor.Tick.Binary.{Sides, eval_binary, evaluate_dynamic_node}

-- What a binary node returns of the result of `eval`, by the type that is requested.
abbrev pub unpack :
    {F R : Type 0} → ValueType → (constant : ValueType) → Value F R → Result (Value F R)
unpack t_float c (float_value x) = value (float_value x)
unpack t_float c (int_value x) = type_guard t_int
unpack t_float c v = type_guard c
unpack t_int c (int_value x) = value (int_value x)
unpack t_int c (float_value x) = type_guard t_float
unpack t_int c v = type_guard c
unpack t c v = if eq_type t (type_of v) then value v else failed

-- Whether a binary or unary node is evaluated at all for a type, or answers with its constant type.
abbrev pub evaluates : ValueType → Bool
evaluates t_float = true
evaluates t_int = true
evaluates t_string = true
evaluates t_bool = true
evaluates t_duration = true
evaluates _ = false

abbrev pub negates : ValueType → Bool
negates t_float = true
negates t_int = true
negates t_bool = true
negates t_duration = true
negates _ = false

-- Of a value that is not of a type.
abbrev pub mismatch : {F R : Type 0} → Value F R → Result (Value F R)
mismatch v = if eq_type (type_of v) t_missing then failed else type_guard (type_of v)

module _ {F R : Type 0} (prims : Primitives F R) (rounds : ℕ) (scope : Dict (Value F R)) where
  -- What a unary node makes of the value of its operand, whatever its operator.
  abbrev pub negated : Value F R → Result (Value F R)
  negated (float_value x) = value (float_value (prims.mul_float (prims.of_int minus_one) x))
  negated (int_value x) = value (int_value (mul_64 minus_one x))
  negated (duration_value x) = value (duration_value (mul_64 minus_one x))
  negated (bool_value b) = value (bool_value (not b))
  negated v = failed

  abbrev pub and_then :
      {A : Type 0}
      → A × Result (Value F R)
      → (Value F R → Result (Value F R))
      → A × Result (Value F R)
  and_then (a, value v) f = (a, f v)
  and_then (a, e) f = (a, e)

  -- The nodes of literals.
  unfoldable pub eval_literal : ValueType → Value F R → Result (Value F R)
  eval_literal t v = if eq_type t (type_of v) then value v else type_guard (type_of v)

  unfoldable pub eval_reference : ValueType → String → Result (Value F R)
  eval_reference t name = elim (lookup name scope) [
    | none ↦ failed
    | some v ↦
        if eq_type t (type_of v)
        then (if eq_type t t_missing then failed else value v)
        else mismatch v
  ]

  -- A unary node, given the result of Type, what the operand returns for the type, and the state
  -- before and after Type.
  unfoldable pub eval_unary :
      {A : Type 0}
      → ValueType
      → (constant : ValueType) → Result ValueType
      → A × Result (Value F R)
      → (c after : A) → A × Result (Value F R)
  eval_unary t constant typed inner c after =
      if eq_type t t_missing
      then (c, failed)
      else if negates t
      then elim typed [
        | value typ ↦ if eq_type t typ then and_then inner negated else (after, type_guard typ)
        | _ ↦ (after, failed)
      ]
      else (c, type_guard constant)

  unfoldable pub eval_lambda :
      {A : Type 0}
      → ValueType
      → Result ValueType
      → A × Result (Value F R)
      → (after : A) → A × Result (Value F R)
  eval_lambda t typed inner after = elim typed [
    | value typ ↦
        if eq_type t t_time
        then (after, type_guard typ)
        else if eq_type t typ
        then inner
        else (after, type_guard typ)
    | _ ↦ (after, failed)
  ]

  -- What a binary node returns, given the result of `eval`.
  unfoldable pub answered :
      {A : Type 0}
      → ValueType
      → (constant : ValueType) → A × Result (Value F R)
      → A
      → A × Result (Value F R)
  answered t constant out c =
      if evaluates t then and_then out (unpack t constant) else (c, type_guard constant)

  -- The method for a type: `eval t_bool` is EvalBool.
  unfoldable pub eval : ValueType → (n : Node F R) → State n → State n × Result (Value F R)
  eval t (literal_node v) c = (c, eval_literal t v)
  eval t (reference_node name) c = (c, eval_reference t name)
  eval t (unary_node op n) c =
      let c' = after_type scope (unary_node op n) c in
      let constant = constant_type (unary_node op n) in
      eval_unary t constant (node_type scope (unary_node op n)) (eval t n c') c c'
  eval t (binary_node op l r) c =
      let s : Sides F R (State l) (State r) = record {
        eval_left = λ u cl. eval u l cl;
        eval_right = λ u cr. eval u r cr;
        left_type = node_type scope l;
        right_type = node_type scope r;
        after_left = after_type scope l;
        after_right = after_type scope r;
      } in
      let constant = constant_type (binary_node op l r) in
      let out =
        if eq_type t t_bool && (is_dynamic l || is_dynamic r)
        then evaluate_dynamic_node prims op s (λ d. eval_binary prims op s rounds d) c
        else eval_binary prims op s rounds c in
      answered t constant (out.0, out.1.1) c
  eval t (lambda_node n) c =
      let c' = after_type scope (lambda_node n) c in
      eval_lambda t (node_type scope (lambda_node n)) (eval t n c') c'

  -- Expression.Eval
  unfoldable pub eval_expression : (n : Node F R) → State n → State n × Result (Value F R)
  eval_expression n c =
      let c' = after_type scope n c in
      elim (node_type scope n) [
        | value typ ↦ if evaluates typ || eq_type typ t_missing then eval typ n c' else (c', failed)
        | _ ↦ (c', failed)
      ]
