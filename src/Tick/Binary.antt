-- ===== src/Tick/Binary.antt =====
-- EvalBinaryNode.eval (tick/stateful/eval_binary_node.go), over the evaluation of its two sides.
pub mod Cached
use kapacitor.Prelude.{ℕ, zero, suc, Bool, true, false, if◌then◌else◌, ◌||◌, Option, none, some}
use kapacitor.Tick.Values.{
  ValueType, invalid_type, t_missing, eq_type, Value, bool_value, Primitives,
}
use kapacitor.Tick.Functions.{
  TokenType, token_and, token_or, Result, value, type_guard, failed, unfinished, calculate,
}
use kapacitor.Tick.Eval.{BinaryState, EvaluationFn, dynamic_fn, nil_fn, entry_fn, lookup_fn, stored}

-- The functions of AND and OR do not evaluate the right side after such a left one.
abbrev pub short_circuit : {F R : Type 0} → TokenType → Value F R → Option Bool
short_circuit token_and (bool_value false) = some false
short_circuit token_or (bool_value true) = some true
short_circuit op v = none

-- What eval does with the type of a side that a type guard tells: it stores the type and looks the
-- function up again.
abbrev pub retype : TokenType → (left : Bool) → ValueType → BinaryState → BinaryState
retype op left t b =
    let tl = if left then t else b.left_type in
    let tr = if left then b.right_type else t in
    record { evaluation_fn = lookup_fn op tl tr; left_type = tl; right_type = tr }

-- `A` and `B` are the states of the sides; `eval_left` and `eval_right` request a value of a type of
-- a side, `left_type` and `right_type` are the results of Type on the sides, `after_left` and
-- `after_right` what Type leaves in their states.
pub record Sides (F R A B : Type 0) : Type 0 where
  pub eval_left : ValueType → A → A × Result (Value F R)
  pub eval_right : ValueType → B → B × Result (Value F R)
  pub left_type : Result ValueType
  pub right_type : Result ValueType
  pub after_left : A → A
  pub after_right : B → B

module _ {F R A B : Type 0} (prims : Primitives F R) (op : TokenType) (s : Sides F R A B) where
  -- The state and the result; with an error, whether it is of the left side.
  abbrev pub Sided : Type 0
  Sided = (BinaryState × (A × B)) × (Bool × Result (Value F R))

  -- The function of the table's entry for two types.
  unfoldable pub call : (tl tr : ValueType) → BinaryState × (A × B) → Sided
  call tl tr (b, (cl, cr)) =
      let (cl', x) = s.eval_left tl cl in
      elim x [
        | value v ↦ elim (short_circuit op v) [
          | some early ↦ ((b, (cl', cr)), (false, value (bool_value early)))
          | none ↦
              let (cr', y) = s.eval_right tr cr in
              elim y [
                | value w ↦ ((b, (cl', cr')), (false, calculate prims op v w))
                | e ↦ ((b, (cl', cr')), (false, e))
              ]
        ]
        | e ↦ ((b, (cl', cr)), (true, e))
      ]

  -- evaluateDynamicNode, before `eval`.
  unfoldable pub evaluate_dynamic_node :
      (eval : BinaryState × (A × B) → Sided) → BinaryState × (A × B) → Sided
  evaluate_dynamic_node eval (b, (cl, cr)) = elim s.left_type [
    | value tl ↦ elim s.right_type [
      | value tr ↦ eval (
        record { evaluation_fn = lookup_fn op tl tr; left_type = tl; right_type = tr },
        (s.after_left cl, s.after_right cr),
      )
      | _ ↦ ((b, (s.after_left cl, s.after_right cr)), (false, failed))
    ]
    | _ ↦ ((b, (s.after_left cl, cr)), (true, failed))
  ]

  abbrev pub no_operand : ValueType → Bool
  no_operand t = eq_type t invalid_type || eq_type t t_missing

  -- What determineError leaves in the state; its result is always an error.
  unfoldable pub determine_error : BinaryState × (A × B) → BinaryState × (A × B)
  determine_error (b, (cl, cr)) = elim s.left_type [
    | value tl ↦
        if no_operand tl
        then (record b { left_type = tl }, (s.after_left cl, cr))
        else elim s.right_type [
          | value tr ↦
              (record b { left_type = tl; right_type = tr }, (s.after_left cl, s.after_right cr))
          | _ ↦ (record b { left_type = tl }, (s.after_left cl, s.after_right cr))
        ]
    | _ ↦ (b, (s.after_left cl, cr))
  ]

  -- What eval does after evaluationFn: it tries again after a type guard.
  unfoldable pub settle : (eval : BinaryState × (A × B) → Sided) → Sided → Sided
  settle eval ((b, cs), (left, r)) = elim r [
    | type_guard t ↦ elim (retype op left t b).evaluation_fn [
      | nil_fn ↦ ((retype op left t b, cs), (left, type_guard t))
      | _ ↦ eval (retype op left t b, cs)
    ]
    | e ↦ ((b, cs), (left, e))
  ]

  -- `eval`, which may call itself `rounds` times, one inside the other.
  unfoldable pub eval_binary : (rounds : ℕ) → BinaryState × (A × B) → Sided
  eval_binary zero c = (c, (false, unfinished))
  eval_binary (suc rounds) c = elim c.0.evaluation_fn [
    | nil_fn ↦ (determine_error c, (false, failed))
    | dynamic_fn ↦
        settle (λ d. eval_binary rounds d) (evaluate_dynamic_node (λ d. eval_binary rounds d) c)
    | entry_fn tl tr ↦ settle (λ d. eval_binary rounds d) (call tl tr c)
  ]
