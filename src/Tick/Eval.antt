-- ===== src/Tick/Eval.antt =====
-- The nodes of an expression and how they are evaluated (tick/stateful): node_evaluator.go,
-- eval_binary_node.go, eval_unary_node.go, eval_reference_node.go, eval_lambda_node.go and the nodes
-- of literals. Function calls are left out.
use Prim.Native.String.{String}
use kapacitor.Prelude.{◌&&◌, Bool, true, false, not, if◌then◌else◌, ◌||◌, none, some}
use kapacitor.Prelude.Dict.{Dict, lookup}
use kapacitor.Tick.Values.{ValueType, invalid_type, t_bool, eq_type, type_of, Value}
use kapacitor.Tick.Functions.{
  token_not, token_minus, token_and, token_or, token_equal, token_not_equal, token_less,
  token_greater, token_less_equal, token_greater_equal, token_regex_equal, token_regex_not_equal,
  TokenType, Result, value, failed, return_type,
}

-- A literal is a bool, a number, a duration, a string or a regular expression.
pub data Node (F R : Type 0) : Type 0 where
  literal_node : Value F R → Node F R
  reference_node : String → Node F R
  unary_node : TokenType → Node F R → Node F R
  binary_node : TokenType → Node F R → Node F R → Node F R
  lambda_node : Node F R → Node F R

-- The field evaluationFn: evaluateDynamicNode, nil, or the entry of the table for two types.
pub data EvaluationFn : Type 0 where
  dynamic_fn : EvaluationFn
  nil_fn : EvaluationFn
  entry_fn : (left right : ValueType) → EvaluationFn

pub record BinaryState : Type 0 where
  pub evaluation_fn : EvaluationFn
  pub left_type : ValueType
  pub right_type : ValueType

abbrev pub is_bool_operator : TokenType → Bool
is_bool_operator token_and = true
is_bool_operator token_or = true
is_bool_operator token_equal = true
is_bool_operator token_not_equal = true
is_bool_operator token_less = true
is_bool_operator token_greater = true
is_bool_operator token_less_equal = true
is_bool_operator token_greater_equal = true
is_bool_operator token_regex_equal = true
is_bool_operator token_regex_not_equal = true
is_bool_operator _ = false

-- lookupEvaluationFn
unfoldable pub lookup_fn : TokenType → (left right : ValueType) → EvaluationFn
lookup_fn op l r = if eq_type (return_type op l r) invalid_type then nil_fn else entry_fn l r

-- The type that `n.leftType, err = ...` stores: InvalidType with an error.
abbrev pub stored : Result ValueType → ValueType
stored (value t) = t
stored _ = invalid_type

module _ {F R : Type 0} where
  -- The fields that evaluation changes, of all the nodes of an expression.
  abbrev pub State : Node F R → Type 0
  State (literal_node v) = Unit {0}
  State (reference_node name) = Unit {0}
  State (unary_node op n) = State n
  State (binary_node op l r) = BinaryState × (State l × State r)
  State (lambda_node n) = State n

  unfoldable pub constant_type : Node F R → ValueType
  constant_type (literal_node v) = type_of v
  constant_type (reference_node name) = invalid_type
  constant_type (unary_node token_not n) = t_bool
  constant_type (unary_node token_minus n) = constant_type n
  constant_type (unary_node _ n) = invalid_type
  constant_type (binary_node op l r) =
      let entry = return_type op (constant_type l) (constant_type r) in
      if is_bool_operator op then t_bool else entry
  constant_type (lambda_node n) = constant_type n

  -- IsDynamic
  unfoldable pub is_dynamic : Node F R → Bool
  is_dynamic (literal_node v) = false
  is_dynamic (reference_node name) = true
  is_dynamic (unary_node op n) =
      let inner = is_dynamic n in
      if eq_type (constant_type (unary_node op n)) invalid_type then inner else false
  is_dynamic (binary_node op l r) =
      let sides = is_dynamic l || is_dynamic r in
      if eq_type (constant_type (binary_node op l r)) invalid_type then sides else false
  is_dynamic (lambda_node n) = is_dynamic n

  -- The state that a new node has.
  unfoldable pub new_state : (n : Node F R) → State n
  new_state (literal_node v) = tt
  new_state (reference_node name) = tt
  new_state (unary_node op n) = new_state n
  new_state (binary_node op l r) =
      let cl = constant_type l in
      let cr = constant_type r in
      (
        if is_dynamic l || is_dynamic r
            then record {
              evaluation_fn = dynamic_fn;
              left_type = invalid_type;
              right_type = invalid_type;
            }
            else record { evaluation_fn = lookup_fn op cl cr; left_type = cl; right_type = cr },
        (new_state l, new_state r),
      )
  new_state (lambda_node n) = new_state n

  abbrev pub get_reference_value : Dict (Value F R) → String → Result (Value F R)
  get_reference_value scope name = elim (lookup name scope) [ none ↦ failed | some v ↦ value v ]

  -- The result of Type, which no state changes.
  unfoldable pub node_type : Dict (Value F R) → Node F R → Result ValueType
  node_type scope (literal_node v) = value (type_of v)
  node_type scope (reference_node name) = elim (lookup name scope) [
    | none ↦ failed
    | some v ↦ value (type_of v)
  ]
  node_type scope (unary_node op n) =
      let inner = node_type scope n in
      let c = constant_type (unary_node op n) in if eq_type c invalid_type then inner else value c
  node_type scope (binary_node op l r) =
      let left = node_type scope l in
      let right = node_type scope r in
      let c = constant_type (binary_node op l r) in
      if eq_type c invalid_type
      then elim left [
        | value tl ↦ elim right [
          | value tr ↦
              if eq_type (return_type op tl tr) invalid_type
              then failed
              else value (return_type op tl tr)
          | e ↦ e
        ]
        | e ↦ e
      ]
      else value c
  node_type scope (lambda_node n) =
      let inner = node_type scope n in
      let c = constant_type n in if eq_type c invalid_type then inner else value c

  -- What Type leaves in the state: a node without a constant type stores its operands' types, those
  -- of the right one if the left one has a type.
  unfoldable pub after_type : Dict (Value F R) → (n : Node F R) → State n → State n
  after_type scope (literal_node v) c = c
  after_type scope (reference_node name) c = c
  after_type scope (unary_node op n) c =
      let inner = after_type scope n c in
      if eq_type (constant_type (unary_node op n)) invalid_type then inner else c
  after_type scope (binary_node op l r) (b, (cl, cr)) =
      let cl' = after_type scope l cl in
      let cr' = after_type scope r cr in
      if eq_type (constant_type (binary_node op l r)) invalid_type
      then elim (node_type scope l) [
        | value tl ↦
            (record b { left_type = tl; right_type = stored (node_type scope r) }, (cl', cr'))
        | _ ↦ (record b { left_type = invalid_type }, (cl', cr))
      ]
      else (b, (cl, cr))
  after_type scope (lambda_node n) c =
      let inner = after_type scope n c in
      if eq_type (constant_type n) invalid_type then inner else c

  -- Whether createNodeEvaluator makes a node of it.
  pub creates : Node F R → Bool
  creates (literal_node v) = true
  creates (reference_node name) = true
  creates (unary_node token_not n) = creates n
  creates (unary_node token_minus n) = creates n
  creates (unary_node _ n) = false
  creates (binary_node token_not l r) = false
  creates (binary_node op l r) =
      let sides = creates l && creates r in
      let entry = return_type op (constant_type l) (constant_type r) in
      sides && (is_dynamic l || is_dynamic r || not (eq_type entry invalid_type))
  creates (lambda_node n) = creates n
