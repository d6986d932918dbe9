-- ===== src/Tick/Expression/Leaves.antt =====
-- Expression.Eval (tick/stateful/expr.go) on a binary node whose sides are references or literals,
-- with what it keeps from earlier values.
use kapacitor.Prelude.{
  ℕ, suc, true, false, ◌&&◌, ◌||◌, ◌≡◌, sym, ◌∙◌, ap, Option, none, some, arith, Bool-cases, inl,
  inr, if◌then◌else◌,
}
use kapacitor.Prelude.Dict.{Dict, lookup}
use kapacitor.Tick.Values.{
  ValueType, invalid_type, t_bool, t_missing, eq_type, type_of, Value, Primitives,
}
use kapacitor.Tick.Functions.{TokenType, Result, value, return_type, calculate}
use kapacitor.Tick.Functions.Entries.{fits, calculate-fits}
use kapacitor.Tick.Eval.{
  Node, literal_node, reference_node, unary_node, binary_node, lambda_node, State, BinaryState,
  after_type, node_type, is_dynamic, constant_type, is_bool_operator, nil_fn,
}
use kapacitor.Tick.Binary.{Sides, eval_binary, evaluate_dynamic_node}
use kapacitor.Tick.Binary.Cached.{probe, dynamic, eval_binary-calculate}
use kapacitor.Tick.Expression.{
  eval_literal, eval_reference, eval, eval_expression, answered, evaluates,
}

-- The value of a literal or of a reference.
abbrev pub leaf : {F R : Type 0} → Dict (Value F R) → Node F R → Option (Value F R)
leaf scope (literal_node v) = some v
leaf scope (reference_node name) = lookup name scope
leaf scope _ = none

return_type-evaluates :
    (op : TokenType) (s t : ValueType)
    → eq_type (return_type op s t) invalid_type ≡ false
    → (evaluates (return_type op s t) ≡ true)
      × ((eq_type (return_type op s t) t_bool ≡ is_bool_operator op)
          × ((eq_type s t_missing ≡ false) × (eq_type t t_missing ≡ false)))
unfolding return_type
return_type-evaluates op s t h =
    (ground (arith, h), (ground (arith, h), (ground (arith, h), ground (arith, h))))

no_constant :
    (op : TokenType) (s : ValueType)
    → (return_type op s invalid_type ≡ invalid_type)
      × (return_type op invalid_type s ≡ invalid_type)
unfolding return_type
no_constant op s = (ground arith, ground arith)

module _ {F R : Type 0} (prims : Primitives F R) (rounds : ℕ) (scope : Dict (Value F R)) where
  leaf-eval :
      (n : Node F R) (v : Value F R)
      → leaf scope n ≡ some v
      → eq_type (type_of v) t_missing ≡ false
      → (u : ValueType) (c : State n) → eval prims rounds scope u n c ≡ (c, probe u v)
  unfolding eval eval_literal eval_reference
  leaf-eval (literal_node w) v h m u c = ground (arith, h)
  leaf-eval (reference_node name) v h m u c = ground (arith, h, m)
  leaf-eval (unary_node op n) v h m u c = cc
  leaf-eval (binary_node op l r) v h m u c = cc
  leaf-eval (lambda_node n) v h m u c = cc

  leaf-type :
      (n : Node F R) (v : Value F R) → leaf scope n ≡ some v → node_type scope n ≡ value (type_of v)
  unfolding node_type
  leaf-type (literal_node w) v h = ground (arith, h)
  leaf-type (reference_node name) v h = ground (arith, h)
  leaf-type (unary_node op n) v h = cc
  leaf-type (binary_node op l r) v h = cc
  leaf-type (lambda_node n) v h = cc

  leaf-constant :
      (op : TokenType) (l r : Node F R) (x y : Value F R)
      → leaf scope l ≡ some x
      → leaf scope r ≡ some y
      → is_dynamic l || is_dynamic r ≡ true
      → constant_type (binary_node op l r) ≡ (if is_bool_operator op then t_bool else invalid_type)
  unfolding constant_type is_dynamic
  leaf-constant op (literal_node v) (literal_node w) x y h k d = cc
  leaf-constant op (reference_node v) (reference_node w) x y h k d =
      ground (arith, no_constant op invalid_type)
  leaf-constant op (literal_node v) (reference_node w) x y h k d =
      ground (arith, no_constant op (type_of v))
  leaf-constant op (reference_node v) (literal_node w) x y h k d =
      ground (arith, no_constant op (type_of w))
  leaf-constant op l r x y h k d = cc

  answered-fits :
      {A : Type 0} (t constant : ValueType) (o : A × Result (Value F R)) (a : A)
      → evaluates t ≡ true
      → fits t o.1 ≡ true
      → (answered prims rounds scope t constant o a).1 ≡ o.1
  unfolding answered
  answered-fits t constant (a', o) a e h = ground (arith, e, h)

module _ {F R : Type 0} (prims : Primitives F R) (k : ℕ) (scope : Dict (Value F R)) (op : TokenType)
    (l r : Node F R) (x y : Value F R) (at_left : leaf scope l ≡ some x)
    (at_right : leaf scope r ≡ some y) (has_dynamic : is_dynamic l || is_dynamic r ≡ true)
    (has_entry : eq_type (return_type op (type_of x) (type_of y)) invalid_type ≡ false) where
  abbrev rounds : ℕ
  rounds = suc (suc (suc k))

  abbrev sides : Sides F R (State l) (State r)
  sides = record {
    eval_left = λ u cl. eval prims rounds scope u l cl;
    eval_right = λ u cr. eval prims rounds scope u r cr;
    left_type = node_type scope l;
    right_type = node_type scope r;
    after_left = after_type scope l;
    after_right = after_type scope r;
  }

  abbrev type : ValueType
  type = return_type op (type_of x) (type_of y)

  facts :
      (evaluates type ≡ true)
      × ((eq_type type t_bool ≡ is_bool_operator op)
          × ((eq_type (type_of x) t_missing ≡ false) × (eq_type (type_of y) t_missing ≡ false)))
  facts = return_type-evaluates op (type_of x) (type_of y) has_entry

  its_type : node_type scope (binary_node op l r) ≡ value type
  unfolding node_type
  its_type = ground (
    arith,
    leaf-type prims rounds scope l x at_left,
    leaf-type prims rounds scope r y at_right,
    leaf-constant prims rounds scope op l r x y at_left at_right has_dynamic,
    facts.1.0,
    has_entry,
  )

  on_left : (u : ValueType) (c : State l) → sides.eval_left u c ≡ (c, probe u x)
  on_left = leaf-eval prims rounds scope l x at_left facts.1.1.0

  on_right : (u : ValueType) (c : State r) → sides.eval_right u c ≡ (c, probe u y)
  on_right = leaf-eval prims rounds scope r y at_right facts.1.1.1

  out : BinaryState × (State l × State r) → Result (Value F R)
  out c =
      (if eq_type type t_bool && (is_dynamic l || is_dynamic r)
        then evaluate_dynamic_node prims op sides (λ d. eval_binary prims op sides rounds d) c
        else eval_binary prims op sides rounds c).1.1

  stores :
      (b : BinaryState) (cs : State l × State r)
      → is_bool_operator op ≡ false
      → ((after_type scope (binary_node op l r) (b, cs)).0.evaluation_fn ≡ b.evaluation_fn)
        × (((after_type scope (binary_node op l r) (b, cs)).0.left_type ≡ type_of x)
            × ((after_type scope (binary_node op l r) (b, cs)).0.right_type ≡ type_of y))
  unfolding after_type
  stores b (cl, cr) h =
      let left = leaf-type prims rounds scope l x at_left in
      let right = leaf-type prims rounds scope r y at_right in
      let constant = leaf-constant prims rounds scope op l r x y at_left at_right has_dynamic in
      (
        ground (arith, left, right, constant, h),
        (ground (arith, left, right, constant, h), ground (arith, left, right, constant, h)),
      )

  calculates :
      (b : BinaryState) (cs : State l × State r)
      → (b.evaluation_fn ≡ nil_fn → ⊥)
      → out (after_type scope (binary_node op l r) (b, cs)) ≡ calculate prims op x y
  unfolding out
  calculates b cs live =
      let c = after_type scope (binary_node op l r) (b, cs) in
      let left = leaf-type prims rounds scope l x at_left in
      let right = leaf-type prims rounds scope r y at_right in
      elim (Bool-cases (is_bool_operator op)) [
        | inl e ↦ ground (
          arith,
          facts.1.0,
          e,
          has_dynamic,
          dynamic prims op sides x y on_left on_right has_entry left right (suc (suc k)) c,
        )
        | inr e ↦
            let (f, (tl, tr)) = stores b cs e in
            ground (
              arith,
              facts.1.0,
              e,
              eval_binary-calculate prims op sides x y on_left on_right has_entry left right k c.0
                  c.1 (λ h. live (sym f ∙ h)) tl tr,
            )
      ]

  -- Expression.Eval on a binary node whose sides are literals or references, one at least a
  -- reference, in a scope that gives them values for whose types the table has an entry, where at
  -- least three rounds of retries are possible: whatever values the node saw before, and whatever
  -- function it keeps of them, unless it keeps none, the result is that of the entry's function on
  -- the current values.
  pub eval_expression-calculate :
      (b : BinaryState) (cs : State l × State r)
      → (b.evaluation_fn ≡ nil_fn → ⊥)
      → (eval_expression prims rounds scope (binary_node op l r) (b, cs)).1 ≡ calculate prims op x y
  unfolding eval_expression eval out
  eval_expression-calculate b cs live =
      let c = after_type scope (binary_node op l r) (b, cs) in
      let constant = constant_type (binary_node op l r) in
      let e : eval_expression prims rounds scope (binary_node op l r) (b, cs)
          ≡ eval prims rounds scope type (binary_node op l r) c =
        ground (arith, its_type, facts.0) in
      let f : fits type (out c) ≡ true =
        ap (fits type) (calculates b cs live) ∙ calculate-fits prims op x y in
      ap (λ o. o.1) e
      ∙ answered-fits prims rounds scope type constant _ c facts.0 f
      ∙ calculates b cs live
