-- ===== src/Tick/Binary/Cached.antt =====
-- EvalBinaryNode.eval (tick/stateful/eval_binary_node.go) with a function that is kept from earlier
-- values, on two sides that answer at once.
use kapacitor.Prelude.{
  ◌⊎◌, ℕ, suc, Bool, true, false, ◌≡◌, refl, ◌∙◌, ap, none, some, arith, Bool-cases, Option-cases,
  inl, inr, if◌then◌else◌,
}
use kapacitor.Tick.Values.{ValueType, invalid_type, eq_type, type_of, Value, bool_value, Primitives}
use kapacitor.Tick.Functions.{TokenType, Result, value, type_guard, return_type, calculate, logic}
use kapacitor.Tick.Functions.Entries.{calculate-fits}
use kapacitor.Tick.Eval.{BinaryState, EvaluationFn, dynamic_fn, nil_fn, entry_fn, lookup_fn}
use kapacitor.Tick.Binary.{
  Sided, Sides, call, evaluate_dynamic_node, settle, eval_binary, short_circuit, retype,
}

-- A node that holds the value `v` and answers with it, or with its type.
abbrev pub probe : {F R : Type 0} → ValueType → Value F R → Result (Value F R)
probe t v = if eq_type t (type_of v) then value v else type_guard (type_of v)

fn-cases :
    (f : EvaluationFn)
    → (f ≡ dynamic_fn) ⊎ ((f ≡ nil_fn) ⊎ ((t : ValueType × ValueType) × (f ≡ entry_fn t.0 t.1)))
fn-cases dynamic_fn = inl refl
fn-cases nil_fn = inr (inl refl)
fn-cases (entry_fn l r) = inr (inr ((l, r), refl))

module _ {F R A B : Type 0} (prims : Primitives F R) (op : TokenType) (s : Sides F R A B)
    (x y : Value F R) (at_left : (u : ValueType) (c : A) → s.eval_left u c ≡ (c, probe u x))
    (at_right : (u : ValueType) (c : B) → s.eval_right u c ≡ (c, probe u y))
    (has_entry : eq_type (return_type op (type_of x) (type_of y)) invalid_type ≡ false) where
  early : (b : Bool) → short_circuit op x ≡ some b → calculate prims op x y ≡ value (bool_value b)
  unfolding calculate return_type logic
  early b h = ground (arith, h, has_entry)

  entry : lookup_fn op (type_of x) (type_of y) ≡ entry_fn (type_of x) (type_of y)
  unfolding lookup_fn
  entry = ground (arith, has_entry)

  passes_on :
      (run : BinaryState × (A × B) → Sided prims op s) (r : Sided prims op s)
      → r.1.1 ≡ calculate prims op x y
      → (settle prims op s run r).1.1 ≡ calculate prims op x y
  unfolding settle
  passes_on run ((b, cs), (left, r)) h = ground (arith, h, calculate-fits prims op x y)

  at_dynamic :
      (k : ℕ) (b : BinaryState) (cs : A × B)
      → b.evaluation_fn ≡ dynamic_fn
      → eval_binary prims op s (suc k) (b, cs)
        ≡ settle prims op s
            (eval_binary prims op s k)
            (evaluate_dynamic_node prims op s (eval_binary prims op s k) (b, cs))
  unfolding eval_binary
  at_dynamic k b cs h = ground (arith, h)

  at_entry :
      (k : ℕ) (b : BinaryState) (cs : A × B) (tl tr : ValueType)
      → b.evaluation_fn ≡ entry_fn tl tr
      → eval_binary prims op s (suc k) (b, cs)
        ≡ settle prims op s (eval_binary prims op s k) (call prims op s tl tr (b, cs))
  unfolding eval_binary
  at_entry k b cs tl tr h = ground (arith, h)

  call-early :
      (tl tr : ValueType) (b : BinaryState) (cl : A) (cr : B) (v : Bool)
      → eq_type tl (type_of x) ≡ true
      → short_circuit op x ≡ some v
      → call prims op s tl tr (b, (cl, cr)) ≡ ((b, (cl, cr)), (false, calculate prims op x y))
  unfolding call
  call-early tl tr b cl cr v t e = ground (arith, at_left tl cl, t, e, early v e)

  call-both :
      (tl tr : ValueType) (b : BinaryState) (cl : A) (cr : B)
      → eq_type tl (type_of x) ≡ true
      → eq_type tr (type_of y) ≡ true
      → call prims op s tl tr (b, (cl, cr)) ≡ ((b, (cl, cr)), (false, calculate prims op x y))
  unfolding call
  call-both tl tr b cl cr t u = elim (Option-cases (short_circuit op x)) [
    | inl e ↦ ground (arith, at_left tl cl, at_right tr cr, t, u, e)
    | inr (v, e) ↦ call-early tl tr b cl cr v t e
  ]

  call-left :
      (tl tr : ValueType) (b : BinaryState) (cl : A) (cr : B)
      → eq_type tl (type_of x) ≡ false
      → call prims op s tl tr (b, (cl, cr)) ≡ ((b, (cl, cr)), (true, type_guard (type_of x)))
  unfolding call
  call-left tl tr b cl cr t = ground (arith, at_left tl cl, t)

  call-right :
      (tl tr : ValueType) (b : BinaryState) (cl : A) (cr : B)
      → eq_type tl (type_of x) ≡ true
      → short_circuit op x ≡ none
      → eq_type tr (type_of y) ≡ false
      → call prims op s tl tr (b, (cl, cr)) ≡ ((b, (cl, cr)), (false, type_guard (type_of y)))
  unfolding call
  call-right tl tr b cl cr t e u = ground (arith, at_left tl cl, at_right tr cr, t, e, u)

  at_once :
      (k : ℕ) (b : BinaryState) (cs : A × B) (tl tr : ValueType)
      → b.evaluation_fn ≡ entry_fn tl tr
      → call prims op s tl tr (b, cs) ≡ ((b, cs), (false, calculate prims op x y))
      → (eval_binary prims op s (suc k) (b, cs)).1.1 ≡ calculate prims op x y
  at_once k b cs tl tr h e =
      ap (λ r. r.1.1)
        (at_entry k b cs tl tr h ∙ ap (settle prims op s (eval_binary prims op s k)) e)
      ∙ passes_on (eval_binary prims op s k) ((b, cs), (false, calculate prims op x y)) refl

  -- The function for the types of the values.
  fresh :
      (k : ℕ) (b : BinaryState) (cs : A × B)
      → b.evaluation_fn ≡ entry_fn (type_of x) (type_of y)
      → (eval_binary prims op s (suc k) (b, cs)).1.1 ≡ calculate prims op x y
  fresh k b (cl, cr) h =
      at_once k b (cl, cr) (type_of x) (type_of y) h
        (call-both (type_of x) (type_of y) b cl cr (ground arith) (ground arith))

  again :
      (k : ℕ) (b : BinaryState) (cs : A × B) (tl tr t : ValueType) (left : Bool)
      → b.evaluation_fn ≡ entry_fn tl tr
      → call prims op s tl tr (b, cs) ≡ ((b, cs), (left, type_guard t))
      → (retype op left t b).evaluation_fn ≡ entry_fn (type_of x) (type_of y)
      → (eval_binary prims op s (suc (suc k)) (b, cs)).1.1 ≡ calculate prims op x y
  unfolding settle
  again k b cs tl tr t left h e f =
      ap (λ r. r.1.1)
        (at_entry (suc k) b cs tl tr h
          ∙ ap (settle prims op s (eval_binary prims op s (suc k))) e
          ∙ retries (eval_binary prims op s (suc k)))
      ∙ fresh k (retype op left t b) cs f
    where
      retries :
          (run : BinaryState × (A × B) → Sided prims op s)
          → settle prims op s run ((b, cs), (left, type_guard t)) ≡ run (retype op left t b, cs)
      retries run = ground (arith, f)

  -- Any other function, where the stored types are those of the values.
  stale :
      (k : ℕ) (b : BinaryState) (cs : A × B) (tl tr : ValueType)
      → b.evaluation_fn ≡ entry_fn tl tr
      → b.left_type ≡ type_of x
      → b.right_type ≡ type_of y
      → (eval_binary prims op s (suc (suc k)) (b, cs)).1.1 ≡ calculate prims op x y
  stale k b (cl, cr) tl tr h left right = elim (Bool-cases (eq_type tl (type_of x))) [
    | inr t ↦
        again k b (cl, cr) tl tr (type_of x) true h (call-left tl tr b cl cr t)
          (ap (lookup_fn op (type_of x)) right ∙ entry)
    | inl t ↦ elim (Option-cases (short_circuit op x)) [
      | inr (v, e) ↦ at_once (suc k) b (cl, cr) tl tr h (call-early tl tr b cl cr v t e)
      | inl e ↦ elim (Bool-cases (eq_type tr (type_of y))) [
        | inl u ↦ at_once (suc k) b (cl, cr) tl tr h (call-both tl tr b cl cr t u)
        | inr u ↦
            again k b (cl, cr) tl tr (type_of y) false h (call-right tl tr b cl cr t e u)
              (ap (λ z. lookup_fn op z (type_of y)) left ∙ entry)
      ]
    ]
  ]

  module _ (types_left : s.left_type ≡ value (type_of x))
      (types_right : s.right_type ≡ value (type_of y)) where
    -- evaluateDynamicNode, which looks the function up for the types of the values.
    pub dynamic :
        (k : ℕ) (c : BinaryState × (A × B))
        → (evaluate_dynamic_node prims op s (eval_binary prims op s (suc k)) c).1.1
          ≡ calculate prims op x y
    unfolding evaluate_dynamic_node
    dynamic k (b, (cl, cr)) =
        let b' : BinaryState = record {
          evaluation_fn = lookup_fn op (type_of x) (type_of y);
          left_type = type_of x;
          right_type = type_of y;
        } in
        let e : evaluate_dynamic_node prims op s (eval_binary prims op s (suc k)) (b, (cl, cr))
            ≡ eval_binary prims op s (suc k) (b', (s.after_left cl, s.after_right cr)) =
          ground (arith, types_left, types_right) in
        ap (λ r. r.1.1) e ∙ fresh k b' (s.after_left cl, s.after_right cr) entry

    -- Whatever function is kept, if one is, and if the types that are stored are those of the
    -- values: three rounds are enough, and the result is that of the function for the values.
    pub eval_binary-calculate :
        (k : ℕ) (b : BinaryState) (cs : A × B)
        → (b.evaluation_fn ≡ nil_fn → ⊥)
        → b.left_type ≡ type_of x
        → b.right_type ≡ type_of y
        → (eval_binary prims op s (suc (suc (suc k))) (b, cs)).1.1 ≡ calculate prims op x y
    eval_binary-calculate k b cs live left right = elim (fn-cases b.evaluation_fn) [
      | inl e ↦
          ap (λ r. r.1.1) (at_dynamic (suc (suc k)) b cs e)
          ∙ passes_on (eval_binary prims op s (suc (suc k))) _ (dynamic (suc k) (b, cs))
      | inr (inl e) ↦ absurd (live e)
      | inr (inr (t, e)) ↦ stale (suc k) b cs t.0 t.1 e left right
    ]
