-- ===== src/Tick/Functions/Entries.antt =====
-- The table of evaluation functions (tick/stateful/evaluation_funcs.go) against the types that it
-- gives for them.
use Prim.Native.String.{String}
use kapacitor.Prelude.{ℕ, Bool, true, false, not, ◌&&◌, ◌≡◌, arith}
use kapacitor.Tick.Values.{
  ValueType, invalid_type, eq_type, type_of, Value, Primitives, bool_value, float_value, int_value,
  string_value, regex_value, duration_value,
}
use kapacitor.Tick.Functions.{
  regex_type, scale_type, logic_type, compare_floats, scaled_type, duration_type, float_type,
  scale_float, float_fn, float_scaled, regex_fn, int_scaled, scale_int, duration_fn, compares,
  logic, string_type, string_fn, int_type, TokenType, Result, value, failed, panics, return_type,
  calculate, int_fn, compare_values,
}

-- What a result may be, where an entry returns the type `t`; InvalidType stands for no entry.
abbrev pub fits : {F R : Type 0} → ValueType → Result (Value F R) → Bool
fits t (value v) = eq_type (type_of v) t && not (eq_type t invalid_type)
fits t panics = not (eq_type t invalid_type)
fits t failed = eq_type t invalid_type
fits t _ = false

module _ {F R : Type 0} (prims : Primitives F R) where
  int-fits : (op : TokenType) (x y : ℕ) → fits (int_type op) (int_fn prims op x y) ≡ true
  unfolding int_fn compare_values
  int-fits op x y = ground arith

  float-fits : (op : TokenType) (x y : F) → fits (float_type op) (float_fn prims op x y) ≡ true
  unfolding float_fn compare_values
  float-fits op x y = ground arith

  mixed-fits : (op : TokenType) (x y : F) → fits (compares op) (compare_floats prims op x y) ≡ true
  unfolding compare_values
  mixed-fits op x y = ground arith

  string-fits :
      (op : TokenType) (x y : String) → fits (string_type op) (string_fn prims op x y) ≡ true
  unfolding string_fn compare_values
  string-fits op x y = ground arith

  regex-fits :
      (op : TokenType) (x : String) (r : R) → fits (regex_type op) (regex_fn prims op x r) ≡ true
  unfolding regex_fn
  regex-fits op x r = ground arith

  logic-fits : (op : TokenType) (a b : Bool) → fits (logic_type op) (logic prims op a b) ≡ true
  unfolding logic
  logic-fits op a b = ground arith

  duration-fits :
      (op : TokenType) (x y : ℕ) → fits (duration_type op) (duration_fn prims op x y) ≡ true
  unfolding duration_fn compare_values
  duration-fits op x y = ground arith

  scale_int-fits : (op : TokenType) (d n : ℕ) → fits (scale_type op) (scale_int prims op d n) ≡ true
  unfolding scale_int
  scale_int-fits op d n = ground arith

  scale_float-fits :
      (op : TokenType) (d : ℕ) (x : F) → fits (scale_type op) (scale_float prims op d x) ≡ true
  unfolding scale_float
  scale_float-fits op d x = ground arith

  int_scaled-fits :
      (op : TokenType) (n d : ℕ) → fits (scaled_type op) (int_scaled prims op n d) ≡ true
  unfolding int_scaled
  int_scaled-fits op n d = ground arith

  float_scaled-fits :
      (op : TokenType) (x : F) (d : ℕ) → fits (scaled_type op) (float_scaled prims op x d) ≡ true
  unfolding float_scaled
  float_scaled-fits op x d = ground arith

  -- For every operator and all values: if the table has an entry for the operator and the types of
  -- the values, its function returns a value of the entry's type or panics; if it has none, there
  -- is no result.
  pub calculate-fits :
      (op : TokenType) (a b : Value F R)
      → fits (return_type op (type_of a) (type_of b)) (calculate prims op a b) ≡ true
  unfolding calculate return_type
  calculate-fits op (bool_value x) (bool_value y) = logic-fits op x y
  calculate-fits op (float_value x) (float_value y) = float-fits op x y
  calculate-fits op (int_value x) (int_value y) = int-fits op x y
  calculate-fits op (int_value x) (float_value y) = mixed-fits op (prims.of_int x) y
  calculate-fits op (float_value x) (int_value y) = mixed-fits op x (prims.of_int y)
  calculate-fits op (string_value x) (string_value y) = string-fits op x y
  calculate-fits op (string_value x) (regex_value y) = regex-fits op x y
  calculate-fits op (duration_value x) (duration_value y) = duration-fits op x y
  calculate-fits op (duration_value x) (int_value y) = scale_int-fits op x y
  calculate-fits op (duration_value x) (float_value y) = scale_float-fits op x y
  calculate-fits op (int_value x) (duration_value y) = int_scaled-fits op x y
  calculate-fits op (float_value x) (duration_value y) = float_scaled-fits op x y
  calculate-fits op a b = ground arith
