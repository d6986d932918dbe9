-- ===== src/Tick/Functions.antt =====
-- The table of evaluation functions (tick/stateful/evaluation_funcs.go).
pub mod Entries
use Prim.Native.String.{String, ◌++◌ as concat}
use text.Mathlib.Text.{◌==◌ as str_eq}
use kapacitor.Prelude.{ℕ, Bool, true, false, not, if◌then◌else◌, Option, none, some, ◌==◌}
use kapacitor.Combine.{mul_64}
use kapacitor.Tick.Values.{
  ValueType, invalid_type, t_float, t_int, t_string, t_bool, t_regex, t_duration, Value,
  float_value, int_value, string_value, bool_value, regex_value, duration_value, Primitives, add_64,
  neg_64, sub_64, quot_64, rem_64, lt_64,
}

pub data TokenType : Type 0 where
  token_not : TokenType
  token_plus : TokenType
  token_minus : TokenType
  token_mult : TokenType
  token_div : TokenType
  token_mod : TokenType
  token_and : TokenType
  token_or : TokenType
  token_equal : TokenType
  token_not_equal : TokenType
  token_less : TokenType
  token_greater : TokenType
  token_less_equal : TokenType
  token_greater_equal : TokenType
  token_regex_equal : TokenType
  token_regex_not_equal : TokenType

-- A value; the error of a type guard, with the type that the node has; another error; a panic; no
-- end within the rounds that the model gives to the retries of a node.
pub data Result (A : Type 0) : Type 0 where
  value : A → Result A
  type_guard : ValueType → Result A
  failed : Result A
  panics : Result A
  unfinished : Result A

-- The types that the entries of the table return, for their operands' types: no entry is
-- InvalidType.
abbrev pub compares : TokenType → ValueType
compares token_equal = t_bool
compares token_not_equal = t_bool
compares token_less = t_bool
compares token_greater = t_bool
compares token_less_equal = t_bool
compares token_greater_equal = t_bool
compares _ = invalid_type

abbrev pub logic_type : TokenType → ValueType
logic_type token_and = t_bool
logic_type token_or = t_bool
logic_type token_equal = t_bool
logic_type token_not_equal = t_bool
logic_type _ = invalid_type

abbrev pub float_type : TokenType → ValueType
float_type token_plus = t_float
float_type token_minus = t_float
float_type token_mult = t_float
float_type token_div = t_float
float_type op = compares op

abbrev pub int_type : TokenType → ValueType
int_type token_plus = t_int
int_type token_minus = t_int
int_type token_mult = t_int
int_type token_div = t_int
int_type token_mod = t_int
int_type op = compares op

abbrev pub string_type : TokenType → ValueType
string_type token_plus = t_string
string_type op = compares op

abbrev pub regex_type : TokenType → ValueType
regex_type token_regex_equal = t_bool
regex_type token_regex_not_equal = t_bool
regex_type _ = invalid_type

abbrev pub duration_type : TokenType → ValueType
duration_type token_plus = t_duration
duration_type token_minus = t_duration
duration_type token_div = t_int
duration_type op = compares op

-- Of a duration by a number, and of a number by a duration.
abbrev pub scale_type : TokenType → ValueType
scale_type token_mult = t_duration
scale_type token_div = t_duration
scale_type _ = invalid_type

abbrev pub scaled_type : TokenType → ValueType
scaled_type token_mult = t_duration
scaled_type _ = invalid_type

-- binaryConstantTypes
unfoldable pub return_type : TokenType → (left right : ValueType) → ValueType
return_type op t_bool t_bool = logic_type op
return_type op t_float t_float = float_type op
return_type op t_int t_int = int_type op
return_type op t_int t_float = compares op
return_type op t_float t_int = compares op
return_type op t_string t_string = string_type op
return_type op t_string t_regex = regex_type op
return_type op t_duration t_duration = duration_type op
return_type op t_duration t_int = scale_type op
return_type op t_duration t_float = scale_type op
return_type op t_int t_duration = scaled_type op
return_type op t_float t_duration = scaled_type op
return_type op _ _ = invalid_type

module _ {F R : Type 0} (prims : Primitives F R) where
  abbrev pub answer : Bool → Result (Value F R)
  answer b = value (bool_value b)

  -- The comparison functions, given the answers of ==, <, >, <= and >=.
  unfoldable pub compare_values : TokenType → (eq_ lt_ gt_ le_ ge_ : Bool) → Result (Value F R)
  compare_values token_equal e l g le ge = answer e
  compare_values token_not_equal e l g le ge = answer (not e)
  compare_values token_less e l g le ge = answer l
  compare_values token_greater e l g le ge = answer g
  compare_values token_less_equal e l g le ge = answer le
  compare_values token_greater_equal e l g le ge = answer ge
  compare_values _ e l g le ge = failed

  -- After the short circuits of AND and OR.
  unfoldable pub logic : TokenType → Bool → Bool → Result (Value F R)
  logic token_and a b = answer (if a then b else false)
  logic token_or a b = answer (if a then true else b)
  logic token_equal a b = answer (if a then b else not b)
  logic token_not_equal a b = answer (if a then not b else b)
  logic _ a b = failed

  abbrev pub compare_floats : TokenType → F → F → Result (Value F R)
  compare_floats op x y =
      compare_values op (prims.eq_float x y) (prims.lt_float x y) (prims.lt_float y x)
        (prims.le_float x y) (prims.le_float y x)

  abbrev pub compare_ints : TokenType → ℕ → ℕ → Result (Value F R)
  compare_ints op x y =
      compare_values op (x == y) (lt_64 x y) (lt_64 y x) (not (lt_64 y x)) (not (lt_64 x y))

  abbrev pub or_panic : (ℕ → Value F R) → Option ℕ → Result (Value F R)
  or_panic f none = panics
  or_panic f (some n) = value (f n)

  unfoldable pub float_fn : TokenType → F → F → Result (Value F R)
  float_fn token_plus x y = value (float_value (prims.add_float x y))
  float_fn token_minus x y = value (float_value (prims.sub_float x y))
  float_fn token_mult x y = value (float_value (prims.mul_float x y))
  float_fn token_div x y = value (float_value (prims.div_float x y))
  float_fn op x y = compare_floats op x y

  unfoldable pub int_fn : TokenType → ℕ → ℕ → Result (Value F R)
  int_fn token_plus x y = value (int_value (add_64 x y))
  int_fn token_minus x y = value (int_value (sub_64 x y))
  int_fn token_mult x y = value (int_value (mul_64 x y))
  int_fn token_div x y = or_panic int_value (quot_64 x y)
  int_fn token_mod x y = or_panic int_value (rem_64 x y)
  int_fn op x y = compare_ints op x y

  unfoldable pub string_fn : TokenType → String → String → Result (Value F R)
  string_fn token_plus x y = value (string_value (concat x y))
  string_fn op x y =
      compare_values op (str_eq x y) (prims.lt_string x y) (prims.lt_string y x)
        (not (prims.lt_string y x)) (not (prims.lt_string x y))

  unfoldable pub regex_fn : TokenType → String → R → Result (Value F R)
  regex_fn token_regex_equal x r = answer (prims.match_string r x)
  regex_fn token_regex_not_equal x r = answer (not (prims.match_string r x))
  regex_fn _ x r = failed

  unfoldable pub duration_fn : TokenType → ℕ → ℕ → Result (Value F R)
  duration_fn token_plus x y = value (duration_value (add_64 x y))
  duration_fn token_minus x y = value (duration_value (sub_64 x y))
  duration_fn token_div x y = or_panic int_value (quot_64 x y)
  duration_fn op x y = compare_ints op x y

  -- A duration and an int, a duration and a float, an int and a duration, a float and a duration.
  unfoldable pub scale_int : TokenType → ℕ → ℕ → Result (Value F R)
  scale_int token_mult d n = value (duration_value (mul_64 d n))
  scale_int token_div d n = or_panic duration_value (quot_64 d n)
  scale_int _ d n = failed

  unfoldable pub scale_float : TokenType → ℕ → F → Result (Value F R)
  scale_float token_mult d x =
      value (duration_value (prims.to_int (prims.mul_float (prims.of_int d) x)))
  scale_float token_div d x =
      value (duration_value (prims.to_int (prims.div_float (prims.of_int d) x)))
  scale_float _ d x = failed

  unfoldable pub int_scaled : TokenType → ℕ → ℕ → Result (Value F R)
  int_scaled token_mult n d = value (duration_value (mul_64 n d))
  int_scaled _ n d = failed

  unfoldable pub float_scaled : TokenType → F → ℕ → Result (Value F R)
  float_scaled token_mult x d =
      value (duration_value (prims.to_int (prims.mul_float x (prims.of_int d))))
  float_scaled _ x d = failed

  -- What the function of an entry makes of its operands' values; `failed` where there is no entry.
  unfoldable pub calculate : TokenType → Value F R → Value F R → Result (Value F R)
  calculate op (bool_value a) (bool_value b) = logic op a b
  calculate op (float_value x) (float_value y) = float_fn op x y
  calculate op (int_value x) (int_value y) = int_fn op x y
  calculate op (int_value x) (float_value y) = compare_floats op (prims.of_int x) y
  calculate op (float_value x) (int_value y) = compare_floats op x (prims.of_int y)
  calculate op (string_value x) (string_value y) = string_fn op x y
  calculate op (string_value x) (regex_value r) = regex_fn op x r
  calculate op (duration_value x) (duration_value y) = duration_fn op x y
  calculate op (duration_value x) (int_value y) = scale_int op x y
  calculate op (duration_value x) (float_value y) = scale_float op x y
  calculate op (int_value x) (duration_value y) = int_scaled op x y
  calculate op (float_value x) (duration_value y) = float_scaled op x y
  calculate op _ _ = failed
