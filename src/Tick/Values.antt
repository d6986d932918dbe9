-- ===== src/Tick/Values.antt =====
-- The values and types of expressions (tick/ast/types.go), and the int64 arithmetic on them.
use Prim.Native.String.{String}
use kapacitor.Prelude.{
  ℕ, ◌+◌, ◌-◌, ◌/◌, ◌%◌, ◌^◌, Bool, ltb, ◌==◌, if◌then◌else◌, Option, none, some,
}
use kapacitor.Combine.{gt_64}

pub data ValueType : Type 0 where
  invalid_type : ValueType
  t_float : ValueType
  t_int : ValueType
  t_string : ValueType
  t_bool : ValueType
  t_regex : ValueType
  t_time : ValueType
  t_duration : ValueType
  t_lambda : ValueType
  t_list : ValueType
  t_star : ValueType
  t_missing : ValueType

-- A number for each type, to compare types by.
abbrev pub type_code : ValueType → ℕ
type_code invalid_type = 0
type_code t_float = 1
type_code t_int = 2
type_code t_string = 3
type_code t_bool = 4
type_code t_regex = 5
type_code t_time = 6
type_code t_duration = 7
type_code t_lambda = 8
type_code t_list = 9
type_code t_star = 10
type_code t_missing = 11

abbrev pub eq_type : ValueType → ValueType → Bool
eq_type s t = type_code s == type_code t

-- `F` are the floating-point numbers and `R` the regular expressions. An int64 and a duration are
-- bit patterns below 2 ^ 64. Of lambdas, lists and stars only the type is looked at;
-- `unknown_value` is a Go value of any other type.
pub data Value (F R : Type 0) : Type 0 where
  float_value : F → Value F R
  int_value : ℕ → Value F R
  string_value : String → Value F R
  bool_value : Bool → Value F R
  regex_value : R → Value F R
  time_value : ℕ → Value F R
  duration_value : ℕ → Value F R
  lambda_value : Value F R
  list_value : Value F R
  star_value : Value F R
  missing_value : Value F R
  unknown_value : Value F R

abbrev pub type_of : {F R : Type 0} → Value F R → ValueType
type_of (float_value x) = t_float
type_of (int_value x) = t_int
type_of (string_value x) = t_string
type_of (bool_value x) = t_bool
type_of (regex_value x) = t_regex
type_of (time_value x) = t_time
type_of (duration_value x) = t_duration
type_of lambda_value = t_lambda
type_of list_value = t_list
type_of star_value = t_star
type_of missing_value = t_missing
type_of unknown_value = invalid_type

-- What Go's floating-point numbers, regular expressions and strings do.
pub record Primitives (F R : Type 0) : Type 0 where
  pub of_int : ℕ → F
  pub to_int : F → ℕ
  pub eq_float : F → F → Bool
  pub lt_float : F → F → Bool
  pub le_float : F → F → Bool
  pub add_float : F → F → F
  pub sub_float : F → F → F
  pub mul_float : F → F → F
  pub div_float : F → F → F
  pub match_string : R → String → Bool
  pub lt_string : String → String → Bool

abbrev pub add_64 : ℕ → ℕ → ℕ
add_64 a b = (a + b) % 2 ^ 64

abbrev pub neg_64 : ℕ → ℕ
neg_64 a = (2 ^ 64 - a) % 2 ^ 64

abbrev pub sub_64 : ℕ → ℕ → ℕ
sub_64 a b = add_64 a (neg_64 b)

abbrev pub abs_64 : ℕ → ℕ
abs_64 a = if ltb a (2 ^ 63) then a else 2 ^ 64 - a

-- The quotient that is cut towards 0, and the remainder that goes with it; by 0 both panic.
abbrev pub quot_64 : ℕ → ℕ → Option ℕ
quot_64 a b =
    let q = abs_64 a / abs_64 b in
    if b == 0
    then none
    else if ltb a (2 ^ 63)
    then some (if ltb b (2 ^ 63) then q else neg_64 q)
    else some (if ltb b (2 ^ 63) then neg_64 q else q % 2 ^ 64)

abbrev pub rem_64 : ℕ → ℕ → Option ℕ
rem_64 a b =
    let r = abs_64 a % abs_64 b in
    if b == 0 then none else some (if ltb a (2 ^ 63) then r else neg_64 r)

abbrev pub lt_64 : ℕ → ℕ → Bool
lt_64 a b = gt_64 b a
