-- ===== src/Join/Point.antt =====
-- JoinIntoPoint of join.go: one point of the points of a set. The fields of a point are any values
-- `V` under their names.
pub mod Fields
pub mod Laws
pub mod Stream
pub mod InTime
use Prim.Native.String.{String, ◌++◌ as str_append}
use kapacitor.Prelude.{
  ℕ, zero, suc, ◌+◌, List, [], ◌∷◌, ◌++◌, Option, none, some, if◌then◌else◌, get_or, get_elem?, map,
}
use kapacitor.Prelude.Dict.{Dict, insert}
use kapacitor.Join.{JoinSet}

-- The cases of influxql.FillOption that the code tells apart; null_fill gives nil.
pub data Fill (V : Type 0) : Type 0 where
  null_fill : Fill V
  number_fill : (fill_value : V) → Fill V
  other_fill : Fill V

-- What the node gives its sets.
pub record Naming (V : Type 0) : Type 0 where
  pub prefixes : List String
  pub delimiter : String
  pub fill : Fill V
  pub nil : V

-- A panic, `nil, nil`, or the point: its fields and its time.
pub data Joined (V : Type 0) : Type 0 where
  panics : Joined V
  no_point : Joined V
  joined : (time : ℕ) (fields : Dict V) → Joined V

module _ {V : Type 0} where
  unfoldable pub field_name : Naming V → (i : ℕ) → String → String
  field_name c i k = str_append (get_or c.prefixes i "") (str_append c.delimiter k)

  -- The loop over a map of fields, in some order, whose writes go to the joined fields.
  pub add_fields : Naming V → (i : ℕ) → Dict V → Dict V → Dict V
  add_fields c i [] fields = fields
  add_fields c i ((k, v) ∷ m) fields = insert (field_name c i k) v (add_fields c i m fields)

  -- The loop over the fields of the first point with one value for all.
  abbrev pub constant : V → Dict V → Dict V
  constant v [] = []
  constant v ((k, w) ∷ m) = (k, v) ∷ constant v m

  pub fill_fields : Fill V → (nil : V) → Dict V → Option (Dict V)
  fill_fields null_fill nil first = some (constant nil first)
  fill_fields (number_fill v) nil first = some (constant v first)
  fill_fields other_fill nil first = none

  abbrev pub put_joined : List (ℕ × Dict V) → Joined V → Option (List (ℕ × Dict V))
  put_joined out panics = none
  put_joined out no_point = some out
  put_joined out (joined t fields) = some (out ++ (t, fields) ∷ [])

  module _ {P : Type 0} (fields_of : P → Dict V) (c : Naming V) where
    -- What a source adds: none ends the loop without a point.
    unfoldable pub source_fields : (first : Dict V) → Option P → Option (Dict V)
    source_fields first none = fill_fields c.fill c.nil first
    source_fields first (some p) = some (fields_of p)

    -- The loop over the sources, from the source `i` on.
    pub join_values : (first : Dict V) (i : ℕ) → List (Option P) → Dict V → Option (Dict V)
    join_values first i [] fields = some fields
    join_values first i (v ∷ vs) fields = elim (source_fields first v) [
      | none ↦ none
      | some m ↦ join_values first (i + 1) vs (add_fields c i m fields)
    ]

    -- JoinIntoPoint, where all messages of the set are points.
    pub join_into_point : JoinSet P → Joined V
    join_into_point js = elim (get_elem? js.values js.first) [
      | none ↦ panics
      | some v ↦ elim v [
        | none ↦ panics
        | some p ↦ elim (join_values (fields_of p) 0 js.values []) [
          | none ↦ no_point
          | some fields ↦ joined js.time fields
        ]
      ]
    ]

    -- emitJoinedSet of a stream, where forwarding a point puts it to a list and does not fail; the
    -- list is none behind a panic.
    pub emit_joined_set :
        JoinSet P → Option (List (ℕ × Dict V)) → Option (List (ℕ × Dict V)) × Option ℕ
    emit_joined_set js none = (none, none)
    emit_joined_set js (some out) = (put_joined out (join_into_point js), none)
