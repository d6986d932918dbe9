-- ===== src/Join/Point/Fields.antt =====
-- The fields that JoinIntoPoint of join.go writes.
use Prim.Native.String.{String}
use text.Mathlib.Text.{◌==◌ as str_eq}
use text.Mathlib.TextEquality.{eq_iff}
use kapacitor.Prelude.{
  ℕ, zero, suc, ◌+◌, ◌≡◌, ap, ap₂, leb, ltb, ◌-◌, Bool, true, not, ◌&&◌, ◌||◌, ◌==◌, List, [], ◌∷◌,
  Option, none, some, if◌then◌else◌, arith, Bool-cases, Option-cases, inl, inr,
}
use kapacitor.Prelude.Dict.{Dict, lookup, lookup-insert}
use kapacitor.Join.Point.{Naming, field_name, add_fields, source_fields, join_values}

module _ {P V : Type 0} (fields_of : P → Dict V) (c : Naming V) where
  -- No field of the source `i` but `k` and no field of another source gets the name of the field
  -- `k` of the source `i`.
  abbrev pub apart : (i : ℕ) (k : String) (j : ℕ) → Dict V → Bool
  apart i k j [] = true
  apart i k j ((l, v) ∷ m) =
      (((j == i) && str_eq l k) || not (str_eq (field_name c j l) (field_name c i k)))
      && apart i k j m

  abbrev pub all_apart : (first : Dict V) (i : ℕ) (k : String) (j : ℕ) → List (Option P) → Bool
  all_apart first i k j [] = true
  all_apart first i k j (v ∷ vs) =
      (elim (source_fields fields_of c first v) [ none ↦ true | some m ↦ apart i k j m ])
      && all_apart first i k (suc j) vs

  abbrev or_else : Option V → Option V → Option V
  or_else none b = b
  or_else (some a) b = some a

  -- The field `k` that the source `i` adds.
  abbrev pub at : (first : Dict V) → List (Option P) → (i : ℕ) (k : String) → Option V
  at first [] i k = none
  at first (v ∷ vs) zero k = elim (source_fields fields_of c first v) [
    | none ↦ none
    | some m ↦ lookup k m
  ]
  at first (v ∷ vs) (suc i) k = at first vs i k

  add_fields-lookup :
      (i : ℕ) (k : String) (j : ℕ) (m fields : Dict V)
      → apart i k j m ≡ true
      → lookup (field_name c i k) (add_fields c j m fields)
        ≡ or_else (if j == i then lookup k m else none) (lookup (field_name c i k) fields)
  unfolding add_fields lookup
  add_fields-lookup i k j [] fields h = ground arith
  add_fields-lookup i k j ((l, v) ∷ m) fields h =
      let later : apart i k j m ≡ true = ground (arith, h) in
      let ih = add_fields-lookup i k j m fields later in
      let put = lookup-insert (field_name c j l) (field_name c i k) v (add_fields c j m fields) in
      elim (Bool-cases ((j == i) && str_eq l k)) [
        | inl e ↦
            let same : field_name c j l ≡ field_name c i k =
              ap₂ (λ a b. field_name c a b) (ground (arith, e)) (ground (arith, e, eq_iff l k)) in
            ground (arith, e, put, eq_iff (field_name c j l) (field_name c i k), same)
        | inr e ↦ ground (arith, e, put, h, ih)
      ]

  pub join_values-lookup :
      (first : Dict V) (i : ℕ) (k : String) (j : ℕ) (vs : List (Option P))
      (fields joined_fields : Dict V)
      → all_apart first i k j vs ≡ true
      → join_values fields_of c first j vs fields ≡ some joined_fields
      → lookup (field_name c i k) joined_fields
        ≡ or_else
            (if leb j i then at first vs (i - j) k else none)
            (lookup (field_name c i k) fields)
  unfolding join_values lookup
  join_values-lookup first i k j [] fields out h e =
      let same : fields ≡ out = cc e in ground (arith, ap (lookup (field_name c i k)) same)
  join_values-lookup first i k j (v ∷ vs) fields out h e =
      elim (Option-cases (source_fields fields_of c first v)) [
        | inl f ↦ absurd (ground (arith, e, f))
        | inr (m, f) ↦
            let ih =
              join_values-lookup first i k (j + 1) vs (add_fields c j m fields) out
                (ground (arith, h, f)) (ground (arith, e, f)) in
            let now = add_fields-lookup i k j m fields (ground (arith, h, f)) in
            elim (Bool-cases (ltb j i)) [
              | inl g ↦
                  let next : i - j ≡ suc (i - (j + 1)) = ground (arith, g) in
                  ground (arith, ih, now, g, ap (λ d. at first (v ∷ vs) d k) next)
              | inr g ↦ elim (Bool-cases (j == i)) [
                | inl g' ↦
                    let next : i - j ≡ 0 = ground (arith, g') in
                    ground (arith, ih, now, g, g', f, ap (λ d. at first (v ∷ vs) d k) next)
                | inr g' ↦ ground (arith, ih, now, g, g')
              ]
            ]
      ]
