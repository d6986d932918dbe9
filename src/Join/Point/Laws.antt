-- ===== src/Join/Point/Laws.antt =====
-- Which sets JoinIntoPoint of join.go joins, and with which fields.
use Prim.Native.String.{String}
use kapacitor.Prelude.{
  ℕ, suc, ◌+◌, ◌<◌, ◌≤◌, ◌≡◌, refl, sym, ◌∙◌, ap, subst, Bool, true, false, ◌||◌, List, [], ◌∷◌,
  Option, none, some, get_elem?, length, arith, Bool-cases, Option-cases, ◌⊎◌, inl, inr,
}
use kapacitor.Prelude.Dict.{Dict, lookup}
use kapacitor.Join.{JoinSet, has, ready}
use kapacitor.Join.Sets.{tally_values}
use kapacitor.Join.Sound.{Sound}
use kapacitor.Join.Point.Fields.{all_apart, at, join_values-lookup}
use kapacitor.Join.Point.{
  Fill, null_fill, number_fill, other_fill, Naming, Joined, no_point, joined, field_name,
  add_fields, fill_fields, source_fields, join_values, join_into_point, constant,
}

abbrev pub filled : {V : Type 0} → Fill V → Bool
filled null_fill = true
filled (number_fill v) = true
filled other_fill = false

filled-some :
    {V : Type 0} (f : Fill V) (nil : V) (first : Dict V)
    → filled f ≡ true
    → (m : Dict V) × (fill_fields f nil first ≡ some m)
unfolding fill_fields
filled-some null_fill nil first h = (constant nil first, refl)
filled-some (number_fill v) nil first h = (constant v first, refl)
filled-some other_fill nil first h = cc

filled-none :
    {V : Type 0} (f : Fill V) (nil : V) (first : Dict V)
    → filled f ≡ false
    → fill_fields f nil first ≡ none
unfolding fill_fields
filled-none null_fill nil first h = cc
filled-none (number_fill v) nil first h = cc
filled-none other_fill nil first h = refl

module _ {V : Type 0} where
  -- JoinIntoPoint of a set that joins, at its time with the value `field` under a name, or that
  -- does not join.
  abbrev pub Joins :
      (joins : Bool) (time : ℕ) (name : String) (field : Option V) → Joined V → Type 0
  Joins true time name field r =
      (out : Dict V) × ((r ≡ joined time out) × (lookup name out ≡ field))
  Joins false time name field r = r ≡ no_point

module _ {P V : Type 0} (fields_of : P → Dict V) (c : Naming V) where
  -- How many sources of a set have a point.
  abbrev pub count : (i : ℕ) → List (Option P) → ℕ
  count i vs = tally_values (λ i p. true) i vs

  count-le : (i : ℕ) (vs : List (Option P)) → count i vs ≤ length vs
  count-le i [] = omega arith
  count-le i (none ∷ vs) = omega (arith, count-le (suc i) vs)
  count-le i (some p ∷ vs) = omega (arith, count-le (suc i) vs)

  join_values-some :
      (first : Dict V) (i j : ℕ) (vs : List (Option P)) (fields : Dict V)
      → (filled c.fill ≡ true) ⊎ (count i vs ≡ length vs)
      → (out : Dict V) × (join_values fields_of c first j vs fields ≡ some out)
  unfolding join_values source_fields
  join_values-some first i j [] fields h = (fields, refl)
  join_values-some first i j (none ∷ vs) fields (inl h) =
      let (m, e) = filled-some c.fill c.nil first h in
      let (out, e') = join_values-some first (suc i) (j + 1) vs (add_fields c j m fields) (inl h) in
      (out, ground (arith, e, e'))
  join_values-some first i j (none ∷ vs) fields (inr h) =
      absurd (omega (arith, h, count-le (suc i) vs))
  join_values-some first i j (some p ∷ vs) fields h =
      join_values-some first (suc i) (j + 1) vs (add_fields c j (fields_of p) fields)
        (elim h [ inl a ↦ inl a | inr a ↦ inr (omega (arith, a)) ])

  join_values-none :
      (first : Dict V) (i j : ℕ) (vs : List (Option P)) (fields : Dict V)
      → filled c.fill ≡ false
      → count i vs < length vs
      → join_values fields_of c first j vs fields ≡ none
  unfolding join_values source_fields
  join_values-none first i j [] fields f lt = absurd (omega (arith, lt))
  join_values-none first i j (none ∷ vs) fields f lt =
      ground (arith, filled-none c.fill c.nil first f)
  join_values-none first i j (some p ∷ vs) fields f lt =
      join_values-none first (suc i) (j + 1) vs (add_fields c j (fields_of p) fields) f
        (omega (arith, lt))

  ready-count :
      (n : ℕ) (time : P → ℕ) (t : ℕ) (js : JoinSet P)
      → Sound n time t js
      → (ready js ≡ true → count 0 js.values ≡ length js.values)
        × (ready js ≡ false → count 0 js.values < length js.values)
  unfolding ready
  ready-count n time t js ((at, (e, (l, (size, (all, has_first))))), pos) =
      (λ h. ground (arith, h, e, l, size), λ h. ground (arith, h, e, l, size, count-le 0 js.values))

  first-point :
      (n : ℕ) (time : P → ℕ) (t : ℕ) (js : JoinSet P)
      → Sound n time t js
      → (p : P) × (get_elem? js.values js.first ≡ some (some p))
  unfolding has
  first-point n time t js ((at, (e, (l, (size, (all, has_first))))), (pos, lt)) =
      let h : has js.first js ≡ true = elim has_first [
        | inl g ↦ absurd (omega (arith, g, lt))
        | inr g ↦ g
      ] in
      elim (Option-cases (get_elem? js.values js.first)) [
        | inl g ↦ absurd (ground (arith, h, g))
        | inr (v, g) ↦ elim (Option-cases v) [
          | inl g' ↦ absurd (ground (arith, h, g, g'))
          | inr (p, g') ↦ (p, g ∙ ap some g')
        ]
      ]

  point-Joins :
      (js : JoinSet P) (p : P)
      → get_elem? js.values js.first ≡ some (some p)
      → (i : ℕ) (k : String) → all_apart fields_of c (fields_of p) i k 0 js.values ≡ true
      → (out : Dict V) → join_values fields_of c (fields_of p) 0 js.values [] ≡ some out
      → Joins true js.time
          (field_name c i k)
          (at fields_of c (fields_of p) js.values i k)
          (join_into_point fields_of c js)
  unfolding join_into_point lookup
  point-Joins js p first i k h out e = (
    out,
    (
      ground (arith, first, e),
      ground (arith, join_values-lookup fields_of c (fields_of p) i k 0 js.values [] out h e),
    ),
  )

  point-none :
      (js : JoinSet P) (p : P)
      → get_elem? js.values js.first ≡ some (some p)
      → join_values fields_of c (fields_of p) 0 js.values [] ≡ none
      → join_into_point fields_of c js ≡ no_point
  unfolding join_into_point
  point-none js p first e = ground (arith, first, e)

  pub join_cases :
      (n : ℕ) (time : P → ℕ) (t : ℕ) (js : JoinSet P)
      → Sound n time t js
      → ((filled c.fill || ready js ≡ true)
          × ((out : Dict V) × (join_into_point fields_of c js ≡ joined js.time out)))
        ⊎ ((filled c.fill || ready js ≡ false) × (join_into_point fields_of c js ≡ no_point))
  unfolding join_into_point
  join_cases n time t js sound =
      let (full, short) = ready-count n time t js sound in
      let (p, first) = first-point n time t js sound in
      elim (Bool-cases (filled c.fill || ready js)) [
        | inl e ↦
            let enough : (filled c.fill ≡ true) ⊎ (count 0 js.values ≡ length js.values) =
              elim (Bool-cases (filled c.fill)) [
                | inl f ↦ inl f
                | inr f ↦ inr (full (ground (arith, e, f)))
              ] in
            let (out, eq) = join_values-some (fields_of p) 0 0 js.values [] enough in
            inl (e, (out, ground (arith, first, eq)))
        | inr e ↦ inr (
          e,
          point-none js p first (
              join_values-none (fields_of p) 0 0 js.values [] (ground (arith, e))
                (short (ground (arith, e)))),
        )
      ]

  -- A set with what every set of a group holds is joined exactly if it is ready or the node fills,
  -- and never panics: the point has the time of the set, and under the name of the field `k` of
  -- the source `i` the value that source has there, or the fill for a field of the first point
  -- where it has no point, if no other field gets the same name.
  pub join_into_point_lem :
      (n : ℕ) (time : P → ℕ) (t : ℕ) (js : JoinSet P) (sound : Sound n time t js) (p : P)
      (first : get_elem? js.values js.first ≡ some (some p)) (i : ℕ) (k : String)
      (alone : all_apart fields_of c (fields_of p) i k 0 js.values ≡ true)
      → Joins
          (filled c.fill || ready js)
          js.time
          (field_name c i k)
          (at fields_of c (fields_of p) js.values i k)
          (join_into_point fields_of c js)
  join_into_point_lem n time t js sound p first i k alone =
      let (full, short) = ready-count n time t js sound in
      let goal : Bool → Type 0 = λ b.
        Joins b js.time (field_name c i k) (at fields_of c (fields_of p) js.values i k)
          (join_into_point fields_of c js) in
      elim (Bool-cases (filled c.fill || ready js)) [
        | inl e ↦
            let enough : (filled c.fill ≡ true) ⊎ (count 0 js.values ≡ length js.values) =
              elim (Bool-cases (filled c.fill)) [
                | inl f ↦ inl f
                | inr f ↦ inr (full (ground (arith, e, f)))
              ] in
            let (out, eq) = join_values-some (fields_of p) 0 0 js.values [] enough in
            subst goal (sym e) (point-Joins js p first i k alone out eq)
        | inr e ↦ subst goal (sym e) (
            point-none js p first (
              join_values-none (fields_of p) 0 0 js.values [] (ground (arith, e))
                (short (ground (arith, e)))))
      ]
