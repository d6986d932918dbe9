-- ===== src/Combine/Buffer/Matching.antt =====
-- How combine (combine.go) matches the points of a choice with the expressions, and the panic of
-- addPoint.
use mathlib.Core.List.{Perm}
use mathlib.Core.List.Perm
use kapacitor.Prelude.{
  ◌==◌, subst, ℕ, ◌≡◌, List, [], ◌∷◌, ◌++◌, none, some, Bool, true, false, if◌then◌else◌, arith,
  Bool-cases, Option-cases, inl, inr,
}
use mathlib.Core.Option.{some-injective}
use kapacitor.Combine.Buffer.{take_match, assign, add_point, new_group, round}

-- The points of a set match the expressions, one by one.
abbrev pub Matches : List (ℕ → Bool) → List ℕ → Type 0
Matches [] [] = Unit {0}
Matches [] (i ∷ set) = ⊥
Matches (m ∷ expressions) [] = ⊥
Matches (m ∷ expressions) (i ∷ set) = (m i ≡ true) × Matches expressions set

take_match_lem :
    (m : ℕ → Bool) (indices : List ℕ) (i : ℕ) (others : List ℕ)
    → take_match m indices ≡ some (i, others)
    → (m i ≡ true) × Perm (i ∷ others) indices
unfolding take_match
take_match_lem m [] i others h = cc
take_match_lem m (x ∷ indices) i others h = elim (Bool-cases (m x)) [
  | inl t ↦
      let e : ◌≡◌ {A = ℕ × List ℕ} (x, indices) (i, others) =
        some-injective _ _ (ground (arith, h, t)) in
      subst (λ o. (m o.0 ≡ true) × Perm (o.0 ∷ o.1) (x ∷ indices)) e (t, Perm.refl _)
  | inr f ↦ elim (Option-cases (take_match m indices)) [
    | inl e ↦ ground (arith, h, f, e)
    | inr (o, e) ↦
        let (t, p) = take_match_lem m indices o.0 o.1 e in
        let eq : ◌≡◌ {A = ℕ × List ℕ} (o.0, x ∷ o.1) (i, others) =
          some-injective _ _ (ground (arith, h, f, e)) in
        subst (λ o. (m o.0 ≡ true) × Perm (o.0 ∷ o.1) (x ∷ indices)) eq
          (t, Perm.trans (Perm.swap x o.0 o.1) (Perm.cons x p))
  ]
]

-- If a choice of points is assigned to the expressions, each point of the set matches its
-- expression, and the set is taken out of the choice: with the points left over it is a permutation
-- of the choice.
pub assign-Matches :
    (expressions : List (ℕ → Bool)) (indices set : List ℕ)
    → assign expressions indices ≡ some set
    → Matches expressions set × ((others : List ℕ) × Perm (set ++ others) indices)
unfolding assign
assign-Matches [] indices set h =
    subst (λ s. Matches [] s × ((others : List ℕ) × Perm (s ++ others) indices))
      (some-injective [] set h) (tt, (indices, Perm.refl indices))
assign-Matches (m ∷ expressions) indices set h = elim (Option-cases (take_match m indices)) [
  | inl e ↦ cc
  | inr (o, e) ↦ elim (Option-cases (assign expressions o.1)) [
    | inl f ↦ ground (arith, h, e, f)
    | inr (chosen, f) ↦
        let (t, p) = take_match_lem m indices o.0 o.1 e in
        let (all, (others, q)) = assign-Matches expressions o.1 chosen f in
        let eq : o.0 ∷ chosen ≡ set = some-injective _ _ (ground (arith, h, e, f)) in
        subst (λ s. Matches (m ∷ expressions) s × ((others : List ℕ) × Perm (s ++ others) indices))
          eq ((t, all), (others, Perm.trans (Perm.cons o.0 q) p))
  ]
]

-- A set can be missed: where the first expression matches both points and the second only the first
-- of them, the choice of the two is given up, although the points match in the other order.
pub assign_misses :
    (m0 m1 : ℕ → Bool) (i j : ℕ)
    → m0 i ≡ true
    → m0 j ≡ true
    → m1 i ≡ true
    → m1 j ≡ false
    → (assign (m0 ∷ m1 ∷ []) (i ∷ j ∷ []) ≡ none) × Matches (m0 ∷ m1 ∷ []) (j ∷ i ∷ [])
unfolding assign take_match
assign_misses m0 m1 i j a b c d = (ground arith, (b, (c, tt)))

module _ {P : Type 0} (time : P → ℕ) (set_time : ℕ → P → P) (tolerance : ℕ) where
  -- The first point of a stream's group: addPoint panics exactly if the tolerance rounds its time
  -- to another time; otherwise the buffer holds it, and nothing is combined.
  pub add_point-new_group :
      (p : P)
      → add_point time set_time tolerance p (new_group time set_time tolerance p) ≡ (
          if round tolerance (time p) == time p
          then some (record { time = time p; points = set_time (time p) p ∷ []; cap = 1 }, none)
          else none)
  unfolding add_point new_group
  add_point-new_group p = ground arith
