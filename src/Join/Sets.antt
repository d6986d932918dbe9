-- ===== src/Join/Sets.antt =====
-- The sets of join.go: what they hold, through the map of a group.
use kapacitor.Prelude.{
  ℕ, zero, suc, ◌+◌, ◌<◌, ◌≡◌, refl, ◌∙◌, ap, Bool, false, List, [], ◌∷◌, ◌++◌, Option, none, some,
  if◌then◌else◌, length, get_elem?, set, replicate, arith, Bool-cases, Option-cases, inl, inr, All,
  length-replicate,
}
use kapacitor.Join.{JoinSet, new_joinset, has, set_value, sets_at, put_sets, delete_sets, add_to}

shift : (i : ℕ) → i ≡ i + 0
shift i = omega arith

shift-suc : (i j : ℕ) → suc i + j ≡ i + suc j
shift-suc i j = omega arith

pub has-new : (P : Type 0) (n t src : ℕ) → has src (new_joinset {P = P} n t) ≡ false
unfolding has new_joinset
has-new P zero t src = refl
has-new P (suc n) t zero = refl
has-new P (suc n) t (suc src) = has-new P n t src

length-new : (P : Type 0) (n t : ℕ) → length (new_joinset {P = P} n t).values ≡ n
unfolding new_joinset
length-new P n t = length-replicate n none

module _ {P : Type 0} where
  -- How many points of a set pass a test on the source and the point, from the source `i` on.
  abbrev pub tally_values : (ℕ → P → Bool) → (i : ℕ) → List (Option P) → ℕ
  tally_values test i [] = 0
  tally_values test i (none ∷ vs) = tally_values test (suc i) vs
  tally_values test i (some p ∷ vs) =
      if test i p then tally_values test (suc i) vs + 1 else tally_values test (suc i) vs

  abbrev pub tally_list : (ℕ → P → Bool) → List (JoinSet P) → ℕ
  tally_list test [] = 0
  tally_list test (js ∷ rest) = tally_values test 0 js.values + tally_list test rest

  abbrev pub tally_sets : (ℕ → P → Bool) → List (ℕ × List (JoinSet P)) → ℕ
  tally_sets test [] = 0
  tally_sets test ((t, js) ∷ m) = tally_list test js + tally_sets test m

  pub tally-append :
      (test : ℕ → P → Bool) (xs ys : List (JoinSet P))
      → tally_list test (xs ++ ys) ≡ tally_list test xs + tally_list test ys
  tally-append test [] ys = omega arith
  tally-append test (x ∷ xs) ys = omega (arith, tally-append test xs ys)

  pub tally-replicate : (test : ℕ → P → Bool) (n i : ℕ) → tally_values test i (replicate n none) ≡ 0
  tally-replicate test zero i = refl
  tally-replicate test (suc n) i = tally-replicate test n (suc i)

  get_elem?-none : (vs : List (Option P)) (i : ℕ) → get_elem? vs i ≡ none → i < length vs → ⊥
  get_elem?-none [] i h lt = omega (arith, lt)
  get_elem?-none (v ∷ vs) zero h lt = cc
  get_elem?-none (v ∷ vs) (suc i) h lt = get_elem?-none vs i h (omega (arith, lt))

  tally-set :
      (test : ℕ → P → Bool) (vs : List (Option P)) (i src : ℕ) (p : P)
      → get_elem? vs src ≡ some none
      → tally_values test i (set vs src (some p))
        ≡ (if test (i + src) p then tally_values test i vs + 1 else tally_values test i vs)
  tally-set test [] i src p h = cc
  tally-set test (none ∷ vs) i zero p h = ground (arith, ap (λ n. test n p) (shift i))
  tally-set test (some q ∷ vs) i zero p h = cc
  tally-set test (none ∷ vs) i (suc src) p h =
      ground (arith, tally-set test vs (suc i) src p h, ap (λ n. test n p) (shift-suc i src))
  tally-set test (some q ∷ vs) i (suc src) p h =
      ground (arith, tally-set test vs (suc i) src p h, ap (λ n. test n p) (shift-suc i src))

  -- The point goes where there was none.
  pub free-set :
      (js : JoinSet P) (src : ℕ)
      → has src js ≡ false
      → src < length js.values
      → get_elem? js.values src ≡ some none
  unfolding has
  free-set js src h lt = elim (Option-cases (get_elem? js.values src)) [
    | inl e ↦ absurd (get_elem?-none js.values src e lt)
    | inr (v, e) ↦ ground (arith, h, e)
  ]

  pub tally-set_value :
      (test : ℕ → P → Bool) (js : JoinSet P) (src : ℕ) (p : P)
      → has src js ≡ false
      → src < length js.values
      → tally_values test 0 (set_value src p js).values
        ≡ (if test src p then tally_values test 0 js.values + 1 else tally_values test 0 js.values)
  unfolding set_value
  tally-set_value test js src p h lt =
      tally-set test js.values 0 src p (free-set js src h lt)
      ∙ ap
          (λ i.
            if test i p then tally_values test 0 js.values + 1 else tally_values test 0 js.values)
          (omega arith)

  tally-new : (test : ℕ → P → Bool) (n t : ℕ) → tally_values test 0 (new_joinset n t).values ≡ 0
  unfolding new_joinset
  tally-new test n t = tally-replicate test n 0

  pub tally-add_to :
      (test : ℕ → P → Bool) (n t src : ℕ) (p : P) (sets : List (JoinSet P))
      → src < n
      → All (λ js. length js.values ≡ n) sets
      → tally_list test (add_to n t src p sets)
        ≡ (if test src p then tally_list test sets + 1 else tally_list test sets)
  unfolding add_to
  tally-add_to test n t src p [] lt h = ground (
    arith,
    tally-new test n t,
    tally-set_value test (new_joinset n t) src p (has-new P n t src)
        (omega (arith, lt, length-new P n t)),
  )
  tally-add_to test n t src p (js ∷ sets) lt (l, h) = elim (Bool-cases (has src js)) [
    | inl e ↦ ground (arith, e, tally-add_to test n t src p sets lt h)
    | inr e ↦ ground (arith, e, tally-set_value test js src p e (omega (arith, lt, l)))
  ]

  -- Each key once, and what the map holds besides the sets of a time.
  pub tally-put :
      (test : ℕ → P → Bool) (t : ℕ) (new : List (JoinSet P)) (m : List (ℕ × List (JoinSet P)))
      → tally_sets test (put_sets t new m) + tally_list test (sets_at t m)
        ≡ tally_sets test m + tally_list test new
  unfolding put_sets sets_at
  tally-put test t new [] = ground arith
  tally-put test t new ((u, js) ∷ m) = ground (arith, tally-put test t new m)

  pub tally-delete :
      (test : ℕ → P → Bool) (t : ℕ) (m : List (ℕ × List (JoinSet P)))
      → tally_sets test (delete_sets t m) + tally_list test (sets_at t m) ≡ tally_sets test m
  unfolding delete_sets sets_at
  tally-delete test t [] = refl
  tally-delete test t ((u, js) ∷ m) = ground (arith, tally-delete test t m)
