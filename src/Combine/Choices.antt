-- ===== src/Combine/Choices.antt =====
-- The loop of combination.Do (combine.go) goes through all choices, in lexicographic order.
use kapacitor.Prelude.{
  ap₂, subst, dec_lt, ◌≢◌, ℕ, zero, suc, ◌+◌, ◌-◌, ◌≤◌, ◌<◌, ◌≡◌, refl, sym, ap, ◌∙◌, List, [], ◌∷◌,
  ◌++◌, Option, none, some, if◌then◌else◌, ◌==◌, length, get_or, set, map, arith, Bool-cases, inl,
  inr, Option-cases,
}
use kapacitor.Combine.{last_free, refill, next, upto, do_rest}

-- The increasing vectors of `k` numbers out of `lo`, `lo + 1`, …, `m` numbers in all, in
-- lexicographic order.
abbrev pub choices : (lo m k : ℕ) → List (List ℕ)
choices lo m zero = [] ∷ []
choices lo zero (suc k) = []
choices lo (suc m) (suc k) =
    map (λ xs. lo ∷ xs) (choices (lo + 1) m k) ++ choices (lo + 1) m (suc k)

-- The vector behind another one, by its tail first.
abbrev pub successor : (n : ℕ) → List ℕ → Option (List ℕ)
successor n [] = none
successor n (x ∷ xs) = elim (successor n xs) [
  | some ys ↦ some (x ∷ ys)
  | none ↦ if x == n - suc (length xs) then none else some (upto (x + 1) (suc (length xs)))
]

last_free-cons :
    (n x : ℕ) (xs : List ℕ) (rounds : ℕ)
    → length xs < n
    → last_free n (suc (length xs)) (x ∷ xs) (suc rounds)
      ≡ elim (last_free n (length xs) xs rounds) [
        | some i ↦ some (suc i)
        | none ↦ if x == n - suc (length xs) then none else some 0
      ]
unfolding last_free
last_free-cons n x xs zero h = ground arith
last_free-cons n x xs (suc i) h = ground (arith, last_free-cons n x xs i h)

refill-cons :
    (rounds j x : ℕ) (xs : List ℕ)
    → refill rounds (suc (suc j)) (x ∷ xs) ≡ x ∷ refill rounds (suc j) xs
unfolding refill
refill-cons zero j x xs = refl
refill-cons (suc rounds) j x xs =
    let e1 : suc (suc j) + 1 ≡ suc (suc (suc j)) = omega arith in
    let e2 : suc j + 1 ≡ suc (suc j) = omega arith in
    let e3 : suc (suc j) - 1 ≡ suc j = omega arith in
    let e4 : suc j - 1 ≡ j = omega arith in
    rw (e1, e2, e3, e4) (refill-cons rounds (suc j) x (set xs (suc j) (get_or xs j 0 + 1)))

refill-upto : (x : ℕ) (xs : List ℕ) → refill (length xs) 1 (x ∷ xs) ≡ upto x (suc (length xs))
unfolding refill upto
refill-upto x [] = refl
refill-upto x (y ∷ xs) =
    refill-cons (length xs) 0 x ((x + 1) ∷ xs) ∙ ap (λ t. x ∷ t) (refill-upto (x + 1) xs)

-- One round on a vector with a further element in front.
next-cons :
    (n x : ℕ) (xs : List ℕ)
    → length xs < n
    → next n (suc (length xs)) (x ∷ xs) ≡ elim (next n (length xs) xs) [
      | some ys ↦ some (x ∷ ys)
      | none ↦ if x == n - suc (length xs) then none else some (upto (x + 1) (suc (length xs)))
    ]
unfolding next
next-cons n x xs h = elim (Option-cases (last_free n (length xs) xs (length xs))) [
  | inl last ↦ elim (Bool-cases (x == n - suc (length xs))) [
    | inl end ↦ ground (arith, last_free-cons n x xs (length xs) h, last, end)
    | inr on ↦ ground (
      arith,
      last_free-cons n x xs (length xs) h,
      last,
      on,
      ap some (refill-upto (x + 1) xs),
      rounds 0,
      first,
    )
  ]
  | inr (i, free) ↦ ground (
    arith,
    last_free-cons n x xs (length xs) h,
    free,
    rounds (suc i),
    tail i (set xs i (get_or xs i 0 + 1)),
  )
]
  where
    rounds : (i : ℕ) → suc (length xs) - (i + 1) ≡ length xs - i
    rounds i = omega arith

    first : refill (length xs - 0) (0 + 1) ((x + 1) ∷ xs) ≡ refill (length xs) 1 ((x + 1) ∷ xs)
    first = ap (λ (r : ℕ). refill r 1 ((x + 1) ∷ xs)) (omega arith)

    tail :
        (i : ℕ) (ys : List ℕ)
        → refill (length xs - suc i) (suc i + 1) (x ∷ ys)
          ≡ x ∷ refill (length xs - (i + 1)) (i + 1) ys
    tail i ys =
        let e1 : suc i + 1 ≡ suc (suc i) = omega arith in
        let e2 : i + 1 ≡ suc i = omega arith in rw (e1, e2) (refill-cons (length xs - suc i) i x ys)

next_lem : (n : ℕ) (xs : List ℕ) → length xs ≤ n → next n (length xs) xs ≡ successor n xs
unfolding next last_free
next_lem n [] h = refl
next_lem n (x ∷ xs) h = next-cons n x xs (omega arith) ∙ ground (arith, next_lem n xs (omega arith))

pub length-upto : (x k : ℕ) → length (upto x k) ≡ k
unfolding upto
length-upto x zero = refl
length-upto x (suc k) = ap suc (length-upto (x + 1) k)

length-successor : (n : ℕ) (xs ys : List ℕ) → successor n xs ≡ some ys → length ys ≡ length xs
length-successor n [] ys h = ground (arith, h)
length-successor n (x ∷ xs) ys h = elim (Option-cases (successor n xs)) [
  | inl e ↦ ground (arith, h, e, length-upto (x + 1) (suc (length xs)))
  | inr (zs, e) ↦ ground (arith, h, e, length-successor n xs zs e)
]

-- The vectors behind `xs`, up to the last one.
abbrev pub Follows : (n : ℕ) → List ℕ → List (List ℕ) → Type 0
Follows n xs [] = successor n xs ≡ none
Follows n xs (ys ∷ rest) = (successor n xs ≡ some ys) × Follows n ys rest

-- What comes behind the vectors that begin with `lo`.
abbrev Turns : (n lo k : ℕ) → List (List ℕ) → Type 0
Turns n lo k [] = lo ≡ n - suc k
Turns n lo k (ys ∷ rest) = (lo ≢ n - suc k) × (ys ≡ upto (lo + 1) (suc k)) × Follows n ys rest

Follows-join :
    (n lo k : ℕ) (xs : List ℕ) (rest more : List (List ℕ))
    → Follows n xs rest
    → length xs ≡ k
    → Turns n lo k more
    → Follows n (lo ∷ xs) (map (λ t. lo ∷ t) rest ++ more)
Follows-join n lo k xs [] [] last len turn = ground (arith, last, len, turn)
Follows-join n lo k xs [] (ys ∷ more) last len (ne, same, on) =
    (ground (arith, last, len, ne, same, ap (λ j. upto (lo + 1) (suc j)) len), on)
Follows-join n lo k xs (zs ∷ rest) more (step, on) len turn = (
  ground (arith, step),
  Follows-join n lo k zs rest more on (length-successor n xs zs step ∙ len) turn,
)

pub choices_nil : (lo m k : ℕ) → m < k → choices lo m k ≡ []
choices_nil lo m zero h = elim h [ ]
choices_nil lo zero (suc k) h = refl
choices_nil lo (suc m) (suc k) h =
    rw (choices_nil (lo + 1) m k (omega arith), choices_nil (lo + 1) m (suc k) (omega arith))

pub choices-Follows :
    (lo m k : ℕ)
    → k ≤ m
    → (rest : List (List ℕ)) × (choices lo m k ≡ upto lo k ∷ rest)
      × Follows (lo + m) (upto lo k) rest
unfolding upto
choices-Follows lo m zero h = ([], refl, refl)
choices-Follows lo zero (suc k) h = absurd (omega arith)
choices-Follows lo (suc m) (suc k) h =
    let (rest, eq, on) = choices-Follows (lo + 1) m k (omega arith) in
    let total : lo + 1 + m ≡ lo + suc m = omega arith in
    elim (dec_lt m (suc k)) [
      | yes last ↦ (
        map (λ t. lo ∷ t) rest ++ [],
        ap₂ (λ (a b : List (List ℕ)). map (λ t. lo ∷ t) a ++ b) eq
            (choices_nil (lo + 1) m (suc k) last),
        Follows-join (lo + suc m) lo k (upto (lo + 1) k) rest []
            (subst (λ t. Follows t (upto (lo + 1) k) rest) total on) (length-upto (lo + 1) k)
            (omega arith),
      )
      | no more ↦
          let (rest', eq', on') = choices-Follows (lo + 1) m (suc k) (omega arith) in
          (
            map (λ t. lo ∷ t) rest ++ upto (lo + 1) (suc k) ∷ rest',
            ap₂ (λ (a b : List (List ℕ)). map (λ t. lo ∷ t) a ++ b) eq eq',
            Follows-join (lo + suc m) lo k (upto (lo + 1) k) rest (upto (lo + 1) (suc k) ∷ rest')
                (subst (λ t. Follows t (upto (lo + 1) k) rest) total on) (length-upto (lo + 1) k)
                (
                  (λ e. omega (arith, e)),
                  refl,
                  subst (λ t. Follows t (upto (lo + 1) (suc k)) rest') total on',
                ),
          )
    ]

module _ {S E : Type 0} (f : List ℕ → S → S × Option E) where
  -- The action on each vector in turn, up to the first error.
  abbrev pub visit_all : List (List ℕ) → S → S × Option E
  visit_all [] s = (s, none)
  visit_all (xs ∷ rest) s =
      let (s', e) = f xs s in elim e [ some x ↦ (s', some x) | none ↦ visit_all rest s' ]

  pub do_rest_lem :
      (fuel n : ℕ) (xs : List ℕ) (s : S) (rest : List (List ℕ))
      → Follows n xs rest
      → length xs ≤ n
      → length rest < fuel
      → do_rest f fuel n (length xs) xs s ≡ some (visit_all rest s)
  unfolding do_rest
  do_rest_lem zero n xs s rest on le h = absurd (omega arith)
  do_rest_lem (suc fuel) n xs s [] on le h = ground (arith, next_lem n xs le, on)
  do_rest_lem (suc fuel) n xs s (ys ∷ rest) (step, on) le h =
      let len : length ys ≡ length xs = length-successor n xs ys step in
      elim (Option-cases (f ys s).1) [
        | inr (x, e) ↦ ground (arith, next_lem n xs le, step, e)
        | inl e ↦ ground (
          arith,
          next_lem n xs le,
          step,
          e,
          ap (λ k. do_rest f fuel n k ys (f ys s).0) (sym len)
              ∙ do_rest_lem fuel n ys (f ys s).0 rest on (omega (arith, len)) (omega arith),
        )
      ]
