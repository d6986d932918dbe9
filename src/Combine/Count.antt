-- ===== src/Combine/Count.antt =====
-- Count and Do of combination (combine.go): the count is the number of choices, and Do goes through
-- them if they are not too many.
use kapacitor.Prelude.{
  ℕ, zero, suc, ◌+◌, ◌-◌, ◌*◌, ◌/◌, ◌%◌, ◌^◌, ◌≤◌, ◌<◌, ◌≡◌, refl, sym, ap, ◌∙◌, List, ◌∷◌, Option,
  some, if◌then◌else◌, ltb, length, map, arith, dec_lt, length-append, length-map, subst,
  Option-cases, inl, inr,
}
use native.Mathlib.Nat.{div-eq_of_eq-mul_left, mod-eq_of_lt, zero-add}
use kapacitor.Combine.{count_from, count, upto, do_rest, do_all, mul_64, div_64, minus_one}
use kapacitor.Combine.Choices.{
  choices, choices-Follows, Follows, choices_nil, length-upto, do_rest_lem, visit_all,
}

-- The number of choices of `k` out of `n`.
abbrev pub choose : ℕ → ℕ → ℕ
choose n zero = 1
choose zero (suc k) = 0
choose (suc n) (suc k) = choose n k + choose n (suc k)

length-choices : (lo m k : ℕ) → length (choices lo m k) ≡ choose m k
length-choices lo m zero = refl
length-choices lo zero (suc k) = refl
length-choices lo (suc m) (suc k) = omega (
  arith,
  length-append (map (λ t. lo ∷ t) (choices (lo + 1) m k)) (choices (lo + 1) m (suc k)),
  length-map (choices (lo + 1) m k) (λ t. lo ∷ t),
  length-choices (lo + 1) m k,
  length-choices (lo + 1) m (suc k),
)

choose_zero : (n k : ℕ) → n < k → choose n k ≡ 0
choose_zero n zero h = elim h [ ]
choose_zero zero (suc k) h = refl
choose_zero (suc n) (suc k) h =
    omega (arith, choose_zero n k (omega arith), choose_zero n (suc k) (omega arith))

choose_absorb : (n k : ℕ) → choose n k * (n - k) ≡ choose n (suc k) * suc k
choose_absorb zero zero = refl
choose_absorb zero (suc k) = omega arith
choose_absorb (suc n) zero = omega (arith, choose_absorb n zero)
choose_absorb (suc n) (suc k) = elim (dec_lt k n) [
  | no past ↦ ground (
    arith,
    choose_zero n (suc k) (omega arith),
    choose_zero n (suc (suc k)) (omega arith),
    none_left,
  )
  | yes room ↦
      let one_more : n - k ≡ suc (n - suc k) = omega arith in
      let same : suc n - suc k ≡ suc (n - suc k) = omega arith in
      ap (λ e. (choose n k + choose n (suc k)) * e) same
      ∙ absorbed (choose n k) (choose n (suc k)) (choose n (suc (suc k))) (n - suc k) k
          (ap (λ e. choose n k * e) (sym one_more) ∙ choose_absorb n k) (choose_absorb n (suc k))
]
  where
    none_left : ¬ (k < n) → (choose n k + 0) * (suc n - suc k) ≡ 0
    none_left past =
        ap (λ d. (choose n k + 0) * d) {x = suc n - suc k} {y = 0} (omega arith) ∙ omega arith

    absorbed :
        (a b c d k : ℕ)
        → a * suc d ≡ b * suc k
        → b * d ≡ c * suc (suc k)
        → (a + b) * suc d ≡ (b + c) * suc (suc k)
    absorbed a b c d k h h' = grind arith

-- No product in the loop reaches 2 ^ 63.
abbrev pub NoOverflow : (n k : ℕ) → Type 0
NoOverflow n k = (i : ℕ) → i < k → choose n i * (n - i) < 2 ^ 63

round_lem :
    (n i : ℕ)
    → choose n i * (n - i) < 2 ^ 63
    → div_64 (mul_64 (choose n i) (n - i)) (i + 1) ≡ choose n (suc i)
round_lem n i h = ground (arith, same, quotient)
  where
    below : choose n i * (n - i) < 2 ^ 64
    below = omega (arith, h)

    same : (choose n i * (n - i)) % 2 ^ 64 ≡ choose n i * (n - i)
    same = mod-eq_of_lt below

    quotient : (choose n i * (n - i)) / (i + 1) ≡ choose n (suc i)
    quotient =
        div-eq_of_eq-mul_left (omega arith)
          (choose_absorb n i ∙ ap (λ j. choose n (suc i) * j) {x = suc i} {y = i + 1} (omega arith))

count_from_lem :
    (n rounds i : ℕ)
    → NoOverflow n (i + rounds)
    → count_from n rounds i (choose n i) ≡ choose n (i + rounds)
unfolding count_from
count_from_lem n zero i h = ap (choose n) (omega arith)
count_from_lem n (suc rounds) i h =
    let e : i + 1 ≡ suc i = omega arith in
    let e' : suc i + rounds ≡ i + suc rounds = omega arith in
    ap (count_from n rounds (i + 1)) (round_lem n i (h i (omega arith)))
    ∙ ap (λ j. count_from n rounds j (choose n (suc i))) e
    ∙ count_from_lem n rounds (suc i) (λ j lt. h j (omega arith))
    ∙ ap (choose n) e'

choose-lt : (n k : ℕ) → NoOverflow n k → choose n k < 2 ^ 63
choose-lt n zero h = omega arith
choose-lt n (suc k) h =
    small (choose n (suc k)) k (choose n k * (n - k)) (choose_absorb n k) (h k (omega arith))
  where
    small : (c k p : ℕ) → p ≡ c * suc k → p < 2 ^ 63 → c < 2 ^ 63
    small c k p e lt = grind arith

count_lem : (n k : ℕ) → NoOverflow n k → count n k ≡ (if ltb n k then minus_one else choose n k)
unfolding count
count_lem n k h =
    ground (arith, count_from_lem n k 0 (λ i lt. h i (omega arith)), ap (choose n) (zero-add k))

module _ {S E : Type 0} (f : List ℕ → S → S × Option E) where
  -- Do on `n` points and `k` expressions, where no product of Count overflows, the maximum is a
  -- positive int64 and the fuel is at least the number of choices: if there are more choices than
  -- the maximum, it refuses and does nothing; otherwise it performs the action on all choices of
  -- `k` indices below `n`, each once, in lexicographic order, up to the first error of the action.
  pub do_all_lem :
      (refused : E) (max fuel n k : ℕ) (s : S)
      → NoOverflow n k
      → max < 2 ^ 63
      → choose n k ≤ fuel
      → do_all f refused max fuel n k s
        ≡ some (if ltb max (choose n k) then (s, some refused) else visit_all f (choices 0 n k) s)
  unfolding do_all
  do_all_lem refused max fuel n k s h le enough = elim (dec_lt n k) [
    | yes few ↦ ground (
      arith,
      count_lem n k h,
      choose_zero n k few,
      ap (λ c. visit_all f c s) (choices_nil 0 n k few),
    )
    | no many ↦
        let (rest, eq, on) = choices-Follows 0 n k (omega arith) in
        let total : length rest + 1 ≡ choose n k =
          omega (arith, sym (ap length eq) ∙ length-choices 0 n k) in
        go rest eq (subst (λ m. Follows m (upto 0 k) rest) (zero-add n) on) total many
  ]
    where
      go :
          (rest : List (List ℕ))
          → choices 0 n k ≡ upto 0 k ∷ rest
          → Follows n (upto 0 k) rest
          → length rest + 1 ≡ choose n k
          → ¬ (n < k)
          → do_all f refused max fuel n k s
            ≡ some
                (if ltb max (choose n k) then (s, some refused) else visit_all f (choices 0 n k) s)
      go rest eq on total many = elim (Option-cases (f (upto 0 k) s).1) [
        | inr (x, e) ↦
            ground (arith, count_lem n k h, choose-lt n k h, e, ap (λ c. visit_all f c s) eq)
        | inl e ↦ ground (
          arith,
          count_lem n k h,
          choose-lt n k h,
          e,
          ap (λ c. visit_all f c s) eq,
          ap (λ j. do_rest f fuel n j (upto 0 k) (f (upto 0 k) s).0) (sym (length-upto 0 k))
              ∙ do_rest_lem f fuel n (upto 0 k) (f (upto 0 k) s).0 rest on
                  (omega (arith, length-upto 0 k)) (omega arith),
        )
      ]
