-- ===== src/Combine.antt =====
-- combination of combine.go: the choices of k points out of n, in order.
pub mod Choices
pub mod Count
pub mod Buffer
use kapacitor.Prelude.{
  false, true, Bool, ℕ, zero, suc, ◌+◌, ◌-◌, ◌*◌, ◌/◌, ◌%◌, ◌^◌, ◌&&◌, List, [], ◌∷◌, Option, none,
  some, if◌then◌else◌, ◌==◌, ltb, get_or, set, map,
}

-- An int64 is its bit pattern, a number below 2 ^ 64; these are the product, the quotient by a
-- positive number that is below 2 ^ 63, and `>`.
abbrev pub mul_64 : ℕ → ℕ → ℕ
mul_64 a b = (a * b) % 2 ^ 64

abbrev pub div_64 : ℕ → ℕ → ℕ
div_64 a b = if ltb a (2 ^ 63) then a / b else (2 ^ 64 - (2 ^ 64 - a) / b) % 2 ^ 64

abbrev pub gt_64 : ℕ → ℕ → Bool
gt_64 a b =
    if ltb a (2 ^ 63)
    then (if ltb b (2 ^ 63) then ltb b a else true)
    else (if ltb b (2 ^ 63) then false else ltb b a)

abbrev pub minus_one : ℕ
minus_one = 2 ^ 64 - 1

-- `for i := int64(0); i < k; i++`, with `rounds` rounds left.
pub count_from : (n rounds i count : ℕ) → ℕ
count_from n zero i count = count
count_from n (suc rounds) i count =
    count_from n rounds (i + 1) (div_64 (mul_64 count (n - i)) (i + 1))

pub count : ℕ → ℕ → ℕ
count n k = let c = count_from n k 0 1 in if ltb n k then minus_one else c

-- `for ; i >= 0; i--`, from i = rounds - 1 on: the last index that is not at its end, if any.
pub last_free : (n k : ℕ) → List ℕ → (rounds : ℕ) → Option ℕ
last_free n k indices zero = none
last_free n k indices (suc i) = elim (get_or indices i 0 == i + n - k) [
  | true ↦ last_free n k indices i
  | false ↦ some i
]

-- `for j := i + 1; j < k; j++`, with `rounds` rounds left.
pub refill : (rounds j : ℕ) → List ℕ → List ℕ
refill zero j indices = indices
refill (suc rounds) j indices = refill rounds (j + 1) (set indices j (get_or indices (j - 1) 0 + 1))

-- One round of `for {…}` without the call: the next indices, none after the last ones.
pub next : (n k : ℕ) → List ℕ → Option (List ℕ)
next n k indices = elim (last_free n k indices k) [
  | none ↦ none
  | some i ↦ some (refill (k - (i + 1)) (i + 1) (set indices i (get_or indices i 0 + 1)))
]

-- `for i := 0; i < k; i++ { indices[i] = i }`, from `i` on.
pub upto : (i rounds : ℕ) → List ℕ
upto i zero = []
upto i (suc rounds) = i ∷ upto (i + 1) rounds

-- The action `f` works on a state `S` and may return an error of `E`.
module _ {S E : Type 0} (f : List ℕ → S → S × Option E) where
  -- The rounds after the first call. `none`: out of fuel.
  pub do_rest : (fuel n k : ℕ) → List ℕ → S → Option (S × Option E)
  do_rest zero n k indices s = none
  do_rest (suc fuel) n k indices s = elim (next n k indices) [
    | none ↦ some (s, none)
    | some indices' ↦
        let (s', e) = f indices' s in
        elim e [ some x ↦ some (s', some x) | none ↦ do_rest fuel n k indices' s' ]
  ]

  -- `refused` is the error of too many combinations.
  pub do_all : (refused : E) (max fuel n k : ℕ) → S → Option (S × Option E)
  do_all refused max fuel n k s =
      let c = count n k in
      if gt_64 c max
      then some (s, some refused)
      else if c == minus_one
      then some (s, none)
      else (let (s', e) = f (upto 0 k) s in
          elim e [ some x ↦ some (s', some x) | none ↦ do_rest fuel n k (upto 0 k) s' ])
