-- ===== src/Combine/Buffer.antt =====
-- combineBuffer of combine.go: the points of one rounded time, and how a choice of them is matched
-- with the expressions.
pub mod Matching
use kapacitor.Prelude.{
  ℕ, ◌+◌, ◌-◌, ◌%◌, max, List, [], ◌∷◌, ◌++◌, Option, none, some, Bool, true, false, if◌then◌else◌,
  ltb, ◌==◌, length,
}
use kapacitor.Combine.{do_all}

-- t.Round(d): the nearest multiple of `d`, the later one of two; `t` itself if `d` is 0.
abbrev pub round : ℕ → ℕ → ℕ
round d t = if d == 0 then t else if ltb (t % d + t % d) d then t - t % d else t + (d - t % d)

-- `points` is a slice with room for `cap` points at least. What `append` makes of the capacity
-- beyond what it needs is not read.
pub record CombineBuffer (P : Type 0) : Type 0 where
  pub time : ℕ
  pub points : List P
  pub cap : ℕ

-- `none` is the panic of a slice out of bounds. Beside the buffer stands what is combined before, if
-- anything is; an error of that ends the node.
abbrev pub Outcome : Type 0 → Type 0
Outcome P = Option (CombineBuffer P × Option (List P))

module _ {P : Type 0} (time : P → ℕ) (set_time : ℕ → P → P) (tolerance : ℕ) where
  pub new_group : P → CombineBuffer P
  new_group first = record { time = time first; points = []; cap = 0 }

  pub begin_batch : (size_hint : ℕ) → CombineBuffer P → CombineBuffer P
  begin_batch size_hint b =
      if ltb b.cap size_hint
      then record { time = 0; points = []; cap = size_hint }
      else record b { time = 0 }

  -- `combine` returns at once if there is no point.
  abbrev pub to_combine : List P → Option (List P)
  to_combine [] = none
  to_combine (p ∷ ps) = some (p ∷ ps)

  pub add_point : P → CombineBuffer P → Outcome P
  add_point p b =
      let t = round tolerance (time p) in
      let p' = set_time t p in
      if t == b.time
      then some
          (record b { points = b.points ++ p' ∷ []; cap = max b.cap (length b.points + 1) }, none)
      else if b.cap == 0
      then none
      else some (record b { time = t; points = p' ∷ [] }, to_combine b.points)

  pub end_batch : CombineBuffer P → CombineBuffer P × Option (List P)
  end_batch b = (record b { points = [] }, to_combine b.points)

-- The first index that matches, and the others.
unfoldable pub take_match : (ℕ → Bool) → List ℕ → Option (ℕ × List ℕ)
take_match matches [] = none
take_match matches (i ∷ indices) =
    let rest = take_match matches indices in
    if matches i
    then some (i, indices)
    else elim rest [ none ↦ none | some (j, others) ↦ some (j, i ∷ others) ]

-- One point for each expression, given which points an expression matches; none if one is left
-- without.
unfoldable pub assign : List (ℕ → Bool) → List ℕ → Option (List ℕ)
assign [] indices = some []
assign (matches ∷ expressions) indices = elim (take_match matches indices) [
  | none ↦ none
  | some (i, others) ↦ elim (assign expressions others) [ none ↦ none | some set ↦ some (i ∷ set) ]
]

-- The action of `combine` on a choice: `emit` merges and forwards the points of a set.
module _ {S E : Type 0} (emit : List ℕ → S → S × Option E) where
  abbrev pub emit_choice : List (ℕ → Bool) → List ℕ → S → S × Option E
  emit_choice expressions indices s = elim (assign expressions indices) [
    | none ↦ (s, none)
    | some set ↦ emit set s
  ]

  -- `combine` on `n` points; an expression that fails to evaluate at a point does not match it.
  pub combine : (refused : E) (max fuel n : ℕ) → List (ℕ → Bool) → S → Option (S × Option E)
  combine refused max fuel n expressions s =
      if n == 0
      then some (s, none)
      else do_all (emit_choice expressions) refused max fuel n (length expressions) s
