-- ===== src/Alert/Level.antt =====
-- The alert levels (alert/types.go), and how the alert node picks the level of a point
-- (determineLevel of alert.go).
pub mod Laws
use kapacitor.Prelude.{
  ℕ, zero, suc, ◌+◌, ◌-◌, ◌≤◌, Option, none, some, Bool, true, false, if◌then◌else◌, ltb,
}

-- `type Level int`: the levels are compared and counted down.
abbrev pub Level : Type 0
Level = ℕ

abbrev pub ok : Level
ok = 0

abbrev pub info : Level
info = 1

abbrev pub warning : Level
warning = 2

abbrev pub critical : Level
critical = 3

-- A lambda expression of the task as EvalPredicate sees it: its value at a point, `none` where the
-- evaluation fails. Expressions that keep a state of their own between points are not covered.
abbrev pub Predicate : Type 0 → Type 0
Predicate P = P → Option Bool

-- The expressions of an alert node, `none` where the level has none.
pub record Levels (P : Type 0) : Type 0 where
  pub levels : Level → Option (Predicate P)
  pub level_resets : Level → Option (Predicate P)

module _ {P : Type 0} (n : Levels P) where
  -- A level whose expression is missing or fails to evaluate is passed over.
  unfoldable pub passes : P → Level → Bool
  passes p l = elim (n.levels l) [
    | none ↦ false
    | some se ↦ elim (se p) [ none ↦ false | some pass ↦ pass ]
  ]

  -- `for l := start; l > stop; l--`, with `rounds` rounds left; then l is `stop + rounds`.
  pub match_down : P → (stop rounds : ℕ) → Option Level
  match_down p stop zero = none
  match_down p stop (suc rounds) =
      let lower = match_down p stop rounds in
      if passes p (stop + suc rounds) then some (stop + suc rounds) else lower

  -- A negative `stop` is raised to OK by the code, and is 0 here already.
  pub find_first_match_level : (start stop : Level) → P → Option Level
  find_first_match_level start stop p = match_down p stop (start - stop)

  -- The reset expression of the level is there and evaluates to false.
  unfoldable pub held_by_reset : P → Level → Bool
  held_by_reset p l = elim (n.level_resets l) [
    | none ↦ false
    | some rse ↦ elim (rse p) [ some false ↦ true | _ ↦ false ]
  ]

  pub determine_level : P → (current : Level) → Level
  determine_level p current = elim (find_first_match_level critical (current - 1) p) [
    | some higher ↦ higher
    | none ↦
        if held_by_reset p current
        then current
        else elim (find_first_match_level current ok p) [ some lower ↦ lower | none ↦ ok ]
  ]
