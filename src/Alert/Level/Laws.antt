-- ===== src/Alert/Level/Laws.antt =====
-- determineLevel (alert.go): which level a point gets.
use kapacitor.Prelude.{
  Option-cases, leb, ℕ, zero, suc, ◌+◌, ◌-◌, ◌≤◌, ◌<◌, ◌≡◌, refl, ap, none, some, true, false,
  if◌then◌else◌, arith, Bool-cases, dec_lt, inl, inr, ℕ_discrete,
}
use kapacitor.Alert.Level.{
  Level, Levels, ok, critical, passes, match_down, find_first_match_level, held_by_reset,
  determine_level,
}

module _ {P : Type 0} (n : Levels P) (p : P) where
  -- No level from `low` up to `high` passes.
  abbrev pub Silent : (low high : Level) → Type 0
  Silent low high = (m : Level) → low ≤ m → m ≤ high → passes n p m ≡ false

  -- The level passes, and no higher one does.
  pub record IsHighest (l : Level) : Type 0 where
    pub pass : passes n p l ≡ true
    pub within : l ≤ critical
    pub above : Silent (l + 1) critical

  match_down-Silent :
      (stop rounds : ℕ) → Silent (stop + 1) (stop + rounds) → match_down n p stop rounds ≡ none
  unfolding match_down
  match_down-Silent stop zero h = refl
  match_down-Silent stop (suc rounds) h = ground (
    arith,
    h (stop + suc rounds) (omega arith) (omega arith),
    match_down-Silent stop rounds (λ m a b. h m a (omega arith)),
  )

  match_down-found :
      (stop rounds l : ℕ)
      → passes n p l ≡ true
      → stop < l
      → l ≤ stop + rounds
      → Silent (l + 1) (stop + rounds)
      → match_down n p stop rounds ≡ some l
  unfolding match_down
  match_down-found stop zero l h a b s = absurd (omega arith)
  match_down-found stop (suc rounds) l h a b s = elim (ℕ_discrete l (stop + suc rounds)) [
    | yes e ↦ ground (arith, ap (passes n p) e)
    | no e ↦ ground (
      arith,
      s (stop + suc rounds) (omega arith) (omega arith),
      match_down-found stop rounds l h a (omega arith) (λ m c d. s m c (omega arith)),
    )
  ]

  found :
      (start stop l : Level)
      → passes n p l ≡ true
      → stop < l
      → l ≤ start
      → Silent (l + 1) start
      → find_first_match_level n start stop p ≡ some l
  unfolding find_first_match_level
  found start stop l h a b s =
      match_down-found stop (start - stop) l h a (omega arith) (λ m c d. s m c (omega arith))

  silent :
      (start stop : Level) → Silent (stop + 1) start → find_first_match_level n start stop p ≡ none
  unfolding find_first_match_level
  silent start stop s = match_down-Silent stop (start - stop) (λ m c d. elim (dec_lt start m) [
    | yes past ↦ absurd (omega arith)
    | no in_range ↦ s m c (omega arith)
  ])

  match_down-le : (stop rounds l : ℕ) → match_down n p stop rounds ≡ some l → l ≤ stop + rounds
  unfolding match_down
  match_down-le stop zero l h = ground (arith, h)
  match_down-le stop (suc rounds) l h = ground (arith, h, match_down-le stop rounds l)

  find-le :
      (start stop l : Level)
      → stop ≤ start
      → find_first_match_level n start stop p ≡ some l
      → l ≤ start
  unfolding find_first_match_level
  find-le start stop l le h = omega (arith, match_down-le stop (start - stop) l h)

  -- Levels do not go past critical.
  pub determine_level-le :
      (current : Level) → current ≤ critical → determine_level n p current ≤ critical
  unfolding determine_level
  determine_level-le current le =
      elim (Option-cases (find_first_match_level n critical (current - 1) p)) [
        | inr (l, e) ↦ ground (arith, e, find-le critical (current - 1) l (omega arith) e)
        | inl e ↦ elim (Option-cases (find_first_match_level n current ok p)) [
          | inl e' ↦ ground (arith, e, e', le)
          | inr (l, e') ↦ ground (arith, e, e', le, find-le current ok l (omega arith) e')
        ]
      ]

  module _ (current : Level) (le : current ≤ critical) where
    determine_level-raise :
        (l : Level) → IsHighest l → 0 < l → current ≤ l → determine_level n p current ≡ l
    unfolding determine_level
    determine_level-raise l h pos reach =
        ground (arith, found critical (current - 1) l h.pass (omega arith) h.within h.above)

    determine_level-hold :
        Silent (current - 1 + 1) critical
        → held_by_reset n p current ≡ true
        → determine_level n p current ≡ current
    unfolding determine_level
    determine_level-hold s held = ground (arith, silent critical (current - 1) s)

    determine_level-lower :
        (l : Level)
        → IsHighest l
        → 0 < l
        → l < current
        → held_by_reset n p current ≡ false
        → determine_level n p current ≡ l
    unfolding determine_level
    determine_level-lower l h pos below free = ground (
      arith,
      silent critical (current - 1) (λ m a b. h.above m (omega arith) b),
      found current ok l h.pass pos (omega arith) (λ m a b. h.above m a (omega arith)),
    )

    determine_level-ok :
        Silent 1 critical → held_by_reset n p current ≡ false → determine_level n p current ≡ ok
    unfolding determine_level
    determine_level-ok s free = ground (
      arith,
      silent critical (current - 1) (λ m a b. s m (omega arith) b),
      silent current ok (λ m a b. s m a (omega arith)),
    )

    -- The level of a point, for every current level up to critical, where `l` is the highest level
    -- above OK whose expression passes, or OK if there is none: it is `l` if that is not below the
    -- current level; otherwise it is the current level while its reset expression evaluates to
    -- false, and else `l`.
    pub determine_level_lem :
        (l : Level)
        → l ≤ critical
        → (0 < l → passes n p l ≡ true)
        → Silent (l + 1) critical
        → determine_level n p current
          ≡ (if leb current l then l else if held_by_reset n p current then current else l)
    determine_level_lem l within pass above = elim (ℕ_discrete l 0) [
      | yes none_passes ↦ elim (ℕ_discrete current 0) [
        | yes at_ok ↦ elim (Bool-cases (held_by_reset n p current)) [
          | inl held ↦ ground (arith, determine_level-hold (λ m a b. above m (omega arith) b) held)
          | inr free ↦ ground (arith, determine_level-ok (λ m a b. above m (omega arith) b) free)
        ]
        | no raised ↦ elim (Bool-cases (held_by_reset n p current)) [
          | inl held ↦ ground (arith, determine_level-hold (λ m a b. above m (omega arith) b) held)
          | inr free ↦ ground (arith, determine_level-ok (λ m a b. above m (omega arith) b) free)
        ]
      ]
      | no positive ↦ elim (dec_lt l current) [
        | no reached ↦
            ground
              (arith, determine_level-raise l (highest (omega arith)) (omega arith) (omega arith))
        | yes below ↦ elim (Bool-cases (held_by_reset n p current)) [
          | inl held ↦ ground (arith, determine_level-hold (λ m a b. above m (omega arith) b) held)
          | inr free ↦
              ground
                (arith, determine_level-lower l (highest (omega arith)) (omega arith) below free)
        ]
      ]
    ]
      where
        highest : 0 < l → IsHighest l
        highest pos = record { pass = pass pos; within = within; above = above }
