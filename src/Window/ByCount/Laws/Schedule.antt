-- ===== src/Window/ByCount/Laws/Schedule.antt =====
-- When windowByCount (window.go) emits, and what: a run against its specification.
use kapacitor.Prelude.{
  drop-eq_self, append-nil, ℕ, subst, drop, drop-drop, drop-append_le, zero, suc, ◌+◌, ◌-◌, ◌*◌,
  ◌%◌, ◌≤◌, ◌<◌, ◌≡◌, ◌≢◌, refl, sym, ap, ◌∙◌, ◌⊎◌, inl, inr, List, [], ◌∷◌, ◌++◌, Option, none,
  some, Bool, true, false, ◌&&◌, leb, ◌==◌, if◌then◌else◌, length, last, arith, length-append,
  append_assoc, Bool-cases, dec_lt, length-drop,
}
use native.Mathlib.Nat.{mul-mod_right, zero-mod, mul-add-mod_self_left, mod-eq_of_lt}
use kapacitor.Window.Slots.{slots}
use kapacitor.Window.ByCount.{WindowByCount, new_window_by_count, points, advance, point, run}
use kapacitor.Window.ByCount.Laws.Ring.{
  points-Holds, Holds, new-Holds, advance-Holds, stop-lt, next_emit-Holds, batch-Holds, push,
}

-- The point with number `n` (the first is 1) makes the window emit: `n` is `first`, or `every`
-- points after an emission.
abbrev pub due : ℕ → ℕ → ℕ → Bool
due first every n = leb first n && (n - first) % every == 0

-- `next_emit` is the first number past `count` that is due.
pub record IsNext (first every count next_emit : ℕ) : Type 0 where
  pub round : ℕ
  pub on_grid : next_emit ≡ first + every * round
  pub ahead : count < next_emit
  pub least : (round ≡ 0) ⊎ (next_emit ≤ count + every)

due_iff_next :
    (first every count next_emit : ℕ)
    → 0 < every
    → IsNext first every count next_emit
    → due first every (count + 1) ≡ ((count + 1) == next_emit)
due_iff_next first every count next_emit pos h = go h.round h.on_grid h.least
  where
    go :
        (k : ℕ)
        → next_emit ≡ first + every * k
        → (k ≡ 0) ⊎ (next_emit ≤ count + every)
        → due first every (count + 1) ≡ ((count + 1) == next_emit)
    go zero e l = ground (arith, h.ahead, zero-mod every)
    go (suc k) e l = elim (dec_lt (count + 1) next_emit) [
      | yes below ↦ ground (arith, inside below)
      | no reached ↦ ground (arith, h.ahead, on_time reached)
    ]
      where
        grid : next_emit ≡ first + every * k + every
        grid = grind arith

        inside : count + 1 < next_emit → 0 < (count + 1 - first) % every
        inside below =
            rw
              (
                apart,
                mul-add-mod_self_left every k (count + 1 - first - every * k),
                mod-eq_of_lt small,
              )
              positive
          where
            apart : count + 1 - first ≡ every * k + (count + 1 - first - every * k)
            apart = omega arith

            small : count + 1 - first - every * k < every
            small = omega arith

            positive : 0 < count + 1 - first - every * k
            positive = omega arith

        on_time : ¬ (count + 1 < next_emit) → (count + 1 - first) % every ≡ 0
        on_time reached = ap (λ n. n % every) whole ∙ mul-mod_right every (suc k)
          where
            whole : count + 1 - first ≡ every * suc k
            whole = omega (arith, h.ahead)

IsNext-emit :
    (first every count next_emit : ℕ)
    → 0 < every
    → count + 1 ≡ next_emit
    → IsNext first every count next_emit
    → IsNext first every (count + 1) (next_emit + every)
IsNext-emit first every count next_emit pos now h = record {
  round = h.round + 1;
  on_grid = grind (arith, h.on_grid);
  ahead = omega arith;
  least = inr (omega arith);
}

IsNext-wait :
    (first every count next_emit : ℕ)
    → IsNext first every count next_emit
    → count + 1 ≢ next_emit
    → IsNext first every (count + 1) next_emit
IsNext-wait first every count next_emit h ne = record {
  round = h.round;
  on_grid = h.on_grid;
  ahead = omega (arith, h.ahead);
  least = ground (arith, h.least);
}

module _ {P : Type 0} where
  -- What the points `ps` emit after the points `seen`, stated on the whole history.
  abbrev pub emissions :
      (first every period : ℕ) → List P → List P → List (Option (List (Option P)))
  emissions first every period seen [] = []
  emissions first every period seen (p ∷ ps) =
      (if due first every (length seen + 1)
        then some (slots (last period (seen ++ p ∷ [])))
        else none)
      ∷ emissions first every period (seen ++ p ∷ []) ps

  -- The window after the points `seen`.
  record After (first every period : ℕ) (seen : List P) (w : WindowByCount P) : Type 0 where
    holds : Holds w (last period seen)
    next : IsNext first every (length seen) w.next_emit
    counted : w.count ≡ length seen
    same_period : w.period ≡ period
    same_every : w.every ≡ every

  last-push :
      (period : ℕ) (xs : List P) (p : P)
      → push period (last period xs) p ≡ last period (xs ++ p ∷ [])
  last-push period xs p =
      ap (λ t. drop (length t - period) t) (sym (drop-append_le n xs (p ∷ []) (omega arith)))
      ∙ drop-drop (length (drop n (xs ++ p ∷ [])) - period) n (xs ++ p ∷ [])
      ∙ ap (λ k. drop k (xs ++ p ∷ [])) (count)
    where
      n : ℕ
      n = length xs - period

      count : n + (length (drop n (xs ++ p ∷ [])) - period) ≡ length (xs ++ p ∷ []) - period
      count = omega (arith, length-drop {0} n (xs ++ p ∷ []), length-append {0} xs (p ∷ []))

  advance-After :
      (first every period : ℕ) (seen : List P) (p : P) {w : WindowByCount P}
      → After first every period seen w
      → Holds (advance p w) (last period (seen ++ p ∷ []))
  advance-After first every period seen p {w} h =
      subst (Holds (advance p w))
        (ap (λ n. push n (last period seen) p) h.same_period ∙ last-push period seen p)
        (advance-Holds p h.holds)

  -- What `point` returns when it does not panic.
  point_lem :
      (p : P) (w : WindowByCount P) (q : List P)
      → w.stop < length w.buf
      → Holds (advance p w) q
      → length q ≢ 0
      → point p w ≡ (
          if (w.count + 1) == w.next_emit
          then some (record (advance p w) { next_emit = w.next_emit + w.every }, some (slots q))
          else some (advance p w, none))
  unfolding point advance
  point_lem p w q inside h ne =
      ground (arith, batch-Holds (next_emit-Holds (w.next_emit + w.every) h) ne)

  point-After :
      (first every period : ℕ) (seen : List P) (p : P) {w : WindowByCount P}
      → 0 < period
      → 0 < every
      → After first every period seen w
      → (w' : WindowByCount P) × (point p w
          ≡ some (
            w',
            if due first every (length seen + 1)
                then some (slots (last period (seen ++ p ∷ [])))
                else none,
          ))
        × After first every period (seen ++ p ∷ []) w'
  unfolding advance
  point-After first every period seen p {w} pos_period pos_every h =
      elim (Bool-cases ((w.count + 1) == w.next_emit)) [
        | inl emits ↦ (
          record (advance p w) { next_emit = w.next_emit + w.every },
          point_lem p w (last period (seen ++ p ∷ [])) (stop-lt h.holds) ring nonempty
              ∙ rw (due_eq, emits),
          record {
            holds = next_emit-Holds (w.next_emit + w.every) ring;
            next =
                subst (λ n. IsNext first every n (w.next_emit + w.every)) (sym len)
                  (subst (λ (n : ℕ). IsNext first every (length seen + 1) (w.next_emit + n))
                    (sym h.same_every)
                    (IsNext-emit first every (length seen) w.next_emit pos_every
                      (ground (arith, h.counted)) h.next));
            counted = omega (arith, h.counted, len);
            same_period = h.same_period;
            same_every = h.same_every;
          },
        )
        | inr waits ↦ (
          advance p w,
          point_lem p w (last period (seen ++ p ∷ [])) (stop-lt h.holds) ring nonempty
              ∙ rw (due_eq, waits),
          record {
            holds = ring;
            next =
                subst (λ n. IsNext first every n w.next_emit) (sym len)
                  (IsNext-wait first every (length seen) w.next_emit h.next
                    (ground (arith, h.counted)));
            counted = omega (arith, h.counted, len);
            same_period = h.same_period;
            same_every = h.same_every;
          },
        )
      ]
    where
      len : length (seen ++ p ∷ []) ≡ length seen + 1
      len = length-append seen (p ∷ [])

      ring : Holds (advance p w) (last period (seen ++ p ∷ []))
      ring = advance-After first every period seen p h

      nonempty : length (last period (seen ++ p ∷ [])) ≢ 0
      nonempty =
          omega (arith, len, length-drop {0} (length (seen ++ p ∷ []) - period) (seen ++ p ∷ []))

      due_eq : due first every (length seen + 1) ≡ ((w.count + 1) == w.next_emit)
      due_eq =
          due_iff_next first every (length seen) w.next_emit pos_every h.next
          ∙ ap (λ n. (n + 1) == w.next_emit) (sym h.counted)

  run-cons :
      (p : P) (ps : List P) (w : WindowByCount P) {w' w'' : WindowByCount P}
      {m : Option (List (Option P))} {ms : List (Option (List (Option P)))}
      → point p w ≡ some (w', m)
      → run ps w' ≡ some (w'', ms)
      → run (p ∷ ps) w ≡ some (w'', m ∷ ms)
  unfolding run
  run-cons p ps w h k = ground arith

  run-After :
      (first every period : ℕ) (seen ps : List P) {w : WindowByCount P}
      → 0 < period
      → 0 < every
      → After first every period seen w
      → (w' : WindowByCount P) × (run ps w ≡ some (w', emissions first every period seen ps))
        × After first every period (seen ++ ps) w'
  unfolding run
  run-After first every period seen [] {w} pos_period pos_every h =
      (w, refl, subst (λ t. After first every period t w) (sym (append-nil seen)) h)
  run-After first every period seen (p ∷ ps) {w} pos_period pos_every h =
      let (w', eq, h') = point-After first every period seen p pos_period pos_every h in
      let (w'', eqs, h'') =
        run-After first every period (seen ++ p ∷ []) ps pos_period pos_every h' in
      (
        w'',
        run-cons p ps w eq eqs,
        subst (λ t. After first every period t w'') (append_assoc seen (p ∷ []) ps) h'',
      )

  -- A window by count over the points of a group never panics; after each point it emits exactly
  -- when the point's number is due, and then the last `period` points, in order (fewer at the
  -- beginning); at the end it holds the last `period` points.
  pub run-emissions :
      (period every : ℕ) (fill_period : Bool) (ps : List P)
      → 0 < period
      → 0 < every
      → (w : WindowByCount P) × (run ps (new_window_by_count period every fill_period)
          ≡ some (w, emissions (if fill_period then period else every) every period [] ps))
        × (points w ≡ some (slots (last period ps)))
  unfolding new_window_by_count
  run-emissions period every fill_period ps pos_period pos_every =
      let (w, eq, h) =
        run-After (if fill_period then period else every) every period [] ps pos_period pos_every
          start in
      (w, eq, points-Holds h.holds)
    where
      start :
          After
            (if fill_period then period else every)
            every
            period
            []
            (new_window_by_count period every fill_period)
      start = record {
        holds =
            subst (Holds (new_window_by_count period every fill_period))
              (sym (drop-eq_self [] (0 - period) (omega arith)))
              (new-Holds period every fill_period pos_period);
        next = record {
          round = 0;
          on_grid = omega arith;
          ahead = elim fill_period as (λ b. 0 < (if b then period else every)) [
            | true ↦ pos_period
            | false ↦ pos_every
          ];
          least = inl refl;
        };
        counted = refl;
        same_period = refl;
        same_every = refl;
      }
