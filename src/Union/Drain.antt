-- ===== src/Union/Drain.antt =====
-- Finish of the union node (union.go), where forwarding a message does not fail.
use kapacitor.Prelude.{
  ℕ, zero, suc, ◌+◌, ◌≤◌, ◌<◌, ◌≡◌, ◌⊎◌, inl, inr, refl, ◌∙◌, ap, Bool, true, false, ◌||◌,
  if◌then◌else◌, ltb, ◌==◌, List, [], ◌∷◌, ◌++◌, Option, none, some, length, arith, Bool-cases,
}
use kapacitor.Union.{
  finish, Source, Marks, see, see_all, keep_marks, emit_values, emit_sources, waiting, emit_ready,
}

-- How many messages pass a test.
abbrev pub tally : {M : Type 0} → (M → Bool) → List M → ℕ
tally p [] = 0
tally p (m ∷ ms) = if p m then tally p ms + 1 else tally p ms

abbrev pub tally_waiting : {M : Type 0} → (M → Bool) → List (Source M) → ℕ
tally_waiting p [] = 0
tally_waiting p (s ∷ ss) = tally p s.values + tally_waiting p ss

-- Forwarding to a list.
abbrev pub note_message : {M : Type 0} → M → List M → List M × Option ℕ
note_message m out = (out ++ m ∷ [], none)

module _ {M : Type 0} (time : M → ℕ) where
  abbrev starts : ℕ → List M → Bool
  starts mark [] = false
  starts mark (m ∷ ms) = time m == mark

  -- Some source starts with a message of the time.
  abbrev has_head : ℕ → List (Source M) → Bool
  has_head mark [] = false
  has_head mark (s ∷ ss) = starts mark s.values || has_head mark ss

  tally-snoc :
      (p : M → Bool) (ms : List M) (m : M)
      → tally p (ms ++ m ∷ []) ≡ (if p m then tally p ms + 1 else tally p ms)
  tally-snoc p [] m = ground arith
  tally-snoc p (x ∷ ms) m = ground (arith, tally-snoc p ms m)

  tally-le : (p : M → Bool) (ms : List M) → tally p ms ≤ length ms
  tally-le p [] = omega arith
  tally-le p (m ∷ ms) = ground (arith, tally-le p ms)

  tally_waiting-zero :
      (p : M → Bool) (ss : List (Source M)) → waiting ss ≡ 0 → tally_waiting p ss ≡ 0
  tally_waiting-zero p [] h = refl
  tally_waiting-zero p (s ∷ ss) h =
      ground (arith, h, tally-le p s.values, tally_waiting-zero p ss (omega (arith, h)))

  waiting-keep : (ss : List (Source M)) → waiting (keep_marks time ss) ≡ waiting ss
  unfolding keep_marks
  waiting-keep [] = refl
  waiting-keep (s ∷ ss) = ap (λ n. length s.values + n) (waiting-keep ss)

  tally-keep :
      (p : M → Bool) (ss : List (Source M))
      → tally_waiting p (keep_marks time ss) ≡ tally_waiting p ss
  unfolding keep_marks
  tally-keep p [] = refl
  tally-keep p (s ∷ ss) = ap (λ n. tally p s.values + n) (tally-keep p ss)

  head-keep :
      (mark : ℕ) (ss : List (Source M)) → has_head mark (keep_marks time ss) ≡ has_head mark ss
  unfolding keep_marks
  head-keep mark [] = refl
  head-keep mark (s ∷ ss) = ap (λ b. starts mark s.values || b) (head-keep mark ss)

  -- What emitting the messages of a source leaves.
  emit_values_lem :
      (mark : ℕ) (ms : List M) (out : List M) (p : M → Bool)
      → let r = emit_values time note_message mark ms out in
        (r.1.1 ≡ none)
        × ((length r.0 ≤ length ms) × (tally p r.1.0 + tally p r.0 ≡ tally p out + tally p ms))
  unfolding emit_values
  emit_values_lem mark [] out p = (refl, (omega arith, refl))
  emit_values_lem mark (m ∷ ms) out p = elim (Bool-cases (ltb mark (time m))) [
    | inl h ↦ (ground (arith, h), (ground (arith, h), ground (arith, h)))
    | inr h ↦
        let (e, (le, eq)) = emit_values_lem mark ms (out ++ m ∷ []) p in
        (ground (arith, h, e), (ground (arith, h, le), ground (arith, h, eq, tally-snoc p out m)))
  ]

  emits-head :
      (mark : ℕ) (ms out : List M)
      → starts mark ms ≡ true
      → length (emit_values time note_message mark ms out).0 < length ms
  unfolding emit_values
  emits-head mark [] out h = cc
  emits-head mark (m ∷ ms) out h =
      let (e, (le, eq)) = emit_values_lem mark ms (out ++ m ∷ []) (λ x. true) in
      ground (arith, h, le)

  -- What a round of emitting leaves: nothing is lost, and it emits if a source starts at the mark.
  emit_sources_lem :
      (mark : ℕ) (ss : List (Source M)) (out : List M) (p : M → Bool)
      → let r = emit_sources time note_message mark ss out in
        (r.1.1 ≡ none)
        × ((tally p r.1.0 + tally_waiting p r.0 ≡ tally p out + tally_waiting p ss)
            × ((waiting r.0 ≤ waiting ss) × (has_head mark ss ≡ true → waiting r.0 < waiting ss)))
  unfolding emit_sources
  emit_sources_lem mark [] out p = (refl, (refl, (omega arith, λ h. cc)))
  emit_sources_lem mark (s ∷ ss) out p =
      let v = emit_values time note_message mark s.values out in
      let (e, (le, eq)) = emit_values_lem mark s.values out p in
      let (e', (eq', (le', lt'))) = emit_sources_lem mark ss v.1.0 p in
      (
        ground (arith, e, e'),
        (
          ground (arith, e, eq, eq'),
          (
            ground (arith, e, le, le'),
            λ h. elim (Bool-cases (starts mark s.values)) [
              | inl t ↦ ground (arith, e, le', emits-head mark s.values out t)
              | inr f ↦ ground (arith, e, le, lt' (ground (arith, h, f)))
            ],
          ),
        ),
      )

  -- What a source makes of the mark: it has no message, or it starts at the mark, or the mark is
  -- earlier.
  first :
      (s : Source M) (k : Marks)
      → (((see time true s k).mark ≡ k.mark) × (length s.values ≡ 0))
        ⊎ ((starts (see time true s k).mark s.values ≡ true)
            ⊎ (((see time true s k).mark ≡ k.mark) × ((k.mark == 0) ≡ false)))
  unfolding see
  first s k = go s.values refl
    where
      go :
          (ms : List M)
          → s.values ≡ ms
          → (((see time true s k).mark ≡ k.mark) × (length s.values ≡ 0))
            ⊎ ((starts (see time true s k).mark s.values ≡ true)
                ⊎ (((see time true s k).mark ≡ k.mark) × ((k.mark == 0) ≡ false)))
      go [] e = inl (ground (arith, e), ground (arith, e))
      go (m ∷ ms) e = elim (Bool-cases ((k.mark == 0) || ltb (time m) k.mark)) [
        | inl t ↦ inr (inl (ground (arith, e, t)))
        | inr f ↦ inr (inr (ground (arith, e, f), ground (arith, f)))
      ]

  -- The mark, where the low marks do not count: it is the time at which some source starts, or
  -- that from before.
  see_all_lem :
      (ss : List (Source M)) (k : Marks)
      → (has_head (see_all time true ss k).mark ss ≡ true)
        ⊎ (((see_all time true ss k).mark ≡ k.mark) × (k.mark ≡ 0 → waiting ss ≡ 0))
  unfolding see_all see
  see_all_lem [] k = inr (refl, λ h. refl)
  see_all_lem (s ∷ ss) k = elim (see_all_lem ss (see time true s k)) [
    | inl h ↦ inl (ground (arith, h))
    | inr (same, none_left) ↦ elim (first s k) [
      | inl (keeps, empty) ↦ inr (same ∙ keeps, λ z. ground (arith, empty, none_left (keeps ∙ z)))
      | inr (inl h) ↦ inl (ground (arith, ap (λ m. starts m s.values) same ∙ h))
      | inr (inr (keeps, h)) ↦ inr (same ∙ keeps, λ z. ground (arith, h, z))
    ]
  ]

  stuck : (a b : ℕ) → ltb a b ≡ false → a < b → ⊥
  stuck a b h lt = ground (arith, h, lt)

  drains :
      (rounds : ℕ) (ss : List (Source M)) (out : List M)
      → waiting ss < rounds
      → (left : List (Source M)) × ((sent : List M) × ((emit_ready time note_message true rounds ss
                out
              ≡ some (left, (sent, none)))
            × ((waiting left ≡ 0)
                × ((p : M → Bool) → tally p sent ≡ tally p out + tally_waiting p ss))))
  unfolding emit_ready
  drains zero ss out h = absurd (omega (arith, h))
  drains (suc rounds) ss out h =
      let k = see_all time true ss (record { mark = 0; valid = 0 }) in
      let kept = keep_marks time ss in
      let r = emit_sources time note_message k.mark kept out in
      let (e, (eq, (le, lt))) = emit_sources_lem k.mark kept out (λ m. true) in
      elim (Bool-cases (ltb (waiting r.0) (waiting kept))) [
        | inl less ↦
            let (left, (sent, (f, (w, all)))) =
              drains rounds r.0 r.1.0 (ground (arith, h, less, waiting-keep ss)) in
            (
              left,
              (
                sent,
                (
                  ground (arith, e, less, f),
                  (
                    w,
                    λ p.
                        ground
                          (arith, all p, tally-keep p ss, (emit_sources_lem k.mark kept out p).1.0),
                  ),
                ),
              ),
            )
        | inr same ↦
            let w : waiting ss ≡ 0 = elim (see_all_lem ss (record { mark = 0; valid = 0 })) [
              | inl h ↦
                  absurd (stuck (waiting r.0) (waiting kept) same (lt (head-keep k.mark ss ∙ h)))
              | inr (m, z) ↦ z refl
            ] in
            let w' : waiting r.0 ≡ 0 = ground (arith, w, le, waiting-keep ss) in
            (
              r.0,
              (
                r.1.0,
                (
                  ground (arith, e, same),
                  (
                    w',
                    λ p. ground (
                      arith,
                      (emit_sources_lem k.mark kept out p).1.0,
                      tally-keep p ss,
                      tally_waiting-zero p r.0 w',
                    ),
                  ),
                ),
              ),
            )
      ]

  -- Finish, where forwarding does not fail: emitReady ends in one round more than messages wait, with
  -- no error; then no message waits at any source, and what was forwarded is what was there
  -- before with all the messages that waited, each once: every test is passed by as many messages.
  pub finish-drains :
      (ss : List (Source M)) (out : List M)
      → (left : List (Source M)) × ((sent : List M) × ((finish time note_message
                (waiting ss + 1)
                ss
                out
              ≡ some (left, (sent, none)))
            × ((waiting left ≡ 0)
                × ((p : M → Bool) → tally p sent ≡ tally p out + tally_waiting p ss))))
  unfolding finish
  finish-drains ss out = drains (waiting ss + 1) ss out (omega arith)
