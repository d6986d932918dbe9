-- ===== src/Join/Rounds.antt =====
-- emit of join.go: enough calls, and what they forward and keep.
use kapacitor.Prelude.{
  ℕ, zero, suc, ◌+◌, ◌<◌, ◌≤◌, ◌≡◌, refl, sym, ◌∙◌, ap, subst, Bool, true, false, List, [], ◌∷◌,
  Option, none, some, length, arith, Bool-cases, All, inl, inr,
}
use kapacitor.Join.{
  JoinSet, JoinGroup, sets_at, put_sets, delete_sets, emit_sets, leave, emit_rounds, emit,
  check_only_ready_sets,
}
use kapacitor.Join.Sets.{tally_list, tally_sets, tally-put, tally-delete}
use kapacitor.Join.Sound.{Sound, AllSound, put-Sound, delete-Sound, sets_at-Sound}
use kapacitor.Join.Emission.{
  note_set, List-cases, rounds-empty, rounds-step, Settled, emit_sets_lem, is_key, length-delete,
  length-put, sets_at-key, oldest-Settled,
}

module _ {P : Type 0} (n : ℕ) (time : P → ℕ) where
  -- A set that is right for its own time.
  abbrev pub Own : JoinSet P → Type 0
  Own js = Sound n time js.time js

  own : (t : ℕ) (js : List (JoinSet P)) → All (Sound n time t) js → All Own js
  own t [] h = tt
  own t (j ∷ js) (h, hs) = (subst (λ u. Sound n time u j) (sym h.0.0) h, own t js hs)

  -- A group after emit, beside what was forwarded.
  abbrev pub Kept : JoinGroup P → List (JoinSet P) → JoinGroup P → List (JoinSet P) → Type 0
  Kept g out g' out' =
      ((test : ℕ → P → Bool)
        → tally_list test out' + tally_sets test g'.sets
          ≡ tally_list test out + tally_sets test g.sets)
      × ((All Own out') × ((AllSound n time g'.sets) × ((Settled g') × (g'.head ≡ g.head))))

  leave-Settled : (g : JoinGroup P) (left : List (JoinSet P)) → Settled (leave g left)
  unfolding leave
  leave-Settled g [] = oldest-Settled (delete_sets g.oldest_time g.sets)
  leave-Settled g (j ∷ js) = oldest-Settled (put_sets g.oldest_time (j ∷ js) g.sets)

  leave-tally :
      (g : JoinGroup P) (left : List (JoinSet P)) (test : ℕ → P → Bool)
      → tally_sets test (leave g left).sets + tally_list test (sets_at g.oldest_time g.sets)
        ≡ tally_sets test g.sets + tally_list test left
  unfolding leave
  leave-tally g [] test = ground (arith, tally-delete test g.oldest_time g.sets)
  leave-tally g (j ∷ js) test = tally-put test g.oldest_time (j ∷ js) g.sets

  leave-Sound :
      (g : JoinGroup P) (left : List (JoinSet P))
      → All (Sound n time g.oldest_time) left
      → AllSound n time g.sets
      → AllSound n time (leave g left).sets
  unfolding leave
  leave-Sound g [] hl h = delete-Sound n time g.oldest_time g.sets h
  leave-Sound g (j ∷ js) hl h = put-Sound n time g.oldest_time (j ∷ js) g.sets hl h

  -- What is left of a time without sets is nothing.
  leave-length :
      (g : JoinGroup P) (left : List (JoinSet P))
      → (is_key g.oldest_time g.sets ≡ false → left ≡ [])
      → length (leave g left).sets ≤ length g.sets
  unfolding leave
  leave-length g [] h = (length-delete g.oldest_time g.sets).0
  leave-length g (j ∷ js) h = elim (Bool-cases (is_key g.oldest_time g.sets)) [
    | inl e ↦ omega (arith, length-put g.oldest_time (j ∷ js) g.sets e)
    | inr e ↦ cc (h e)
  ]

  leave-shorter :
      (g : JoinGroup P) → Settled g → 0 < length g.sets → length (leave g []).sets < length g.sets
  unfolding leave
  leave-shorter g (inl e) lt = omega (arith, e, lt)
  leave-shorter g (inr k) lt = (length-delete g.oldest_time g.sets).1 k

  -- One call of emit.
  step-Kept :
      (only : Bool) (g : JoinGroup P) (out : List (JoinSet P))
      → All Own out
      → AllSound n time g.sets
      → let r = emit_sets note_set only (sets_at g.oldest_time g.sets) out in
        (r.1.1 ≡ none)
        × (Kept g out (leave g r.0) r.1.0
            × ((length (leave g r.0).sets ≤ length g.sets)
                × (only ≡ false
                    → Settled g
                    → 0 < length g.sets
                    → length (leave g r.0).sets < length g.sets)))
  unfolding leave emit_sets
  step-Kept only g out ho hs =
      let at = sets_at g.oldest_time g.sets in
      let all = sets_at-Sound n time g.oldest_time g.sets hs in
      let r = emit_sets note_set only at out in
      let (e, (eq, (ho', (hl, nil)))) =
        emit_sets_lem only at out Own (Sound n time g.oldest_time) ho (own g.oldest_time at all)
          all in
      (
        e,
        (
          (
            λ test. omega (arith, eq test, leave-tally g r.0 test),
            (ho', (leave-Sound g r.0 hl hs, (leave-Settled g r.0, refl))),
          ),
          (
            leave-length g r.0 (λ k.
                ap (λ l. (emit_sets note_set only l out).0) (sets_at-key g.oldest_time g.sets k)),
            λ f st lt.
                subst (λ l. length (leave g l).sets < length g.sets) (sym (nil f))
                  (leave-shorter g st lt),
          ),
        ),
      )

  -- What emit returns, for at most `bound` times left.
  abbrev pub Done :
      (bound : ℕ)
      → JoinGroup P
      → List (JoinSet P)
      → Option (JoinGroup P × (List (JoinSet P) × Option ℕ))
      → Type 0
  Done bound g out r =
      (g' : JoinGroup P) × ((out' : List (JoinSet P)) × ((r ≡ some (g', (out', none)))
          × ((Kept g out g' out') × (length g'.sets ≤ bound))))

  pub Kept-trans :
      (g g1 g2 : JoinGroup P) (out out1 out2 : List (JoinSet P))
      → Kept g out g1 out1
      → Kept g1 out1 g2 out2
      → Kept g out g2 out2
  Kept-trans g g1 g2 out out1 out2 (eq, (ho, (hs, (st, hd)))) (eq', (ho', (hs', (st', hd')))) =
      (λ test. omega (arith, eq test, eq' test), (ho', (hs', (st', hd' ∙ hd))))

  pub Done-after :
      (g g1 : JoinGroup P) (out out1 : List (JoinSet P)) (bound : ℕ)
      (r : Option (JoinGroup P × (List (JoinSet P) × Option ℕ)))
      → Kept g out g1 out1
      → Done bound g1 out1 r
      → Done bound g out r
  Done-after g g1 out out1 bound r h (g2, (out2, (e, (h', l)))) =
      (g2, (out2, (e, (Kept-trans g g1 g2 out out1 out2 h h', l))))

  -- One call more.
  more-Done :
      (k : ℕ) (only : Bool) (g : JoinGroup P) (out : List (JoinSet P)) (bound : ℕ)
      → All Own out
      → AllSound n time g.sets
      → (only ≡ true → length g.sets ≤ bound)
      → ((g1 : JoinGroup P) (out1 : List (JoinSet P))
          → Kept g out g1 out1
          → length g1.sets ≤ length g.sets
          → (Settled g → length g1.sets < length g.sets)
          → Done bound g1 out1 (emit_rounds note_set k (check_only_ready_sets g1) g1 out1))
      → Done bound g out (emit_rounds note_set (suc k) only g out)
  more-Done k only g out bound ho hs b next = elim (List-cases g.sets) [
    | inl e ↦ (
      g,
      (
        out,
        (
          rounds-empty k only g out e,
          ((λ test. refl, (ho, (hs, (inl (ap length e), refl)))), omega (arith, ap length e)),
        ),
      ),
    )
    | inr (x, (l, e)) ↦
        let lt : 0 < length g.sets = subst (λ m. 0 < length m) (sym e) (omega arith) in
        let r = emit_sets note_set only (sets_at g.oldest_time g.sets) out in
        let (none_, (kept, (le, less))) = step-Kept only g out ho hs in
        let eq = rounds-step k only g out lt none_ in
        elim (Bool-cases only) [
          | inl f ↦ (leave g r.0, (r.1.0, (ground (arith, eq, f), (kept, omega (arith, le, b f)))))
          | inr f ↦
              Done-after g (leave g r.0) out r.1.0 bound (emit_rounds note_set (suc k) only g out)
                kept
                (subst (Done bound (leave g r.0) r.1.0) (sym (ground (arith, eq, f)))
                  (next (leave g r.0) r.1.0 kept le (λ st. less f st lt)))
        ]
  ]

  Settled-Done :
      (k : ℕ) (only : Bool) (g : JoinGroup P) (out : List (JoinSet P)) (bound : ℕ)
      → Settled g
      → length g.sets < k
      → All Own out
      → AllSound n time g.sets
      → (only ≡ true → length g.sets ≤ bound)
      → length g.sets ≤ suc bound
      → Done bound g out (emit_rounds note_set k only g out)
  Settled-Done zero only g out bound st lt ho hs b b' = absurd (omega (arith, lt))
  Settled-Done (suc k) only g out bound st lt ho hs b b' =
      more-Done k only g out bound ho hs b (λ g1 out1 kept le less.
        Settled-Done k (check_only_ready_sets g1) g1 out1 bound kept.1.1.1.0
          (omega (arith, less st, lt)) kept.1.0 kept.1.1.0 (λ f. omega (arith, less st, b'))
          (omega (arith, less st, b')))

  any-Done :
      (k : ℕ) (only : Bool) (g : JoinGroup P) (out : List (JoinSet P)) (bound : ℕ)
      → length g.sets < k
      → All Own out
      → AllSound n time g.sets
      → length g.sets ≤ bound
      → Done bound g out (emit_rounds note_set (suc k) only g out)
  any-Done k only g out bound lt ho hs b =
      more-Done k only g out bound ho hs (λ f. b)
        (λ g1 out1 kept le less.
          Settled-Done k (check_only_ready_sets g1) g1 out1 bound kept.1.1.1.0
            (omega (arith, le, lt)) kept.1.0 kept.1.1.0 (λ f. omega (arith, le, b))
            (omega (arith, le, b)))

  -- emit ends, and keeps what it does not forward.
  pub emit-Done :
      (only : Bool) (g : JoinGroup P) (out : List (JoinSet P))
      → All Own out
      → AllSound n time g.sets
      → Done (length g.sets) g out (emit note_set only g out)
  unfolding emit
  emit-Done only g out ho hs =
      subst (λ k. Done (length g.sets) g out (emit_rounds note_set k only g out)) (omega arith)
        (any-Done (suc (length g.sets)) only g out (length g.sets) (omega arith) ho hs
          (omega arith))

  -- A time less is left when emit begins with a key and takes sets that are not ready.
  pub emit-shorter :
      (g : JoinGroup P) (out : List (JoinSet P)) (bound : ℕ)
      → Settled g
      → All Own out
      → AllSound n time g.sets
      → length g.sets ≤ suc bound
      → Done bound g out (emit note_set false g out)
  unfolding emit
  emit-shorter g out bound st ho hs b =
      Settled-Done (length g.sets + 2) false g out bound st (omega arith) ho hs (λ f. cc) b
