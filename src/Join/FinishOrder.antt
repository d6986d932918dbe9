-- ===== src/Join/FinishOrder.antt =====
-- The calls of emit of join.go at Finish: the order of what goes on.
use kapacitor.Prelude.{
  ℕ, zero, suc, ◌+◌, ◌<◌, ◌≤◌, ◌≡◌, inl, inr, refl, sym, subst, Bool, false, not, ◌||◌, List, [],
  ◌∷◌, ◌++◌, Option, none, some, length, arith, Bool-cases, Option-cases, All,
}
use kapacitor.Join.{
  JoinSet, JoinGroup, ready, sets_at, put_sets, delete_sets, oldest_of, leave, emit_rounds,
  check_only_ready_sets,
}
use kapacitor.Join.Emission.{note_set, List-cases, rounds-empty}
use kapacitor.Join.Keys.{
  Uniq, All-both, All-map, put-Uniq, delete-Uniq, put-All, at-All, oldest-low,
}
use kapacitor.Join.Quiet.{Sat, if-Sat, Rising, Rising-snoc, Keyed, After, relow}
use kapacitor.Join.{emit, emit_all}
use kapacitor.Join.QuietRounds.{more, step-is, After-removal, emit-one, emit-none, alone-one}

module _ {P : Type 0} (n : ℕ) (time : P → ℕ) where
  -- What went on has rising times, and all sets left are later and alone at their times.
  abbrev pub Core : List ℕ → JoinGroup P × (List (JoinSet P) × Option ℕ) → Type 0
  Core hs r =
      (sent : ℕ) × ((Rising 0 r.1.0 sent)
        × ((r.0.head ≡ hs)
            × ((Uniq r.0.sets) × (All (λ e. Keyed n time sent r.0.oldest_time hs e) r.0.sets))))

  -- The group without its sets of the oldest time.
  removed-Core :
      (k : ℕ) (only : Bool) (sent : ℕ) (g : JoinGroup P) (out : List (JoinSet P))
      → Rising 0 out sent
      → Uniq g.sets
      → All (λ e. After n time sent g.oldest_time g.head e) (delete_sets g.oldest_time g.sets)
      → (Core g.head (leave g [], (out, none))
          → Sat
              (Core g.head)
              (emit_rounds note_set k (check_only_ready_sets (leave g [])) (leave g []) out))
      → Sat (Core g.head) (more n time k only g out [])
  unfolding leave
  removed-Core k only sent g out r un aft next =
      let o = g.oldest_time in
      let m = delete_sets o g.sets in
      let core : Core g.head (leave g [], (out, none)) =
        (sent, (r, (refl, (delete-Uniq o g.sets un, (relow n time sent o g.head m aft).0)))) in
      if-Sat (Core g.head) only _ _ (λ e. core) (λ e. next core)

  stays-Core :
      (k : ℕ) (sent : ℕ) (g : JoinGroup P) (out : List (JoinSet P)) (j : JoinSet P)
      → Rising 0 out sent
      → Uniq g.sets
      → All (λ e. Keyed n time sent g.oldest_time g.head e) g.sets
      → Keyed n time sent g.oldest_time g.head (g.oldest_time, j ∷ [])
      → Core g.head (leave g (j ∷ []), (out, none))
  unfolding leave
  stays-Core k sent g out j r un h q =
      let o = g.oldest_time in
      let hs = g.head in
      let m = put_sets o (j ∷ []) g.sets in
      let keyed =
        put-All (λ e. Keyed n time sent o hs e) (λ e. Keyed n time sent o hs e) o (j ∷ []) g.sets q
          (λ e a ne. a) un h in
      let low =
        (oldest-low 0 m (
          All-map (λ e. Keyed n time sent o hs e) (λ e. 0 < e.0) m (λ e a. omega (arith, a.0))
            keyed)).1 in
      (
        sent,
        (
          r,
          (
            refl,
            (
              put-Uniq o (j ∷ []) g.sets un,
              All-both (λ e. Keyed n time sent o hs e)
                  (λ e. (oldest_of 0 m ≤ e.0) × (0 < oldest_of 0 m))
                  (λ e. Keyed n time sent (oldest_of 0 m) hs e) m (λ e a b. (a.0, (b.0, a.1.1)))
                  keyed low,
            ),
          ),
        ),
      )

  rounds-Core :
      (k : ℕ) (only : Bool) (g : JoinGroup P) (out : List (JoinSet P))
      → Core g.head (g, (out, none))
      → Sat (Core g.head) (emit_rounds note_set k only g out)
  unfolding emit_rounds leave
  rounds-Core zero only g out h = tt
  rounds-Core (suc k) only g out (sent, (r, (e0, (un, h)))) =
      let hs = g.head in
      let o = g.oldest_time in
      let next : (out' : List (JoinSet P))
          → Core hs (leave g [], (out', none))
          → Sat (Core hs)
              (emit_rounds note_set k (check_only_ready_sets (leave g [])) (leave g []) out') =
        λ out' c. rounds-Core k (check_only_ready_sets (leave g [])) (leave g []) out' c in
      elim (List-cases g.sets) [
        | inl e ↦
            subst (Sat (Core hs)) (sym (rounds-empty k only g out e)) (sent, (r, (refl, (un, h))))
        | inr (x, (rest, e)) ↦
            let lt : 0 < length g.sets = subst (λ m. 0 < length m) (sym e) (omega arith) in
            elim (at-All (λ y. Keyed n time sent o hs y) o g.sets h) [
              | inl (none_at, absent) ↦
                  subst (Sat (Core hs))
                    (sym (
                      step-is n time k only g out out [] lt
                        (emit-none n time only (sets_at o g.sets) out none_at)))
                    (removed-Core k only sent g out r un
                      (After-removal n time sent sent g (inl refl) un h) (next out))
              | inr q ↦
                  let (j, eq) = alone-one n time sent o hs (sets_at o g.sets) q in
                  let q' : Keyed n time sent o hs (o, j ∷ []) =
                    subst (λ l'. Keyed n time sent o hs (o, l')) eq q in
                  let step = emit-one n time only (sets_at o g.sets) j out eq in
                  elim (Bool-cases (ready j || not only)) [
                    | inl e' ↦
                        let r' : Rising 0 (out ++ j ∷ []) o =
                          subst (λ t. Rising 0 (out ++ j ∷ []) t) q'.1.1.0.0.0
                            (Rising-snoc 0 sent out j r (omega (arith, q'.0, q'.1.1.0.0.0))) in
                        subst (Sat (Core hs))
                          (sym (
                            step-is n time k only g out (out ++ j ∷ []) [] lt
                              (ground (arith, step, e'))))
                          (removed-Core k only o g (out ++ j ∷ []) r' un
                            (After-removal n time sent o g (inr refl) un h) (next (out ++ j ∷ [])))
                    | inr e' ↦
                        subst (Sat (Core hs))
                          (sym (
                            step-is n time k only g out out (j ∷ []) lt (ground (arith, step, e'))))
                          (if-Sat (Core hs) only _ _ (λ c. stays-Core k sent g out j r un h q')
                            (λ c. absurd (ground (arith, c, e'))))
                  ]
            ]
      ]

  emit-Core :
      (hs : List ℕ) (g : JoinGroup P) (out : List (JoinSet P))
      → Core hs (g, (out, none))
      → Sat (Core hs) (emit note_set false g out)
  unfolding emit
  emit-Core hs g out h =
      let e = h.1.1.0 in
      subst (λ x. Sat (Core x) (emit_rounds note_set (length g.sets + 2) false g out)) e
        (rounds-Core (length g.sets + 2) false g out
          (subst (λ x. Core x (g, (out, none))) (sym e) h))

  all-empty :
      (k : ℕ) (last : Option ℕ) (g : JoinGroup P) (out : List (JoinSet P))
      → g.sets ≡ []
      → emit_all note_set (suc k) last g out ≡ some (g, (out, last))
  unfolding emit_all
  all-empty k last g out e = ground (arith, e)

  -- emitAll, where emit does not fail.
  pub all-Core :
      (k : ℕ) (last : Option ℕ) (hs : List ℕ) (g : JoinGroup P) (out : List (JoinSet P))
      → Core hs (g, (out, none))
      → Sat (Core hs) (emit_all note_set k last g out)
  unfolding emit_all
  all-Core zero last hs g out h = tt
  all-Core (suc k) last hs g out h = elim (List-cases g.sets) [
    | inl e ↦ subst (Sat (Core hs)) (sym (all-empty k last g out e)) h
    | inr (x, (rest, e)) ↦ elim (Option-cases (emit note_set false g out)) [
      | inl f ↦
          let nothing : emit_all note_set (suc k) last g out ≡ none = ground (arith, e, f) in
          subst (Sat (Core hs)) (sym nothing) tt
      | inr ((g', (out', y)), f) ↦
          let last' : Option ℕ = elim y [ none ↦ last | some z ↦ some z ] in
          let on : emit_all note_set (suc k) last g out ≡ emit_all note_set k last' g' out' =
            ground (arith, e, f) in
          subst (Sat (Core hs)) (sym on)
            (all-Core k last' hs g' out' (subst (Sat (Core hs)) f (emit-Core hs g out h)))
    ]
  ]
