-- ===== src/Join/QuietRounds.antt =====
-- The calls of emit of join.go on messages in order.
use kapacitor.Prelude.{
  ℕ, zero, suc, ◌<◌, ◌≤◌, ◌≡◌, ◌⊎◌, inl, inr, refl, sym, ◌∙◌, ap, subst, Bool, true, false, not,
  ◌||◌, List, [], ◌∷◌, ◌++◌, Option, none, some, if◌then◌else◌, length, arith, Bool-cases, All,
}
use kapacitor.Join.{
  JoinSet, JoinGroup, any_until, ready, sets_at, put_sets, delete_sets, oldest_of, emit_sets, leave,
  emit_rounds, check_only_ready_sets,
}
use kapacitor.Join.Emission.{note_set, List-cases, rounds-empty, rounds-step}
use kapacitor.Join.Heads.{until-Waits, until-All, All-weaken}
use kapacitor.Join.Keys.{
  Uniq, Other, All-both, All-map, put-Uniq, delete-Uniq, delete-Other, delete-All, put-All, at-All,
  oldest-low,
}
use kapacitor.Join.Quiet.{
  Sat, if-Sat, Rising, Rising-snoc, Waiting, Keyed, Quiet, After, behind, relow, not_ready,
  ready-All,
}

module _ {P : Type 0} (n : ℕ) (time : P → ℕ) where
  abbrev pub Before : (sent : ℕ) → JoinGroup P → List (JoinSet P) → Type 0
  Before sent g out =
      (length g.head ≡ n)
      × ((Rising 0 out sent)
          × ((All (λ h. sent ≤ h) g.head)
              × ((Uniq g.sets) × (All (λ e. Keyed n time sent g.oldest_time g.head e) g.sets))))

  abbrev pub more :
      ℕ
      → Bool
      → JoinGroup P
      → List (JoinSet P)
      → List (JoinSet P)
      → Option (JoinGroup P × (List (JoinSet P) × Option ℕ))
  more k only g out left =
      if only
      then some (leave g left, (out, none))
      else emit_rounds note_set k (check_only_ready_sets (leave g left)) (leave g left) out

  -- Nothing is left at the oldest time.
  more-removed :
      (k sent : ℕ) (g : JoinGroup P) (out : List (JoinSet P))
      → length g.head ≡ n
      → Rising 0 out sent
      → All (λ h. sent ≤ h) g.head
      → Uniq g.sets
      → All (λ e. After n time sent g.oldest_time g.head e) (delete_sets g.oldest_time g.sets)
      → (Before sent (leave g []) out
          → Sat
              (Quiet n time g.head)
              (emit_rounds note_set k (check_only_ready_sets (leave g [])) (leave g []) out))
      → Sat (Quiet n time g.head) (more k (check_only_ready_sets g) g out [])
  unfolding leave check_only_ready_sets
  more-removed k sent g out l r hd un aft next =
      let o = g.oldest_time in
      let m = delete_sets o g.sets in
      let un' = delete-Uniq o g.sets un in
      let (keyed, low) = relow n time sent o g.head m aft in
      if-Sat (Quiet n time g.head) (any_until o g.head) _ _
        (λ e.
          let w = until-Waits o g.head e in
          let waiting =
            All-map (λ x. After n time sent o g.head x) (λ x. Waiting n time g.head x.0 x.1) m
              (λ x a. not_ready n time o x.0 g.head x.1 l a.1.0 w a.1.1) aft in
          (sent, (r, (hd, (refl, (un', (keyed, (waiting, low))))))))
        (λ e. next (l, (r, (hd, (un', keyed)))))

  -- What an emit forwards and leaves at a time with no set, and with one.
  pub step-is :
      (k : ℕ) (only : Bool) (g : JoinGroup P) (out out' left : List (JoinSet P))
      → 0 < length g.sets
      → emit_sets note_set only (sets_at g.oldest_time g.sets) out ≡ (left, (out', none))
      → emit_rounds note_set (suc k) only g out ≡ more k only g out' left
  step-is k only g out out' left lt e =
      rounds-step k only g out lt (ap (λ r. r.1.1) e) ∙ ap (λ r. more k only g r.1.0 r.0) e

  pub After-removal :
      (sent sent' : ℕ) (g : JoinGroup P)
      → (sent' ≡ sent) ⊎ (sent' ≡ g.oldest_time)
      → Uniq g.sets
      → All (λ e. Keyed n time sent g.oldest_time g.head e) g.sets
      → All (λ e. After n time sent' g.oldest_time g.head e) (delete_sets g.oldest_time g.sets)
  After-removal sent sent' g q un h =
      let o = g.oldest_time in
      All-both (λ e. Keyed n time sent o g.head e) (Other o) (λ e. After n time sent' o g.head e)
        (delete_sets o g.sets) (λ e a ne. behind n time sent sent' o g.head q e a ne)
        (delete-All (λ e. Keyed n time sent o g.head e) o g.sets h) (delete-Other o g.sets un)

  -- The set of the oldest time stays.
  stays :
      (k sent : ℕ) (g : JoinGroup P) (out : List (JoinSet P)) (j : JoinSet P)
      → Before sent g out
      → Keyed n time sent g.oldest_time g.head (g.oldest_time, j ∷ [])
      → ready j ≡ false
      → check_only_ready_sets g ≡ true
      → Sat (Quiet n time g.head) (more k (check_only_ready_sets g) g out (j ∷ []))
  unfolding leave check_only_ready_sets
  stays k sent g out j (l, (r, (hd, (un, h)))) (ks, (ko, ka)) f c =
      let o = g.oldest_time in
      let hs = g.head in
      let m = put_sets o (j ∷ []) g.sets in
      let w = until-Waits o hs c in
      let keyed =
        put-All (λ e. Keyed n time sent o hs e) (λ e. Keyed n time sent o hs e) o (j ∷ []) g.sets
          (ks, (ko, ka)) (λ e a ne. a) un h in
      let waiting =
        put-All (λ e. Keyed n time sent o hs e) (λ e. Waiting n time hs e.0 e.1) o (j ∷ []) g.sets
          (f, w) (λ e a ne. not_ready n time o e.0 hs e.1 l (ground (arith, a.1.0, ne)) w a.1.1) un
          h in
      let low =
        (oldest-low 0 m (
          All-map (λ e. Keyed n time sent o hs e) (λ e. 0 < e.0) m (λ e a. omega (arith, a.0))
            keyed)).1 in
      let keyed' =
        All-both (λ e. Keyed n time sent o hs e) (λ e. (oldest_of 0 m ≤ e.0) × (0 < oldest_of 0 m))
          (λ e. Keyed n time sent (oldest_of 0 m) hs e) m (λ e a b. (a.0, (b.0, a.1.1))) keyed
          low in
      let positive =
        All-map (λ e. (oldest_of 0 m ≤ e.0) × (0 < oldest_of 0 m)) (λ e. 0 < oldest_of 0 m) m
          (λ e b. b.1) low in
      if-Sat (Quiet n time hs) (any_until o hs) _ _
        (λ e.
          (sent, (r, (hd, (refl, (put-Uniq o (j ∷ []) g.sets un, (keyed', (waiting, positive))))))))
        (λ e. absurd (ground (arith, e, c)))

  pub emit-one :
      (only : Bool) (l : List (JoinSet P)) (j : JoinSet P) (out : List (JoinSet P))
      → l ≡ j ∷ []
      → emit_sets note_set only l out
        ≡ (if ready j || not only then ([], (out ++ j ∷ [], none)) else (j ∷ [], (out, none)))
  unfolding emit_sets
  emit-one only l j out e = ground (arith, e)

  pub emit-none :
      (only : Bool) (l out : List (JoinSet P))
      → l ≡ []
      → emit_sets note_set only l out ≡ ([], (out, none))
  unfolding emit_sets
  emit-none only l out e = ground (arith, e)

  pub alone-one :
      (sent o : ℕ) (hs : List ℕ) (l : List (JoinSet P))
      → Keyed n time sent o hs (o, l)
      → (j : JoinSet P) × (l ≡ j ∷ [])
  alone-one sent o hs [] (a, (b, c)) = absurd c
  alone-one sent o hs (j ∷ []) h = (j, refl)
  alone-one sent o hs (j ∷ k ∷ l) (a, (b, c)) = absurd c

  heads-past :
      (g : JoinGroup P) (j : JoinSet P) (sent : ℕ)
      → length g.head ≡ n
      → Keyed n time sent g.oldest_time g.head (g.oldest_time, j ∷ [])
      → (ready j || not (check_only_ready_sets g)) ≡ true
      → All (λ h. g.oldest_time ≤ h) g.head
  unfolding check_only_ready_sets
  heads-past g j sent l (ks, (ko, ka)) e = elim (Bool-cases (ready j)) [
    | inl f ↦ ready-All n time g.oldest_time g.head j l f ka
    | inr f ↦
        All-weaken g.oldest_time g.head (until-All g.oldest_time g.head (ground (arith, e, f)))
  ]

  -- The set of the oldest time goes on, or stays.
  one-set :
      (k sent : ℕ) (g : JoinGroup P) (out : List (JoinSet P)) (j : JoinSet P)
      → Before sent g out
      → 0 < length g.sets
      → sets_at g.oldest_time g.sets ≡ j ∷ []
      → Keyed n time sent g.oldest_time g.head (g.oldest_time, j ∷ [])
      → ((s : ℕ) (o : List (JoinSet P))
          → Before s (leave g []) o
          → Sat
              (Quiet n time g.head)
              (emit_rounds note_set k (check_only_ready_sets (leave g [])) (leave g []) o))
      → Sat (Quiet n time g.head) (emit_rounds note_set (suc k) (check_only_ready_sets g) g out)
  one-set k sent g out j (l, (r, (hd, (un, h)))) lt eq q next =
      let o = g.oldest_time in
      let only = check_only_ready_sets g in
      let step = emit-one only (sets_at o g.sets) j out eq in
      elim (Bool-cases (ready j || not only)) [
        | inl e ↦
            let r' : Rising 0 (out ++ j ∷ []) o =
              subst (λ t. Rising 0 (out ++ j ∷ []) t) q.1.1.0.0.0
                (Rising-snoc 0 sent out j r (omega (arith, q.0, q.1.1.0.0.0))) in
            subst (Sat (Quiet n time g.head))
              (sym (
                step-is k (check_only_ready_sets g) g out (out ++ j ∷ []) [] lt
                  (ground (arith, step, e))))
              (more-removed k o g (out ++ j ∷ []) l r' (heads-past g j sent l q e) un
                (After-removal sent o g (inr refl) un h) (next o (out ++ j ∷ [])))
        | inr e ↦
            subst (Sat (Quiet n time g.head))
              (sym (
                step-is k (check_only_ready_sets g) g out out (j ∷ []) lt
                  (ground (arith, step, e))))
              (stays k sent g out j (l, (r, (hd, (un, h)))) q (ground (arith, e))
                (ground (arith, e)))
      ]

  pub rounds-Quiet :
      (k sent : ℕ) (g : JoinGroup P) (out : List (JoinSet P))
      → Before sent g out
      → Sat (Quiet n time g.head) (emit_rounds note_set k (check_only_ready_sets g) g out)
  unfolding emit_rounds leave
  rounds-Quiet zero sent g out h = tt
  rounds-Quiet (suc k) sent g out (l, (r, (hd, (un, h)))) =
      let hs = g.head in
      let o = g.oldest_time in
      let next : (s : ℕ) (out' : List (JoinSet P))
          → Before s (leave g []) out'
          → Sat (Quiet n time hs)
              (emit_rounds note_set k (check_only_ready_sets (leave g [])) (leave g []) out') =
        λ s out' b. rounds-Quiet k s (leave g []) out' b in
      elim (List-cases g.sets) [
        | inl e ↦
            subst (Sat (Quiet n time hs)) (sym (rounds-empty k (check_only_ready_sets g) g out e)) (
              sent,
              (
                r,
                (
                  hd,
                  (
                    refl,
                    (
                      un,
                      (
                        h,
                        (
                          subst (All (λ x. Waiting n time hs x.0 x.1)) (sym e) tt,
                          subst (All (λ x. 0 < o)) (sym e) tt,
                        ),
                      ),
                    ),
                  ),
                ),
              ),
            )
        | inr (x, (rest, e)) ↦
            let lt : 0 < length g.sets = subst (λ m. 0 < length m) (sym e) (omega arith) in
            elim (at-All (λ y. Keyed n time sent o hs y) o g.sets h) [
              | inl (none_at, absent) ↦
                  subst (Sat (Quiet n time hs))
                    (sym (
                      step-is k (check_only_ready_sets g) g out out [] lt
                        (emit-none (check_only_ready_sets g) (sets_at o g.sets) out none_at)))
                    (more-removed k sent g out l r hd un (After-removal sent sent g (inl refl) un h)
                      (next sent out))
              | inr q ↦
                  let (j, eq) = alone-one sent o hs (sets_at o g.sets) q in
                  one-set k sent g out j (l, (r, (hd, (un, h)))) lt eq
                    (subst (λ l'. Keyed n time sent o hs (o, l')) eq q) next
            ]
      ]
