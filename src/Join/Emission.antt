-- ===== src/Join/Emission.antt =====
-- emit of join.go, where joining and forwarding a set does not fail.
use kapacitor.Prelude.{
  ℕ, suc, ◌+◌, ◌<◌, ◌≤◌, ◌≡◌, refl, sym, ap, subst, Bool, true, false, not, ◌||◌, List, [], ◌∷◌,
  ◌++◌, Option, none, some, if◌then◌else◌, ltb, ◌==◌, length, arith, Bool-cases, All, ◌⊎◌, inl, inr,
}
use kapacitor.Join.{
  JoinSet, JoinGroup, check_only_ready_sets, sets_at, put_sets, delete_sets, oldest_of, emit_sets,
  leave, emit_rounds, ready,
}
use kapacitor.Join.Sets.{tally_list, tally-append}

abbrev pub note_set : {P : Type 0} → JoinSet P → List (JoinSet P) → List (JoinSet P) × Option ℕ
note_set js out = (out ++ js ∷ [], none)

pub List-cases : {A : Type 0} (xs : List A) → (xs ≡ []) ⊎ ((x : A) × ((l : List A) × (xs ≡ x ∷ l)))
List-cases [] = inl refl
List-cases (x ∷ l) = inr (x, (l, refl))

module _ {P : Type 0} where
  abbrev pub is_key : ℕ → List (ℕ × List (JoinSet P)) → Bool
  is_key t [] = false
  is_key t ((u, js) ∷ m) = (u == t) || is_key t m

  -- The oldest time is a key, if there is any set.
  abbrev pub Settled : JoinGroup P → Type 0
  Settled g = (length g.sets ≡ 0) ⊎ (is_key g.oldest_time g.sets ≡ true)

  pub length-delete :
      (t : ℕ) (m : List (ℕ × List (JoinSet P)))
      → (length (delete_sets t m) ≤ length m)
        × (is_key t m ≡ true → length (delete_sets t m) < length m)
  unfolding delete_sets
  length-delete t [] = (omega arith, λ h. cc)
  length-delete t ((u, js) ∷ m) =
      let (le, lt) = length-delete t m in
      elim (Bool-cases (u == t)) [
        | inl e ↦ (ground (arith, e), λ h. ground (arith, e))
        | inr e ↦ (ground (arith, e, le), λ h. ground (arith, e, lt (ground (arith, h, e))))
      ]

  pub length-put :
      (t : ℕ) (new : List (JoinSet P)) (m : List (ℕ × List (JoinSet P)))
      → is_key t m ≡ true
      → length (put_sets t new m) ≡ length m
  unfolding put_sets
  length-put t new [] h = cc
  length-put t new ((u, js) ∷ m) h = elim (Bool-cases (u == t)) [
    | inl e ↦ ground (arith, e)
    | inr e ↦ ground (arith, e, length-put t new m (ground (arith, h, e)))
  ]

  -- Sets are found at keys only.
  pub sets_at-key :
      (t : ℕ) (m : List (ℕ × List (JoinSet P))) → is_key t m ≡ false → sets_at t m ≡ []
  unfolding sets_at
  sets_at-key t [] h = refl
  sets_at-key t ((u, js) ∷ m) h = ground (arith, h, sets_at-key t m (ground (arith, h)))

  oldest-key :
      (o : ℕ) (m : List (ℕ × List (JoinSet P)))
      → (oldest_of o m ≡ o) ⊎ (is_key (oldest_of o m) m ≡ true)
  unfolding oldest_of
  oldest-key o [] = inl refl
  oldest-key o ((t, js) ∷ m) = elim (Bool-cases ((o == 0) || ltb t o)) [
    | inl e ↦ elim (oldest-key t m) [
      | inl f ↦ inr (ground (arith, e, f))
      | inr f ↦ inr (ground (arith, e, f))
    ]
    | inr e ↦ elim (oldest-key o m) [
      | inl f ↦ inl (ground (arith, e, f))
      | inr f ↦ inr (ground (arith, e, f))
    ]
  ]

  pub oldest-Settled :
      (m : List (ℕ × List (JoinSet P))) → (length m ≡ 0) ⊎ (is_key (oldest_of 0 m) m ≡ true)
  unfolding oldest_of
  oldest-Settled [] = inl refl
  oldest-Settled ((t, js) ∷ m) = elim (oldest-key t m) [
    | inl f ↦ inr (ground (arith, f))
    | inr f ↦ inr (ground (arith, f))
  ]

  append-All :
      (Q : JoinSet P → Type 0) (xs : List (JoinSet P)) (j : JoinSet P)
      → All Q xs
      → Q j
      → All Q (xs ++ j ∷ [])
  append-All Q [] j h q = (q, tt)
  append-All Q (x ∷ xs) j (h, hs) q = (h, append-All Q xs j hs q)

  -- What the loop of emit forwards and leaves is what there was.
  abbrev pub Split :
      (only : Bool) (Q R : JoinSet P → Type 0) (out js : List (JoinSet P))
      → List (JoinSet P) × (List (JoinSet P) × Option ℕ)
      → Type 0
  Split only Q R out js r =
      (r.1.1 ≡ none)
      × (((test : ℕ → P → Bool)
            → tally_list test r.1.0 + tally_list test r.0
              ≡ tally_list test out + tally_list test js)
          × ((All Q r.1.0) × ((All R r.0) × (only ≡ false → r.0 ≡ []))))

  emit_sets-stop :
      (only : Bool) (j : JoinSet P) (js out : List (JoinSet P))
      → (ready j || not only) ≡ false
      → emit_sets note_set only (j ∷ js) out ≡ (j ∷ js, (out, none))
  unfolding emit_sets
  emit_sets-stop only j js out e = ground (arith, e)

  emit_sets-go :
      (only : Bool) (j : JoinSet P) (js out : List (JoinSet P))
      → (ready j || not only) ≡ true
      → emit_sets note_set only (j ∷ js) out ≡ emit_sets note_set only js (out ++ j ∷ [])
  unfolding emit_sets
  emit_sets-go only j js out e = ground (arith, e)

  pub emit_sets_lem :
      (only : Bool) (js out : List (JoinSet P)) (Q R : JoinSet P → Type 0)
      → All Q out
      → All Q js
      → All R js
      → Split only Q R out js (emit_sets note_set only js out)
  unfolding emit_sets
  emit_sets_lem only [] out Q R ho hj hr = (refl, (λ test. refl, (ho, (tt, λ e. refl))))
  emit_sets_lem only (j ∷ js) out Q R ho (h, hj) hr = elim (Bool-cases (ready j || not only)) [
    | inr e ↦
        subst (λ r. Split only Q R out (j ∷ js) r) (sym (emit_sets-stop only j js out e))
          (refl, (λ test. refl, (ho, (hr, λ f. ground (arith, e, f)))))
    | inl e ↦
        let (none_, (all, rest)) =
          emit_sets_lem only js (out ++ j ∷ []) Q R (append-All Q out j ho h) hj hr.1 in
        subst (λ r. Split only Q R out (j ∷ js) r) (sym (emit_sets-go only j js out e))
          (none_, (λ test. omega (arith, all test, tally-append test out (j ∷ [])), rest))
  ]

  pub rounds-empty :
      (k : ℕ) (only : Bool) (g : JoinGroup P) (out : List (JoinSet P))
      → g.sets ≡ []
      → emit_rounds note_set (suc k) only g out ≡ some (g, (out, none))
  unfolding emit_rounds
  rounds-empty k only g out h = ground (arith, h)

  pub rounds-step :
      (k : ℕ) (only : Bool) (g : JoinGroup P) (out : List (JoinSet P))
      → 0 < length g.sets
      → let r = emit_sets note_set only (sets_at g.oldest_time g.sets) out in
        r.1.1 ≡ none
        → emit_rounds note_set (suc k) only g out ≡ (
            if only
            then some (leave g r.0, (r.1.0, none))
            else emit_rounds note_set k (check_only_ready_sets (leave g r.0)) (leave g r.0) r.1.0)
  unfolding emit_rounds
  rounds-step k only g out lt h = elim (List-cases g.sets) [
    | inl e ↦ absurd (omega (arith, lt, ap (λ m. length m) e))
    | inr (x, (l, e)) ↦ ground (arith, e, h)
  ]
