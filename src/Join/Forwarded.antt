-- ===== src/Join/Forwarded.antt =====
-- A group of join.go whose sets are joined into points, beside one that notes its sets.
use kapacitor.Prelude.{
  ℕ, zero, suc, ◌+◌, ◌≡◌, refl, ◌∙◌, ap, Bool, true, false, not, ◌&&◌, ◌||◌, List, [], ◌∷◌, ◌++◌,
  Option, none, some, if◌then◌else◌, ltb, length, set, arith, Bool-cases, Option-cases, inl, inr,
}
use kapacitor.Join.{
  new_group, put_sets, add_to, earlier, JoinSet, JoinGroup, Input, a_point, a_barrier, sets_at,
  emit_sets, emit_rounds, emit, collect, barrier, emit_all, receive, receive_all, join_all, ready,
  leave, check_only_ready_sets, no_error,
}
use kapacitor.Join.Emission.{note_set, List-cases}

module _ {P S : Type 0} (f : JoinSet P → S → S × Option ℕ) (h : List (JoinSet P) → S) where
  abbrev pub Follows : Type 0
  Follows = (js : JoinSet P) (out : List (JoinSet P)) → f js (h out) ≡ (h (out ++ js ∷ []), none)

  abbrev lift :
      Option (JoinGroup P × (List (JoinSet P) × Option ℕ)) → Option (JoinGroup P × (S × Option ℕ))
  lift none = none
  lift (some (g, (out, e))) = some (g, (h out, e))

  module _ (follows : Follows) where
    sets_follow :
        (only : Bool) (js out : List (JoinSet P))
        → let r = emit_sets note_set only js out in
          emit_sets f only js (h out) ≡ (r.0, (h r.1.0, r.1.1))
    unfolding emit_sets
    sets_follow only [] out = refl
    sets_follow only (j ∷ js) out = elim (Bool-cases (ready j || not only)) [
      | inr e ↦ ground (arith, e)
      | inl e ↦ ground (arith, e, follows j out, sets_follow only js (out ++ j ∷ []))
    ]

    rounds_follow :
        (k : ℕ) (only : Bool) (g : JoinGroup P) (out : List (JoinSet P))
        → emit_rounds f k only g (h out) ≡ lift (emit_rounds note_set k only g out)
    unfolding emit_rounds
    rounds_follow zero only g out = refl
    rounds_follow (suc k) only g out =
        let at = sets_at g.oldest_time g.sets in
        let r = emit_sets note_set only at out in
        let g' = leave g r.0 in
        elim (List-cases g.sets) [
          | inl e ↦ ground (arith, e)
          | inr (x, (l, e)) ↦ elim (Option-cases r.1.1) [
            | inr (y, e') ↦ ground (arith, e, e', sets_follow only at out)
            | inl e' ↦ elim (Bool-cases only) [
              | inl o ↦ ground (arith, e, e', o, sets_follow only at out)
              | inr o ↦ ground (
                arith,
                e,
                e',
                o,
                sets_follow only at out,
                rounds_follow k (check_only_ready_sets g') g' r.1.0,
              )
            ]
          ]
        ]

    emit_follow :
        (only : Bool) (g : JoinGroup P) (out : List (JoinSet P))
        → emit f only g (h out) ≡ lift (emit note_set only g out)
    unfolding emit
    emit_follow only g out = rounds_follow (length g.sets + 2) only g out

    abbrev lift_group : Option (JoinGroup P × List (JoinSet P)) → Option (JoinGroup P × S)
    lift_group none = none
    lift_group (some (g, out)) = some (g, h out)

    no_error-lift :
        (r : Option (JoinGroup P × (List (JoinSet P) × Option ℕ)))
        → no_error f (lift r) ≡ lift_group (no_error note_set r)
    no_error-lift none = refl
    no_error-lift (some (g, (out, e))) = refl

    if-lift :
        (b : Bool) (x : Option (JoinGroup P × (S × Option ℕ)))
        (y : Option (JoinGroup P × (List (JoinSet P) × Option ℕ)))
        → x ≡ lift y
        → (if b then x else none) ≡ lift (if b then y else none)
    if-lift true x y e = e
    if-lift false x y e = refl

    receive_follow :
        (n : ℕ) (time : P → ℕ) (i : Input P) (g : JoinGroup P) (out : List (JoinSet P))
        → receive f n time i g (h out) ≡ lift_group (receive note_set n time i g out)
    unfolding receive collect barrier
    receive_follow n time (a_point src p) g out =
        let t = time p in
        let g' : JoinGroup P = record {
          sets = put_sets t (add_to n t src p (sets_at t g.sets)) g.sets;
          head = set g.head src t;
          oldest_time = earlier t g;
        } in
        ap (no_error f) (
          if-lift (ltb src n && ltb src (length g.head)) _ _
            (emit_follow (check_only_ready_sets g') g' out))
        ∙ no_error-lift (collect note_set n src t p g out)
    receive_follow n time (a_barrier src t) g out =
        let g' : JoinGroup P = record g { head = set g.head src t; oldest_time = earlier t g } in
        ap (no_error f)
          (if-lift (ltb src (length g.head)) _ _ (emit_follow (check_only_ready_sets g') g' out))
        ∙ no_error-lift (barrier note_set src t g out)

    pub receive_all_follow :
        (n : ℕ) (time : P → ℕ) (is : List (Input P)) (g : JoinGroup P) (out : List (JoinSet P))
        → receive_all f n time is g (h out) ≡ lift_group (receive_all note_set n time is g out)
    unfolding receive_all
    receive_all_follow n time [] g out = refl
    receive_all_follow n time (i ∷ is) g out =
        elim (Option-cases (receive note_set n time i g out)) [
          | inl e ↦ ground (arith, e, receive_follow n time i g out)
          | inr ((g', out'), e) ↦
              ground (arith, e, receive_follow n time i g out, receive_all_follow n time is g' out')
        ]

    emit_all_follow :
        (k : ℕ) (last : Option ℕ) (g : JoinGroup P) (out : List (JoinSet P))
        → emit_all f k last g (h out) ≡ lift (emit_all note_set k last g out)
    unfolding emit_all
    emit_all_follow zero last g out = refl
    emit_all_follow (suc k) last g out = elim (List-cases g.sets) [
      | inl e ↦ ground (arith, e)
      | inr (x, (l, e)) ↦ elim (Option-cases (emit note_set false g out)) [
        | inl e' ↦ ground (arith, e, e', emit_follow false g out)
        | inr ((g', (out', y)), e') ↦ ground (
          arith,
          e,
          e',
          emit_follow false g out,
          emit_all_follow k (elim y [ none ↦ last | some x ↦ some x ]) g' out',
        )
      ]
    ]

    -- The messages of a group and Finish, with any handling of the sets that does not fail: the group
    -- is what it is where the sets are noted, and the handling is that of the noted sets, in their
    -- order.
    pub join_all_follow :
        (n k : ℕ) (time : P → ℕ) (is : List (Input P))
        → join_all f n k time is (h []) ≡ lift (join_all note_set n k time is [])
    unfolding join_all
    join_all_follow n k time is =
        elim (Option-cases (receive_all note_set n time is (new_group n) [])) [
          | inl e ↦ ground (arith, e, receive_all_follow n time is (new_group n) [])
          | inr ((g, out), e) ↦ ground (
            arith,
            e,
            receive_all_follow n time is (new_group n) [],
            emit_all_follow k none g out,
          )
        ]
