-- ===== src/Join/InOrder.antt =====
-- Messages in order at a group of join.go, and what the group makes of them.
use kapacitor.Prelude.{
  ℕ, zero, suc, ◌+◌, ◌<◌, ◌≤◌, ◌≡◌, ◌⊎◌, inl, inr, refl, sym, ◌∙◌, ap, subst, Bool, true, false,
  ◌&&◌, List, [], ◌∷◌, Option, none, some, if◌then◌else◌, ltb, length, get_or, set, replicate,
  length-set, arith, All,
}
use kapacitor.Join.{
  JoinSet, JoinGroup, Input, a_point, a_barrier, new_joinset, has, set_value, add_to, sets_at,
  put_sets, earlier, emit, collect, barrier, receive, check_only_ready_sets, no_error,
}
use kapacitor.Join.Sound.{Sound, add_to-Sound}
use kapacitor.Join.Emission.{note_set}
use kapacitor.Join.Heads.{Within, All-set, All-at, Within-raise, Within-set, Within-fresh}
use kapacitor.Join.Keys.{Uniq, put-Uniq, put-All, at-All, All-both}
use kapacitor.Join.Quiet.{Sat, Rising, Alone, Keyed, Quiet}
use kapacitor.Join.QuietRounds.{Before, rounds-Quiet}
use kapacitor.Join.Finish.{source_of}

-- Each source sends its messages in the order of time: a point is later than all messages of the
-- source before it, and a barrier is not earlier. `heads` has the times of the last messages.
abbrev pub InOrder : {P : Type 0} → (P → ℕ) → (heads : List ℕ) → List (Input P) → Type 0
InOrder time heads [] = Unit
InOrder time heads (a_point src p ∷ is) =
    (get_or heads src 0 < time p) × InOrder time (set heads src (time p)) is
InOrder time heads (a_barrier src t ∷ is) =
    (get_or heads src 0 ≤ t) × InOrder time (set heads src t) is

-- The times of the last messages behind messages.
abbrev pub heads_after : {P : Type 0} → (P → ℕ) → List ℕ → List (Input P) → List ℕ
heads_after time heads [] = heads
heads_after time heads (a_point src p ∷ is) = heads_after time (set heads src (time p)) is
heads_after time heads (a_barrier src t ∷ is) = heads_after time (set heads src t) is

pub Sat-map :
    {A : Type 0} (Q R : A → Type 0) (r : Option A) → ((a : A) → Q a → R a) → Sat Q r → Sat R r
Sat-map Q R none f h = tt
Sat-map Q R (some a) f h = f a h

module _ {P : Type 0} (n : ℕ) (time : P → ℕ) where
  abbrev pub Resting : List ℕ → JoinGroup P × List (JoinSet P) → Type 0
  Resting hs r = Quiet n time hs (r.0, (r.1, none))

  rest :
      (hs : List ℕ) (r : Option (JoinGroup P × (List (JoinSet P) × Option ℕ)))
      → Sat (Quiet n time hs) r
      → Sat (Resting hs) (no_error note_set r)
  rest hs none h = tt
  rest hs (some (g, (out, e))) h = h

  if-Resting :
      (hs : List ℕ) (b : Bool) (r : Option (JoinGroup P × (List (JoinSet P) × Option ℕ)))
      → Sat (Quiet n time hs) r
      → Sat (Resting hs) (no_error note_set (if b then r else none))
  if-Resting hs true r h = rest hs r h
  if-Resting hs false r h = tt

  emit-Quiet :
      (sent : ℕ) (g : JoinGroup P) (out : List (JoinSet P))
      → Before n time sent g out
      → Sat (Quiet n time g.head) (emit note_set (check_only_ready_sets g) g out)
  unfolding emit
  emit-Quiet sent g out h = rounds-Quiet n time (length g.sets + 2) sent g out h

  Alone-raise :
      (hs : List ℕ) (src u t : ℕ) (js : List (JoinSet P))
      → get_or hs src 0 ≤ u
      → Alone n time hs t js
      → Alone n time (set hs src u) t js
  Alone-raise hs src u t [] le a = a
  Alone-raise hs src u t (j ∷ []) le (s, w) = (s, Within-raise t src u j.values hs le w)
  Alone-raise hs src u t (j ∷ k ∷ js) le a = a

  none-Within : (m t : ℕ) (hs : List ℕ) → Within {P = P} t (replicate m none) hs
  none-Within zero t hs = tt
  none-Within (suc m) t [] = tt
  none-Within (suc m) t (h ∷ hs) = none-Within m t hs

  if-Alone :
      (hs : List ℕ) (t : ℕ) (b : Bool) (x y : List (JoinSet P))
      → b ≡ false
      → Alone n time hs t y
      → Alone n time hs t (if b then x else y)
  if-Alone hs t true x y e h = cc
  if-Alone hs t false x y e h = h

  -- The set of the new point.
  add_to-Alone :
      (hs : List ℕ) (src : ℕ) (p : P) (js : List (JoinSet P))
      → src < n
      → length hs ≡ n
      → get_or hs src 0 < time p
      → (js ≡ []) ⊎ Alone n time hs (time p) js
      → Alone n time (set hs src (time p)) (time p) (add_to n (time p) src p js)
  unfolding add_to set_value new_joinset
  add_to-Alone hs src p [] lt l before h = (
    (add_to-Sound n time (time p) src p [] lt refl tt).0,
    Within-set (time p) src p (replicate n none) hs (none-Within n (time p) hs),
  )
  add_to-Alone hs src p (j ∷ []) lt l before (inl e) = cc
  add_to-Alone hs src p (j ∷ []) lt l before (inr (s, w)) =
      let fresh = Within-fresh (time p) src j hs before (omega (arith, lt, l)) w in
      let one : add_to n (time p) src p (j ∷ []) ≡ set_value src p j ∷ [] = ground (arith, fresh) in
      let sound =
        subst (All (Sound n time (time p))) one
          (add_to-Sound n time (time p) src p (j ∷ []) lt refl (s, tt)) in
      if-Alone (set hs src (time p)) (time p) (has src j) _ _ fresh
        (sound.0, Within-set (time p) src p j.values hs w)
  add_to-Alone hs src p (j ∷ k ∷ js) lt l before (inl e) = cc
  add_to-Alone hs src p (j ∷ k ∷ js) lt l before (inr a) = absurd a

  -- What holds before emit looks at a group with these heads.
  abbrev Prepared : (sent : ℕ) → List ℕ → JoinGroup P → List (JoinSet P) → Type 0
  Prepared sent hs g out =
      (length hs ≡ n)
      × ((Rising 0 out sent)
          × ((All (λ h. sent ≤ h) hs)
              × ((Uniq g.sets) × (All (λ e. Keyed n time sent g.oldest_time hs e) g.sets))))

  Prepared-Resting :
      (sent : ℕ) (hs : List ℕ) (g : JoinGroup P) (out : List (JoinSet P)) (b : Bool)
      → g.head ≡ hs
      → Prepared sent hs g out
      → Sat
          (Resting hs)
          (no_error note_set (if b then emit note_set (check_only_ready_sets g) g out else none))
  Prepared-Resting sent hs g out b heads h = if-Resting hs b _ (
      subst (λ x. Sat (Quiet n time x) (emit note_set (check_only_ready_sets g) g out)) heads
        (emit-Quiet sent g out (subst (λ x. Prepared sent x g out) (sym heads) h)))

  -- A message leaves a group that rests, with the head of its source moved.
  pub receive-Resting :
      (i : Input P) (is : List (Input P)) (hs : List ℕ) (g : JoinGroup P) (out : List (JoinSet P))
      → source_of i < n
      → length hs ≡ n
      → InOrder time hs (i ∷ is)
      → Resting hs (g, out)
      → Sat (Resting (heads_after time hs (i ∷ []))) (receive note_set n time i g out)
  unfolding receive collect barrier
  receive-Resting (a_point src p) is hs g out lt l (before, _)
        (sent, (r, (hd, (e0, (un, (keyed, (waiting, low))))))) =
      let t = time p in
      let at = sets_at t g.sets in
      let hs' = set hs src t in
      let g' : JoinGroup P = record {
        sets = put_sets t (add_to n t src p at) g.sets;
        head = set g.head src t;
        oldest_time = earlier t g;
      } in
      let sent_before : sent < t =
        omega (arith, before, All-at sent src hs (omega (arith, lt, l)) hd) in
      let held =
        All-both (λ e. Keyed n time sent g.oldest_time hs e) (λ e. 0 < g.oldest_time)
          (λ e. Keyed n time sent g.oldest_time hs e × (0 < g.oldest_time)) g.sets (λ e a b. (a, b))
          keyed low in
      let found : (at ≡ []) ⊎ Alone n time hs t at =
        elim (at-All (λ e. Keyed n time sent g.oldest_time hs e) t g.sets keyed) [
          | inl (none_at, _) ↦ inl none_at
          | inr q ↦ inr q.1.1
        ] in
      let keyed' =
        put-All (λ e. Keyed n time sent g.oldest_time hs e × (0 < g.oldest_time))
          (λ e. Keyed n time sent (earlier t g) hs' e) t (add_to n t src p at) g.sets
          (sent_before, (ground arith, add_to-Alone hs src p at lt l before found))
          (λ e a ne. (
            a.0.0,
            (
              ground (arith, a.0.1.0, a.1),
              Alone-raise hs src t e.0 e.1 (omega (arith, before)) a.0.1.1,
            ),
          ))
          un held in
      Prepared-Resting sent hs' g' out (ltb src n && ltb src (length g.head))
        (ap (λ x. set x src t) e0)
        (
          length-set hs src t ∙ l,
          (
            r,
            (
              All-set sent src t hs (omega (arith, sent_before)) hd,
              (put-Uniq t (add_to n t src p at) g.sets un, keyed'),
            ),
          ),
        )
  receive-Resting (a_barrier src t) is hs g out lt l (before, _)
        (sent, (r, (hd, (e0, (un, (keyed, (waiting, low))))))) =
      let hs' = set hs src t in
      let g' : JoinGroup P = record g { head = set g.head src t; oldest_time = earlier t g } in
      let keyed' =
        All-both (λ e. Keyed n time sent g.oldest_time hs e) (λ e. 0 < g.oldest_time)
          (λ e. Keyed n time sent (earlier t g) hs' e) g.sets
          (λ e a b. (a.0, (ground (arith, a.1.0, b), Alone-raise hs src t e.0 e.1 before a.1.1)))
          keyed low in
      Prepared-Resting sent hs' g' out (ltb src (length g.head)) (ap (λ x. set x src t) e0) (
        length-set hs src t ∙ l,
        (
          r,
          (
            All-set sent src t hs
                (omega (arith, before, All-at sent src hs (omega (arith, lt, l)) hd)) hd,
            (un, keyed'),
          ),
        ),
      )
