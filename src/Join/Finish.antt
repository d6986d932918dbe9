-- ===== src/Join/Finish.antt =====
-- Collect, Barrier and Finish of join.go, where joining and forwarding a set does not fail.
use kapacitor.Prelude.{
  ℕ, zero, suc, ◌+◌, ◌<◌, ◌≤◌, ◌≡◌, refl, ◌∙◌, ap, Bool, List, [], ◌∷◌, Option, none, some,
  if◌then◌else◌, length, set, arith, All, inl, inr, length-set, length-replicate,
}
use kapacitor.Join.{
  JoinSet, JoinGroup, Input, a_point, a_barrier, new_group, sets_at, put_sets, add_to, earlier,
  collect, barrier, emit_all, receive, receive_all, join_all, check_only_ready_sets,
}
use kapacitor.Join.Sets.{tally_list, tally_sets, tally-put, tally-add_to}
use kapacitor.Join.Sound.{Sound, AllSound, put-Sound, add_to-Sound, sets_at-Sound}
use kapacitor.Join.Emission.{note_set, Settled, List-cases}
use kapacitor.Join.Rounds.{Own, emit-Done, emit-shorter}

abbrev pub amount : {P : Type 0} → (ℕ → P → Bool) → Input P → ℕ
amount test (a_point src p) = if test src p then 1 else 0
amount test (a_barrier src t) = 0

-- How many points of the messages pass a test.
abbrev pub tally_inputs : {P : Type 0} → (ℕ → P → Bool) → List (Input P) → ℕ
tally_inputs test [] = 0
tally_inputs test (i ∷ is) = amount test i + tally_inputs test is

abbrev pub source_of : {P : Type 0} → Input P → ℕ
source_of (a_point src p) = src
source_of (a_barrier src t) = src

length-put_le :
    {P : Type 0} (t : ℕ) (new : List (JoinSet P)) (m : List (ℕ × List (JoinSet P)))
    → length (put_sets t new m) ≤ suc (length m)
unfolding put_sets
length-put_le t new [] = omega arith
length-put_le t new ((u, js) ∷ m) = ground (arith, length-put_le t new m)

module _ {P : Type 0} (n : ℕ) (time : P → ℕ) where
  -- A group between two messages, beside what was forwarded.
  abbrev pub Valid : JoinGroup P → List (JoinSet P) → Type 0
  Valid g out =
      (All (Own n time) out) × ((AllSound n time g.sets) × ((Settled g) × (length g.head ≡ n)))

  -- What a message leaves.
  abbrev pub Received :
      Input P → JoinGroup P → List (JoinSet P) → Option (JoinGroup P × List (JoinSet P)) → Type 0
  Received i g out r =
      (g' : JoinGroup P) × ((out' : List (JoinSet P)) × ((r ≡ some (g', out'))
          × (((test : ℕ → P → Bool)
                → tally_list test out' + tally_sets test g'.sets
                  ≡ tally_list test out + tally_sets test g.sets + amount test i)
              × ((Valid g' out') × (length g'.sets ≤ suc (length g.sets))))))

  long :
      (t : ℕ) (js : List (JoinSet P)) → All (Sound n time t) js → All (λ j. length j.values ≡ n) js
  long t [] h = tt
  long t (j ∷ js) (h, hs) = (h.0.1.1.0, long t js hs)

  receive-Received :
      (i : Input P) (g : JoinGroup P) (out : List (JoinSet P))
      → source_of i < n
      → Valid g out
      → Received i g out (receive note_set n time i g out)
  unfolding receive collect barrier
  receive-Received (a_point src p) g out lt (ho, (hs, (st, hd))) =
      let t = time p in
      let at = sets_at t g.sets in
      let sound = sets_at-Sound n time t g.sets hs in
      let g1 : JoinGroup P = record {
        sets = put_sets t (add_to n t src p at) g.sets;
        head = set g.head src t;
        oldest_time = earlier t g;
      } in
      let (g2, (out2, (e, (kept, le)))) = emit-Done n time (check_only_ready_sets g1) g1 out ho (
        put-Sound n time t (add_to n t src p at) g.sets
          (add_to-Sound n time t src p at lt refl sound) hs) in
      (
        g2,
        (
          out2,
          (
            ground (arith, e, lt, hd),
            (
              λ test. ground (
                arith,
                kept.0 test,
                tally-put test t (add_to n t src p at) g.sets,
                tally-add_to test n t src p at lt (long t at sound),
              ),
              (
                (
                  kept.1.0,
                  (
                    kept.1.1.0,
                    (kept.1.1.1.0, ap length kept.1.1.1.1 ∙ (length-set g.head src t ∙ hd)),
                  ),
                ),
                omega (arith, le, length-put_le t (add_to n t src p at) g.sets),
              ),
            ),
          ),
        ),
      )
  receive-Received (a_barrier src t) g out lt (ho, (hs, (st, hd))) =
      let g1 : JoinGroup P = record g { head = set g.head src t; oldest_time = earlier t g } in
      let (g2, (out2, (e, (kept, le)))) =
        emit-Done n time (check_only_ready_sets g1) g1 out ho hs in
      (
        g2,
        (
          out2,
          (
            ground (arith, e, lt, hd),
            (
              λ test. omega (arith, kept.0 test),
              (
                (
                  kept.1.0,
                  (
                    kept.1.1.0,
                    (kept.1.1.1.0, ap length kept.1.1.1.1 ∙ (length-set g.head src t ∙ hd)),
                  ),
                ),
                omega (arith, le),
              ),
            ),
          ),
        ),
      )

  -- emitAll ends within a round for each time, and forwards all there is.
  emit_all_lem :
      (rounds : ℕ) (g : JoinGroup P) (out : List (JoinSet P))
      → Valid g out
      → length g.sets < rounds
      → (g' : JoinGroup P) × ((out' : List (JoinSet P)) × ((emit_all note_set rounds none g out
              ≡ some (g', (out', none)))
            × ((g'.sets ≡ [])
                × (((test : ℕ → P → Bool)
                      → tally_list test out' ≡ tally_list test out + tally_sets test g.sets)
                    × (All (Own n time) out')))))
  unfolding emit_all
  emit_all_lem zero g out h lt = absurd (omega (arith, lt))
  emit_all_lem (suc k) g out (ho, (hs, (st, hd))) lt = elim (List-cases g.sets) [
    | inl e ↦ (
      g,
      (out, (ground (arith, e), (e, (λ test. omega (arith, ap (λ m. tally_sets test m) e), ho)))),
    )
    | inr (x, (l, e)) ↦
        let (g1, (out1, (eq, (kept, le)))) =
          emit-shorter n time g out (length l) st ho hs (omega (arith, ap length e)) in
        let (g2, (out2, (eq', (nil, (tally, ho2))))) =
          emit_all_lem k g1 out1
            (kept.1.0, (kept.1.1.0, (kept.1.1.1.0, ap length kept.1.1.1.1 ∙ hd)))
            (omega (arith, le, lt, ap length e)) in
        (
          g2,
          (
            out2,
            (
              ground (arith, e, eq, eq'),
              (nil, (λ test. omega (arith, tally test, kept.0 test), ho2)),
            ),
          ),
        )
  ]

  pub receive_all_lem :
      (is : List (Input P)) (g : JoinGroup P) (out : List (JoinSet P))
      → All (λ i. source_of i < n) is
      → Valid g out
      → (g' : JoinGroup P) × ((out' : List (JoinSet P)) × ((receive_all note_set n time is g out
              ≡ some (g', out'))
            × (((test : ℕ → P → Bool)
                  → tally_list test out' + tally_sets test g'.sets
                    ≡ tally_list test out + tally_sets test g.sets + tally_inputs test is)
                × ((Valid g' out') × (length g'.sets ≤ length g.sets + length is)))))
  unfolding receive_all
  receive_all_lem [] g out h v = (g, (out, (refl, (λ test. omega arith, (v, omega arith)))))
  receive_all_lem (i ∷ is) g out (h, hs) v =
      let (g1, (out1, (e, (tally, (v1, le))))) = receive-Received i g out h v in
      let (g2, (out2, (e', (tally', (v2, le'))))) = receive_all_lem is g1 out1 hs v1 in
      (
        g2,
        (
          out2,
          (
            ground (arith, e, e'),
            (λ test. omega (arith, tally test, tally' test), (v2, omega (arith, le, le'))),
          ),
        ),
      )

  -- For all messages from the `n` sources of a node, with joining and forwarding that do not fail:
  -- a round for each message and one more are enough for Finish, no set is left, each point that
  -- came is in the forwarded sets as often as it came and from the same source, and each forwarded
  -- set counts its points, has one at least, and all its points have its time.
  pub join_all_complete :
      (is : List (Input P))
      → All (λ i. source_of i < n) is
      → (g : JoinGroup P) × ((out : List (JoinSet P)) × ((join_all note_set n
                (suc (length is))
                time
                is
                []
              ≡ some (g, (out, none)))
            × ((g.sets ≡ [])
                × (((test : ℕ → P → Bool) → tally_list test out ≡ tally_inputs test is)
                    × (All (Own n time) out)))))
  unfolding join_all new_group
  join_all_complete is h =
      let g0 : JoinGroup P = new_group n in
      let (g1, (out1, (e, (tally, (v, le))))) =
        receive_all_lem is g0 [] h (tt, (tt, (inl refl, length-replicate n 0))) in
      let (g2, (out2, (e', (nil, (tally', ho))))) =
        emit_all_lem (suc (length is)) g1 out1 v (omega (arith, le)) in
      (
        g2,
        (
          out2,
          (ground (arith, e, e'), (nil, (λ test. omega (arith, tally test, tally' test), ho))),
        ),
      )
