-- ===== src/Join/Point/InTime.antt =====
-- A join node of streams (join.go) whose parents send in the order of time.
use kapacitor.Prelude.{
  ℕ, suc, ◌+◌, ◌<◌, ◌≡◌, inl, refl, subst, List, [], ◌∷◌, Bool, none, some, length,
  length-replicate, replicate, All, arith,
}
use kapacitor.Prelude.Dict.{Dict}
use kapacitor.Join.{JoinSet, JoinGroup, Input, new_group, receive_all, join_all}
use kapacitor.Join.Sets.{tally_list, tally_sets}
use kapacitor.Join.Rounds.{Own}
use kapacitor.Join.Finish.{tally_inputs, source_of, receive_all_lem, join_all_complete}
use kapacitor.Join.Forwarded.{receive_all_follow, join_all_follow}
use kapacitor.Join.Quiet.{Sat, Rising, Waiting, Keyed, Alone}
use kapacitor.Join.Keys.{All-map}
use kapacitor.Join.InOrder.{InOrder, heads_after, Resting}
use kapacitor.Join.RunsInOrder.{new-Resting, finish-Rising}
use kapacitor.Join.Point.{Naming, emit_joined_set}
use kapacitor.Join.Point.Stream.{emit_list, follows, emit_list_points, points_of, joining}

Alone-length :
    {P : Type 0} (n : ℕ) (time : P → ℕ) (hs : List ℕ) (t : ℕ) (js : List (JoinSet P))
    → Alone n time hs t js
    → length js ≡ 1
Alone-length n time hs t [] a = absurd a
Alone-length n time hs t (j ∷ []) a = refl
Alone-length n time hs t (j ∷ k ∷ js) a = absurd a

module _ {P V : Type 0} (fields_of : P → Dict V) (c : Naming V) where
  -- For messages from the `n` sources of a join node of streams, each source of which sends in the
  -- order of time, a point later than all its messages before and a barrier not earlier, and with
  -- forwarding that does not fail: a round for each message and one more are enough for Finish,
  -- nothing panics and no set is left. What is forwarded are the points of JoinIntoPoint of some
  -- sets, in order, one for each set that is ready or filled. The times of these sets rise, so no
  -- two have the same time; each has points of its own time only, one at least, and counts them;
  -- and they have each point that came, as often as it came and from the same source. So all points
  -- of a time are in one set, in whatever order the sources send.
  pub join_all-InOrder :
      (n : ℕ) (time : P → ℕ) (is : List (Input P))
      → All (λ i. source_of i < n) is
      → InOrder time (replicate n 0) is
      → (g : JoinGroup P) × ((sets : List (JoinSet P)) × ((join_all
                (emit_joined_set fields_of c)
                n
                (suc (length is))
                time
                is
                (some [])
              ≡ some (g, (some (points_of fields_of c sets), none)))
            × ((g.sets ≡ [])
                × ((length (points_of fields_of c sets) ≡ joining fields_of c sets)
                    × (((high : ℕ) × Rising 0 sets high)
                        × (((test : ℕ → P → Bool) → tally_list test sets ≡ tally_inputs test is)
                            × (All (Own n time) sets)))))))
  join_all-InOrder n time is h order =
      let (g, (sets, (e, (nil, (tally, own))))) = join_all_complete n time is h in
      let (points, len) = emit_list_points fields_of c n time sets [] own in
      let same =
        join_all_follow (emit_joined_set fields_of c) (emit_list fields_of c (some []))
          (follows fields_of c) n (suc (length is)) time is in
      let rising : (high : ℕ) × Rising 0 sets high =
        subst (Sat (λ r. (high : ℕ) × Rising 0 r.1.0 high)) e
          (finish-Rising n time (suc (length is)) is h order) in
      (g, (sets, (ground (arith, e, points, same), (nil, (len, (rising, (tally, own)))))))

  -- For messages from the `n` sources of a join node of streams, each source of which sends in the
  -- order of time, a point later than all its messages before and a barrier not earlier, and with
  -- forwarding that does not fail, before Finish: nothing panics, and what has been forwarded are
  -- the points of JoinIntoPoint of some sets, in order, whose times rise. Every set that is left
  -- is the only one of its time, later than those, is not ready, and some source has not passed
  -- its time. The sets forwarded and those left have each point that came, as often as it came and
  -- from the same source.
  pub receive_all-InOrder :
      (n : ℕ) (time : P → ℕ) (is : List (Input P))
      → All (λ i. source_of i < n) is
      → InOrder time (replicate n 0) is
      → (g : JoinGroup P) × ((sets : List (JoinSet P)) × ((receive_all
                (emit_joined_set fields_of c)
                n
                time
                is
                (new_group n)
                (some [])
              ≡ some (g, some (points_of fields_of c sets)))
            × (((sent : ℕ) × ((Rising 0 sets sent)
                    × (All (λ e. (sent < e.0) × (length e.1 ≡ 1)) g.sets)))
                × ((All (λ e. Waiting n time (heads_after time (replicate n 0) is) e.0 e.1) g.sets)
                    × ((test : ℕ → P → Bool)
                        → tally_list test sets + tally_sets test g.sets ≡ tally_inputs test is)))))
  unfolding new_group
  receive_all-InOrder n time is h order =
      let hs = heads_after time (replicate n 0) is in
      let (g, (sets, (e, (tally, ((own, valid), le))))) =
        receive_all_lem n time is (new_group n) [] h (tt, (tt, (inl refl, length-replicate n 0))) in
      let (points, len) = emit_list_points fields_of c n time sets [] own in
      let same =
        receive_all_follow (emit_joined_set fields_of c) (emit_list fields_of c (some []))
          (follows fields_of c) n time is (new_group n) [] in
      let (sent, (r, (hd, (e0, (un, (keyed, (waiting, low))))))) =
        subst (Sat (Resting n time hs)) e (new-Resting n time is h order) in
      (
        g,
        (
          sets,
          (
            ground (arith, e, points, same),
            (
              (
                sent,
                (
                  r,
                  All-map (λ x. Keyed n time sent g.oldest_time hs x)
                      (λ x. (sent < x.0) × (length x.1 ≡ 1)) g.sets
                      (λ x k. (k.0, Alone-length n time hs x.0 x.1 k.1.1)) keyed,
                ),
              ),
              (waiting, λ test. omega (arith, tally test)),
            ),
          ),
        ),
      )
