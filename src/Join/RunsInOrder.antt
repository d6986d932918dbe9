-- ===== src/Join/RunsInOrder.antt =====
-- All messages in order at a group of join.go, up to Finish.
use kapacitor.Prelude.{
  ℕ, zero, suc, ◌<◌, ◌≤◌, ◌≡◌, inl, inr, refl, sym, ◌∙◌, subst, List, [], ◌∷◌, Option, none, some,
  length, set, replicate, length-set, length-replicate, arith, Option-cases, All,
}
use kapacitor.Join.{
  JoinSet, JoinGroup, Input, a_point, a_barrier, receive, receive_all, new_group, join_all,
  emit_all,
}
use kapacitor.Join.Emission.{note_set}
use kapacitor.Join.Quiet.{Sat, Rising}
use kapacitor.Join.Finish.{source_of}
use kapacitor.Join.FinishOrder.{all-Core}
use kapacitor.Join.InOrder.{InOrder, heads_after, Sat-map, Resting, receive-Resting}

module _ {P : Type 0} (n : ℕ) (time : P → ℕ) where
  bind-Sat :
      {A : Type 0} (Q R : A → Type 0) (r : Option A) (f : A → Option A)
      → Sat Q r
      → ((a : A) → Q a → Sat R (f a))
      → Sat R (elim r [ none ↦ none | some a ↦ f a ])
  bind-Sat Q R none f h k = tt
  bind-Sat Q R (some a) f h k = k a h

  pub receive_all-Resting :
      (is : List (Input P)) (hs : List ℕ) (g : JoinGroup P) (out : List (JoinSet P))
      → All (λ i. source_of i < n) is
      → length hs ≡ n
      → InOrder time hs is
      → Resting n time hs (g, out)
      → Sat (Resting n time (heads_after time hs is)) (receive_all note_set n time is g out)
  unfolding receive_all
  receive_all-Resting [] hs g out h l o rest = rest
  receive_all-Resting (a_point src p ∷ is) hs g out (h, hs') l o rest =
      let heads = set hs src (time p) in
      bind-Sat (Resting n time heads) (Resting n time (heads_after time heads is))
        (receive note_set n time (a_point src p) g out)
        (λ r. receive_all note_set n time is r.0 r.1)
        (receive-Resting n time (a_point src p) is hs g out h l o rest)
        (λ r q. receive_all-Resting is heads r.0 r.1 hs' (length-set hs src (time p) ∙ l) o.1 q)
  receive_all-Resting (a_barrier src t ∷ is) hs g out (h, hs') l o rest =
      let heads = set hs src t in
      bind-Sat (Resting n time heads) (Resting n time (heads_after time heads is))
        (receive note_set n time (a_barrier src t) g out)
        (λ r. receive_all note_set n time is r.0 r.1)
        (receive-Resting n time (a_barrier src t) is hs g out h l o rest)
        (λ r q. receive_all-Resting is heads r.0 r.1 hs' (length-set hs src t ∙ l) o.1 q)

  zeros : (m : ℕ) → All (λ h. 0 ≤ h) (replicate m 0)
  zeros zero = tt
  zeros (suc m) = (omega arith, zeros m)

  -- A new group that has got messages in order.
  pub new-Resting :
      (is : List (Input P))
      → All (λ i. source_of i < n) is
      → InOrder time (replicate n 0) is
      → Sat
          (Resting n time (heads_after time (replicate n 0) is))
          (receive_all note_set n time is (new_group n) [])
  unfolding new_group
  new-Resting is h o =
      receive_all-Resting is (replicate n 0) (new_group n) [] h (length-replicate n 0) o
        (0, (omega arith, (zeros n, (refl, (tt, (tt, (tt, tt)))))))

  -- After Finish, what went on has rising times.
  pub finish-Rising :
      (k : ℕ) (is : List (Input P))
      → All (λ i. source_of i < n) is
      → InOrder time (replicate n 0) is
      → Sat (λ r. (high : ℕ) × Rising 0 r.1.0 high) (join_all note_set n k time is [])
  unfolding join_all
  finish-Rising k is h o = elim (Option-cases (receive_all note_set n time is (new_group n) [])) [
    | inl e ↦
        let nothing : join_all note_set n k time is [] ≡ none = ground (arith, e) in
        subst (Sat _) (sym nothing) tt
    | inr ((g, out), e) ↦
        let hs = heads_after time (replicate n 0) is in
        let (sent, (r, (hd, (e0, (un, (keyed, rest)))))) =
          subst (Sat (Resting n time hs)) e (new-Resting is h o) in
        let on : join_all note_set n k time is [] ≡ emit_all note_set k none g out =
          ground (arith, e) in
        subst (Sat (λ r. (high : ℕ) × Rising 0 r.1.0 high)) (sym on) (
          Sat-map _ _ (emit_all note_set k none g out) (λ r c. (c.0, c.1.0))
            (all-Core n time k none hs g out (sent, (r, (e0, (un, keyed))))))
  ]
