-- ===== src/Join/Stuck.antt =====
-- emitAll of join.go, where joining or forwarding a set fails.
use kapacitor.Prelude.{
  ℕ, zero, suc, ◌+◌, ◌≡◌, refl, sym, ◌∙◌, ap, subst, false, List, ◌∷◌, Option, none, some, length,
  arith, inl, inr,
}
use kapacitor.Join.{JoinSet, JoinGroup, sets_at, emit_sets, emit_rounds, emit, emit_all}
use kapacitor.Join.Emission.{List-cases}

module _ {P S E : Type 0} (emit_joined_set : JoinSet P → S → S × Option E) where
  sets-fail :
      (js : JoinSet P) (rest : List (JoinSet P)) (s : S) (x : E)
      → (emit_joined_set js s).1 ≡ some x
      → emit_sets emit_joined_set false (js ∷ rest) s
        ≡ (js ∷ rest, ((emit_joined_set js s).0, some x))
  unfolding emit_sets
  sets-fail js rest s x h = ground (arith, h)

  rounds-fail :
      (k : ℕ) (g : JoinGroup P) (js : JoinSet P) (rest : List (JoinSet P)) (s s' : S) (x : E)
      → sets_at g.oldest_time g.sets ≡ js ∷ rest
      → emit_sets emit_joined_set false (sets_at g.oldest_time g.sets) s ≡ (js ∷ rest, (s', some x))
      → emit_rounds emit_joined_set (suc k) false g s ≡ some (g, (s', some x))
  unfolding emit_rounds sets_at
  rounds-fail k g js rest s s' x at h = elim (List-cases g.sets) [
    | inl e ↦ cc (sym (ap (λ m. sets_at g.oldest_time m) e) ∙ at)
    | inr (y, (l, e)) ↦ ground (arith, e, h)
  ]

  -- Where joining and forwarding a set always fails and a group has a set of its oldest time,
  -- emitAll does not end: no number of rounds is enough.
  pub emit_all-diverges :
      (fails : (js : JoinSet P) (s : S) → (x : E) × ((emit_joined_set js s).1 ≡ some x))
      (g : JoinGroup P) (js : JoinSet P) (rest : List (JoinSet P))
      (at : sets_at g.oldest_time g.sets ≡ js ∷ rest) (rounds : ℕ) (last : Option E) (s : S)
      → emit_all emit_joined_set rounds last g s ≡ none
  unfolding emit_all emit sets_at
  emit_all-diverges fails g js rest at zero last s = refl
  emit_all-diverges fails g js rest at (suc k) last s =
      let (x, h) = fails js s in
      let s' = (emit_joined_set js s).0 in
      let e =
        rounds-fail (length g.sets + 1) g js rest s s' x at
          (ap (λ l. emit_sets emit_joined_set false l s) at ∙ sets-fail js rest s x h) in
      let eq : emit emit_joined_set false g s ≡ some (g, (s', some x)) =
        subst (λ i. emit_rounds emit_joined_set i false g s ≡ some (g, (s', some x))) (omega arith)
          e in
      elim (List-cases g.sets) [
        | inl f ↦ cc (sym (ap (λ m. sets_at g.oldest_time m) f) ∙ at)
        | inr (y, (l, f)) ↦
            ground (arith, f, eq, emit_all-diverges fails g js rest at k (some x) s')
      ]
