-- ===== src/Nodes/Autoscale/Cooldown.antt =====
-- The cooldown of AutoscaleNode (autoscale.go).
use Prim.Native.String.{String}
use text.Mathlib.Text.{◌==◌ as str_eq}
use text.Mathlib.TextEquality.{eq_iff}
use mathlib.Core.Option.{some-injective}
use kapacitor.Prelude.{
  subst, sym, ◌∙◌, ap, ℕ, ◌+◌, ◌≤◌, ◌≡◌, inl, inr, Option, some, arith, true, Bool-cases,
}
use kapacitor.Prelude.Dict.{lookup, lookup-insert, lookup-insert_self}
use kapacitor.Nodes.Autoscale.{
  ℤ, Config, Autoscaler, scaled, Event, ResourceState, AutoscaleNode, grows, Reply, Handled,
}
use kapacitor.Nodes.Autoscale.Bounds.{quiet-scaled, event_eq}
use kapacitor.Nodes.Autoscale.Laws.{Decided, after, cooled}

-- The last increase of a resource is at `t` or later.
abbrev pub Since : String → ℕ → AutoscaleNode → Type 0
Since id t n =
    (state : ResourceState) × ((lookup id n.states ≡ some state) × (t ≤ state.last_increase))

module _ {P S : Type 0} (c : Config) (a : Autoscaler P S) (time : P → ℕ)
    (eval : ℤ → P → Option ℤ) where
  later :
      (id asked : String) (t now : ℕ) (e : Event) (state held : ResourceState) (n : AutoscaleNode)
      → str_eq id asked ≡ true
      → lookup id n.states ≡ some state
      → lookup asked n.states ≡ some held
      → t ≤ held.last_increase
      → cooled c now e state ≡ true
      → t ≤ (after now e state).last_increase
  later id asked t now e state held n f l h le cool =
      let same : held ≡ state =
        some-injective _ _
          (sym h ∙ ap (λ j. lookup j n.states) (sym ((eq_iff id asked).0 f)) ∙ l) in
      let le' : t ≤ state.last_increase = subst (λ x. t ≤ x.last_increase) same le in
      elim (Bool-cases (grows e.old e.new)) [
        | inl up ↦ ground (arith, le', cool, up)
        | inr down ↦ ground (arith, le', cool, down)
      ]

  pub decision-Since :
      (id asked : String) (t : ℕ) (p : P) (state : ResourceState) (n : AutoscaleNode)
      (r : Handled S)
      → lookup id n.states ≡ some state
      → Decided c a time eval id p state n r
      → Since asked t n
      → Since asked t r.0
  decision-Since id asked t p state n r l (inl (quiet, same)) (held, (h, le)) =
      (held, (ap (lookup asked) same ∙ h, le))
  decision-Since id asked t p state n r l (inr (e, (w, (reply, (other, (cool, eq))))))
        (held, (h, le)) =
      elim (Bool-cases (str_eq id asked)) [
        | inr f ↦ (
          held,
          (
            ap (lookup asked) eq
                ∙ ground (arith, f, h, lookup-insert id asked (after (time p) e state) n.states),
            le,
          ),
        )
        | inl f ↦ (
          after (time p) e state,
          (
            ap (lookup asked) eq
                ∙ ground (arith, f, lookup-insert id asked (after (time p) e state) n.states),
            later id asked t (time p) e state held n f l h le cool,
          ),
        )
      ]

  -- An increase of a resource: the point is of it, and makes an event that adds replicas.
  abbrev pub Increase : String → P → Reply → Type 0
  Increase id p r =
      (a.resource_id p ≡ some id) × ((e : Event) × ((r ≡ scaled e) × (grows e.old e.new ≡ true)))

  pub decision-cooled :
      (id : String) (t : ℕ) (p : P) (state : ResourceState) (n : AutoscaleNode) (r : Handled S)
      → lookup id n.states ≡ some state
      → Decided c a time eval id p state n r
      → Since id t n
      → Increase id p r.2
      → t + c.increase_cooldown ≤ time p
  decision-cooled id t p state n r l (inl (quiet, same)) since (i, (e, (reply, up))) =
      absurd (quiet-scaled r.2 e quiet reply)
  decision-cooled id t p state n r l (inr (f, (w, (reply', (other, (cool, eq)))))) (held, (h, le))
        (i, (e, (reply, up))) =
      let same : held ≡ state = some-injective _ _ (sym h ∙ l) in
      let le' : t ≤ state.last_increase = subst (λ x. t ≤ x.last_increase) same le in
      let up' : grows f.old f.new ≡ true =
        subst (λ g. grows g.old g.new ≡ true) (event_eq r.2 e f reply reply') up in
      ground (arith, le', cool, up')

  pub decision-starts :
      (id : String) (p : P) (state : ResourceState) (n : AutoscaleNode) (r : Handled S)
      → Decided c a time eval id p state n r
      → Increase id p r.2
      → Since id (time p) r.0
  decision-starts id p state n r (inl (quiet, same)) (i, (e, (reply, up))) =
      absurd (quiet-scaled r.2 e quiet reply)
  decision-starts id p state n r (inr (f, (w, (reply', (other, (cool, eq))))))
        (i, (e, (reply, up))) =
      let up' : grows f.old f.new ≡ true =
        subst (λ g. grows g.old g.new ≡ true) (event_eq r.2 e f reply reply') up in
      (
        after (time p) f state,
        (
          ap (lookup id) eq ∙ lookup-insert_self id (after (time p) f state) n.states,
          ground (arith, up'),
        ),
      )
