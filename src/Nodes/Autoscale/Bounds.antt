-- ===== src/Nodes/Autoscale/Bounds.antt =====
-- The bounds, the errors and the cooldown of AutoscaleNode (autoscale.go).
use Prim.Native.String.{String}
use text.Mathlib.Text.{◌==◌ as str_eq}
use text.Mathlib.TextEquality.{eq_iff}
use mathlib.Core.Option.{some-injective}
use kapacitor.Prelude.{
  subst, sym, ◌∙◌, ap, ℕ, ◌≡◌, ◌⊎◌, inl, inr, Option, none, some, arith, false, Bool-cases, ◌&&◌,
}
use kapacitor.Prelude.Dict.{lookup, insert, lookup-insert, lookup-insert_self}
use kapacitor.Nodes.Autoscale.{
  Handled, pos, ltb_ℤ, ℤ, handle_point, Config, Autoscaler, scaled, Event, ResourceState,
  AutoscaleNode, eq_ℤ, nothing, failed, Reply, Handled,
}
use kapacitor.Nodes.Autoscale.Laws.{
  after, Decided, Within, is_scaled, handle_point-Step, first_state, Step.unknown, Step.known,
  Step.learnt,
}

event_or : Event → Reply → Event
event_or e failed = e
event_or e nothing = e
event_or e (scaled f) = f

pub event_eq : (r : Reply) (f e : Event) → r ≡ scaled f → r ≡ scaled e → f ≡ e
unfolding event_or
event_eq r f e h k = ap (event_or f) (sym h ∙ k)

pub quiet-scaled : (r : Reply) (e : Event) → is_scaled r ≡ false → r ≡ scaled e → ⊥
quiet-scaled r e h k = cc

module _ {P S : Type 0} (c : Config) (a : Autoscaler P S) (time : P → ℕ) (eval : ℤ → P → Option ℤ)
    (bounds : ltb_ℤ (pos 0) c.max_count && ltb_ℤ c.max_count c.min_count ≡ false) where
  -- The count of an event is within the bounds, differs from the old one, and is held.
  abbrev pub Held : String → Handled S → Event → Type 0
  Held id r e =
      Within c e.new
      × ((eq_ℤ e.new e.old ≡ false)
          × ((state : ResourceState) × ((lookup id r.0.states ≡ some state)
                × (state.current ≡ e.new))))

  moved-Within :
      (id : String) (p : P) (state : ResourceState) (n : AutoscaleNode) (r : Handled S) (e : Event)
      → Decided c a time eval id p state n r
      → r.2 ≡ scaled e
      → Held id r e
  moved-Within id p state n r e (inl (quiet, same)) h = absurd (quiet-scaled r.2 e quiet h)
  moved-Within id p state n r e (inr (f, ((within, old), (reply, (other, (cool, eq)))))) h =
      subst (λ g. Held id r g) (event_eq r.2 f e reply h)
        (
          within,
          (
            other,
            (
              after (time p) f state,
              (
                ap (lookup id) eq ∙ lookup-insert_self id (after (time p) f state) n.states,
                ground arith,
              ),
            ),
          ),
        )

  -- A point of a resource that makes an event, where no positive maximum is below the minimum: the
  -- new count is within the bounds and differs from the old one, and the node holds it.
  pub handle_point-Within :
      (p : P) (n : AutoscaleNode) (s : S) (id : String) (e : Event)
      → a.resource_id p ≡ some id
      → (handle_point c a time eval p n s).2 ≡ scaled e
      → Held id (handle_point c a time eval p n s) e
  handle_point-Within p n s id e known-id h = elim (handle_point-Step c a time eval p n s bounds) [
    | unknown (quiet, same) ↦ absurd (quiet-scaled _ e quiet h)
    | known id' state i l d ↦
        let eq : id' ≡ id = some-injective _ _ (sym i ∙ known-id) in
        subst (λ j. Held j (handle_point c a time eval p n s) e) eq
          (moved-Within id' p state n (handle_point c a time eval p n s) e d h)
    | learnt id' count i l r d ↦
        let eq : id' ≡ id = some-injective _ _ (sym i ∙ known-id) in
        subst (λ j. Held j (handle_point c a time eval p n s) e) eq
          (moved-Within id' p (first_state count)
            (record n { states = insert id' (first_state count) n.states })
            (handle_point c a time eval p n s) e d h)
  ]

  -- A point that makes no event, be it for an error or for want of a change, where no positive
  -- maximum is below the minimum: the node holds of every resource what it held, unless the point
  -- is the first of its resource and the service told its count, with which the resource starts.
  pub handle_point-kept :
      (p : P) (n : AutoscaleNode) (s : S) (asked : String)
      → is_scaled (handle_point c a time eval p n s).2 ≡ false
      → (lookup asked (handle_point c a time eval p n s).0.states ≡ lookup asked n.states)
        ⊎ ((count : ℤ) × ((a.resource_id p ≡ some asked)
              × ((lookup asked n.states ≡ none)
                  × (((a.replicas asked s).1 ≡ some count)
                      × (lookup asked (handle_point c a time eval p n s).0.states
                          ≡ some (first_state count))))))
  handle_point-kept p n s asked h = elim (handle_point-Step c a time eval p n s bounds) [
    | unknown (quiet, same) ↦ inl (ap (lookup asked) same)
    | known id state i l (inl (quiet, same)) ↦ inl (ap (lookup asked) same)
    | known id state i l (inr (e, (w, (reply, more)))) ↦ absurd (quiet-scaled _ e h reply)
    | learnt id count i l r (inl (quiet, same)) ↦ elim (Bool-cases (str_eq id asked)) [
      | inr other ↦ inl (
          ap (lookup asked) same
          ∙ ground (arith, other, lookup-insert id asked (first_state count) n.states))
      | inl eq ↦
          let e : id ≡ asked = (eq_iff id asked).0 eq in
          inr (
            count,
            (
              i ∙ ap some e,
              (
                subst (λ j. lookup j n.states ≡ none) e l,
                (
                  subst (λ j. (a.replicas j s).1 ≡ some count) e r,
                  ap (lookup asked) same
                      ∙ ground (arith, eq, lookup-insert id asked (first_state count) n.states),
                ),
              ),
            ),
          )
    ]
    | learnt id count i l r (inr (e, (w, (reply, more)))) ↦ absurd (quiet-scaled _ e h reply)
  ]
