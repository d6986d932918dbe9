-- ===== src/Nodes/Autoscale/Runs.antt =====
-- AutoscaleNode of autoscale.go over a sequence of points.
use Prim.Native.String.{String}
use text.Mathlib.TextEquality.{eq_iff}
use mathlib.Core.Option.{some-injective}
use kapacitor.Prelude.{
  subst, sym, ◌∙◌, ap, ℕ, ◌+◌, ◌≤◌, ◌≡◌, Option, none, some, arith, false, ◌&&◌, List, [], ◌∷◌,
}
use kapacitor.Prelude.Dict.{lookup, insert, lookup-insert, lookup-insert_self}
use kapacitor.Nodes.Autoscale.{
  ResourceState, pos, ltb_ℤ, ℤ, handle_point, Config, Autoscaler, AutoscaleNode, Reply, Handled,
}
use kapacitor.Nodes.Autoscale.Laws.{
  Decided, handle_point-Step, first_state, Step.unknown, Step.known, Step.learnt,
}
use kapacitor.Nodes.Autoscale.Bounds.{quiet-scaled}
use kapacitor.Nodes.Autoscale.Cooldown.{
  Since, Increase, decision-Since, decision-cooled, decision-starts,
}

module _ {P S : Type 0} (c : Config) (a : Autoscaler P S) (time : P → ℕ)
    (eval : ℤ → P → Option ℤ) where
  -- The replies to the points that follow a state.
  abbrev pub replies : List P → AutoscaleNode → S → List (P × Reply)
  replies [] n s = []
  replies (p ∷ ps) n s = let r = handle_point c a time eval p n s in (p, r.2) ∷ replies ps r.0 r.1

  -- No increase of the resource is before `t` and the cooldown.
  abbrev pub Spaced : String → (t : ℕ) → List (P × Reply) → Type 0
  Spaced id t [] = Unit {0}
  Spaced id t (r ∷ rs) =
      (Increase c a time eval id r.0 r.1 → t + c.increase_cooldown ≤ time r.0) × Spaced id t rs

  learnt-Since :
      (id asked : String) (t : ℕ) (count : ℤ) (n : AutoscaleNode)
      → lookup id n.states ≡ none
      → Since asked t n
      → Since asked t (record n { states = insert id (first_state count) n.states })
  learnt-Since id asked t count n l (held, (h, le)) = (
    held,
    (
      ground (arith, h, l, lookup-insert id asked (first_state count) n.states, eq_iff id asked),
      le,
    ),
  )

  starts :
      (p : P) (n : AutoscaleNode) (asked id : String) (state : ResourceState) (r : Handled S)
      → a.resource_id p ≡ some id
      → Decided c a time eval id p state n r
      → Increase c a time eval asked p r.2
      → Since asked (time p) r.0
  starts p n asked id state r i d up =
      subst (λ j. Since j (time p) r.0) (some-injective _ _ (sym i ∙ up.0))
        (decision-starts c a time eval id p state n r d (i, up.1))

  known-Since :
      (p : P) (n : AutoscaleNode) (id asked : String) (t : ℕ) (state : ResourceState)
      (r : Handled S)
      → a.resource_id p ≡ some id
      → lookup id n.states ≡ some state
      → Decided c a time eval id p state n r
      → Since asked t n
      → Since asked t r.0 × (Increase c a time eval asked p r.2 → t + c.increase_cooldown ≤ time p)
  known-Since p n id asked t state r i l d since = (
    decision-Since c a time eval id asked t p state n r l d since,
    λ up.
        let eq : id ≡ asked = some-injective _ _ (sym i ∙ up.0) in
        decision-cooled c a time eval id t p state n r l d (subst (λ j. Since j t n) (sym eq) since)
          (i, up.1),
  )

  module _ (bounds : ltb_ℤ (pos 0) c.max_count && ltb_ℤ c.max_count c.min_count ≡ false) where
    handle_point-Since :
        (p : P) (n : AutoscaleNode) (s : S) (id : String) (t : ℕ)
        → Since id t n
        → Since id t (handle_point c a time eval p n s).0
          × (Increase c a time eval id p (handle_point c a time eval p n s).2
              → t + c.increase_cooldown ≤ time p)
    handle_point-Since p n s id t since = elim (handle_point-Step c a time eval p n s bounds) [
      | unknown (quiet, same) ↦ (
        (since.0, (ap (lookup id) same ∙ since.1.0, since.1.1)),
        λ up. absurd (quiet-scaled _ up.1.0 quiet up.1.1.0),
      )
      | known id' state i l d ↦
          known-Since p n id' id t state (handle_point c a time eval p n s) i l d since
      | learnt id' count i l r d ↦
          known-Since p (record n { states = insert id' (first_state count) n.states }) id' id t
            (first_state count) (handle_point c a time eval p n s) i
            (lookup-insert_self id' (first_state count) n.states) d
            (learnt-Since id' id t count n l since)
    ]

    spaced :
        (ps : List P) (n : AutoscaleNode) (s : S) (id : String) (t : ℕ)
        → Since id t n
        → Spaced id t (replies ps n s)
    spaced [] n s id t since = tt
    spaced (p ∷ ps) n s id t since =
        let (since', far) = handle_point-Since p n s id t since in (far, spaced ps _ _ id t since')

    -- Where no positive maximum is below the minimum, and a point makes an event that adds replicas
    -- to its resource: in every sequence of points that follows, in whatever order of time, each
    -- point that makes an event which adds replicas to the same resource is the cooldown of
    -- increases later at least.
    pub increases-Spaced :
        (p : P) (ps : List P) (n : AutoscaleNode) (s : S) (id : String)
        → Increase c a time eval id p (handle_point c a time eval p n s).2
        → Spaced id
            (time p)
            (replies ps (handle_point c a time eval p n s).0 (handle_point c a time eval p n s).1)
    increases-Spaced p ps n s id up =
        spaced ps _ _ id (time p) (elim (handle_point-Step c a time eval p n s bounds) [
          | unknown (quiet, same) ↦ absurd (quiet-scaled _ up.1.0 quiet up.1.1.0)
          | known id' state i l d ↦
              starts p n id id' state (handle_point c a time eval p n s) i d up
          | learnt id' count i l r d ↦
              starts p (record n { states = insert id' (first_state count) n.states }) id id'
                (first_state count) (handle_point c a time eval p n s) i d up
        ])
