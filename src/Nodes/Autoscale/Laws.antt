-- ===== src/Nodes/Autoscale/Laws.antt =====
-- What handlePoint of autoscale.go does to the number of replicas.
use Prim.Native.String.{String}
use kapacitor.Prelude.{
  refl, subst, sym, sym, subst, ℕ, ◌+◌, ◌≡◌, ◌⊎◌, inl, inr, Option, none, some, arith, false, true,
  Bool, Bool-cases, Option-cases, ◌&&◌, leb, if◌then◌else◌,
}
use kapacitor.Prelude.Dict.{lookup, insert}
use kapacitor.Nodes.Autoscale.{
  failed, nothing, scaled, Reply, Event, ResourceState, AutoscaleNode, Handled, grows, eq_ℤ, pos,
  Handled, eq_ℤ, AutoscaleNode, ltb_ℤ, ResourceState, scaled, ℤ, Reply, Event, clamp, decide,
  change, apply, handle_point, Config, Autoscaler,
}

-- A count within the bounds; no maximum is one that is not positive.
abbrev pub Within : Config → ℤ → Type 0
Within c n =
    (ltb_ℤ n c.min_count ≡ false) × (ltb_ℤ (pos 0) c.max_count && ltb_ℤ c.max_count n ≡ false)

clamp-Within :
    (c : Config) (n : ℤ)
    → ltb_ℤ (pos 0) c.max_count && ltb_ℤ c.max_count c.min_count ≡ false
    → Within c (clamp c n)
unfolding clamp
clamp-Within c n h = (ground (arith, h), ground (arith, h))

-- The last change in the direction of the event is the cooldown ago at least.
abbrev pub cooled : Config → (t : ℕ) → Event → ResourceState → Bool
cooled c t e state =
    if grows e.old e.new
    then leb (state.last_increase + c.increase_cooldown) t
    else leb (state.last_decrease + c.decrease_cooldown) t

-- The state of a resource after an event.
abbrev pub after : (t : ℕ) → Event → ResourceState → ResourceState
after t e state =
    if grows e.old e.new
    then record state { last_increase = t; current = e.new }
    else record state { last_decrease = t; current = e.new }

abbrev pub first_state : ℤ → ResourceState
first_state count = record { last_increase = 0; last_decrease = 0; current = count }

abbrev pub is_scaled : Reply → Bool
is_scaled failed = false
is_scaled nothing = false
is_scaled (scaled e) = true

module _ {P S : Type 0} (c : Config) (a : Autoscaler P S) (time : P → ℕ)
    (eval : ℤ → P → Option ℤ) where
  abbrev pub Moved : String → (t : ℕ) → Event → ResourceState → AutoscaleNode → Handled S → Type 0
  Moved id t e state n r =
      (r.2 ≡ scaled e)
      × ((eq_ℤ e.new e.old ≡ false)
          × ((cooled c t e state ≡ true) × (r.0.states ≡ insert id (after t e state) n.states)))

  abbrev pub Kept : AutoscaleNode → Handled S → Type 0
  Kept n r = (is_scaled r.2 ≡ false) × (r.0.states ≡ n.states)

  pub change_lem :
      (id : String) (t : ℕ) (e : Event) (state : ResourceState) (n : AutoscaleNode) (s : S)
      → Moved id t e state n (change c a time eval id t e state n s)
        ⊎ Kept n (change c a time eval id t e state n s)
  unfolding change apply
  change_lem id t e state n s = elim (Bool-cases (eq_ℤ e.new e.old)) [
    | inl same ↦ inr (ground (arith, same), ground (arith, same))
    | inr other ↦ elim (Bool-cases (cooled c t e state)) [
      | inr hot ↦ inr (ground (arith, other, hot), ground (arith, other, hot))
      | inl cool ↦ elim (Bool-cases (a.set_replicas id e.new s).1) [
        | inl ok ↦
            inl (ground (arith, other, cool, ok), (other, (cool, ground (arith, other, cool, ok))))
        | inr fails ↦ inr (ground (arith, other, cool, fails), ground (arith, other, cool, fails))
      ]
    ]
  ]

  -- What the node makes of an event of a resource it knows.
  abbrev pub Decided : String → P → ResourceState → AutoscaleNode → Handled S → Type 0
  Decided id p state n r =
      Kept n r
      ⊎ ((e : Event) × ((Within c e.new × (e.old ≡ state.current)) × Moved id (time p) e state n r))

  decide_lem :
      (id : String) (p : P) (state : ResourceState) (n : AutoscaleNode) (s : S)
      → ltb_ℤ (pos 0) c.max_count && ltb_ℤ c.max_count c.min_count ≡ false
      → Decided id p state n (decide c a time eval id p state n s)
  unfolding decide
  decide_lem id p state n s bounds = elim (Option-cases (eval state.current p)) [
    | inl e ↦ inl (ground (arith, e), ground (arith, e))
    | inr (wanted, e) ↦
        let event : Event = record { old = state.current; new = clamp c wanted } in
        let eq : decide c a time eval id p state n s
            ≡ change c a time eval id (time p) event state n s =
          ground (arith, e) in
        subst (λ r. Decided id p state n r) (sym eq)
          (elim (change_lem id (time p) event state n s) [
            | inl moved ↦ inr (event, ((clamp-Within c wanted bounds, refl), moved))
            | inr kept ↦ inl kept
          ])
  ]

  -- How a point leaves the states of the resources. A resource that is seen for the first time
  -- starts with the count that the service tells.
  pub data Step (p : P) (n : AutoscaleNode) (s : S) (r : Handled S) : Type 0 where
    unknown : Kept n r → Step p n s r
    known :
        (id : String) (state : ResourceState)
        → a.resource_id p ≡ some id
        → lookup id n.states ≡ some state
        → Decided id p state n r
        → Step p n s r
    learnt :
        (id : String) (count : ℤ)
        → a.resource_id p ≡ some id
        → lookup id n.states ≡ none
        → (a.replicas id s).1 ≡ some count
        → Decided id p
            (first_state count)
            (record n { states = insert id (first_state count) n.states })
            r
        → Step p n s r

  pub handle_point-Step :
      (p : P) (n : AutoscaleNode) (s : S)
      → ltb_ℤ (pos 0) c.max_count && ltb_ℤ c.max_count c.min_count ≡ false
      → Step p n s (handle_point c a time eval p n s)
  unfolding handle_point
  handle_point-Step p n s bounds = elim (Option-cases (a.resource_id p)) [
    | inl e ↦ unknown (ground (arith, e), ground (arith, e))
    | inr (id, e) ↦ elim (Option-cases (lookup id n.states)) [
      | inr (state, f) ↦
          let eq : decide c a time eval id p state n s ≡ handle_point c a time eval p n s =
            ground (arith, e, f) in
          known id state e f
            (subst (λ r. Decided id p state n r) eq (decide_lem id p state n s bounds))
      | inl f ↦ elim (Option-cases (a.replicas id s).1) [
        | inl g ↦ unknown (ground (arith, e, f, g), ground (arith, e, f, g))
        | inr (count, g) ↦
            let m : AutoscaleNode = record n { states = insert id (first_state count) n.states } in
            let eq : decide c a time eval id p (first_state count) m (a.replicas id s).0
                ≡ handle_point c a time eval p n s =
              ground (arith, e, f, g) in
            learnt id count e f g (
              subst (λ r. Decided id p (first_state count) m r) eq
                (decide_lem id p (first_state count) m (a.replicas id s).0 bounds))
      ]
    ]
  ]
