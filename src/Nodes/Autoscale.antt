-- ===== src/Nodes/Autoscale.antt =====
-- AutoscaleNode of autoscale.go, for the points of its groups: the service that holds the replicas
-- and the lambda expression are parameters.
pub mod Laws
pub mod Runs
pub mod Cooldown
pub mod Bounds
use Prim.Native.String.{String}
use kapacitor.Prelude.{
  ℕ, suc, ◌+◌, ◌-◌, ◌^◌, Option, none, some, Bool, true, false, if◌then◌else◌, ltb, ◌==◌, ◌||◌,
  ◌&&◌,
}
use kapacitor.Prelude.Dict.{Dict, lookup, insert}
use kapacitor.Prelude.Int.{ℤ, pos, negsuc, ltb_ℤ, pos_part, neg_part}

-- Times are nanoseconds since the zero time; the zero time itself marks no change.
pub record ResourceState : Type 0 where
  pub last_increase : ℕ
  pub last_decrease : ℕ
  pub current : ℤ

pub record Event : Type 0 where
  pub old : ℤ
  pub new : ℤ

-- What handlePoint returns: an error, nothing, or the point that tells of the event.
pub data Reply : Type 0 where
  failed : Reply
  nothing : Reply
  scaled : Event → Reply

pub record Config : Type 0 where
  pub min_count : ℤ
  pub max_count : ℤ
  pub increase_cooldown : ℕ
  pub decrease_cooldown : ℕ

pub record AutoscaleNode : Type 0 where
  pub states : Dict ResourceState
  pub increases : ℕ
  pub decreases : ℕ
  pub cooldown_drops : ℕ

abbrev pub eq_ℤ : ℤ → ℤ → Bool
eq_ℤ (pos a) (pos b) = a == b
eq_ℤ (pos a) (negsuc b) = false
eq_ℤ (negsuc a) (pos b) = false
eq_ℤ (negsuc a) (negsuc b) = a == b

-- `change > 0`, where `change` is the difference of two different int64, wrapped around.
abbrev pub grows : ℤ → ℤ → Bool
grows old new =
    let a = pos_part new + neg_part old in
    let b = pos_part old + neg_part new in
    if ltb b a then ltb (a - b) (2 ^ 63) else ltb (2 ^ 63) (b - a)

-- newAutoscaleNode refuses such bounds.
pub refuses : Config → Bool
refuses c = ltb_ℤ c.min_count (pos 1)

-- `S` is the state of the service.
pub record Autoscaler (P S : Type 0) : Type 1 where
  pub resource_id : P → Option String
  pub replicas : String → S → S × Option ℤ
  pub set_replicas : String → ℤ → S → S × Bool

-- The node and the service after a point, with the reply.
abbrev pub Handled : Type 0 → Type 0
Handled S = AutoscaleNode × S × Reply

unfoldable pub clamp : Config → ℤ → ℤ
clamp c new =
    let below = if ltb_ℤ (pos 0) c.max_count && ltb_ℤ c.max_count new then c.max_count else new in
    if ltb_ℤ below c.min_count then c.min_count else below

module _ {P S : Type 0} (c : Config) (a : Autoscaler P S) (time : P → ℕ)
    (eval : ℤ → P → Option ℤ) where
  -- applyEvent, and what follows where it succeeds.
  unfoldable pub apply : String → Event → ResourceState → AutoscaleNode → S → Handled S
  apply id e state n s =
      let (s', ok) = a.set_replicas id e.new s in
      if ok
      then (
        record n {
          states = insert id state n.states;
          increases = if grows e.old e.new then n.increases + 1 else n.increases;
          decreases = if grows e.old e.new then n.decreases else n.decreases + 1;
        },
        s',
        scaled e,
      )
      else (n, s', failed)

  -- handlePoint from the event on.
  unfoldable pub change : String → (t : ℕ) → Event → ResourceState → AutoscaleNode → S → Handled S
  change id t e state n s =
      let hot : Handled S = (record n { cooldown_drops = n.cooldown_drops + 1 }, s, nothing) in
      let state' = record state { current = e.new } in
      if eq_ℤ e.new e.old
      then (n, s, nothing)
      else if grows e.old e.new
      then (if ltb t (state.last_increase + c.increase_cooldown)
          then hot
          else apply id e (record state' { last_increase = t }) n s)
      else (if ltb t (state.last_decrease + c.decrease_cooldown)
          then hot
          else apply id e (record state' { last_decrease = t }) n s)

  -- handlePoint once the state of the resource is known.
  unfoldable pub decide : String → P → ResourceState → AutoscaleNode → S → Handled S
  decide id p state n s = elim (eval state.current p) [
    | none ↦ (n, s, failed)
    | some wanted ↦
        change id (time p) (record { old = state.current; new = clamp c wanted }) state n s
  ]

  unfoldable pub handle_point : P → AutoscaleNode → S → Handled S
  handle_point p n s = elim (a.resource_id p) [
    | none ↦ (n, s, failed)
    | some id ↦ elim (lookup id n.states) [
      | some state ↦ decide id p state n s
      | none ↦
          let (s', r) = a.replicas id s in
          elim r [
            | none ↦ (n, s', failed)
            | some count ↦
                let state : ResourceState = record {
                  last_increase = 0;
                  last_decrease = 0;
                  current = count;
                } in
                decide id p state (record n { states = insert id state n.states }) s'
          ]
    ]
  ]
