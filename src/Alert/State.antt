-- ===== src/Alert/State.antt =====
-- alertState of alert.go: the state of one group of an alert node, and what its points emit.
-- A time is the number of nanoseconds since Go's zero time.
pub mod Ring
pub mod Runs
pub mod Restored
pub mod Batch
use Prim.Native.String.{String}
use kapacitor.Prelude.{
  ℕ, zero, suc, ◌+◌, ◌-◌, ◌%◌, List, [], ◌∷◌, Option, none, some, Bool, true, false, not, ◌&&◌,
  ◌||◌, if◌then◌else◌, ◌==◌, ltb, leb, length, set, get_or, replicate,
}
use kapacitor.Prelude.Int.{ℤ, sub_ℕ}
use kapacitor.Alert.Level.{Level, Levels, ok, critical, determine_level}

-- The floating-point numbers of the machine, which only the flapping detection uses.
pub record Floats : Type 1 where
  pub F : Type 0
  pub of_ℕ : ℕ → F
  pub add : F → F → F
  pub sub : F → F → F
  pub div : F → F → F
  pub less : F → F → Bool
  -- The constants maxWeight and weightDiff.
  pub max_weight : F
  pub weight_diff : F

module _ (fl : Floats) where
  open fl use {F, of_ℕ, add, sub, div, less, max_weight, weight_diff}

  -- The settings of the node that its groups read, and its templates: `none` where one fails.
  pub record AlertNode (P : Type 0) : Type 0 where
    pub levels : Levels P
    pub time : P → ℕ
    pub render_id : P → Option String
    pub render_message : P → Level → (duration : ℤ) → Option String
    pub use_flapping : Bool
    pub flap_low : F
    pub flap_high : F
    pub is_state_changes_only : Bool
    pub state_changes_only_duration : ℕ
    pub no_recoveries : Bool
    pub all_flag : Bool

pub record AlertState : Type 0 where
  pub history : List Level
  pub idx : ℕ
  pub flapping : Bool
  pub changed : Bool
  pub first_triggered : ℕ
  pub last_triggered : ℕ
  pub expired : Bool
  -- What the inhibitors of the group were last set to; all are set to the same value.
  pub inhibited : Bool

-- newAlertState; the node raises a history below 2 to 2 when it is made.
pub new_alert_state : (history : ℕ) → AlertState
new_alert_state history = record {
  history = replicate (if ltb history 2 then 2 else history) ok;
  idx = 0;
  flapping = false;
  changed = false;
  first_triggered = 0;
  last_triggered = 0;
  expired = false;
  inhibited = false;
}

pub current_level : AlertState → Level
current_level a = get_or a.history a.idx ok

-- The time that the alert has lasted.
pub duration : AlertState → ℤ
duration a = sub_ℕ a.last_triggered a.first_triggered

-- The slot before the current one, round the ring.
abbrev pub previous_idx : AlertState → ℕ
previous_idx a = if a.idx == 0 then length a.history - 1 else a.idx - 1

-- Record that the alert was triggered at time `t`.
pub triggered : ℕ → AlertState → AlertState
triggered t a = record a {
  last_triggered = t;
  first_triggered = if get_or a.history (previous_idx a) ok == ok then t else a.first_triggered;
  inhibited = not (get_or a.history a.idx ok == ok);
}

module _ (fl : Floats) where
  open fl use {F, of_ℕ, add, sub, div, less, max_weight, weight_diff}

  -- The loop of percentChange, with `rounds` rounds left.
  changes_from : AlertState → (step : F) → (rounds i : ℕ) → (changes weight : F) → F
  changes_from a step zero i changes weight = changes
  changes_from a step (suc rounds) i changes weight =
      let l = length a.history in
      let c = (i + a.idx) % l in
      let p = if c == 0 then l - 1 else c - 1 in
      changes_from a step rounds (i + 1)
        (if get_or a.history c ok == get_or a.history p ok then changes else add changes weight)
        (add weight step)

  -- The share of changes in the history, the newest weighted most.
  pub percent_change : AlertState → F
  unfolding changes_from
  percent_change a =
      let l = length a.history in
      let weight = div max_weight weight_diff in
      let step = div (sub max_weight weight) (of_ℕ (l - 1)) in
      div (changes_from a step (l - 1) 0 (of_ℕ 0) weight) (of_ℕ (l - 1))

  module _ {P : Type 0} (n : AlertNode fl P) where
    pub update_flapping : AlertState → AlertState
    update_flapping a =
        if not n.use_flapping
        then a
        else (let p = percent_change a in
            if a.flapping && less p n.flap_low
            then record a { flapping = false }
            else if not a.flapping && less n.flap_high p
            then record a { flapping = true }
            else a)

    pub update_expired : ℕ → AlertState → AlertState
    update_expired t a = record a {
      expired =
          not a.changed
          && (not (n.state_changes_only_duration == 0)
              && leb (a.last_triggered + n.state_changes_only_duration) t);
    }

    -- The part of addEvent before the flapping and expiry are looked at.
    pub push_level : Level → AlertState → AlertState
    push_level level a =
        let idx = (a.idx + 1) % length a.history in
        record a {
          changed = not (get_or a.history a.idx ok == level);
          idx = idx;
          history = set a.history idx level;
        }

    pub add_event : ℕ → Level → AlertState → AlertState
    add_event t level a = update_expired t (update_flapping (push_level level a))

    -- An event as the topics see it, less the data of the point that it carries along.
    pub record Event : Type 0 where
      pub id : String
      pub message : String
      pub time : ℕ
      pub duration : ℤ
      pub level : Level

    -- What a point makes the group do: a failed template, nothing, or an event.
    pub data Reply : Type 0 where
      failed : Reply
      quiet : Reply
      emit : Event → Reply

    -- The end of Point: the event, unless it is a recovery that is not wanted.
    abbrev pub reply : String → P → Level → AlertState → Reply
    reply id p l a =
        if n.no_recoveries && l == ok then quiet else elim (n.render_message p l (duration a)) [
          | none ↦ failed
          | some message ↦ emit (record {
            id = id;
            message = message;
            time = n.time p;
            duration = duration a;
            level = l;
          })
        ]

    pub point : P → AlertState → AlertState × Reply
    point p a = elim (n.render_id p) [
      | none ↦ (a, failed)
      | some id ↦
          let l = determine_level n.levels p (current_level a) in
          let a' = add_event (n.time p) l a in
          if (n.use_flapping && a'.flapping)
            || (n.is_state_changes_only && (not a'.changed && not a'.expired))
          then (a', quiet)
          else if not (l == ok) || a'.changed
          then (let a'' = triggered (n.time p) a' in (a'', reply id p l a''))
          else (a', quiet)
    ]

    -- restoreEventState: the level and time that the topics remember for the event.
    pub restore_event_state : (t : ℕ) → (level : Level) → (since : ℕ) → AlertState → AlertState
    restore_event_state t level since a =
        if level == ok then a else triggered since (add_event t level a)
