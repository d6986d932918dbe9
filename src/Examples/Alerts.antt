-- ===== src/Examples/Alerts.antt =====
-- Alert nodes (alert.go) over numbers, and topics (alert/topics.go) of a few events.
use Prim.Native.String.{String}
use kapacitor.Prelude.{
  ℕ, ◌+◌, ◌-◌, ◌/◌, ◌≤◌, List, [], ◌∷◌, Option, none, some, true, false, not, ◌==◌, leb, ltb, ◌≡◌,
  refl, arith, if◌then◌else◌,
}
use kapacitor.Prelude.Int.{pos, ℤ}
use kapacitor.Alert.Level.{held_by_reset, Level, Levels, Predicate, passes, determine_level}
use kapacitor.Alert.Level.Laws.{determine_level_lem}
use kapacitor.Alert.State.{Floats, AlertNode, new_alert_state, current_level}
use kapacitor.Alert.State.Runs.{run, IsPlain, outputs, final_level, run-outputs}
use kapacitor.Alert.Topic.{
  Event, with_previous, EventState, BufHandler, Topic, Sorter, less, event_state, collect,
  handle_event, add_handler, remove_handler,
}
use kapacitor.Prelude.Dict.{lookup}
use kapacitor.Alert.State.{point, restore_event_state, duration}
use kapacitor.Alert.State.Restored.{restore_event_state_lem}
use kapacitor.Alert.State.Ring.{new-IsValid}
use kapacitor.Alert.State.Batch.{Begin, buffered_batch, buffered_batch-point}
use kapacitor.Alert.Topics.{perform_all, handle, register, delete, effects, perform_all_lem}
use kapacitor.Alert.Topic.Events.{collect_lem}
use kapacitor.Alert.Topic.Handlers.{registered, handle_event_lem, handlers_lem}

-- INFO from 10, WARNING fails to evaluate, CRITICAL from 30; CRITICAL is kept until below 20.
abbrev levels : Levels ℕ
levels = record { levels = expressions; level_resets = resets }
  where
    expressions : Level → Option (Predicate ℕ)
    expressions l =
        if l == 1
        then some (λ p. some (leb 10 p))
        else if l == 2
        then some (λ p. none)
        else if l == 3
        then some (λ p. some (leb 30 p))
        else none

    resets : Level → Option (Predicate ℕ)
    resets l = if l == 3 then some (λ p. some (ltb p 20)) else none

info_passes : passes levels 25 1 ≡ true
unfolding passes
info_passes = refl

rest_silent : (m : Level) → 2 ≤ m → m ≤ 3 → passes levels 25 m ≡ false
unfolding passes
rest_silent m low high = ground arith

-- 25 at CRITICAL: only INFO passes, and the reset expression is false.
determine_level_lem_example : determine_level levels 25 3 ≡ 3
unfolding held_by_reset
determine_level_lem_example =
    determine_level_lem levels 25 3 (omega arith) 1 (omega arith) (λ h. info_passes) rest_silent

-- Numbers of the proofs' own take the place of the machine's, which this node does not use.
abbrev floats : Floats
floats = record {
  F = ℕ;
  of_ℕ = λ n. n;
  add = λ a b. a + b;
  sub = λ a b. a - b;
  div = λ a b. a / b;
  less = λ a b. ltb a b;
  max_weight = 12;
  weight_diff = 2;
}

abbrev id_of : ℕ → String
id_of p = "cpu"

abbrev message_of : ℕ → Level → ℤ → String
message_of p l d = if l == 0 then "fine" else "high"

abbrev node : AlertNode floats ℕ
node = record {
  levels = levels;
  time = λ p. p;
  render_id = λ p. some "cpu";
  render_message = λ p l d. some (message_of p l d);
  use_flapping = false;
  flap_low = 0;
  flap_high = 0;
  is_state_changes_only = false;
  state_changes_only_duration = 0;
  no_recoveries = false;
  all_flag = false;
}

-- OK at 5, INFO at 12, CRITICAL at 31, still CRITICAL at 25 by the reset expression, OK at 8.
run-outputs_example :
    let (a, rs) = run floats node (5 ∷ 12 ∷ 31 ∷ 25 ∷ 8 ∷ []) (new_alert_state 21) in
    (rs ≡ outputs floats node id_of message_of 0 0 (5 ∷ 12 ∷ 31 ∷ 25 ∷ 8 ∷ []))
    × (current_level a ≡ final_level floats node id_of message_of 0 (5 ∷ 12 ∷ 31 ∷ 25 ∷ 8 ∷ []))
    × (a.inhibited
        ≡ not (final_level floats node id_of message_of 0 (5 ∷ 12 ∷ 31 ∷ 25 ∷ 8 ∷ []) == 0))
run-outputs_example = run-outputs floats node id_of message_of plain 21 (5 ∷ 12 ∷ 31 ∷ 25 ∷ 8 ∷ [])
  where
    plain : IsPlain floats node id_of message_of
    plain = record {
      no_flapping = refl;
      all_states = refl;
      recoveries = refl;
      ids_work = λ p. refl;
      messages_work = λ p l d. refl;
    }

abbrev state_a : EventState
state_a = record { id = "a"; message = ""; details = ""; time = 3; duration = pos 0; level = 1 }

abbrev state_b : EventState
state_b = record { id = "b"; message = ""; details = ""; time = 4; duration = pos 2; level = 3 }

abbrev event_a : Event
event_a = record { topic = "cpu"; state = state_a; previous_state = state_a }

abbrev event_b : Event
event_b = record { topic = "cpu"; state = state_b; previous_state = state_b }

abbrev handlers : List BufHandler
handlers =
    record { h = 7; queue = [] }
    ∷ record { h = 8; queue = event_a ∷ [] }
    ∷ record { h = 9; queue = [] }
    ∷ []

handle_event_lem_example : handle_event event_b handlers ≡ (
  record { h = 7; queue = event_b ∷ [] }
      ∷ record { h = 8; queue = event_a ∷ event_b ∷ [] }
      ∷ record { h = 9; queue = event_b ∷ [] }
      ∷ [],
  0,
)
handle_event_lem_example = handle_event_lem event_b handlers

handlers_lem_example :
    (registered 9 (add_handler 7 handlers) ≡ 1) × (registered 9 (remove_handler 7 handlers) ≡ 1)
handlers_lem_example = handlers_lem 7 9 handlers

-- A sort that leaves its list as it is.
abbrev unsorted : Sorter
unsorted less ids = ids

abbrev topic : Topic
topic = record {
  events = ("a", state_a) ∷ [];
  sorted = "a" ∷ [];
  collected = 4;
  handlers = handlers;
}

collect_lem_example :
    let (t, errs) = collect unsorted event_b topic in
    (event_state t "a" ≡ event_state topic "a")
    × (t.collected ≡ 5)
    × ((t.handlers, errs) ≡ handle_event (with_previous event_b (event_state topic "b")) handlers)
collect_lem_example = collect_lem unsorted event_b topic "a"

perform_all_lem_example :
    lookup "cpu" (
      perform_all unsorted
        (handle event_b ∷ register "mem" (some 7) ∷ delete "mem" ∷ register "cpu" (some 8) ∷ [])
        (("mem", topic) ∷ []))
    ≡ effects unsorted "cpu" (handle event_b ∷ register "cpu" (some 8) ∷ []) none
unfolding lookup
perform_all_lem_example =
    perform_all_lem unsorted
      (handle event_b ∷ register "mem" (some 7) ∷ delete "mem" ∷ register "cpu" (some 8) ∷ [])
      (("mem", topic) ∷ []) "cpu"

abbrev batch : Begin ℕ
batch = record {
  time = 31;
  render_id = some "cpu";
  render_message = λ p l d. some (message_of p l d);
}

buffered_batch-point_example :
    buffered_batch floats node batch (31 ∷ []) (new_alert_state 21)
    ≡ point floats node 31 (new_alert_state 21)
buffered_batch-point_example =
    buffered_batch-point floats node batch 31 (new_alert_state 21) refl at_most refl refl refl
  where
    at_most : current_level (new_alert_state 21) ≤ 3
    at_most = omega (arith, (new-IsValid 21).1)

restore_event_state_lem_example :
    let a = restore_event_state floats node 50 2 44 (new_alert_state 1) in
    (current_level a ≡ 2)
    × (a.last_triggered ≡ 44)
    × (a.first_triggered ≡ 44)
    × (duration a ≡ pos 0)
    × (a.inhibited ≡ true)
restore_event_state_lem_example =
    restore_event_state_lem floats node 1 50 2 44 (λ h. omega (arith, h))
