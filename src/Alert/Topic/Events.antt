-- ===== src/Alert/Topic/Events.antt =====
-- The event states of a topic (updateEvent and collect of alert/topics.go).
use Prim.Native.String.{String}
use text.Mathlib.Text.{◌==◌ as str_eq}
use kapacitor.Prelude.{ap₂, ℕ, ◌+◌, ◌≡◌, ap, ap₂, Option, ◌∙◌, some, arith, if◌then◌else◌}
use kapacitor.Prelude.Dict.{lookup, insert, lookup-insert}
use kapacitor.Alert.Topic.{
  with_previous, List, Option, Event, BufHandler, EventState, Topic, Sorter, update_event,
  event_state, collect, handle_event,
}

module _ (sort : Sorter) where
  update_event-fields :
      (state : EventState) (t : Topic)
      → let (t', prev) = update_event sort state t in
        (t'.events ≡ insert state.id state t.events)
        × (prev ≡ lookup state.id t.events)
        × (t'.handlers ≡ t.handlers)
        × (t'.collected ≡ t.collected)
  unfolding update_event
  update_event-fields state t = ground arith

  -- Collecting an event: the topic then has the event's state under its identifier and all other
  -- states as before, exactly one event more is counted, and the handlers get the event with the
  -- state that the topic had under the identifier before (the event as it came, if there was none),
  -- whatever the handlers hold and however the states are sorted.
  pub collect_lem :
      (event : Event) (t : Topic) (other : String)
      → let (t', errs) = collect sort event t in
        (event_state t' other
          ≡ (if str_eq event.state.id other then some event.state else event_state t other))
        × (t'.collected ≡ t.collected + 1)
        × ((t'.handlers, errs)
            ≡ handle_event (with_previous event (event_state t event.state.id)) t.handlers)
  unfolding collect event_state
  collect_lem event t other =
      let f = update_event-fields event.state t in
      (
        ap (lookup other) f.0 ∙ lookup-insert event.state.id other event.state t.events,
        ap (λ (n : ℕ). n + 1) f.3,
        ap₂
            (λ (o : Option EventState) (hs : List BufHandler).
              handle_event (with_previous event o) hs)
            f.1 f.2,
      )
