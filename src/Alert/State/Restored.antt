-- ===== src/Alert/State/Restored.antt =====
-- A group whose state is restored from the topics (restoreEventState of alert.go).
use kapacitor.Prelude.{ℕ, ◌≡◌, ◌≢◌, not, true, if◌then◌else◌, ◌==◌, arith, get_or}
use kapacitor.Prelude.Int.{pos}
use kapacitor.Alert.Level.{Level, ok}
use kapacitor.Alert.State.{
  Floats, AlertNode, AlertState, new_alert_state, current_level, previous_idx, duration, triggered,
  add_event, restore_event_state,
}
use kapacitor.Alert.State.Ring.{new-IsValid, add_event-Added}

module _ (fl : Floats) {P : Type 0} (n : AlertNode fl P) where
  triggered-fields :
      (t : ℕ) (a : AlertState)
      → (current_level (triggered t a) ≡ current_level a)
        × ((triggered t a).last_triggered ≡ t)
        × ((triggered t a).first_triggered
            ≡ (if get_or a.history (previous_idx a) ok == ok then t else a.first_triggered))
        × ((triggered t a).inhibited ≡ not (current_level a == ok))
  unfolding triggered current_level
  triggered-fields t a = ground arith

  -- A new group that is restored at a level other than OK, whatever the length of its history, is at
  -- that level, counts its alert from the time that was remembered, which has lasted 0 by then, and
  -- sets its inhibitors.
  pub restore_event_state_lem :
      (history t : ℕ) (level : Level) (since : ℕ)
      → level ≢ ok
      → let a = restore_event_state fl n t level since (new_alert_state history) in
        (current_level a ≡ level)
        × (a.last_triggered ≡ since)
        × (a.first_triggered ≡ since)
        × (duration a ≡ pos 0)
        × (a.inhibited ≡ true)
  unfolding restore_event_state duration
  restore_event_state_lem history t level since ne =
      let (v, start) = new-IsValid history in
      let added = add_event-Added fl n t level (new_alert_state history) v in
      let (same, last, first, inhibits) =
        triggered-fields since (add_event fl n t level (new_alert_state history)) in
      ground (arith, same, last, first, inhibits, added.current, added.previous, start)
