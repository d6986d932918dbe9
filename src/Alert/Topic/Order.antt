-- ===== src/Alert/Topic/Order.antt =====
-- The order of the event states of a topic (sortedStates of alert/topics.go).
use kapacitor.Prelude.{◌<◌, ◌≡◌, true, arith}
use kapacitor.Alert.Topic.{EventState, less, string_less}

-- Any two states of which the one with the lower level has the smaller identifier: each is less
-- than the other, so no arrangement of the two is in the order of Less, and which of them ends up
-- first, and so the level that MaxLevel returns, is left to the sorting algorithm.
pub less_both_ways :
    (a b : EventState)
    → a.level < b.level
    → string_less a.id b.id ≡ true
    → (less a b ≡ true) × (less b a ≡ true)
unfolding less
less_both_ways a b lower smaller = ground arith
