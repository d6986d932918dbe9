-- ===== src/Alert/Topic.antt =====
-- A topic of alert/topics.go: the states of its events, and its buffered handlers.
pub mod Events
pub mod Handlers
pub mod Order
use Prim.Native.String.{String}
use Prim.Native.String
use Prim.Native.Nat.{Ordering}
use kapacitor.Prelude.{
  map, ℕ, zero, suc, ◌+◌, ◌-◌, List, [], ◌∷◌, ◌++◌, Option, none, some, Bool, true, false, not,
  ◌&&◌, ◌||◌, if◌then◌else◌, ◌==◌, ltb, leb, length, set, get_elem?, take,
}
use kapacitor.Prelude.Dict.{Dict, lookup, insert}
use kapacitor.Prelude.Int.{ℤ}
use kapacitor.Alert.Level.{Level, ok}

-- EventState of alert/types.go; a time is the number of nanoseconds since Go's zero time.
pub record EventState : Type 0 where
  pub id : String
  pub message : String
  pub details : String
  pub time : ℕ
  pub duration : ℤ
  pub level : Level

-- Event of alert/types.go, less the data of the point that it carries along.
pub record Event : Type 0 where
  pub topic : String
  pub state : EventState
  pub previous_state : EventState

-- A handler behind its buffer: `h` identifies the handler, `queue` is what its channel holds.
pub record BufHandler : Type 0 where
  pub h : ℕ
  pub queue : List Event

-- `sorted` holds pointers to the states of the map; a pointer is the key of its state.
pub record Topic : Type 0 where
  pub events : Dict EventState
  pub sorted : List String
  pub collected : ℕ
  pub handlers : List BufHandler

abbrev pub event_buffer_size : ℕ
event_buffer_size = 5000

unfoldable pub new_topic : Topic
new_topic = record { events = []; sorted = []; collected = 0; handlers = [] }

abbrev pub string_less : String → String → Bool
string_less s t = elim (String.compare s t) [ Ordering.lt ↦ true | _ ↦ false ]

-- sortedStates.Less.
pub less : EventState → EventState → Bool
less a b = if ltb b.level a.level then true else string_less a.id b.id

-- Less on pointers into the map. A key with no state does not occur; it would be a nil pointer.
pub less_at : Dict EventState → String → String → Bool
unfolding less
less_at events i j = elim (lookup i events) [
  | none ↦ false
  | some a ↦ elim (lookup j events) [ none ↦ false | some b ↦ less a b ]
]

pub max_level : Topic → Level
max_level t = elim t.sorted [
  | [] ↦ ok
  | first ∷ _ ↦ elim (lookup first t.events) [ none ↦ ok | some e ↦ e.level ]
]

pub event_state : Topic → String → Option EventState
event_state t event = lookup event t.events

-- The states from `min_level` up: the loop stops at the first one below.
pub states_from : Dict EventState → (min_level : Level) → List String → List EventState
states_from events min_level [] = []
states_from events min_level (i ∷ is) =
    let rest = states_from events min_level is in
    elim (lookup i events) [ none ↦ [] | some e ↦ if ltb e.level min_level then [] else e ∷ rest ]

-- sort.Sort, given the test and what it sorts.
abbrev pub Sorter : Type 0
Sorter = (String → String → Bool) → List String → List String

-- bufHandler.Handle: no waiting, an error if the channel is full.
pub handle : Event → BufHandler → BufHandler × Bool
handle event b =
    if ltb (length b.queue) event_buffer_size
    then (record b { queue = b.queue ++ event ∷ [] }, true)
    else (b, false)

-- Every handler gets the event; the number of errors.
pub handle_event : Event → List BufHandler → List BufHandler × ℕ
handle_event event [] = ([], 0)
handle_event event (b ∷ bs) =
    let (bs', errs) = handle_event event bs in
    let (b', delivered) = handle event b in (b' ∷ bs', if delivered then errs else suc errs)

-- `if ok { event.previousState = prev }`.
abbrev pub with_previous : Event → Option EventState → Event
with_previous event none = event
with_previous event (some s) = record event { previous_state = s }

module _ (sort : Sorter) where
  -- The new state, with the one before it if there was one.
  pub update_event : EventState → Topic → Topic × Option EventState
  update_event state t = elim (lookup state.id t.events) [
    | none ↦
        let events = insert state.id state t.events in
        (
          record t { events = events; sorted = sort (less_at events) (t.sorted ++ state.id ∷ []) },
          none,
        )
    | some prev ↦
        let events = insert state.id state t.events in
        (
          record t {
            events = events;
            sorted = if prev.level == state.level then t.sorted else sort (less_at events) t.sorted;
          },
          some prev,
        )
  ]

  -- The event's state is stored and the event, with the state before it if there was one, is passed
  -- to the handlers; the number of errors goes out.
  pub collect : Event → Topic → Topic × ℕ
  collect event t =
      let (t', prev) = update_event event.state t in
      let (handlers, errs) = handle_event (with_previous event prev) t'.handlers in
      (record t' { collected = t'.collected + 1; handlers = handlers }, errs)

  -- The states of a topic that is restored, in the place of those it has.
  pub restore_event_states : Dict EventState → Topic → Topic
  restore_event_states states t = record t {
    events = states;
    sorted = sort (less_at states) (map (λ e. e.0) states);
  }

-- addHandler: a handler that is there already is not added again.
pub has_handler : ℕ → List BufHandler → Bool
has_handler h [] = false
has_handler h (b ∷ bs) = let rest = has_handler h bs in if b.h == h then true else rest

pub add_handler : ℕ → List BufHandler → List BufHandler
add_handler h bs = if has_handler h bs then bs else bs ++ record { h = h; queue = [] } ∷ []

-- The index of the first handler that is equal.
pub find_handler : ℕ → (i : ℕ) → List BufHandler → Option ℕ
find_handler h i [] = none
find_handler h i (b ∷ bs) =
    let rest = find_handler h (i + 1) bs in if b.h == h then some i else rest

-- removeHandler: the last handler takes the place of the one that goes.
pub remove_handler : ℕ → List BufHandler → List BufHandler
remove_handler h bs = elim (find_handler h 0 bs) [
  | none ↦ bs
  | some i ↦
      let n = length bs in
      let bs' =
        if ltb i (n - 1)
        then (elim (get_elem? bs (n - 1)) [ none ↦ bs | some last ↦ set bs i last ])
        else bs in
      take (n - 1) bs'
]
