-- ===== src/Alert/Topics.antt =====
-- The map of topics (Topics of alert/topics.go), each operation under the lock of the map.
use Prim.Native.String.{String}
use text.Mathlib.Text.{◌==◌ as str_eq}
use text.Mathlib.TextEquality.{eq_iff}
use kapacitor.Prelude.{
  Bool-cases, ℕ, ◌≡◌, refl, ap, ◌∙◌, List, [], ◌∷◌, Option, none, some, Bool, true, not,
  if◌then◌else◌, ltb, arith, Option-cases, inl, inr,
}
use kapacitor.Prelude.Dict.{Dict, lookup, insert, erase, lookup-insert, lookup-erase}
use kapacitor.Alert.Level.{Level}
use kapacitor.Alert.Topic.{
  BufHandler, EventState, Event, Topic, Sorter, new_topic, event_state, max_level, update_event,
  collect, restore_event_states, add_handler, remove_handler,
}

abbrev pub Topics : Type 0
Topics = Dict Topic

-- The topic, or the new one that the operations make where there is none.
abbrev pub or_new : Option Topic → Topic
or_new none = new_topic
or_new (some t) = t

abbrev pub with_handlers : List BufHandler → Topic → Topic
with_handlers hs t = record t { handlers = hs }

-- A handler is `none` where the Go value is nil.
pub register_handler : String → Option ℕ → Topics → Topics
register_handler id none s = s
register_handler id (some h) s =
    let t = or_new (lookup id s) in insert id (with_handlers (add_handler h t.handlers) t) s

pub deregister_handler : String → Option ℕ → Topics → Topics
deregister_handler id none s = s
deregister_handler id (some h) s = elim (lookup id s) [
  | none ↦ s
  | some t ↦ insert id (with_handlers (remove_handler h t.handlers) t) s
]

pub replace_handler : String → (old new : ℕ) → Topics → Topics
replace_handler id old new s =
    let t = or_new (lookup id s) in
    insert id (with_handlers (add_handler new (remove_handler old t.handlers)) t) s

-- The topic is closed too: its handlers end when they have handled what their buffers hold.
pub delete_topic : String → Topics → Topics
delete_topic id s = erase id s

pub topic_event_state : String → String → Topics → Option EventState
topic_event_state id event s = elim (lookup id s) [ none ↦ none | some t ↦ event_state t event ]

-- path.Match with its error dropped.
module _ (match_pattern : String → String → Bool) where
  pub pattern_match : String → String → Bool
  pattern_match pattern id = if str_eq pattern "" then true else match_pattern pattern id

  -- The level and the number of events of each topic that matches, from `min_level` up.
  pub topic_state : String → (min_level : Level) → Topics → Dict (Level × ℕ)
  topic_state pattern min_level [] = []
  topic_state pattern min_level ((id, t) ∷ s) =
      let rest = topic_state pattern min_level s in
      if not (pattern_match pattern id)
      then rest
      else if ltb (max_level t) min_level
      then rest
      else (id, (max_level t, t.collected)) ∷ rest

put-lookup :
    (f : Option Topic → Topic) (i : String) (s : Topics) (id : String)
    → lookup id (insert i (f (lookup i s)) s)
      ≡ (if str_eq i id then some (f (lookup id s)) else lookup id s)
put-lookup f i s id = elim (Bool-cases (str_eq i id)) [
  | inl e ↦ ground (
    arith,
    e,
    lookup-insert i id (f (lookup i s)) s,
    ap (λ k. some (f (lookup k s))) ((eq_iff i id).0 e),
  )
  | inr e ↦ ground (arith, e, lookup-insert i id (f (lookup i s)) s)
]

same_topic : (i : String) (s : Topics) (id : String) → str_eq i id ≡ true → lookup i s ≡ lookup id s
same_topic i s id e = ap (λ k. lookup k s) ((eq_iff i id).0 e)

module _ (sort : Sorter) where
  pub restore_topic : String → Dict EventState → Topics → Topics
  restore_topic id states s = insert id (restore_event_states sort states (or_new (lookup id s))) s

  pub update_topic : String → EventState → Topics → Topics
  update_topic id state s = insert id (update_event sort state (or_new (lookup id s))).0 s

  -- The number of errors goes out.
  pub collect_event : Event → Topics → Topics × ℕ
  collect_event event s =
      let (t, errs) = collect sort event (or_new (lookup event.topic s)) in
      (insert event.topic t s, errs)

  -- The operations, with the topic that each is about.
  pub data Operation : Type 0 where
    restore : String → Dict EventState → Operation
    update : String → EventState → Operation
    handle : Event → Operation
    register deregister : String → Option ℕ → Operation
    replace : String → (old new : ℕ) → Operation
    delete : String → Operation

  pub perform : Operation → Topics → Topics
  perform (restore id states) s = restore_topic id states s
  perform (update id state) s = update_topic id state s
  perform (handle event) s = (collect_event event s).0
  perform (register id h) s = register_handler id h s
  perform (deregister id h) s = deregister_handler id h s
  perform (replace id old new) s = replace_handler id old new s
  perform (delete id) s = delete_topic id s

  pub perform_all : List Operation → Topics → Topics
  perform_all [] s = s
  perform_all (op ∷ ops) s = perform_all ops (perform op s)

  abbrev pub target : Operation → String
  target (restore id states) = id
  target (update id state) = id
  target (handle event) = event.topic
  target (register id h) = id
  target (deregister id h) = id
  target (replace id old new) = id
  target (delete id) = id

  -- What an operation makes of its own topic.
  abbrev pub effect : Operation → Option Topic → Option Topic
  effect (restore id states) t = some (restore_event_states sort states (or_new t))
  effect (update id state) t = some (update_event sort state (or_new t)).0
  effect (handle event) t = some (collect sort event (or_new t)).0
  effect (register id none) t = t
  effect (register id (some h)) t =
      some (with_handlers (add_handler h (or_new t).handlers) (or_new t))
  effect (deregister id none) t = t
  effect (deregister id (some h)) none = none
  effect (deregister id (some h)) (some t) = some (with_handlers (remove_handler h t.handlers) t)
  effect (replace id old new) t =
      some (with_handlers (add_handler new (remove_handler old (or_new t).handlers)) (or_new t))
  effect (delete id) t = none

  -- What those of the operations that are about the topic make of it, in their order.
  abbrev pub effects : String → List Operation → Option Topic → Option Topic
  effects id [] t = t
  effects id (op ∷ ops) t = effects id ops (if str_eq (target op) id then effect op t else t)

  perform-lookup :
      (op : Operation) (s : Topics) (id : String)
      → lookup id (perform op s)
        ≡ (if str_eq (target op) id then effect op (lookup id s) else lookup id s)
  unfolding perform restore_topic update_topic collect_event register_handler deregister_handler
      replace_handler delete_topic
  perform-lookup (restore i states) s id =
      put-lookup (λ t. restore_event_states sort states (or_new t)) i s id
  perform-lookup (update i state) s id =
      put-lookup (λ t. (update_event sort state (or_new t)).0) i s id
  perform-lookup (handle event) s id =
      put-lookup (λ t. (collect sort event (or_new t)).0) event.topic s id
  perform-lookup (register i none) s id = ground arith
  perform-lookup (register i (some h)) s id =
      put-lookup (λ t. with_handlers (add_handler h (or_new t).handlers) (or_new t)) i s id
  perform-lookup (deregister i none) s id = ground arith
  perform-lookup (deregister i (some h)) s id = elim (Option-cases (lookup i s)) [
    | inl e ↦ ground (arith, e, same_topic i s id)
    | inr (t, e) ↦ ground (
      arith,
      e,
      same_topic i s id,
      lookup-insert i id (with_handlers (remove_handler h t.handlers) t) s,
    )
  ]
  perform-lookup (replace i old new) s id =
      put-lookup
        (λ t. with_handlers (add_handler new (remove_handler old (or_new t).handlers)) (or_new t)) i
        s id
  perform-lookup (delete i) s id = lookup-erase i id s

  -- Topics are independent: after any sequence of operations on any topics, a topic is what the
  -- operations about it, in their order, make of it alone, from what it was before.
  pub perform_all_lem :
      (ops : List Operation) (s : Topics) (id : String)
      → lookup id (perform_all ops s) ≡ effects id ops (lookup id s)
  unfolding perform_all
  perform_all_lem [] s id = refl
  perform_all_lem (op ∷ ops) s id =
      perform_all_lem ops (perform op s) id ∙ ap (effects id ops) (perform-lookup op s id)
