-- ===== src/Alert/Topic/Handlers.antt =====
-- The handlers of a topic (alert/topics.go): delivery, registration and removal.
use kapacitor.Prelude.{
  ℕ, suc, ◌+◌, ◌-◌, ◌≡◌, refl, sym, ap, ap₂, ◌∙◌, none, some, arith, List, [], ◌∷◌, ◌++◌,
  if◌then◌else◌, Bool-cases, inl, inr, ◌==◌, ◌&&◌, ltb, length, set, get_elem?, take, set_at,
  take-append, get_elem?-append, snoc-cases, length-append, append_assoc, ◌⊎◌,
}
use native.Mathlib.Nat.{zero-add}
use kapacitor.Alert.Topic.{
  Event, BufHandler, event_buffer_size, handle, handle_event, has_handler, add_handler,
  find_handler, remove_handler,
}

-- What one handler gets: the event at the end of its queue if there is room.
abbrev pub delivered : Event → List BufHandler → List BufHandler
delivered event [] = []
delivered event (b ∷ bs) =
    (if ltb (length b.queue) event_buffer_size
      then record b { queue = b.queue ++ event ∷ [] }
      else b)
    ∷ delivered event bs

abbrev pub full_handlers : List BufHandler → ℕ
full_handlers [] = 0
full_handlers (b ∷ bs) =
    let rest = full_handlers bs in if ltb (length b.queue) event_buffer_size then rest else suc rest

-- An event goes to the end of the queue of every handler that has room for it, in particular past
-- the handlers that have none; those keep their queue, and there is one error for each of them.
pub handle_event_lem :
    (event : Event) (bs : List BufHandler)
    → handle_event event bs ≡ (delivered event bs, full_handlers bs)
unfolding handle_event handle
handle_event_lem event [] = refl
handle_event_lem event (b ∷ bs) = ground (arith, handle_event_lem event bs)

-- How often a handler is registered.
abbrev pub registered : ℕ → List BufHandler → ℕ
registered h [] = 0
registered h (b ∷ bs) = (if b.h == h then 1 else 0) + registered h bs

registered-append :
    (h : ℕ) (xs ys : List BufHandler) → registered h (xs ++ ys) ≡ registered h xs + registered h ys
registered-append h [] ys = omega arith
registered-append h (x ∷ xs) ys = omega (arith, registered-append h xs ys)

has_handler_iff : (h : ℕ) (bs : List BufHandler) → has_handler h bs ≡ ltb 0 (registered h bs)
unfolding has_handler
has_handler_iff h [] = refl
has_handler_iff h (b ∷ bs) = ground (arith, has_handler_iff h bs)

-- Where a handler is found, none before it is equal.
find-split :
    (h i : ℕ) (bs : List BufHandler)
    → ((find_handler h i bs ≡ none) × (registered h bs ≡ 0))
      ⊎ ((pre : List BufHandler) × (b : BufHandler) × (post : List BufHandler) × (bs
            ≡ pre ++ b ∷ post)
          × (b.h ≡ h)
          × (find_handler h i bs ≡ some (i + length pre)))
unfolding find_handler
find-split h i [] = inl (refl, refl)
find-split h i (b ∷ bs) = elim (Bool-cases (b.h == h)) [
  | inl e ↦ inr ([], b, bs, refl, ground arith, ground arith)
  | inr e ↦ elim (find-split h (i + 1) bs) [
    | inl (f, g) ↦ inl (ground arith, ground arith)
    | inr (pre, c, post, eq, same, f) ↦
        inr (b ∷ pre, c, post, ap (λ t. b ∷ t) eq, same, ground arith)
  ]
]

-- The list without the handler at a known place, its last one moved there.
abbrev moved : List BufHandler → ℕ → List BufHandler
moved bs i =
    let n = length bs in
    take (n - 1) (
      if ltb i (n - 1)
      then (elim (get_elem? bs (n - 1)) [ none ↦ bs | some last ↦ set bs i last ])
      else bs)

moved-end : (pre : List BufHandler) (b : BufHandler) → moved (pre ++ b ∷ []) (length pre) ≡ pre
moved-end pre b = ground (arith, len, cut)
  where
    len : length (pre ++ b ∷ []) ≡ length pre + 1
    len = length-append pre (b ∷ [])

    cut : take (length (pre ++ b ∷ []) - 1) (pre ++ b ∷ []) ≡ pre
    cut =
        ap (λ k. take k (pre ++ b ∷ [])) {x = length (pre ++ b ∷ []) - 1} {y = length pre}
          (omega (arith, len))
        ∙ take-append pre (b ∷ [])

moved-middle :
    (pre : List BufHandler) (b : BufHandler) (mid : List BufHandler) (z : BufHandler)
    → moved (pre ++ b ∷ (mid ++ z ∷ [])) (length pre) ≡ pre ++ z ∷ mid
moved-middle pre b mid z = ground (arith, len, last, written, cut)
  where
    bs : List BufHandler
    bs = pre ++ b ∷ (mid ++ z ∷ [])

    len : length bs ≡ length pre + length mid + 2
    len = omega (arith, length-append {0} pre (b ∷ (mid ++ z ∷ [])), length-append {0} mid (z ∷ []))

    regroup : (x : BufHandler) → pre ++ x ∷ (mid ++ z ∷ []) ≡ (pre ++ x ∷ mid) ++ z ∷ []
    regroup x = sym (append_assoc pre (x ∷ mid) (z ∷ []))

    count : (x : BufHandler) → length (pre ++ x ∷ mid) ≡ length pre + length mid + 1
    count x = omega (arith, length-append {0} pre (x ∷ mid))

    last : get_elem? bs (length bs - 1) ≡ some z
    last =
        ap₂ (λ (t : List BufHandler) (k : ℕ). get_elem? t k) (regroup b)
          (omega (arith, len, count b))
        ∙ get_elem?-append (pre ++ b ∷ mid) z []

    written : set bs (length pre) z ≡ pre ++ z ∷ (mid ++ z ∷ [])
    written = set_at pre b (mid ++ z ∷ []) z (length pre) refl

    cut : take (length bs - 1) (pre ++ z ∷ (mid ++ z ∷ [])) ≡ pre ++ z ∷ mid
    cut =
        ap₂ (λ (k : ℕ) (t : List BufHandler). take k t) (omega (arith, len, count z)) (regroup z)
        ∙ take-append (pre ++ z ∷ mid) (z ∷ [])

registered-add :
    (h k : ℕ) (bs : List BufHandler)
    → registered k (add_handler h bs)
      ≡ (if h == k && registered h bs == 0 then 1 else registered k bs)
unfolding add_handler
registered-add h k bs =
    ground (arith, has_handler_iff h bs, registered-append k bs (record { h = h; queue = [] } ∷ []))

remove_handler-moved :
    (h : ℕ) (bs : List BufHandler) (i : ℕ)
    → find_handler h 0 bs ≡ some i
    → remove_handler h bs ≡ moved bs i
unfolding remove_handler
remove_handler-moved h bs i e = ground (arith, e)

registered-remove :
    (h k : ℕ) (bs : List BufHandler)
    → registered k (remove_handler h bs) ≡ (if h == k then registered k bs - 1 else registered k bs)
unfolding remove_handler
registered-remove h k bs = elim (find-split h 0 bs) [
  | inl (f, g) ↦ ground (arith, f, g)
  | inr (pre, b, post, eq, same, f) ↦ elim (snoc-cases post) [
    | inl e ↦
        let whole = eq ∙ ap (λ t. pre ++ b ∷ t) e in
        let out =
          remove_handler-moved h bs (0 + length pre) f
          ∙ ap₂ moved whole (zero-add (length pre))
          ∙ moved-end pre b in
        ground (
          arith,
          ap (registered k) out,
          ap (registered k) whole,
          same,
          registered-append k pre (b ∷ []),
        )
    | inr (mid, z, e) ↦
        let whole = eq ∙ ap (λ t. pre ++ b ∷ t) e in
        let out =
          remove_handler-moved h bs (0 + length pre) f
          ∙ ap₂ moved whole (zero-add (length pre))
          ∙ moved-middle pre b mid z in
        ground (
          arith,
          ap (registered k) out,
          ap (registered k) whole,
          same,
          registered-append k pre (b ∷ (mid ++ z ∷ [])),
          registered-append k pre (z ∷ mid),
          registered-append k mid (z ∷ []),
        )
  ]
]

-- Registration and removal on the list of handlers, and how often any handler `k` is registered
-- after them: adding `h` registers it once if it was not there, and changes nothing otherwise;
-- removing `h` takes away one of its registrations if it has one; no other handler is registered
-- more or less often than before.
pub handlers_lem :
    (h k : ℕ) (bs : List BufHandler)
    → (registered k (add_handler h bs)
        ≡ (if h == k && registered h bs == 0 then 1 else registered k bs))
      × (registered k (remove_handler h bs)
          ≡ (if h == k then registered k bs - 1 else registered k bs))
handlers_lem h k bs = (registered-add h k bs, registered-remove h k bs)
