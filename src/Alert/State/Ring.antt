-- ===== src/Alert/State/Ring.antt =====
-- The history of an alertState (alert.go): a ring whose current slot is the current level.
use kapacitor.Prelude.{
  ap₂, ◌⊎◌, ℕ, ◌+◌, ◌-◌, ◌%◌, ◌≤◌, ◌<◌, ◌≡◌, ◌≢◌, ap, ◌∙◌, not, if◌then◌else◌, ◌==◌, ◌&&◌, leb,
  length, set, get_or, length-set, get_or-set_self, get_or-set_ne, arith, dec_lt, get_or-replicate,
  length-replicate, inl, inr,
}
use native.Mathlib.Nat.{mod-eq_of_lt, mod_self}
use kapacitor.Alert.Level.{Level, ok}
use kapacitor.Alert.State.{
  List, ltb, replicate, Floats, AlertNode, AlertState, new_alert_state, current_level, previous_idx,
  push_level, update_flapping, update_expired, add_event,
}

-- The index is in the history, which has two slots at least.
pub record IsValid (a : AlertState) : Type 0 where
  pub idx_in : a.idx < length a.history
  pub two_slots : 2 ≤ length a.history

pub new-IsValid : (h : ℕ) → IsValid (new_alert_state h) × (current_level (new_alert_state h) ≡ ok)
unfolding new_alert_state current_level
new-IsValid h = (
  record { idx_in = ground (arith, len); two_slots = ground (arith, len) },
  get_or-replicate (if ltb h 2 then 2 else h) 0 ok,
)
  where
    len : length (replicate (if ltb h 2 then 2 else h) ok) ≡ (if ltb h 2 then 2 else h)
    len = length-replicate (if ltb h 2 then 2 else h) ok

-- The next slot round the ring, and the way back.
next_slot :
    (idx l : ℕ)
    → idx < l
    → ((idx + 1) % l ≡ idx + 1) × (idx + 1 < l) ⊎ ((idx + 1) % l ≡ 0) × (idx + 1 ≡ l)
next_slot idx l h = elim (dec_lt (idx + 1) l) [
  | yes p ↦ inl (mod-eq_of_lt p, p)
  | no p ↦ inr (ap (λ n. n % l) {x = idx + 1} {y = l} (omega arith) ∙ mod_self l, omega arith)
]

module _ (fl : Floats) {P : Type 0} (n : AlertNode fl P) where
  -- What addEvent does to the fields that the emission reads.
  pub record Added (t : ℕ) (level : Level) (a b : AlertState) : Type 0 where
    pub valid : IsValid b
    pub current : current_level b ≡ level
    pub previous : get_or b.history (previous_idx b) ok ≡ current_level a
    pub changed : b.changed ≡ not (current_level a == level)
    pub same_first : b.first_triggered ≡ a.first_triggered
    pub same_last : b.last_triggered ≡ a.last_triggered
    pub same_inhibited : b.inhibited ≡ a.inhibited
    pub expired : b.expired ≡ (
        not b.changed
        && (not (n.state_changes_only_duration == 0)
            && leb (a.last_triggered + n.state_changes_only_duration) t))

  push_level-Added :
      (level : Level) (a : AlertState)
      → IsValid a
      → let b = push_level fl n level a in
        IsValid b
        × (current_level b ≡ level)
        × (get_or b.history (previous_idx b) ok ≡ current_level a)
  unfolding push_level current_level
  push_level-Added level a v = (
    record { idx_in = ground (arith, len, slot); two_slots = omega (arith, len, v.two_slots) },
    get_or-set_self a.history next level ok (ground (arith, slot)),
    ap (λ i. get_or (set a.history next level) i ok) back
        ∙ get_or-set_ne a.history next a.idx level ok apart,
  )
    where
      next : ℕ
      next = (a.idx + 1) % length a.history

      slot :
          (next ≡ a.idx + 1) × (a.idx + 1 < length a.history)
          ⊎ (next ≡ 0) × (a.idx + 1 ≡ length a.history)
      slot = next_slot a.idx (length a.history) v.idx_in

      len : length (set a.history next level) ≡ length a.history
      len = length-set a.history next level

      apart : next ≢ a.idx
      apart = ground (arith, slot, v.two_slots)

      back : previous_idx (push_level fl n level a) ≡ a.idx
      back = ground (arith, slot, len)

  add_event-fields :
      (t : ℕ) (level : Level) (a : AlertState)
      → let b = add_event fl n t level a in
        let c = push_level fl n level a in
        (b.history ≡ c.history)
        × (b.idx ≡ c.idx)
        × (b.changed ≡ not (current_level a == level))
        × (b.first_triggered ≡ a.first_triggered)
        × (b.last_triggered ≡ a.last_triggered)
        × (b.inhibited ≡ a.inhibited)
        × (b.expired ≡ (
            not b.changed
            && (not (n.state_changes_only_duration == 0)
                && leb (a.last_triggered + n.state_changes_only_duration) t)))
  unfolding add_event update_flapping update_expired push_level current_level
  add_event-fields t level a = ground arith

  pub add_event-Added :
      (t : ℕ) (level : Level) (a : AlertState)
      → IsValid a
      → Added t level a (add_event fl n t level a)
  unfolding current_level
  add_event-Added t level a v =
      let f = add_event-fields t level a in
      let (pv, pc, pp) = push_level-Added level a v in
      record {
        valid = record { idx_in = ground (arith, f, pv); two_slots = ground (arith, f, pv) };
        current = ap₂ (λ (h : List Level) (i : ℕ). get_or h i ok) f.0 f.1 ∙ pc;
        previous =
            ap₂ (λ (h : List Level) (i : ℕ). get_or h (if i == 0 then length h - 1 else i - 1) ok)
              f.0 f.1
            ∙ pp;
        changed = f.2;
        same_first = f.3;
        same_last = f.4;
        same_inhibited = f.5;
        expired = f.6;
      }
