-- ===== src/Window/ByTime/Valid.antt =====
-- What windowByTime (window.go) keeps true between two messages.
use kapacitor.Prelude.{
  ℕ, ◌+◌, ◌≤◌, ◌<◌, ◌≡◌, List, [], ◌∷◌, ◌++◌, Bool, true, false, not, ltb, ◌==◌, if◌then◌else◌,
  arith, inl, inr, All, All-append, All-map, Ordered, select, Bool-cases,
}
use kapacitor.Prelude.Int.{ℤ, sub_ℕ}
use kapacitor.Window.TimeBuffer.{TimeBuffer}
use kapacitor.Window.TimeBuffer.Holding.{Holds, empty-Holds}
use kapacitor.Window.ByTime.{WindowByTime, new_window_by_time, include}

-- A later point is included with an earlier one.
pub include_mono :
    (oldest : ℤ) (inclusive : Bool) (s t : ℕ)
    → s ≤ t
    → include oldest inclusive s ≡ true
    → include oldest inclusive t ≡ true
include_mono oldest inclusive s t h k = ground arith

pub include_left :
    (tick period t : ℕ) → include (sub_ℕ tick period) true t ≡ not (ltb (t + period) tick)
include_left tick period t = ground arith

pub include_right :
    (tick period t : ℕ) → include (sub_ℕ tick period) false t ≡ ltb tick (t + period)
include_right tick period t = ground arith

module _ {P : Type 0} (time : P → ℕ) where
  -- The points are in the order of time.
  abbrev pub Sorted : List P → Type 0
  Sorted [] = Unit {0}
  Sorted (p ∷ ps) = All (λ r. time p ≤ time r) ps × Sorted ps

  pub Sorted-snoc :
      (ps : List P) (p : P) → Sorted ps → All (λ r. time r ≤ time p) ps → Sorted (ps ++ p ∷ [])
  Sorted-snoc [] p h k = (tt, tt)
  Sorted-snoc (x ∷ ps) p h k =
      (All-append (λ r. time x ≤ time r) ps (p ∷ []) h.0 (k.0, tt), Sorted-snoc ps p h.1 k.1)

  pub All-select :
      (Q : P → Type 0) (keep : P → Bool) (ps : List P) → All Q ps → All Q (select keep ps)
  All-select Q keep [] h = tt
  All-select Q keep (x ∷ ps) h = elim (Bool-cases (keep x)) [
    | inl e ↦ rw e (h.0, All-select Q keep ps h.1)
    | inr e ↦ rw e (All-select Q keep ps h.1)
  ]

  pub Sorted-select : (keep : P → Bool) (ps : List P) → Sorted ps → Sorted (select keep ps)
  Sorted-select keep [] h = tt
  Sorted-select keep (x ∷ ps) h = elim (Bool-cases (keep x)) [
    | inl e ↦ rw e (All-select (λ r. time x ≤ time r) keep ps h.0, Sorted-select keep ps h.1)
    | inr e ↦ rw e (Sorted-select keep ps h.1)
  ]

  pub Sorted-Ordered :
      (oldest : ℤ) (inclusive : Bool) (ps : List P)
      → Sorted ps
      → Ordered (λ p. include oldest inclusive (time p)) ps
  Sorted-Ordered oldest inclusive [] h = tt
  Sorted-Ordered oldest inclusive (x ∷ ps) h = (
    λ k.
        All-map (λ r. time x ≤ time r)
          (λ r le. include_mono oldest inclusive (time x) (time r) le k) ps h.0,
    Sorted-Ordered oldest inclusive ps h.1,
  )

  -- A point that no purge to come can keep.
  abbrev pub Dead : WindowByTime P → P → Type 0
  Dead w p = time p + w.period < w.next_emit + (if w.every == 0 then 1 else 0)

  -- The window holds the points `q`, in the order of time.
  pub record Valid (w : WindowByTime P) (q : List P) : Type 0 where
    pub holds : Holds (Dead w) w.buf q
    pub sorted : Sorted q

  pub Holds-map :
      {D E : P → Type 0}
      → ((p : P) → D p → E p)
      → {b : TimeBuffer P} {q : List P} → Holds D b q
      → Holds E b q
  Holds-map {D} f (inl h) = inl (record {
    before = h.before;
    after = h.after;
    layout = h.layout;
    start_at = h.start_at;
    stop_at = h.stop_at;
    size_at = h.size_at;
    fits = h.fits;
    before_dead = All-map D f h.before h.before_dead;
    after_dead = All-map D f h.after h.after_dead;
  })
  Holds-map {D} f (inr h) = inr (record {
    back = h.back;
    gap = h.gap;
    front = h.front;
    order = h.order;
    layout = h.layout;
    start_at = h.start_at;
    stop_at = h.stop_at;
    size_at = h.size_at;
    fits = h.fits;
    gap_dead = All-map D f h.gap h.gap_dead;
  })

  pub new-Valid :
      (t period every : ℕ) (align fill_period : Bool)
      → Valid (new_window_by_time time t period every align fill_period) []
  unfolding new_window_by_time
  new-Valid t period every align fill_period = record { holds = empty-Holds _; sorted = tt }
