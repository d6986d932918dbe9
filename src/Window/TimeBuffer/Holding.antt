-- ===== src/Window/TimeBuffer/Holding.antt =====
-- Which points a windowTimeBuffer (window.go) holds, and that its copy is exactly those.
use kapacitor.Prelude.{
  append_assoc, ℕ, ◌+◌, ◌≤◌, ◌≡◌, refl, sym, ap, ap₂, ◌∙◌, ◌⊎◌, inl, inr, List, [], ◌++◌, Option,
  some, length, take, drop, slice, slice-middle, All, arith, length-append, drop-append,
  take-append,
}
use kapacitor.Window.Slots.{fill-full, slots, slots-append, length-slots, slots_nil}
use kapacitor.Window.TimeBuffer.{TimeBuffer, empty, points}

-- Slots that are not live hold old points, of which `Dead` is known; none is nil.
module _ {P : Type 0} (Dead : P → Type 0) where
  -- The live points stand in one piece.
  pub record Linear (b : TimeBuffer P) (q : List P) : Type 0 where
    pub before : List P
    pub after : List P
    pub layout : b.window ≡ slots (before ++ (q ++ after))
    pub start_at : b.start ≡ length before
    pub stop_at : b.stop ≡ length before + length q
    pub size_at : b.size ≡ length q
    pub fits : length b.window ≤ b.cap
    pub before_dead : All Dead before
    pub after_dead : All Dead after

  -- The live points go round the end of the slice, which is as long as its capacity.
  pub record Wrapped (b : TimeBuffer P) (q : List P) : Type 0 where
    pub back : List P
    pub gap : List P
    pub front : List P
    pub order : q ≡ front ++ back
    pub layout : b.window ≡ slots (back ++ (gap ++ front))
    pub start_at : b.start ≡ length back + length gap
    pub stop_at : b.stop ≡ length back
    pub size_at : b.size ≡ length q
    pub fits : length b.window ≡ b.cap
    pub gap_dead : All Dead gap

  abbrev pub Holds : TimeBuffer P → List P → Type 0
  Holds b q = Linear b q ⊎ Wrapped b q

  pub empty-Holds : Holds empty []
  empty-Holds = inl (record {
    before = [];
    after = [];
    layout = refl;
    start_at = refl;
    stop_at = omega arith;
    size_at = refl;
    fits = omega arith;
    before_dead = tt;
    after_dead = tt;
  })

  -- The parts of the slice that `insert` and `points` copy.
  pub live-Linear :
      {b : TimeBuffer P} {q : List P} → Linear b q → slice b.start b.stop b.window ≡ slots q
  live-Linear {b} {q} h =
      ap (slice b.start b.stop) (
        h.layout
        ∙ slots-append h.before (q ++ h.after)
        ∙ ap (λ t. slots h.before ++ t) (slots-append q h.after))
      ∙ slice-middle (slots h.before) (slots q) (slots h.after) b.start b.stop
          (omega (arith, h.start_at, length-slots h.before))
          (omega (arith, h.stop_at, length-slots h.before, length-slots q))

  pub older-Wrapped :
      {b : TimeBuffer P} {q : List P} (h : Wrapped b q) → drop b.start b.window ≡ slots h.front
  older-Wrapped {b} {q} h =
      ap₂ (λ (n : ℕ) (w : List (Option P)). drop n w) start layout
      ∙ drop-append (slots (h.back ++ h.gap)) (slots h.front)
    where
      start : b.start ≡ length (slots (h.back ++ h.gap))
      start =
          omega (arith, h.start_at, length-slots (h.back ++ h.gap), length-append {0} h.back h.gap)

      layout : b.window ≡ slots (h.back ++ h.gap) ++ slots h.front
      layout =
          h.layout
          ∙ ap slots (sym (append_assoc h.back h.gap h.front))
          ∙ slots-append (h.back ++ h.gap) h.front

  pub newer-Wrapped :
      {b : TimeBuffer P} {q : List P} (h : Wrapped b q) → take b.stop b.window ≡ slots h.back
  newer-Wrapped {b} {q} h =
      ap₂ (λ (n : ℕ) (w : List (Option P)). take n w) (h.stop_at ∙ sym (length-slots h.back))
        (h.layout ∙ slots-append h.back (h.gap ++ h.front))
      ∙ take-append (slots h.back) (slots (h.gap ++ h.front))

  pub joined-Wrapped :
      {b : TimeBuffer P} {q : List P} (h : Wrapped b q) → slots h.front ++ slots h.back ≡ slots q
  joined-Wrapped {b} {q} h = sym (ap slots h.order ∙ slots-append h.front h.back)

  -- A copy of the buffer is exactly the live points, with no panic.
  pub points-Holds : {b : TimeBuffer P} {q : List P} → Holds b q → points b ≡ some (slots q)
  unfolding points
  points-Holds {b} {q} (inl h) =
      ground (arith, live-Linear h, length-slots q, fill-full b.size (slots q), slots_nil q)
  points-Holds {b} {q} (inr h) = ground (
    arith,
    seam,
    length-slots q,
    fill-full b.size (slots q),
    slots_nil q,
    length-append {0} h.back h.gap,
    ap length h.order,
    length-append {0} h.front h.back,
  )
    where
      seam : drop b.start b.window ++ take b.stop b.window ≡ slots q
      seam = ap₂ ◌++◌ (older-Wrapped h) (newer-Wrapped h) ∙ joined-Wrapped h
