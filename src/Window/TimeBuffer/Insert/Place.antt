-- ===== src/Window/TimeBuffer/Insert/Place.antt =====
-- The write of a point in insert of windowTimeBuffer (window.go).
use kapacitor.Prelude.{
  ℕ, suc, ◌+◌, ◌≤◌, ◌<◌, ◌≡◌, refl, sym, ap, ◌∙◌, inl, inr, List, [], ◌∷◌, ◌++◌, some, length, set,
  set_at, length-set, All, arith, length-append, append_assoc, append-nil, dec_lt,
}
use kapacitor.Window.Slots.{slots, slots-append, length-slots}
use kapacitor.Window.TimeBuffer.{TimeBuffer, place}
use kapacitor.Window.TimeBuffer.Holding.{Linear, Wrapped, Holds}

module _ {P : Type 0} where
  -- The three ways in which `place` writes.
  pub place-set :
      (p : P) (b : TimeBuffer P)
      → b.stop < length b.window
      → place p b
        ≡ some (record b {
          window = set b.window b.stop (some p);
          size = b.size + 1;
          stop = b.stop + 1;
        })
  unfolding place
  place-set p b h = ground arith

  place_append :
      (p : P) (b : TimeBuffer P)
      → b.stop ≡ length b.window
      → length b.window < b.cap
      → place p b
        ≡ some (record b { window = b.window ++ some p ∷ []; size = b.size + 1; stop = b.stop + 1 })
  unfolding place
  place_append p b h k = ground arith

  place_wrap :
      (p : P) (b : TimeBuffer P)
      → b.stop ≡ length b.window
      → length b.window ≡ b.cap
      → 0 < length b.window
      → place p b
        ≡ some (record b { window = set b.window 0 (some p); size = b.size + 1; stop = 0 + 1 })
  unfolding place
  place_wrap p b h k pos = ground arith

  -- A write just behind `xs`.
  set-slots :
      (xs ys : List P) (y p : P) (i : ℕ)
      → i ≡ length xs
      → set (slots (xs ++ y ∷ ys)) i (some p) ≡ slots ((xs ++ p ∷ []) ++ ys)
  set-slots xs ys y p i h =
      ap (λ w. set w i (some p)) (slots-append xs (y ∷ ys))
      ∙ set_at (slots xs) (some y) (slots ys) (some p) i (h ∙ sym (length-slots xs))
      ∙ sym (slots-append xs (p ∷ ys))
      ∙ ap slots (sym (append_assoc xs (p ∷ []) ys))

  module _ (Dead : P → Type 0) (p : P) where
    abbrev pub Placed : TimeBuffer P → List P → Type 0
    Placed b q = (b' : TimeBuffer P) × (place p b ≡ some b') × Holds Dead b' (q ++ p ∷ [])

    len : (q : List P) → length (q ++ p ∷ []) ≡ length q + 1
    len q = length-append q (p ∷ [])

    -- A dead slot behind the live points is written.
    place_over :
        (b : TimeBuffer P) (before q after : List P) (a : P)
        → b.window ≡ slots (before ++ (q ++ a ∷ after))
        → b.start ≡ length before
        → b.stop ≡ length before + length q
        → b.size ≡ length q
        → length b.window ≤ b.cap
        → All Dead before
        → All Dead (a ∷ after)
        → Placed b q
    place_over b before q after a layout start_at stop_at size_at fits bd ad = (
      record b { window = set b.window b.stop (some p); size = b.size + 1; stop = b.stop + 1 },
      place-set p b (
          omega (
            arith,
            ap length layout,
            length-slots (before ++ (q ++ a ∷ after)),
            length-append {0} before (q ++ a ∷ after),
            length-append {0} q (a ∷ after),
          )),
      inl (record {
        before = before;
        after = after;
        layout =
            ap (λ w. set w b.stop (some p))
              (layout ∙ ap slots (sym (append_assoc before q (a ∷ after))))
            ∙ set-slots (before ++ q) after a p b.stop (omega (arith, length-append {0} before q))
            ∙ ap slots (
                ap (λ t. t ++ after) (append_assoc before q (p ∷ []))
                ∙ append_assoc before (q ++ p ∷ []) after);
        start_at = start_at;
        stop_at = omega (arith, len q);
        size_at = omega (arith, len q);
        fits = omega (arith, length-set {0} b.window b.stop (some p));
        before_dead = bd;
        after_dead = ad.1;
      }),
    )

    -- The slice is not as long as its capacity: it is extended.
    place_extend :
        (b : TimeBuffer P) (before q : List P)
        → b.window ≡ slots (before ++ q)
        → b.start ≡ length before
        → b.stop ≡ length before + length q
        → b.size ≡ length q
        → length b.window < b.cap
        → All Dead before
        → Placed b q
    place_extend b before q layout start_at stop_at size_at room bd = (
      record b { window = b.window ++ some p ∷ []; size = b.size + 1; stop = b.stop + 1 },
      place_append p b
          (omega (arith, ap length layout, length-slots (before ++ q), length-append {0} before q))
          room,
      inl (record {
        before = before;
        after = [];
        layout =
            ap (λ w. w ++ some p ∷ []) layout
            ∙ sym (slots-append (before ++ q) (p ∷ []))
            ∙ ap slots (
                append_assoc before q (p ∷ [])
                ∙ ap (λ t. before ++ t) (sym (append-nil (q ++ p ∷ []))));
        start_at = start_at;
        stop_at = omega (arith, len q);
        size_at = omega (arith, len q);
        fits = omega (arith, length-append {0} b.window (some p ∷ []));
        before_dead = bd;
        after_dead = tt;
      }),
    )

    -- The slice is full up to its end: the write goes round to the first slot.
    place_round :
        (b : TimeBuffer P) (d : P) (before q : List P)
        → b.window ≡ slots ((d ∷ before) ++ q)
        → b.start ≡ suc (length before)
        → b.stop ≡ suc (length before) + length q
        → b.size ≡ length q
        → length b.window ≡ b.cap
        → All Dead before
        → Placed b q
    place_round b d before q layout start_at stop_at size_at full bd = (
      record b { window = set b.window 0 (some p); size = b.size + 1; stop = 0 + 1 },
      place_wrap p b
          (omega (arith, ap length layout, length-slots (before ++ q), length-append {0} before q))
          full (omega (arith, ap length layout)),
      inr (record {
        back = p ∷ [];
        gap = before;
        front = q;
        order = refl;
        layout = ap (λ w. set w 0 (some p)) layout;
        start_at = omega arith;
        stop_at = refl;
        size_at = omega (arith, len q);
        fits = omega (arith, length-set {0} b.window 0 (some p));
        gap_dead = bd;
      }),
    )

    -- The live points go round already: the next dead slot of the gap is written.
    place_gap :
        (b : TimeBuffer P) (back gap front q : List P) (d : P)
        → q ≡ front ++ back
        → b.window ≡ slots (back ++ (d ∷ gap ++ front))
        → b.start ≡ length back + suc (length gap)
        → b.stop ≡ length back
        → b.size ≡ length q
        → length b.window ≡ b.cap
        → All Dead gap
        → Placed b q
    place_gap b back gap front q d order layout start_at stop_at size_at full gd = (
      record b { window = set b.window b.stop (some p); size = b.size + 1; stop = b.stop + 1 },
      place-set p b (
          omega (
            arith,
            ap length layout,
            length-slots (back ++ (d ∷ gap ++ front)),
            length-append {0} back (d ∷ gap ++ front),
          )),
      inr (record {
        back = back ++ p ∷ [];
        gap = gap;
        front = front;
        order = ap (λ t. t ++ p ∷ []) order ∙ append_assoc front back (p ∷ []);
        layout =
            ap (λ w. set w b.stop (some p)) layout
            ∙ set-slots back (gap ++ front) d p b.stop stop_at;
        start_at = omega (arith, len back);
        stop_at = omega (arith, len back);
        size_at = omega (arith, len q);
        fits = omega (arith, length-set {0} b.window b.stop (some p));
        gap_dead = gd;
      }),
    )

    pub place-Linear :
        {b : TimeBuffer P} {q : List P} → Linear Dead b q → b.size < b.cap → Placed b q
    place-Linear {b} {q} h room =
        go h.before h.after h.layout h.start_at h.stop_at h.before_dead h.after_dead
      where
        flat :
            (before : List P)
            → b.window ≡ slots (before ++ (q ++ []))
            → b.window ≡ slots (before ++ q)
        flat before e = e ∙ ap (λ t. slots (before ++ t)) (append-nil q)

        end :
            (before : List P)
            → b.window ≡ slots (before ++ q)
            → length b.window ≡ length before + length q
        end before e =
            omega (arith, ap length e, length-slots (before ++ q), length-append {0} before q)

        go :
            (before after : List P)
            → b.window ≡ slots (before ++ (q ++ after))
            → b.start ≡ length before
            → b.stop ≡ length before + length q
            → All Dead before
            → All Dead after
            → Placed b q
        go before (a ∷ after) layout start_at stop_at bd ad =
            place_over b before q after a layout start_at stop_at h.size_at h.fits bd ad
        go [] [] layout start_at stop_at bd ad =
            place_extend b [] q (flat [] layout) start_at stop_at h.size_at
              (omega (arith, end [] (flat [] layout), h.size_at)) tt
        go (d ∷ before) [] layout start_at stop_at bd ad = elim (dec_lt (length b.window) b.cap) [
          | yes more ↦
              place_extend b (d ∷ before) q (flat (d ∷ before) layout) start_at stop_at h.size_at
                more bd
          | no full ↦
              place_round b d before q (flat (d ∷ before) layout) start_at stop_at h.size_at
                (omega (arith, h.fits)) bd.1
        ]

    pub place-Wrapped :
        {b : TimeBuffer P} {q : List P} → Wrapped Dead b q → b.size < b.cap → Placed b q
    place-Wrapped {b} {q} h room = go h.gap h.layout h.start_at h.gap_dead
      where
        go :
            (gap : List P)
            → b.window ≡ slots (h.back ++ (gap ++ h.front))
            → b.start ≡ length h.back + length gap
            → All Dead gap
            → Placed b q
        go [] layout start_at gd = absurd (
            omega (
              arith,
              h.size_at,
              h.fits,
              ap length h.order,
              length-append {0} h.front h.back,
              ap length layout,
              length-slots (h.back ++ h.front),
              length-append {0} h.back h.front,
            ))
        go (d ∷ gap) layout start_at gd =
            place_gap b h.back gap h.front q d h.order layout start_at h.stop_at h.size_at h.fits
              gd.1
