-- ===== src/Window/TimeBuffer/Purge.antt =====
-- purge of windowTimeBuffer (window.go) drops the points that are too old.
mod Loop
use kapacitor.Prelude.{
  ℕ_discrete, All-append_right, subst, ℕ, zero, suc, ◌+◌, ◌-◌, ◌≤◌, ◌<◌, ◌≡◌, refl, sym, ap, ap₂,
  ◌∙◌, inl, inr, List, [], ◌∷◌, ◌++◌, Option, some, Bool, true, false, length, get_elem?,
  get_elem?-append, All, All-append, All-map, Ordered, Ordered-append_left, Ordered-Fails, Fails,
  take_until, drop_until, All-take_until, take_until-append-drop_until, drop_until-append-Fails,
  drop_until-append_snoc, snoc-cases, arith, length-append, append_assoc, append-nil, Bool-cases,
}
use kapacitor.Window.Slots.{slots, slots-append, length-slots, slots_nil}
use kapacitor.Window.TimeBuffer.{TimeBuffer, skip, purge}
use kapacitor.Window.TimeBuffer.Holding.{Linear, Wrapped, Holds}
pub use Loop.{Purged}
use Loop.{newest_lem, purge_piece, purge_front, purge_round}

-- The buffer is full and its oldest point stands behind the end of the slice: it was emptied when
-- `start` had reached the end, and then filled from the first slot on.
abbrev pub AtEnd : {P : Type 0} → TimeBuffer P → Type 0
AtEnd b = (0 < b.size) × (b.size ≡ b.cap) × (b.start ≡ b.cap)

module _ {P : Type 0} (include : P → Bool) (Dead : P → Type 0)
    (old : (p : P) → Dead p → include p ≡ false) where
  fails : (ps : List P) → All Dead ps → All (Fails include) ps
  fails ps h = All-map Dead old ps h

  -- No slot at all: nothing is read.
  purge_none : (b : TimeBuffer P) → b.window ≡ [] → purge include b ≡ some b
  unfolding purge
  purge_none b e = ground (arith, ap length e)

  -- No live point: the loop runs over dead ones.
  purge_dead :
      (b : TimeBuffer P) (before after : List P)
      → b.window ≡ slots (before ++ after)
      → b.start ≡ length before
      → b.stop ≡ length before
      → b.size ≡ 0
      → length b.window ≤ b.cap
      → All (Fails include) before
      → All (Fails include) after
      → Purged include b []
  purge_dead b before after layout start_at stop_at size_at fits bd ad =
      elim (snoc-cases (before ++ after)) [
        | inl e ↦ (
          b,
          purge_none b (layout ∙ ap slots e),
          inl (record {
            before = before;
            after = after;
            layout = layout;
            start_at = start_at;
            stop_at = omega arith;
            size_at = size_at;
            fits = fits;
            before_dead = bd;
            after_dead = ad;
          }),
        )
        | inr (ys, y, e) ↦ subst (Purged include b) none_kept (
            purge_front include b before after ys y e layout stop_at (omega arith) fits ad
              (All-append_right (Fails include) ys (y ∷ [])
                (subst (All (Fails include)) e (All-append (Fails include) before after bd ad))).0)
      ]
    where
      none_kept : drop_until include before ≡ []
      none_kept =
          ap (drop_until include) (sym (append-nil before))
          ∙ drop_until-append-Fails include before [] bd

  purge-Linear :
      {b : TimeBuffer P} {q : List P} → Linear Dead b q → Purged include b (drop_until include q)
  purge-Linear {b} {q = []} h =
      purge_dead b h.before h.after h.layout h.start_at (omega (arith, h.stop_at)) h.size_at h.fits
        (fails h.before h.before_dead) (fails h.after h.after_dead)
  purge-Linear {b} {q = x ∷ q} h =
      purge_piece include b h.before (x ∷ q) h.after h.layout h.start_at h.stop_at h.fits
        (fails h.before h.before_dead) (fails h.after h.after_dead) (omega arith)

  -- The live points go round, and the one before the end of the slice is too old.
  purge_stale :
      {b : TimeBuffer P} {q : List P} (h : Wrapped Dead b q) (y : P) (ys : List P)
      → h.gap ++ h.front ≡ ys ++ y ∷ []
      → All (Fails include) h.front
      → Purged include b (drop_until include q)
  purge_stale {b} {q} h y ys e ff = subst (Purged include b) kept (
      purge_front include b h.back (h.gap ++ h.front) (h.back ++ ys) y
        (ap (λ t. h.back ++ t) e ∙ sym (append_assoc h.back ys (y ∷ []))) h.layout h.stop_at
        (omega (arith, h.start_at, h.stop_at)) (omega (arith, h.fits)) rest
        (All-append_right (Fails include) ys (y ∷ []) (subst (All (Fails include)) e rest)).0)
    where
      rest : All (Fails include) (h.gap ++ h.front)
      rest = All-append (Fails include) h.gap h.front (fails h.gap h.gap_dead) ff

      kept : drop_until include h.back ≡ drop_until include q
      kept =
          sym (ap (drop_until include) h.order ∙ drop_until-append-Fails include h.front h.back ff)

  purge-Wrapped :
      {b : TimeBuffer P} {q : List P}
      → Wrapped Dead b q
      → Ordered include q
      → ¬ AtEnd b
      → Purged include b (drop_until include q)
  purge-Wrapped {b} {q} h sorted free = elim (snoc-cases h.front) [
    | inl no_front ↦ elim (snoc-cases h.gap) [
      | inl no_gap ↦ elim (ℕ_discrete b.size 0) [
        | yes none_live ↦
            subst (λ t. Purged include b (drop_until include t))
              (sym (nil q (omega (arith, h.size_at))))
              (purge_dead b [] []
                (h.layout
                  ∙ slots_nil (h.back ++ (h.gap ++ h.front)) (omega (arith, sizes no_gap no_front)))
                (omega (arith, sizes no_gap no_front, h.start_at))
                (omega (arith, sizes no_gap no_front, h.stop_at)) none_live (omega (arith, h.fits))
                tt tt)
        | no live ↦
            absurd (free (omega (arith, sizes no_gap no_front, h.start_at, h.size_at, h.fits)))
      ]
      | inr (gs, g, e) ↦
          purge_stale h g gs (ap₂ ◌++◌ e no_front ∙ append-nil (gs ++ g ∷ []))
            (subst (All (Fails include)) (sym no_front) tt)
    ]
    | inr (fs, f, e) ↦ elim (Bool-cases (include f)) [
      | inl kept ↦
          subst (λ t. Purged include b (drop_until include t))
            (sym (h.order ∙ ap (λ t. t ++ h.back) e))
            (purge_round include b h.back h.gap fs f
              (h.layout ∙ ap (λ t. slots (h.back ++ (h.gap ++ t))) e) h.start_at h.stop_at h.fits
              (fails h.gap h.gap_dead) kept)
      | inr stale ↦
          purge_stale h f (h.gap ++ fs)
            (ap (λ t. h.gap ++ t) e ∙ sym (append_assoc h.gap fs (f ∷ [])))
            (subst (All (Fails include)) (sym e) (
              Ordered-Fails include fs f
                (subst (Ordered include) e (
                  Ordered-append_left include h.front h.back
                    (subst (Ordered include) h.order sorted)))
                stale))
    ]
  ]
    where
      nil : (ps : List P) → length ps ≡ 0 → ps ≡ []
      nil [] e = refl
      nil (p ∷ ps) e = absurd (omega arith)

      sizes :
          h.gap ≡ []
          → h.front ≡ []
          → (length q ≡ length h.back)
            × (length b.window ≡ length h.back)
            × (length (h.back ++ (h.gap ++ h.front)) ≡ length h.back)
            × (length h.gap ≡ 0)
      sizes eg ef = omega (
        arith,
        ap length eg,
        ap length ef,
        ap length h.order,
        length-append {0} h.front h.back,
        ap length h.layout,
        length-slots (h.back ++ (h.gap ++ h.front)),
        length-append {0} h.back (h.gap ++ h.front),
        length-append {0} h.gap h.front,
      )

  -- purge on a buffer that holds some points, in whose other slots are only points that are not to
  -- be kept: it never panics, and where the points held are in order (behind one to keep all are),
  -- it keeps exactly those from the first to keep on, unless the buffer is full with `start` at
  -- its end.
  pub purge-Holds :
      {b : TimeBuffer P} {q : List P}
      → Holds Dead b q
      → Ordered include q
      → ¬ AtEnd b
      → Purged include b (drop_until include q)
  purge-Holds (inl h) sorted free = purge-Linear h
  purge-Holds (inr h) sorted free = purge-Wrapped h sorted free

  -- A full buffer with `start` at its end keeps all the points that it holds, however old, as long
  -- as the newest of them is to be kept; the other slots hold only points that are not.
  pub purge-AtEnd :
      {b : TimeBuffer P} (ys : List P) (y : P)
      → Holds Dead b (ys ++ y ∷ [])
      → AtEnd b
      → include y ≡ true
      → purge include b ≡ some b
  unfolding purge skip
  purge-AtEnd {b} ys y (inl h) end kept = absurd (
      omega (
        arith,
        h.size_at,
        h.start_at,
        h.fits,
        ap length h.layout,
        length-slots (h.before ++ ((ys ++ y ∷ []) ++ h.after)),
        length-append {0} h.before ((ys ++ y ∷ []) ++ h.after),
        length-append {0} (ys ++ y ∷ []) h.after,
      ))
  purge-AtEnd {b} ys y (inr h) end kept = ground (arith, newest, h.fits, sizes, h.stop_at)
    where
      sizes : (length h.back ≡ b.cap) × (length h.gap ≡ 0) × (length h.front ≡ 0)
      sizes = omega (
        arith,
        h.size_at,
        h.start_at,
        h.fits,
        ap length h.order,
        length-append {0} h.front h.back,
        ap length h.layout,
        length-slots (h.back ++ (h.gap ++ h.front)),
        length-append {0} h.back (h.gap ++ h.front),
        length-append {0} h.gap h.front,
      )

      nil : (ps : List P) → length ps ≡ 0 → ps ≡ []
      nil [] e = refl
      nil (p ∷ ps) e = absurd (omega arith)

      newest : get_elem? b.window (length b.window - 1) ≡ some (some y)
      newest = newest_lem include b.window ys y (
          h.layout
          ∙ ap slots (
              ap (λ t. h.back ++ t) (ap₂ ◌++◌ (nil h.gap sizes.1) (nil h.front sizes.2))
              ∙ append-nil h.back
              ∙ sym (h.order ∙ ap (λ t. t ++ h.back) (nil h.front sizes.2))))
