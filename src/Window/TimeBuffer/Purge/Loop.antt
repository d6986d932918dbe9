-- ===== src/Window/TimeBuffer/Purge/Loop.antt =====
-- The loops of purge of windowTimeBuffer (window.go): which points they skip.
use kapacitor.Prelude.{
  ℕ, zero, suc, ◌+◌, ◌-◌, ◌≤◌, ◌<◌, ◌≡◌, refl, sym, ap, ap₂, ◌∙◌, inl, inr, List, [], ◌∷◌, ◌++◌,
  Option, some, Bool, true, false, length, get_elem?, get_elem?-append, All, All-append, Fails,
  take_until, drop_until, All-take_until, take_until-append-drop_until, drop_until-append_snoc,
  arith, length-append, append_assoc, append-nil, Bool-cases,
}
use kapacitor.Window.Slots.{slots, slots-append, length-slots}
use kapacitor.Window.TimeBuffer.{TimeBuffer, skip, purge}
use kapacitor.Window.TimeBuffer.Holding.{Holds}

module _ {P : Type 0} (include : P → Bool) where
  -- The loop stops at the first point to keep, or at the end of the run `xs`.
  skip_lem :
      (w : List (Option P)) (d xs e : List P) (rounds i : ℕ)
      → w ≡ slots (d ++ (xs ++ e))
      → i ≡ length d
      → rounds ≡ length xs
      → skip include w rounds i ≡ some (length d + length (take_until include xs))
  unfolding skip
  skip_lem w d [] e zero i hw hi hr = ap some (omega arith)
  skip_lem w d [] e (suc r) i hw hi hr = absurd (omega arith)
  skip_lem w d (x ∷ xs) e zero i hw hi hr = absurd (omega arith)
  skip_lem w d (x ∷ xs) e (suc r) i hw hi hr = elim (Bool-cases (include x)) [
    | inl k ↦ ground (arith, read)
    | inr k ↦ ground (
      arith,
      read,
      next (skip_lem w (d ++ x ∷ []) xs e r (i + 1) longer (omega (arith, len)) (omega arith)),
    )
  ]
    where
      read : get_elem? w i ≡ some (some x)
      read =
          ap₂ (λ (v : List (Option P)) (n : ℕ). get_elem? v n) (hw ∙ slots-append d (x ∷ xs ++ e))
            (hi ∙ sym (length-slots d))
          ∙ get_elem?-append (slots d) (some x) (slots (xs ++ e))

      len : length (d ++ x ∷ []) ≡ length d + 1
      len = length-append d (x ∷ [])

      longer : w ≡ slots ((d ++ x ∷ []) ++ (xs ++ e))
      longer = hw ∙ ap slots (sym (append_assoc d (x ∷ []) (xs ++ e)))

      next :
          skip include w r (i + 1) ≡ some (length (d ++ x ∷ []) + length (take_until include xs))
          → skip include w r (i + 1) ≡ some (length d + suc (length (take_until include xs)))
      next ih = ih ∙ ap some (omega (arith, len))

  pub newest_lem :
      (w : List (Option P)) (ys : List P) (y : P)
      → w ≡ slots (ys ++ y ∷ [])
      → get_elem? w (length w - 1) ≡ some (some y)
  newest_lem w ys y hw =
      ap₂ (λ (v : List (Option P)) (n : ℕ). get_elem? v n) (hw ∙ slots-append ys (y ∷ []))
        (omega (
          arith,
          ap length hw,
          length-slots (ys ++ y ∷ []),
          length-slots ys,
          length-append {0} ys (y ∷ []),
        ))
      ∙ get_elem?-append (slots ys) (some y) []

  take_until-Fails : (xs : List P) → All (Fails include) xs → take_until include xs ≡ xs
  take_until-Fails [] h = refl
  take_until-Fails (x ∷ xs) h = rw h.0 (ap (λ t. x ∷ t) (take_until-Fails xs h.1))

  split :
      (xs : List P) → length (take_until include xs) + length (drop_until include xs) ≡ length xs
  split xs =
      sym (length-append (take_until include xs) (drop_until include xs))
      ∙ ap length (take_until-append-drop_until include xs)

  glue : (xs rest : List P) → take_until include xs ++ (drop_until include xs ++ rest) ≡ xs ++ rest
  glue xs rest =
      sym (append_assoc (take_until include xs) (drop_until include xs) rest)
      ∙ ap (λ t. t ++ rest) (take_until-append-drop_until include xs)

  abbrev pub Purged : TimeBuffer P → List P → Type 0
  Purged b q = (b' : TimeBuffer P) × (purge include b ≡ some b') × Holds (Fails include) b' q

  -- The live points in one piece: the loop runs over them.
  pub purge_piece :
      (b : TimeBuffer P) (before q after : List P)
      → b.window ≡ slots (before ++ (q ++ after))
      → b.start ≡ length before
      → b.stop ≡ length before + length q
      → length b.window ≤ b.cap
      → All (Fails include) before
      → All (Fails include) after
      → 0 < length q
      → Purged b (drop_until include q)
  unfolding purge
  purge_piece b before q after layout start_at stop_at fits bd ad some_live = (
    record b {
      start = length before + length (take_until include q);
      size = b.stop - (length before + length (take_until include q));
    },
    ground (arith, skipped, whole),
    inl (record {
      before = before ++ take_until include q;
      after = after;
      layout =
          layout
          ∙ ap slots (
              ap (λ t. before ++ t) (sym (glue q after))
              ∙ sym (append_assoc before (take_until include q) (drop_until include q ++ after)));
      start_at = sym (length-append before (take_until include q));
      stop_at = omega (arith, length-append {0} before (take_until include q), split q);
      size_at = omega (arith, split q);
      fits = fits;
      before_dead =
          All-append (Fails include) before (take_until include q) bd (All-take_until include q);
      after_dead = ad;
    }),
  )
    where
      skipped :
          skip include b.window (b.stop - b.start) b.start
          ≡ some (length before + length (take_until include q))
      skipped =
          skip_lem b.window before q after (b.stop - b.start) b.start layout start_at (omega arith)

      whole : length b.window ≡ length before + length q + length after
      whole = omega (
        arith,
        ap length layout,
        length-slots (before ++ (q ++ after)),
        length-append {0} before (q ++ after),
        length-append {0} q after,
      )

  -- The newest slot is too old: only the points from the first slot on may be kept.
  pub purge_front :
      (b : TimeBuffer P) (back rest ys : List P) (y : P)
      → back ++ rest ≡ ys ++ y ∷ []
      → b.window ≡ slots (back ++ rest)
      → b.stop ≡ length back
      → b.stop ≤ b.start
      → length b.window ≤ b.cap
      → All (Fails include) rest
      → include y ≡ false
      → Purged b (drop_until include back)
  unfolding purge
  purge_front b back rest ys y last layout stop_at round fits rd old = (
    record b {
      start = length (take_until include back);
      size = b.stop - length (take_until include back);
    },
    ground (arith, newest, skipped, whole),
    inl (record {
      before = take_until include back;
      after = rest;
      layout = layout ∙ ap slots (sym (glue back rest));
      start_at = refl;
      stop_at = omega (arith, split back);
      size_at = omega (arith, split back);
      fits = fits;
      before_dead = All-take_until include back;
      after_dead = rd;
    }),
  )
    where
      newest : get_elem? b.window (length b.window - 1) ≡ some (some y)
      newest = newest_lem b.window ys y (layout ∙ ap slots last)

      skipped : skip include b.window b.stop 0 ≡ some (length (take_until include back))
      skipped = skip_lem b.window [] back rest b.stop 0 layout refl stop_at ∙ ap some (omega arith)

      whole : length b.window ≡ length ys + 1
      whole = omega (
        arith,
        ap length (layout ∙ ap slots last),
        length-slots (ys ++ y ∷ []),
        length-append {0} ys (y ∷ []),
      )

  -- The newest slot is kept: the loop runs from `start` to the end of the slice.
  pub purge_round :
      (b : TimeBuffer P) (back gap front : List P) (y : P)
      → b.window ≡ slots (back ++ (gap ++ (front ++ y ∷ [])))
      → b.start ≡ length back + length gap
      → b.stop ≡ length back
      → length b.window ≡ b.cap
      → All (Fails include) gap
      → include y ≡ true
      → Purged b (drop_until include ((front ++ y ∷ []) ++ back))
  unfolding purge
  purge_round b back gap front y layout start_at stop_at fits gd kept = (
    record b {
      start = b.start + length (take_until include (front ++ y ∷ []));
      size = length b.window - (b.start + length (take_until include (front ++ y ∷ []))) + b.stop;
    },
    ground (arith, newest, skipped, whole, length-append front (y ∷ [])),
    inr (record {
      back = back;
      gap = gap ++ take_until include (front ++ y ∷ []);
      front = drop_until include (front ++ y ∷ []);
      order = drop_until-append_snoc include front y back kept;
      layout =
          layout
          ∙ ap (λ t. slots (back ++ t))
              (ap (λ t. gap ++ t) (sym (take_until-append-drop_until include (front ++ y ∷ [])))
                ∙ sym (
                    append_assoc gap (take_until include (front ++ y ∷ []))
                      (drop_until include (front ++ y ∷ []))));
      start_at = omega (arith, length-append {0} gap (take_until include (front ++ y ∷ [])));
      stop_at = stop_at;
      size_at = omega (
        arith,
        whole,
        split (front ++ y ∷ []),
        ap length (drop_until-append_snoc include front y back kept),
        length-append {0} (drop_until include (front ++ y ∷ [])) back,
      );
      fits = fits;
      gap_dead =
          All-append (Fails include) gap (take_until include (front ++ y ∷ [])) gd
            (All-take_until include (front ++ y ∷ []));
    }),
  )
    where
      newest : get_elem? b.window (length b.window - 1) ≡ some (some y)
      newest = newest_lem b.window (back ++ (gap ++ front)) y (
          layout
          ∙ ap slots (
              sym (
                append_assoc back (gap ++ front) (y ∷ [])
                ∙ ap (λ t. back ++ t) (append_assoc gap front (y ∷ [])))))

      whole : length b.window ≡ length back + length gap + length (front ++ y ∷ [])
      whole = omega (
        arith,
        ap length layout,
        length-slots (back ++ (gap ++ (front ++ y ∷ []))),
        length-append {0} back (gap ++ (front ++ y ∷ [])),
        length-append {0} gap (front ++ y ∷ []),
      )

      skipped :
          skip include b.window (length b.window - b.start) b.start
          ≡ some (b.start + length (take_until include (front ++ y ∷ [])))
      skipped =
          skip_lem b.window (back ++ gap) (front ++ y ∷ []) [] (length b.window - b.start) b.start
            (layout
              ∙ ap slots (
                  sym (append_assoc back gap (front ++ y ∷ []))
                  ∙ ap (λ t. (back ++ gap) ++ t) (sym (append-nil (front ++ y ∷ [])))))
            (omega (arith, length-append {0} back gap)) (omega (arith, whole))
          ∙ ap some (omega (arith, length-append {0} back gap))
