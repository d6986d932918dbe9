-- ===== src/Window/TimeBuffer/Insert.antt =====
-- insert of windowTimeBuffer (window.go) adds the point behind the live ones.
mod Place
use kapacitor.Prelude.{
  ℕ, zero, suc, ◌+◌, ◌-◌, ◌*◌, ◌≤◌, ◌<◌, ◌≡◌, refl, sym, ap, ap₂, ◌∙◌, ◌⊎◌, inl, inr, List, [], ◌∷◌,
  ◌++◌, Option, none, some, ltb, ◌==◌, if◌then◌else◌, length, take, drop, set, set_at, length-set,
  ℕ_discrete, replicate, slice, slice-middle, All, arith, length-append, drop-append, take-append,
  append_assoc, append-nil, dec_lt,
}
use kapacitor.Window.Slots.{fill, fill-full, slots, slots-append, length-slots, slots_nil}
use kapacitor.Window.TimeBuffer.{TimeBuffer, empty, points, place, grow, insert, copy_at, rebased}
use kapacitor.Window.TimeBuffer.Holding.{
  Linear, Wrapped, Holds, live-Linear, older-Wrapped, newer-Wrapped, joined-Wrapped,
}
use Place.{place-Linear, place-Wrapped, place-set}

module _ {P : Type 0} where
  -- A copy into nil slots.
  copy_at-fresh :
      (xs : List (Option P)) (n : ℕ)
      → length xs ≤ n
      → copy_at 0 xs (replicate n none) ≡ xs ++ replicate (n - length xs) none
  copy_at-fresh [] n h = ap (λ k. replicate k none) (omega arith)
  copy_at-fresh (x ∷ xs) zero h = absurd (omega arith)
  copy_at-fresh (x ∷ xs) (suc n) h =
      ap (λ t. x ∷ t)
        (copy_at-fresh xs n (omega arith) ∙ ap (λ k. xs ++ replicate k none) (omega arith))

  -- A copy behind the first elements.
  copy_at-append :
      (xs ys w : List (Option P)) (i : ℕ)
      → i ≡ length xs
      → copy_at i ys (xs ++ w) ≡ xs ++ copy_at 0 ys w
  copy_at-append xs ys w i h = ap (λ k. copy_at k ys (xs ++ w)) h ∙ go xs
    where
      go : (xs : List (Option P)) → copy_at (length xs) ys (xs ++ w) ≡ xs ++ copy_at 0 ys w
      go [] = refl
      go (x ∷ xs) = ap (λ t. x ∷ t) (go xs)

  copy_live :
      (xs : List (Option P)) (n : ℕ)
      → length xs ≡ n
      → copy_at 0 xs (replicate (n + 1) none) ≡ xs ++ none ∷ []
  copy_live xs n h =
      copy_at-fresh xs (n + 1) (omega arith) ∙ ap (λ k. xs ++ replicate k none) (one_left)
    where
      one_left : n + 1 - length xs ≡ 1
      one_left = omega arith

  copy_both :
      (xs ys : List (Option P)) (n i : ℕ)
      → length xs + length ys ≡ n
      → i ≡ length xs
      → copy_at i ys (copy_at 0 xs (replicate (n + 1) none)) ≡ (xs ++ ys) ++ none ∷ []
  copy_both xs ys n i h k =
      ap (copy_at i ys) (copy_at-fresh xs (n + 1) (omega arith))
      ∙ copy_at-append xs ys (replicate (n + 1 - length xs) none) i k
      ∙ ap (λ t. xs ++ t)
          (copy_at-fresh ys (n + 1 - length xs) (omega arith)
            ∙ ap (λ m. ys ++ replicate m none) one_left)
      ∙ sym (append_assoc xs ys (none ∷ []))
    where
      one_left : n + 1 - length xs - length ys ≡ 1
      one_left = omega arith

  module _ (Dead : P → Type 0) where
    grow-Holds :
        {b : TimeBuffer P} {q : List P}
        → Holds Dead b q
        → b.size ≡ b.cap
        → grow b ≡ some (rebased b (slots q ++ none ∷ []))
    unfolding grow
    grow-Holds {b} {q} (inl h) full = ground (
      arith,
      live-Linear Dead h,
      length-slots q,
      copy_live (slots q) b.size,
      slots_nil q,
      h.size_at,
    )
    grow-Holds {b} {q} (inr h) full = ground (
      arith,
      copied,
      older-Wrapped Dead h,
      newer-Wrapped Dead h,
      length-slots h.front,
      length-slots h.back,
      slots_nil q,
      h.size_at,
      h.start_at,
      h.stop_at,
      counts,
      no_gap,
    )
      where
        counts : length q ≡ length h.front + length h.back
        counts = ap length h.order ∙ length-append h.front h.back

        no_gap : length h.gap ≡ 0
        no_gap = omega (
          arith,
          h.fits,
          h.size_at,
          counts,
          ap length h.layout,
          length-slots (h.back ++ (h.gap ++ h.front)),
          length-append {0} h.back (h.gap ++ h.front),
          length-append {0} h.gap h.front,
        )

        copied :
            copy_at
              (b.size - b.start)
              (slots h.back)
              (copy_at 0 (slots h.front) (replicate (b.size + 1) none))
            ≡ slots q ++ none ∷ []
        copied =
            copy_both (slots h.front) (slots h.back) b.size (b.size - b.start)
              (omega (arith, length-slots h.front, length-slots h.back, counts, h.size_at))
              (omega (arith, length-slots h.front, counts, h.size_at, h.start_at, no_gap))
            ∙ ap (λ t. t ++ none ∷ []) (joined-Wrapped Dead h)

    -- After a move the write goes to the nil slot behind the live points.
    regrown :
        (p : P) (b : TimeBuffer P) (q : List P)
        → b.size ≡ length q
        → (b' : TimeBuffer P) × (place p (rebased b (slots q ++ none ∷ [])) ≡ some b')
          × Holds Dead b' (q ++ p ∷ [])
    regrown p b q e = (
      record moved {
        window = set moved.window b.size (some p);
        size = b.size + 1;
        stop = b.size + 1;
      },
      place-set p moved (omega (arith, wide)),
      inl (record {
        before = [];
        after = [];
        layout =
            set_at (slots q) none [] (some p) b.size (omega (arith, length-slots q))
            ∙ sym (slots-append q (p ∷ []))
            ∙ ap slots (sym (append-nil (q ++ p ∷ [])));
        start_at = refl;
        stop_at = omega (arith, length-append {0} q (p ∷ []));
        size_at = omega (arith, length-append {0} q (p ∷ []));
        fits = omega (arith, wide, length-set {0} (slots q ++ none ∷ []) b.size (some p));
        before_dead = tt;
        after_dead = tt;
      }),
    )
      where
        moved : TimeBuffer P
        moved = rebased b (slots q ++ none ∷ [])

        wide : length (slots q ++ none ∷ []) ≡ b.size + 1
        wide = omega (arith, length-append {0} (slots q) (none ∷ []), length-slots q)

    size-le-cap :
        {b : TimeBuffer P} {q : List P} → Holds Dead b q → (b.size ≡ length q) × (b.size ≤ b.cap)
    size-le-cap {b} {q} (inl h) = (
      h.size_at,
      omega (
        arith,
        h.size_at,
        h.fits,
        ap length h.layout,
        length-slots (h.before ++ (q ++ h.after)),
        length-append {0} h.before (q ++ h.after),
        length-append {0} q h.after,
      ),
    )
    size-le-cap {b} {q} (inr h) = (
      h.size_at,
      omega (
        arith,
        h.size_at,
        h.fits,
        ap length h.layout,
        ap length h.order,
        length-append {0} h.front h.back,
        length-slots (h.back ++ (h.gap ++ h.front)),
        length-append {0} h.back (h.gap ++ h.front),
        length-append {0} h.gap h.front,
      ),
    )

    place-Holds :
        (p : P) {b : TimeBuffer P} {q : List P}
        → Holds Dead b q
        → b.size < b.cap
        → (b' : TimeBuffer P) × (place p b ≡ some b') × Holds Dead b' (q ++ p ∷ [])
    place-Holds p (inl h) room = place-Linear Dead p h room
    place-Holds p (inr h) room = place-Wrapped Dead p h room

    -- insert on a buffer that holds some points never panics, and the buffer then holds the new
    -- point behind them; what is known of the points in the other slots stays true.
    pub insert-Holds :
        (p : P) {b : TimeBuffer P} {q : List P}
        → Holds Dead b q
        → (b' : TimeBuffer P) × (insert p b ≡ some b') × Holds Dead b' (q ++ p ∷ [])
    unfolding insert
    insert-Holds p {b} {q} h = elim (ℕ_discrete b.size b.cap) [
      | yes full ↦
          let (b', eq, h') = regrown p b q (size-le-cap h).0 in
          (b', ground (arith, grow-Holds h full), h')
      | no room ↦
          let (b', eq, h') = place-Holds p h (omega (arith, size-le-cap h)) in
          (b', ground arith, h')
    ]
