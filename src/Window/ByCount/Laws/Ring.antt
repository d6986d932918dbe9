-- ===== src/Window/ByCount/Laws/Ring.antt =====
-- The slots of windowByCount (window.go) hold the last `period` points in order.
use kapacitor.Prelude.{
  ◌≢◌, length-replicate, ℕ, suc, ◌+◌, ◌-◌, ◌%◌, ◌<◌, ◌≡◌, refl, sym, ap, subst, ap₂, ◌∙◌, ◌⊎◌, inl,
  inr, List, [], ◌∷◌, ◌++◌, Option, none, some, Bool, length, set, take, drop, replicate, slice,
  last, arith, length-append, append_assoc, append-nil, set_at, dec_lt, take-append, drop-append,
  drop-eq_self, slice-middle,
}
use native.Mathlib.Nat.{mod-eq_of_lt, mod_self}
use kapacitor.Window.Slots.{fill-full, copy_to-full, slots, slots-append, length-slots, slots_nil}
use kapacitor.Window.ByCount.{batch, WindowByCount, new_window_by_count, points, advance}

module _ {P : Type 0} where
  -- The slots are written from the front and are not all written yet.
  pub record Filling (w : WindowByCount P) (q : List P) : Type 0 where
    pub room : length q < w.period
    pub start_zero : w.start ≡ 0
    pub stop_at : w.stop ≡ length q
    pub size_at : w.size ≡ length q
    pub layout : w.buf ≡ slots q ++ replicate (w.period - length q) none

  -- All slots are written; the oldest point is the first of `front`.
  pub record Full (w : WindowByCount P) (q : List P) : Type 0 where
    pub back : List P
    pub front : List P
    pub order : q ≡ front ++ back
    pub full : length front + length back ≡ w.period
    pub inside : length back < w.period
    pub start_at : w.start ≡ length back
    pub stop_at : w.stop ≡ length back
    pub size_at : w.size ≡ w.period
    pub layout : w.buf ≡ slots (back ++ front)

  abbrev pub Holds : WindowByCount P → List P → Type 0
  Holds w q = Filling w q ⊎ Full w q

  pub new-Holds :
      (period every : ℕ) (fill_period : Bool)
      → 0 < period
      → Holds (new_window_by_count period every fill_period) []
  unfolding new_window_by_count
  new-Holds period every b h = inl (record {
    room = h;
    start_zero = refl;
    stop_at = refl;
    size_at = refl;
    layout = ap (λ n. replicate n none) (omega arith);
  })

  set-filling :
      (q : List P) (period : ℕ) (p : P)
      → length q < period
      → set (slots q ++ replicate (period - length q) none) (length q) (some p)
        ≡ slots (q ++ p ∷ []) ++ replicate (period - suc (length q)) none
  set-filling q period p h = rw more (
      set_at (slots q) none rest (some p) (length q) (sym (length-slots q))
      ∙ sym (append_assoc (slots q) (some p ∷ []) rest)
      ∙ ap (λ t. t ++ rest) (sym (slots-append q (p ∷ []))))
    where
      rest : List (Option P)
      rest = replicate (period - suc (length q)) none

      more : period - length q ≡ suc (period - suc (length q))
      more = omega arith

  set-full :
      (back front : List P) (f p : P)
      → set (slots (back ++ f ∷ front)) (length back) (some p) ≡ slots ((back ++ p ∷ []) ++ front)
  set-full back front f p =
      ap (λ t. set t (length back) (some p)) (slots-append back (f ∷ front))
      ∙ set_at (slots back) (some f) (slots front) (some p) (length back) (sym (length-slots back))
      ∙ sym (slots-append back (p ∷ front))
      ∙ ap slots (sym (append_assoc back (p ∷ []) front))

  -- One point more: the oldest is dropped when `period` points are held.
  abbrev pub push : ℕ → List P → P → List P
  push period q p = last period (q ++ p ∷ [])

  push-room : (period : ℕ) (q : List P) (p : P) → length q < period → push period q p ≡ q ++ p ∷ []
  push-room period q p h =
      drop-eq_self (q ++ p ∷ []) _ (omega (arith, length-append {0} q (p ∷ [])))

  push-full :
      (period : ℕ) (x : P) (q : List P) (p : P)
      → suc (length q) ≡ period
      → push period (x ∷ q) p ≡ q ++ p ∷ []
  push-full period x q p h = rw one
    where
      one : suc (length (q ++ p ∷ [])) - period ≡ 1
      one = omega (arith, length-append {0} q (p ∷ []))

  module _ (p : P) {w : WindowByCount P} {q : List P} where
    advance-buf :
        Filling w q
        → (advance p w).buf ≡ slots (q ++ p ∷ []) ++ replicate (w.period - suc (length q)) none
    unfolding advance
    advance-buf h =
        ap₂ (λ (b : List (Option P)) (i : ℕ). set b i (some p)) h.layout h.stop_at
        ∙ set-filling q w.period p h.room

    advance-Filling : Filling w q → Holds (advance p w) (push w.period q p)
    unfolding advance
    advance-Filling h = rw (push-room w.period q p h.room) (elim (dec_lt (length q + 1) w.period) [
      | yes more ↦ inl (record {
        room = omega (arith, len);
        start_zero = ground arith;
        stop_at = ap (λ n. (n + 1) % w.period) h.stop_at ∙ mod-eq_of_lt more ∙ omega (arith, len);
        size_at = ground (arith, len);
        layout =
            advance-buf h
            ∙ ap (λ n. slots (q ++ p ∷ []) ++ replicate (w.period - n) none) (omega (arith, len));
      })
      | no done ↦ inr (record {
        back = [];
        front = q ++ p ∷ [];
        order = sym (append-nil (q ++ p ∷ []));
        full = omega (arith, len);
        inside = omega arith;
        start_at = ground arith;
        stop_at = ap (λ n. n % w.period) (omega arith) ∙ mod_self w.period;
        size_at = ground (arith, len);
        layout =
            advance-buf h
            ∙ ap (λ n. slots (q ++ p ∷ []) ++ replicate n none) (no_room done)
            ∙ append-nil _;
      })
    ])
      where
        len : length (q ++ p ∷ []) ≡ length q + 1
        len = length-append q (p ∷ [])

        no_room : ¬ (length q + 1 < w.period) → w.period - suc (length q) ≡ 0
        no_room done = omega arith

  -- The slot of the oldest point takes the new one.
  advance-Full_shape :
      (p : P) (w : WindowByCount P) (back front : List P) (f : P)
      → suc (length front) + length back ≡ w.period
      → w.start ≡ length back
      → w.stop ≡ length back
      → w.size ≡ w.period
      → w.buf ≡ slots (back ++ f ∷ front)
      → Full (advance p w) (front ++ back ++ p ∷ [])
  unfolding advance
  advance-Full_shape p w back [] f full start_at stop_at size_at layout = record {
    back = [];
    front = back ++ p ∷ [];
    order = sym (append-nil (back ++ p ∷ []));
    full = omega (arith, len);
    inside = omega arith;
    start_at = ground (arith, wrap start_at);
    stop_at = wrap stop_at;
    size_at = ground arith;
    layout = written;
  }
    where
      len : length (back ++ p ∷ []) ≡ length back + 1
      len = length-append back (p ∷ [])

      wrap : {n : ℕ} → n ≡ length back → (n + 1) % w.period ≡ 0
      wrap e = ap (λ m. m % w.period) (omega arith) ∙ mod_self w.period

      written : set w.buf w.stop (some p) ≡ slots (back ++ p ∷ [])
      written =
          ap₂ (λ (b : List (Option P)) (i : ℕ). set b i (some p)) layout stop_at
          ∙ set-full back [] f p
          ∙ ap slots (append-nil (back ++ p ∷ []))
  advance-Full_shape p w back (g ∷ front) f full start_at stop_at size_at layout = record {
    back = back ++ p ∷ [];
    front = g ∷ front;
    order = append_assoc (g ∷ front) back (p ∷ []);
    full = omega (arith, len);
    inside = omega (arith, len);
    start_at = ground (arith, step start_at, len);
    stop_at = step stop_at ∙ sym len;
    size_at = ground arith;
    layout =
        ap₂ (λ (b : List (Option P)) (i : ℕ). set b i (some p)) layout stop_at
        ∙ set-full back (g ∷ front) f p;
  }
    where
      len : length (back ++ p ∷ []) ≡ length back + 1
      len = length-append back (p ∷ [])

      step : {n : ℕ} → n ≡ length back → (n + 1) % w.period ≡ length back + 1
      step e = ap (λ m. (m + 1) % w.period) e ∙ mod-eq_of_lt (omega arith)

  advance-Full :
      (p : P) {w : WindowByCount P} {q : List P} → Full w q → Full (advance p w) (push w.period q p)
  advance-Full p {w} {q} h = go h.front h.order h.full h.layout
    where
      go :
          (front : List P)
          → q ≡ front ++ h.back
          → length front + length h.back ≡ w.period
          → w.buf ≡ slots (h.back ++ front)
          → Full (advance p w) (push w.period q p)
      go [] order full layout = absurd (omega (arith, h.inside))
      go (f ∷ front) order full layout =
          subst (Full (advance p w)) (sym eq)
            (advance-Full_shape p w h.back front f full h.start_at h.stop_at h.size_at layout)
        where
          eq : push w.period q p ≡ front ++ h.back ++ p ∷ []
          eq =
              ap (λ t. push w.period t p) order
              ∙ push-full w.period f (front ++ h.back) p
                  (omega (arith, length-append {0} front h.back))

  -- The oldest point goes when the window is full, the new one comes last.
  pub advance-Holds :
      (p : P) {w : WindowByCount P} {q : List P}
      → Holds w q
      → Holds (advance p w) (push w.period q p)
  advance-Holds p (inl h) = advance-Filling p h
  advance-Holds p (inr h) = inr (advance-Full p h)

  -- The copy that is emitted is what the window holds, with no slot left nil and no panic.
  pub points-Holds : {w : WindowByCount P} {q : List P} → Holds w q → points w ≡ some (slots q)
  unfolding points
  points-Holds {w} {q} (inl h) =
      ground (arith, middle, length-slots q, copy_to-full w.size (slots q), slots_nil q)
    where
      rest : List (Option P)
      rest = replicate (w.period - length q) none

      middle : slice w.start w.stop w.buf ≡ slots q
      middle =
          ap (slice w.start w.stop) h.layout
          ∙ slice-middle [] (slots q) rest w.start w.stop h.start_zero
              (omega (arith, h.stop_at, length-slots q))
  points-Holds {w} {q} (inr h) = ground (
    arith,
    seam,
    length-slots q,
    fill-full w.size (slots q),
    h.order,
    length-append {0} h.front h.back,
  )
    where
      open h use {back, front}

      seam : drop w.start w.buf ++ take w.stop w.buf ≡ slots q
      seam =
          ap₂ (λ (i j : ℕ). drop i w.buf ++ take j w.buf) h.start_at h.stop_at
          ∙ ap (λ b. drop (length back) b ++ take (length back) b)
              (h.layout ∙ slots-append back front)
          ∙ ap (λ n. drop n (slots back ++ slots front) ++ take n (slots back ++ slots front))
              (sym (length-slots back))
          ∙ ap₂ ◌++◌ (drop-append (slots back) (slots front))
              (take-append (slots back) (slots front))
          ∙ sym (ap slots h.order ∙ slots-append front back)

  -- `w.buf[w.stop]` is in range.
  pub stop-lt : {w : WindowByCount P} {q : List P} → Holds w q → w.stop < length w.buf
  stop-lt {w} {q} (inl h) = omega (
    arith,
    h.room,
    h.stop_at,
    ap length h.layout,
    length-slots q,
    length-append {0} (slots q) (replicate (w.period - length q) none),
    length-replicate {0} {A = Option P} (w.period - length q) none,
  )
  stop-lt {w} {q} (inr h) = omega (
    arith,
    h.inside,
    h.stop_at,
    h.full,
    ap length h.layout,
    length-slots (h.back ++ h.front),
    length-append {0} h.back h.front,
  )

  -- The schedule does not touch the ring.
  pub next_emit-Holds :
      {w : WindowByCount P} {q : List P} (n : ℕ) → Holds w q → Holds (record w { next_emit = n }) q
  next_emit-Holds n (inl h) = inl (record {
    room = h.room;
    start_zero = h.start_zero;
    stop_at = h.stop_at;
    size_at = h.size_at;
    layout = h.layout;
  })
  next_emit-Holds n (inr h) = inr (record {
    back = h.back;
    front = h.front;
    order = h.order;
    full = h.full;
    inside = h.inside;
    start_at = h.start_at;
    stop_at = h.stop_at;
    size_at = h.size_at;
    layout = h.layout;
  })

  -- A window that holds a point emits what it holds.
  pub batch-Holds :
      {w : WindowByCount P} {q : List P} → Holds w q → length q ≢ 0 → batch w ≡ some (slots q)
  unfolding batch
  batch-Holds {w} {q} h ne = ground (arith, points-Holds h, length-slots q)
