-- ===== src/Window/Slots.antt =====
-- The slots of a preallocated Go slice of points (window.go). `none` is the nil interface that
-- `make` leaves in a slot; reading a field of it panics.
use kapacitor.Prelude.{
  take, take-append, append-nil, ◌∙◌, sym, true, arith, ℕ, suc, ◌-◌, ◌≡◌, refl, ap, List, [], ◌∷◌,
  ◌++◌, Option, none, some, leb, if◌then◌else◌, length, replicate,
}

module _ {P : Type 0} where
  abbrev pub slots : List P → List (Option P)
  slots [] = []
  slots (p ∷ ps) = some p ∷ slots ps

  pub slots-append : (ps qs : List P) → slots (ps ++ qs) ≡ slots ps ++ slots qs
  slots-append [] qs = refl
  slots-append (p ∷ ps) qs = ap (λ t. some p ∷ t) (slots-append ps qs)

  pub length-slots : (ps : List P) → length (slots ps) ≡ length ps
  length-slots [] = refl
  length-slots (p ∷ ps) = ap suc (length-slots ps)

  pub slots_nil : (ps : List P) → length ps ≡ 0 → slots ps ≡ []
  slots_nil [] e = refl
  slots_nil (p ∷ ps) e = absurd (omega arith)

  -- `points := make([]…, size)` and the loops that write `points[j]` for growing j: an index past
  -- the end panics, and slots that are not written stay nil.
  abbrev pub fill : ℕ → List (Option P) → Option (List (Option P))
  fill size xs =
      if leb (length xs) size then some (xs ++ replicate (size - length xs) none) else none

  -- `copy` into a slice of `size` nil slots writes as many as fit.
  abbrev pub copy_to : ℕ → List (Option P) → List (Option P)
  copy_to size xs = take size (xs ++ replicate (size - length xs) none)

  pub fill-full : (size : ℕ) (xs : List (Option P)) → length xs ≡ size → fill size xs ≡ some xs
  fill-full size xs h = rw (if_le, none_left) (ap some (append-nil xs))
    where
      if_le : leb (length xs) size ≡ true
      if_le = ground arith

      none_left : size - length xs ≡ 0
      none_left = omega arith

  pub copy_to-full : (size : ℕ) (xs : List (Option P)) → length xs ≡ size → copy_to size xs ≡ xs
  copy_to-full size xs h = rw (none_left, append-nil xs, ← h) (take_all xs)
    where
      none_left : size - length xs ≡ 0
      none_left = omega arith

      take_all : (ys : List (Option P)) → take (length ys) ys ≡ ys
      take_all ys = ap (take (length ys)) (sym (append-nil ys)) ∙ take-append ys []
