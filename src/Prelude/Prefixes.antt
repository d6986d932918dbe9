-- ===== src/Prelude/Prefixes.antt =====
-- Predicates on all elements of a list, and the prefix that a loop skips.
use mathlib.Core.Path.{◌≡◌, refl, ap, sym}
use mathlib.Core.Logic.{◌⊎◌, inl, inr}
use mathlib.Core.List.{List, [], ◌∷◌, ◌++◌}
use mathlib.Core.Bool.{Bool, true, false}
use kapacitor.Prelude.Tests.{if◌then◌else◌, Bool-cases}
use kapacitor.Prelude.Segments.{drop_until}

module _ {ℓ κ} {A : Type ℓ} (holds : A → Type κ) where
  abbrev pub All : List A → Type κ
  All [] = Unit
  All (first ∷ others) = holds first × All others

module _ {ℓ κ} {A : Type ℓ} (P : A → Type κ) where
  pub All-append : (front back : List A) → All P front → All P back → All P (front ++ back)
  All-append [] back h k = k
  All-append (x ∷ front) back h k = (h.0, All-append front back h.1 k)

  pub All-append_left : (xs ys : List A) → All P (xs ++ ys) → All P xs
  All-append_left [] ys h = tt
  All-append_left (x ∷ xs) ys h = (h.0, All-append_left xs ys h.1)

  pub All-append_right : (xs ys : List A) → All P (xs ++ ys) → All P ys
  All-append_right [] ys h = h
  All-append_right (x ∷ xs) ys h = All-append_right xs ys h.1

  pub All-map {μ} : {Q : A → Type μ} → ((a : A) → P a → Q a) → (xs : List A) → All P xs → All Q xs
  All-map f [] h = tt
  All-map f (x ∷ xs) h = (f x h.0, All-map f xs h.1)

module _ {ℓ} {A : Type ℓ} where
  pub snoc-cases : (xs : List A) → (xs ≡ []) ⊎ ((ys : List A) × (y : A) × (xs ≡ ys ++ y ∷ []))
  snoc-cases [] = inl refl
  snoc-cases (x ∷ xs) = elim (snoc-cases xs) [
    | inl e ↦ inr ([], x, ap (λ t. x ∷ t) e)
    | inr (ys, y, e) ↦ inr (x ∷ ys, y, ap (λ t. x ∷ t) e)
  ]

module _ {ℓ} {A : Type ℓ} (keep : A → Bool) where
  -- The leading elements that fail `keep`.
  abbrev pub take_until : List A → List A
  take_until [] = []
  take_until (x ∷ xs) = if keep x then [] else x ∷ take_until xs

  abbrev pub Fails : A → Type 0
  Fails x = keep x ≡ false

  -- Once an element is kept, so are those behind it.
  abbrev pub Ordered : List A → Type 0
  Ordered [] = Unit {0}
  Ordered (x ∷ xs) = (keep x ≡ true → All (λ y. keep y ≡ true) xs) × Ordered xs

  pub take_until-append-drop_until : (xs : List A) → take_until xs ++ drop_until keep xs ≡ xs
  take_until-append-drop_until [] = refl
  take_until-append-drop_until (x ∷ xs) = elim (Bool-cases (keep x)) [
    | inl e ↦ rw e
    | inr e ↦ rw e (ap (λ t. x ∷ t) (take_until-append-drop_until xs))
  ]

  pub All-take_until : (xs : List A) → All Fails (take_until xs)
  All-take_until [] = tt
  All-take_until (x ∷ xs) = elim (Bool-cases (keep x)) [
    | inl e ↦ rw e tt
    | inr e ↦ rw e (e, All-take_until xs)
  ]

  pub drop_until-append-Fails :
      (xs ys : List A) → All Fails xs → drop_until keep (xs ++ ys) ≡ drop_until keep ys
  drop_until-append-Fails [] ys h = refl
  drop_until-append-Fails (x ∷ xs) ys h = rw h.0 (drop_until-append-Fails xs ys h.1)

  pub drop_until-append_snoc :
      (xs : List A) (x : A) (ys : List A)
      → keep x ≡ true
      → drop_until keep ((xs ++ x ∷ []) ++ ys) ≡ drop_until keep (xs ++ x ∷ []) ++ ys
  drop_until-append_snoc [] x ys h = rw h
  drop_until-append_snoc (y ∷ xs) x ys h = elim (Bool-cases (keep y)) [
    | inl e ↦ rw e
    | inr e ↦ rw e (drop_until-append_snoc xs x ys h)
  ]

  -- If the last element fails, all do.
  pub Ordered-Fails :
      (xs : List A) (x : A) → Ordered (xs ++ x ∷ []) → keep x ≡ false → All Fails (xs ++ x ∷ [])
  Ordered-Fails [] x h e = (e, tt)
  Ordered-Fails (y ∷ xs) x h e = elim (Bool-cases (keep y)) [
    | inl k ↦ absurd (clash (All-append_right (λ z. keep z ≡ true) xs (x ∷ []) (h.0 k)).0)
    | inr k ↦ (k, Ordered-Fails xs x h.1 e)
  ]
    where
      clash : keep x ≡ true → ⊥
      clash k = cc

  pub Ordered-append_left : (xs ys : List A) → Ordered (xs ++ ys) → Ordered xs
  Ordered-append_left [] ys h = tt
  Ordered-append_left (x ∷ xs) ys h =
      (λ k. All-append_left (λ z. keep z ≡ true) xs ys (h.0 k), Ordered-append_left xs ys h.1)

  -- All elements that are kept.
  abbrev pub select : List A → List A
  select [] = []
  select (x ∷ xs) = if keep x then x ∷ select xs else select xs

  pub select-All : (xs : List A) → All (λ x. keep x ≡ true) xs → select xs ≡ xs
  select-All [] h = refl
  select-All (x ∷ xs) h = rw h.0 (ap (λ t. x ∷ t) (select-All xs h.1))

  pub drop_until-eq-select : (xs : List A) → Ordered xs → drop_until keep xs ≡ select xs
  drop_until-eq-select [] h = refl
  drop_until-eq-select (x ∷ xs) h = elim (Bool-cases (keep x)) [
    | inl e ↦ rw e (ap (λ t. x ∷ t) (sym (select-All xs (h.0 e))))
    | inr e ↦ rw e (drop_until-eq-select xs h.1)
  ]
