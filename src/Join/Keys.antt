-- ===== src/Join/Keys.antt =====
-- The map of the sets of a group of join.go: one entry for each time.
use kapacitor.Prelude.{
  ℕ, ◌<◌, ◌≤◌, ◌≡◌, ◌⊎◌, inl, inr, refl, sym, subst, Bool, true, false, ◌||◌, List, [], ◌∷◌,
  if◌then◌else◌, ltb, ◌==◌, arith, Bool-cases, All,
}
use kapacitor.Join.{JoinSet, sets_at, put_sets, delete_sets, oldest_of}
use kapacitor.Join.Emission.{is_key}

same : (a b : ℕ) → (a == b) ≡ true → a ≡ b
same a b h = ground (arith, h)

pub All-both :
    {A : Type 0} (Q R S : A → Type 0) (xs : List A)
    → ((x : A) → Q x → R x → S x)
    → All Q xs
    → All R xs
    → All S xs
All-both Q R S [] f hq hr = tt
All-both Q R S (x ∷ xs) f (q, qs) (r, rs) = (f x q r, All-both Q R S xs f qs rs)

pub All-map :
    {A : Type 0} (Q R : A → Type 0) (xs : List A) → ((x : A) → Q x → R x) → All Q xs → All R xs
All-map Q R [] f h = tt
All-map Q R (x ∷ xs) f (h, hs) = (f x h, All-map Q R xs f hs)

module _ {P : Type 0} where
  abbrev pub Other : ℕ → ℕ × List (JoinSet P) → Type 0
  Other t e = (e.0 == t) ≡ false

  abbrev pub Uniq : List (ℕ × List (JoinSet P)) → Type 0
  Uniq [] = Unit
  Uniq ((t, js) ∷ m) = (is_key t m ≡ false) × Uniq m

  pub key-Other : (t : ℕ) (m : List (ℕ × List (JoinSet P))) → is_key t m ≡ false → All (Other t) m
  key-Other t [] h = tt
  key-Other t ((u, js) ∷ m) h = (ground (arith, h), key-Other t m (ground (arith, h)))

  key-put :
      (t u : ℕ) (new : List (JoinSet P)) (m : List (ℕ × List (JoinSet P)))
      → (u == t) ≡ false
      → is_key t m ≡ false
      → is_key t (put_sets u new m) ≡ false
  unfolding put_sets
  key-put t u new [] ne h = ground (arith, ne)
  key-put t u new ((v, js) ∷ m) ne h = elim (Bool-cases (v == u)) [
    | inl e ↦ ground (arith, e, h)
    | inr e ↦ ground (arith, e, h, key-put t u new m ne (ground (arith, h)))
  ]

  key-delete :
      (t u : ℕ) (m : List (ℕ × List (JoinSet P)))
      → is_key t m ≡ false
      → is_key t (delete_sets u m) ≡ false
  unfolding delete_sets
  key-delete t u [] h = refl
  key-delete t u ((v, js) ∷ m) h = elim (Bool-cases (v == u)) [
    | inl e ↦ ground (arith, e, h)
    | inr e ↦ ground (arith, e, h, key-delete t u m (ground (arith, h)))
  ]

  if-Uniq :
      (b : Bool) (x y : List (ℕ × List (JoinSet P)))
      → (b ≡ true → Uniq x)
      → (b ≡ false → Uniq y)
      → Uniq (if b then x else y)
  if-Uniq true x y f g = f refl
  if-Uniq false x y f g = g refl

  if-Every :
      (Q : ℕ × List (JoinSet P) → Type 0) (b : Bool) (x y : List (ℕ × List (JoinSet P)))
      → (b ≡ true → All Q x)
      → (b ≡ false → All Q y)
      → All Q (if b then x else y)
  if-Every Q true x y f g = f refl
  if-Every Q false x y f g = g refl

  pub put-Uniq :
      (t : ℕ) (new : List (JoinSet P)) (m : List (ℕ × List (JoinSet P)))
      → Uniq m
      → Uniq (put_sets t new m)
  unfolding put_sets
  put-Uniq t new [] h = (refl, tt)
  put-Uniq t new ((u, js) ∷ m) (h, hs) =
      if-Uniq (u == t) _ _ (λ e. (h, hs))
        (λ e. (key-put u t new m (ground (arith, e)) h, put-Uniq t new m hs))

  pub delete-Uniq : (t : ℕ) (m : List (ℕ × List (JoinSet P))) → Uniq m → Uniq (delete_sets t m)
  unfolding delete_sets
  delete-Uniq t [] h = tt
  delete-Uniq t ((u, js) ∷ m) (h, hs) =
      if-Uniq (u == t) _ _ (λ e. hs) (λ e. (key-delete u t m h, delete-Uniq t m hs))

  pub delete-Other :
      (t : ℕ) (m : List (ℕ × List (JoinSet P))) → Uniq m → All (Other t) (delete_sets t m)
  unfolding delete_sets
  delete-Other t [] h = tt
  delete-Other t ((u, js) ∷ m) (h, hs) =
      if-Every (Other t) (u == t) _ _
        (λ e. key-Other t m (subst (λ v. is_key v m ≡ false) (same u t e) h))
        (λ e. (e, delete-Other t m hs))

  pub delete-All :
      (Q : ℕ × List (JoinSet P) → Type 0) (t : ℕ) (m : List (ℕ × List (JoinSet P)))
      → All Q m
      → All Q (delete_sets t m)
  unfolding delete_sets
  delete-All Q t [] h = tt
  delete-All Q t ((u, js) ∷ m) (h, hs) =
      if-Every Q (u == t) _ _ (λ e. hs) (λ e. (h, delete-All Q t m hs))

  -- The new entry, and the entries of the other times.
  pub put-All :
      (Q R : ℕ × List (JoinSet P) → Type 0) (t : ℕ) (new : List (JoinSet P))
      (m : List (ℕ × List (JoinSet P)))
      → R (t, new)
      → ((x : ℕ × List (JoinSet P)) → Q x → Other t x → R x)
      → Uniq m
      → All Q m
      → All R (put_sets t new m)
  unfolding put_sets
  put-All Q R t new [] r f un h = (r, tt)
  put-All Q R t new ((u, js) ∷ m) r f (k, un) (h, hs) =
      if-Every R (u == t) _ _
        (λ e. (
          subst (λ v. R (v, new)) (sym (same u t e)) r,
          All-both Q (Other t) R m f hs
              (key-Other t m (subst (λ v. is_key v m ≡ false) (same u t e) k)),
        ))
        (λ e. (f (u, js) h e, put-All Q R t new m r f un hs))

  -- What the map has at a time: nothing, or an entry.
  pub at-All :
      (Q : ℕ × List (JoinSet P) → Type 0) (t : ℕ) (m : List (ℕ × List (JoinSet P)))
      → All Q m
      → ((sets_at t m ≡ []) × (is_key t m ≡ false)) ⊎ Q (t, sets_at t m)
  unfolding sets_at
  at-All Q t [] h = inl (refl, refl)
  at-All Q t ((u, js) ∷ m) (h, hs) = elim (Bool-cases (u == t)) [
    | inl e ↦
        inr
          (subst (λ l. Q (t, l)) (sym (ground (arith, e))) (subst (λ v. Q (v, js)) (same u t e) h))
    | inr e ↦ elim (at-All Q t m hs) [
      | inl (f, k) ↦ inl (ground (arith, e, f), ground (arith, e, k))
      | inr q ↦ inr (subst (λ l. Q (t, l)) (sym (ground (arith, e))) q)
    ]
  ]

  -- The oldest time of a map of positive times.
  pub oldest-low :
      (o : ℕ) (m : List (ℕ × List (JoinSet P)))
      → All (λ e. 0 < e.0) m
      → (0 < o → (oldest_of o m ≤ o) × (0 < oldest_of o m))
        × All (λ e. (oldest_of o m ≤ e.0) × (0 < oldest_of o m)) m
  unfolding oldest_of
  oldest-low o [] h = (λ lt. (omega arith, lt), tt)
  oldest-low o ((t, js) ∷ m) (h, hs) =
      let o' = if (o == 0) || ltb t o then t else o in
      let (low, all) = oldest-low o' m hs in
      let (le, lt) = low (ground (arith, h)) in
      (λ p. (ground (arith, le, p), lt), ((ground (arith, le, h), lt), all))
