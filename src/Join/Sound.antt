-- ===== src/Join/Sound.antt =====
-- What every set of a group holds (join.go).
use kapacitor.Join.Sets.{tally_values, tally-set_value, tally-replicate, has-new}
use kapacitor.Prelude.{
  ◌⊎◌, get_elem?-set_ne, inr, get_elem?-set_self, inl, ◌≢◌, ℕ, ◌<◌, ◌≤◌, ◌≡◌, refl, sym, ◌∙◌, ap,
  subst, Bool, true, false, not, List, [], ◌∷◌, none, some, if◌then◌else◌, ltb, ◌==◌, length, arith,
  Bool-cases, All, length-replicate, length-set,
}
use kapacitor.Join.{JoinSet, new_joinset, has, set_value, sets_at, put_sets, delete_sets, add_to}

equal : (a b : ℕ) → (a == b) ≡ true → a ≡ b
equal a b h = ground (arith, h)

pub if-All :
    {A : Type 0} (Q : A → Type 0) (b : Bool) (xs ys : List A)
    → (b ≡ true → All Q xs)
    → (b ≡ false → All Q ys)
    → All Q (if b then xs else ys)
if-All Q true xs ys f g = f refl
if-All Q false xs ys f g = g refl

module _ {P : Type 0} where
  first-set_value :
      (n : ℕ) (js : JoinSet P) (src : ℕ) (p : P) → src < n → (set_value src p js).first < n
  unfolding set_value
  first-set_value n js src p lt = ground arith

  has-set_self :
      (js : JoinSet P) (src : ℕ) (p : P)
      → src < length js.values
      → has src (set_value src p js) ≡ true
  unfolding has set_value
  has-set_self js src p lt = ground (arith, get_elem?-set_self js.values src (some p) lt)

  has-set_ne :
      (js : JoinSet P) (src i : ℕ) (p : P) → src ≢ i → has i (set_value src p js) ≡ has i js
  unfolding has set_value
  has-set_ne js src i p ne = ground (arith, get_elem?-set_ne js.values (some p) ne)

  has-first :
      (n : ℕ) (js : JoinSet P) (src : ℕ) (p : P)
      → (n ≤ js.first) ⊎ (has js.first js ≡ true)
      → has src js ≡ false
      → src < length js.values
      → (set_value src p js).first < n
      → has (set_value src p js).first (set_value src p js) ≡ true
  unfolding set_value
  has-first n js src p old free lt f = elim (Bool-cases (ltb src js.first)) [
    | inl e ↦
        subst (λ i. has i (set_value src p js) ≡ true) (sym (ground (arith, e)))
          (has-set_self js src p lt)
    | inr e ↦
        let f' : js.first < n = ground (arith, e, f) in
        let old' : has js.first js ≡ true = elim old [
          | inl g ↦ absurd (omega (arith, g, f'))
          | inr g ↦ g
        ] in
        let ne : src ≢ js.first = λ h. cc (old', free, ap (λ i. has i js) h) in
        subst (λ i. has i (set_value src p js) ≡ true) (sym (ground (arith, e)))
          (has-set_ne js src js.first p ne ∙ old')
  ]

-- A set of the time `t` for `n` sources: it counts its points, has one at least, all have the time,
-- and `first` is a source of one.
module _ {P : Type 0} (n : ℕ) (time : P → ℕ) where
  abbrev pub Shaped : ℕ → JoinSet P → Type 0
  Shaped t js =
      (js.time ≡ t)
      × ((js.expected ≡ n)
          × ((length js.values ≡ n)
              × ((js.size ≡ tally_values (λ i p. true) 0 js.values)
                  × ((tally_values (λ i p. not (time p == t)) 0 js.values ≡ 0)
                      × ((n ≤ js.first) ⊎ (has js.first js ≡ true))))))

  abbrev pub Sound : ℕ → JoinSet P → Type 0
  Sound t js = Shaped t js × ((0 < js.size) × (js.first < n))

  abbrev pub AllSound : List (ℕ × List (JoinSet P)) → Type 0
  AllSound m = All (λ e. All (Sound e.0) e.1) m

  new-Shaped : (t : ℕ) → Shaped t (new_joinset n t)
  unfolding new_joinset
  new-Shaped t = (
    refl,
    (
      refl,
      (
        length-replicate n none,
        (
          sym (tally-replicate (λ i p. true) n 0),
          (tally-replicate (λ i p. not (time p == t)) n 0, inl (omega arith)),
        ),
      ),
    ),
  )

  set_value-Sound :
      (t src : ℕ) (p : P) (js : JoinSet P)
      → Shaped t js
      → has src js ≡ false
      → src < n
      → time p ≡ t
      → Sound t (set_value src p js)
  unfolding set_value
  set_value-Sound t src p js (at, (e, (l, (size, (all, first))))) free lt eq =
      let lt' : src < length js.values = omega (arith, l, lt) in
      (
        (
          at,
          (
            e,
            (
              length-set js.values src (some p) ∙ l,
              (
                ground (arith, size, tally-set_value (λ i q. true) js src p free lt'),
                (
                  ground (
                    arith,
                    all,
                    eq,
                    tally-set_value (λ i q. not (time q == t)) js src p free lt',
                  ),
                  inr (has-first n js src p first free lt' (first-set_value n js src p lt)),
                ),
              ),
            ),
          ),
        ),
        (omega arith, first-set_value n js src p lt),
      )

  pub add_to-Sound :
      (t src : ℕ) (p : P) (sets : List (JoinSet P))
      → src < n
      → time p ≡ t
      → All (Sound t) sets
      → All (Sound t) (add_to n t src p sets)
  unfolding add_to
  add_to-Sound t src p [] lt eq h =
      (set_value-Sound t src p (new_joinset n t) (new-Shaped t) (has-new P n t src) lt eq, tt)
  add_to-Sound t src p (js ∷ sets) lt eq (h, hs) =
      if-All (Sound t) (has src js) _ _ (λ e. (h, add_to-Sound t src p sets lt eq hs))
        (λ e. (set_value-Sound t src p js h.0 e lt eq, hs))

  pub sets_at-Sound :
      (t : ℕ) (m : List (ℕ × List (JoinSet P))) → AllSound m → All (Sound t) (sets_at t m)
  unfolding sets_at
  sets_at-Sound t [] h = tt
  sets_at-Sound t ((u, js) ∷ m) (h, hs) =
      if-All (Sound t) (u == t) _ _ (λ e. subst (λ v. All (Sound v) js) (equal u t e) h)
        (λ e. sets_at-Sound t m hs)

  pub put-Sound :
      (t : ℕ) (new : List (JoinSet P)) (m : List (ℕ × List (JoinSet P)))
      → All (Sound t) new
      → AllSound m
      → AllSound (put_sets t new m)
  unfolding put_sets
  put-Sound t new [] hn h = (hn, tt)
  put-Sound t new ((u, js) ∷ m) hn (h, hs) =
      if-All (λ e. All (Sound e.0) e.1) (u == t) _ _
        (λ e. (subst (λ v. All (Sound v) new) (sym (equal u t e)) hn, hs))
        (λ e. (h, put-Sound t new m hn hs))

  pub delete-Sound :
      (t : ℕ) (m : List (ℕ × List (JoinSet P))) → AllSound m → AllSound (delete_sets t m)
  unfolding delete_sets
  delete-Sound t [] h = tt
  delete-Sound t ((u, js) ∷ m) (h, hs) =
      if-All (λ e. All (Sound e.0) e.1) (u == t) _ _ (λ e. hs) (λ e. (h, delete-Sound t m hs))
