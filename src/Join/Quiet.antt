-- ===== src/Join/Quiet.antt =====
-- emit of join.go on messages in order: what waits, and the order of what goes on.
use kapacitor.Prelude.{
  ℕ, ◌<◌, ◌≤◌, ◌≡◌, ◌⊎◌, inl, inr, refl, Bool, true, false, List, [], ◌∷◌, ◌++◌, Option, none, some,
  if◌then◌else◌, ◌==◌, length, arith, Bool-cases, All,
}
use kapacitor.Join.{JoinSet, JoinGroup, ready, oldest_of}
use kapacitor.Join.Sound.{Sound}
use kapacitor.Join.Heads.{Waits, Within, Waits-later, Waits-short, Within-full}
use kapacitor.Join.Keys.{Uniq, Other, All-both, All-map, oldest-low}

-- What holds of a result, if there is one.
abbrev pub Sat : {A : Type 0} → (A → Type 0) → Option A → Type 0
Sat Q none = Unit
Sat Q (some a) = Q a

pub if-Sat :
    {A : Type 0} (Q : A → Type 0) (b : Bool) (x y : Option A)
    → (b ≡ true → Sat Q x)
    → (b ≡ false → Sat Q y)
    → Sat Q (if b then x else y)
if-Sat Q true x y f g = f refl
if-Sat Q false x y f g = g refl

module _ {P : Type 0} where
  -- The times rise from `low` to at most `high`.
  abbrev pub Rising : (low : ℕ) → List (JoinSet P) → (high : ℕ) → Type 0
  Rising low [] high = low ≤ high
  Rising low (j ∷ js) high = (low < j.time) × Rising j.time js high

  pub Rising-snoc :
      (low high : ℕ) (js : List (JoinSet P)) (j : JoinSet P)
      → Rising low js high
      → high < j.time
      → Rising low (js ++ j ∷ []) j.time
  Rising-snoc low high [] j r lt = (omega (arith, r, lt), omega arith)
  Rising-snoc low high (k ∷ js) j (l, r) lt = (l, Rising-snoc k.time high js j r lt)

module _ {P : Type 0} (n : ℕ) (time : P → ℕ) where
  -- One set, right for its time, of points whose sources have come to the time.
  abbrev pub Alone : List ℕ → ℕ → List (JoinSet P) → Type 0
  Alone hs t [] = ⊥
  Alone hs t (j ∷ []) = (Sound n time t j) × Within t j.values hs
  Alone hs t (j ∷ k ∷ js) = ⊥

  -- A set that is not ready, and a source that has not passed its time.
  abbrev pub Waiting : List ℕ → ℕ → List (JoinSet P) → Type 0
  Waiting hs t [] = ⊥
  Waiting hs t (j ∷ js) = (ready j ≡ false) × Waits t hs

  abbrev pub Keyed : (sent low : ℕ) → List ℕ → ℕ × List (JoinSet P) → Type 0
  Keyed sent low hs e = (sent < e.0) × ((low ≤ e.0) × Alone hs e.0 e.1)

  -- A group between two messages: what went on has rising times, all sets left are later, alone at
  -- their times, and wait.
  abbrev pub Quiet : List ℕ → JoinGroup P × (List (JoinSet P) × Option ℕ) → Type 0
  Quiet hs r =
      (sent : ℕ) × ((Rising 0 r.1.0 sent)
        × ((All (λ h. sent ≤ h) hs)
            × ((r.0.head ≡ hs)
                × ((Uniq r.0.sets)
                    × ((All (λ e. Keyed sent r.0.oldest_time hs e) r.0.sets)
                        × ((All (λ e. Waiting hs e.0 e.1) r.0.sets)
                            × (All (λ e. 0 < r.0.oldest_time) r.0.sets)))))))

  pub not_ready :
      (o t : ℕ) (hs : List ℕ) (js : List (JoinSet P))
      → length hs ≡ n
      → o < t
      → Waits o hs
      → Alone hs t js
      → Waiting hs t js
  unfolding ready
  not_ready o t hs [] l lt w a = a
  not_ready o t hs (j ∷ []) l lt w (((at, (e, (vs, (size, rest)))), pos), within) =
      elim (Bool-cases (j.size == j.expected)) [
        | inr f ↦ (f, Waits-later o t hs (omega (arith, lt)) w)
        | inl f ↦ absurd (
            Waits-short o t hs lt w (
              Within-full t 0 j.values hs (omega (arith, vs, l)) (ground (arith, f, size, e, vs))
                within))
      ]
  not_ready o t hs (j ∷ k ∷ js) l lt w a = absurd a

  pub ready-All :
      (t : ℕ) (hs : List ℕ) (j : JoinSet P)
      → length hs ≡ n
      → ready j ≡ true
      → Alone hs t (j ∷ [])
      → All (λ h. t ≤ h) hs
  unfolding ready
  ready-All t hs j l f (((at, (e, (vs, (size, rest)))), pos), within) =
      Within-full t 0 j.values hs (omega (arith, vs, l)) (ground (arith, f, size, e, vs)) within

  -- The entries behind the oldest time.
  abbrev pub After : (sent o : ℕ) → List ℕ → ℕ × List (JoinSet P) → Type 0
  After sent o hs e = (sent < e.0) × ((o < e.0) × Alone hs e.0 e.1)

  pub behind :
      (sent sent' o : ℕ) (hs : List ℕ)
      → (sent' ≡ sent) ⊎ (sent' ≡ o)
      → (e : ℕ × List (JoinSet P)) → Keyed sent o hs e
      → Other o e
      → After sent' o hs e
  behind sent sent' o hs (inl q) e (l, (l', a)) ne =
      (omega (arith, l, q), (ground (arith, l', ne), a))
  behind sent sent' o hs (inr q) e (l, (l', a)) ne =
      let lt : o < e.0 = ground (arith, l', ne) in (omega (arith, lt, q), (lt, a))

  -- The entries left, with the new oldest time.
  pub relow :
      (sent o : ℕ) (hs : List ℕ) (m : List (ℕ × List (JoinSet P)))
      → All (After sent o hs) m
      → (All (λ e. Keyed sent (oldest_of 0 m) hs e) m) × (All (λ e. 0 < oldest_of 0 m) m)
  relow sent o hs m h =
      let low =
        (oldest-low 0 m
          (All-map (After sent o hs) (λ e. 0 < e.0) m (λ e a. omega (arith, a.0)) h)).1 in
      (
        All-both (After sent o hs) (λ e. (oldest_of 0 m ≤ e.0) × (0 < oldest_of 0 m))
            (λ e. Keyed sent (oldest_of 0 m) hs e) m (λ e a b. (a.0, (b.0, a.1.1))) h low,
        All-map (λ e. (oldest_of 0 m ≤ e.0) × (0 < oldest_of 0 m)) (λ e. 0 < oldest_of 0 m) m
            (λ e b. b.1) low,
      )
