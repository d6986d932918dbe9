-- ===== src/Join/Heads.antt =====
-- The heads of a group of join.go, and the sources that have a point in a set.
use kapacitor.Prelude.{
  ℕ, zero, suc, ◌<◌, ◌≤◌, ◌≡◌, ◌⊎◌, inl, inr, ◌∙◌, ap, true, false, List, [], ◌∷◌, Option, none,
  some, leb, length, get_elem?, get_or, set, arith, Bool-cases, Option-cases, All,
}
use kapacitor.Join.{JoinSet, any_until, has}
use kapacitor.Join.Sets.{tally_values}

-- Some source has not passed a time: its head is at the time or before it.
abbrev pub Waits : ℕ → List ℕ → Type 0
Waits t [] = ⊥
Waits t (h ∷ hs) = (h ≤ t) ⊎ Waits t hs

pub until-Waits : (t : ℕ) (hs : List ℕ) → any_until t hs ≡ true → Waits t hs
unfolding any_until
until-Waits t [] e = cc
until-Waits t (h ∷ hs) e = elim (Bool-cases (leb h t)) [
  | inl l ↦ inl (ground (arith, l))
  | inr l ↦ inr (until-Waits t hs (ground (arith, e, l)))
]

pub until-All : (t : ℕ) (hs : List ℕ) → any_until t hs ≡ false → All (λ h. t < h) hs
unfolding any_until
until-All t [] e = tt
until-All t (h ∷ hs) e = (ground (arith, e), until-All t hs (ground (arith, e)))

pub Waits-later : (t u : ℕ) (hs : List ℕ) → t ≤ u → Waits t hs → Waits u hs
Waits-later t u [] le w = w
Waits-later t u (h ∷ hs) le (inl w) = inl (omega (arith, le, w))
Waits-later t u (h ∷ hs) le (inr w) = inr (Waits-later t u hs le w)

pub Waits-short : (t u : ℕ) (hs : List ℕ) → t < u → Waits t hs → All (λ h. u ≤ h) hs → ⊥
Waits-short t u [] lt w h = w
Waits-short t u (x ∷ hs) lt (inl w) (h, hs') = absurd (omega (arith, lt, w, h))
Waits-short t u (x ∷ hs) lt (inr w) (h, hs') = Waits-short t u hs lt w hs'

pub All-lower : (a b : ℕ) (hs : List ℕ) → a ≤ b → All (λ h. b ≤ h) hs → All (λ h. a ≤ h) hs
All-lower a b [] le h = tt
All-lower a b (x ∷ hs) le (h, hs') = (omega (arith, le, h), All-lower a b hs le hs')

pub All-weaken : (b : ℕ) (hs : List ℕ) → All (λ h. b < h) hs → All (λ h. b ≤ h) hs
All-weaken b [] h = tt
All-weaken b (x ∷ hs) (h, hs') = (omega (arith, h), All-weaken b hs hs')

pub All-set :
    (b src t : ℕ) (hs : List ℕ) → b ≤ t → All (λ h. b ≤ h) hs → All (λ h. b ≤ h) (set hs src t)
All-set b src t [] le h = tt
All-set b zero t (x ∷ hs) le (h, hs') = (le, hs')
All-set b (suc src) t (x ∷ hs) le (h, hs') = (h, All-set b src t hs le hs')

pub All-at : (b src : ℕ) (hs : List ℕ) → src < length hs → All (λ h. b ≤ h) hs → b ≤ get_or hs src 0
All-at b src [] lt h = absurd (omega (arith, lt))
All-at b zero (x ∷ hs) lt (h, hs') = h
All-at b (suc src) (x ∷ hs) lt (h, hs') = All-at b src hs (omega (arith, lt)) hs'

module _ {P : Type 0} where
  -- The sources that have a point in a set of the time have come to the time.
  abbrev pub Within : ℕ → List (Option P) → List ℕ → Type 0
  Within t [] hs = Unit
  Within t (none ∷ vs) [] = Unit
  Within t (some p ∷ vs) [] = Unit
  Within t (none ∷ vs) (h ∷ hs) = Within t vs hs
  Within t (some p ∷ vs) (h ∷ hs) = (t ≤ h) × Within t vs hs

  pub Within-raise :
      (t src u : ℕ) (vs : List (Option P)) (hs : List ℕ)
      → get_or hs src 0 ≤ u
      → Within t vs hs
      → Within t vs (set hs src u)
  Within-raise t src u [] hs le w = tt
  Within-raise t src u (none ∷ vs) [] le w = tt
  Within-raise t src u (some p ∷ vs) [] le w = tt
  Within-raise t zero u (none ∷ vs) (h ∷ hs) le w = w
  Within-raise t zero u (some p ∷ vs) (h ∷ hs) le (w, ws) = (omega (arith, le, w), ws)
  Within-raise t (suc src) u (none ∷ vs) (h ∷ hs) le w = Within-raise t src u vs hs le w
  Within-raise t (suc src) u (some p ∷ vs) (h ∷ hs) le (w, ws) =
      (w, Within-raise t src u vs hs le ws)

  pub Within-set :
      (t src : ℕ) (q : P) (vs : List (Option P)) (hs : List ℕ)
      → Within t vs hs
      → Within t (set vs src (some q)) (set hs src t)
  Within-set t src q [] hs w = tt
  Within-set t zero q (none ∷ vs) [] w = tt
  Within-set t zero q (some p ∷ vs) [] w = tt
  Within-set t (suc src) q (none ∷ vs) [] w = tt
  Within-set t (suc src) q (some p ∷ vs) [] w = tt
  Within-set t zero q (none ∷ vs) (h ∷ hs) w = (omega arith, w)
  Within-set t zero q (some p ∷ vs) (h ∷ hs) (w, ws) = (omega arith, ws)
  Within-set t (suc src) q (none ∷ vs) (h ∷ hs) w = Within-set t src q vs hs w
  Within-set t (suc src) q (some p ∷ vs) (h ∷ hs) (w, ws) = (w, Within-set t src q vs hs ws)

  at-Within :
      (t src : ℕ) (p : P) (vs : List (Option P)) (hs : List ℕ)
      → get_elem? vs src ≡ some (some p)
      → src < length hs
      → Within t vs hs
      → t ≤ get_or hs src 0
  at-Within t src p [] hs e lt w = absurd (ground (arith, e))
  at-Within t src p (v ∷ vs) [] e lt w = absurd (omega (arith, lt))
  at-Within t zero p (none ∷ vs) (h ∷ hs) e lt w = absurd (ground (arith, e))
  at-Within t zero p (some q ∷ vs) (h ∷ hs) e lt (w, ws) = w
  at-Within t (suc src) p (none ∷ vs) (h ∷ hs) e lt w =
      at-Within t src p vs hs e (omega (arith, lt)) w
  at-Within t (suc src) p (some q ∷ vs) (h ∷ hs) e lt (w, ws) =
      at-Within t src p vs hs e (omega (arith, lt)) ws

  -- A source whose head is before the time has no point in a set of the time.
  pub Within-fresh :
      (t src : ℕ) (js : JoinSet P) (hs : List ℕ)
      → get_or hs src 0 < t
      → src < length hs
      → Within t js.values hs
      → has src js ≡ false
  unfolding has
  Within-fresh t src js hs before lt w = elim (Option-cases (get_elem? js.values src)) [
    | inl e ↦ ground (arith, e)
    | inr (v, e) ↦ elim (Option-cases v) [
      | inl f ↦ ground (arith, e, f)
      | inr (p, f) ↦
          absurd (omega (arith, before, at-Within t src p js.values hs (e ∙ ap some f) lt w))
    ]
  ]

  tally-le : (i : ℕ) (vs : List (Option P)) → tally_values (λ i p. true) i vs ≤ length vs
  tally-le i [] = omega arith
  tally-le i (none ∷ vs) = omega (arith, tally-le (suc i) vs)
  tally-le i (some p ∷ vs) = omega (arith, tally-le (suc i) vs)

  -- If all sources have a point, all heads have come to the time.
  pub Within-full :
      (t i : ℕ) (vs : List (Option P)) (hs : List ℕ)
      → length vs ≡ length hs
      → tally_values (λ i p. true) i vs ≡ length vs
      → Within t vs hs
      → All (λ h. t ≤ h) hs
  Within-full t i [] [] l f w = tt
  Within-full t i [] (h ∷ hs) l f w = absurd (omega (arith, l))
  Within-full t i (none ∷ vs) [] l f w = tt
  Within-full t i (some p ∷ vs) [] l f w = tt
  Within-full t i (none ∷ vs) (h ∷ hs) l f w = absurd (omega (arith, f, tally-le (suc i) vs))
  Within-full t i (some p ∷ vs) (h ∷ hs) l f (w, ws) =
      (w, Within-full t (suc i) vs hs (omega (arith, l)) (omega (arith, f)) ws)
