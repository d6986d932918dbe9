-- ===== src/Lex/Ahead.antt =====
-- Lexers of lex.go that have read more of the same token.
use kapacitor.Prelude.{
  ℕ, ◌≤◌, ◌≡◌, refl, Bool, true, false, List, Option, none, some, if◌then◌else◌, arith,
}
use kapacitor.Lex.Scan.{Lexer, Step, Unicode, next, peek}
use kapacitor.Lex.Tiles.{Decodes, Scanning, Good, next-le, next-Scanning}

abbrev pub is_rune : Option ℕ → Bool
is_rune none = false
is_rune (some r) = true

module _ (u : Unicode) (input : List ℕ) where
  abbrev pub Ahead : (start pos : ℕ) → Lexer → Type 0
  Ahead start pos l = (Scanning u input l) × ((l.start ≡ start) × (pos ≤ l.pos))

  pub if-Ahead :
      (start pos : ℕ) (c : Bool) (x y : Lexer)
      → Ahead start pos x
      → Ahead start pos y
      → Ahead start pos (if c then x else y)
  if-Ahead start pos true x y hx hy = hx
  if-Ahead start pos false x y hx hy = hy

  pub rune-Good :
      (bound : ℕ) (r : Option ℕ) (x y : Step)
      → (r ≡ none → Good u input bound x)
      → (is_rune r ≡ true → Good u input bound y)
      → Good u input bound (elim r [ none ↦ x | some _ ↦ y ])
  rune-Good bound none x y f g = f refl
  rune-Good bound (some c) x y f g = g refl

  module _ (decodes : Decodes u) where
    pub next-Ahead :
        (start pos : ℕ) (l : Lexer) → Ahead start pos l → Ahead start pos (next u input l).1
    unfolding next
    next-Ahead start pos l (sc, (e, le)) = (
      next-Scanning u input decodes l sc,
      (e, omega (arith, le, (next-le u input decodes l sc.1.1).0)),
    )

  pub peek-Ahead :
      (start pos : ℕ) (l : Lexer) → Ahead start pos l → Ahead start pos (peek u input l).1
  unfolding peek
  peek-Ahead start pos l h = h
