-- ===== src/Lex/Tiles.antt =====
-- Tiles of the input of lex.go: tokens in order, with nothing but spaces between them.
use kapacitor.Prelude.{
  ℕ, suc, ◌+◌, ◌-◌, ◌*◌, ◌<◌, ◌≤◌, ◌≡◌, ◌⊎◌, inl, inr, refl, sym, subst, Bool, true, false, ◌||◌,
  List, [], ◌∷◌, ◌++◌, none, if◌then◌else◌, ltb, leb, length, take, drop, length-drop, arith,
  Bool-cases,
}
use kapacitor.Lex.Scan.{
  Kind, token_error, token_eof, Token, Lexer, State, lex_token, try_lex_binary_operator,
  lex_ident_or_keyword, lex_number_or_duration_or_dot, lex_reference, lex_regex, Step, panics,
  unfinished, stops, goes, Unicode, is, test, next, backup, current, emit, errorf,
}

-- The tokens up to a position of the input.
pub data Tiled (u : Unicode) (input : List ℕ) : List Token → ℕ → Type 0 where
  begin : Tiled u input [] 0
  space :
      (tokens : List Token) (a : ℕ)
      → Tiled u input tokens a
      → a < length input
      → u.is_space (u.decode (drop a input)).0 ≡ true
      → Tiled u input tokens (a + (u.decode (drop a input)).1)
  tile :
      (tokens : List Token) (a b : ℕ) (t : Kind)
      → Tiled u input tokens a
      → a < b
      → b ≤ length input
      → Tiled u input
          (tokens ++ (record { typ = t; pos = a; val = take (b - a) (drop a input) }) ∷ [])
          b

-- utf8.DecodeRuneInString reads one byte at least, and no byte past the end.
abbrev pub Decodes : Unicode → Type 0
Decodes u =
    (bytes : List ℕ)
    → 0 < length bytes
    → (0 < (u.decode bytes).1) × ((u.decode bytes).1 ≤ length bytes)

-- A slash is one byte long, and so is the rune behind it.
abbrev pub Narrow : Unicode → List ℕ → Type 0
Narrow u input =
    (a : ℕ)
    → suc a < length input
    → (u.decode (drop a input)).0 ≡ 47
    → ((u.decode (drop a input)).1 ≡ 1) × ((u.decode (drop (suc a) input)).1 ≡ 1)

module _ (u : Unicode) (input : List ℕ) where
  -- The tokens that are sent in the end: tiles, and then an error or, at the end of the input, EOF.
  abbrev pub Ended : List Token → Type 0
  Ended tokens =
      (tiles : List Token) × ((a : ℕ) × ((Tiled u input tiles a)
          × ((tokens ≡ tiles ++ (record { typ = token_error; pos = a; val = [] }) ∷ [])
              ⊎ ((tokens ≡ tiles ++ (record { typ = token_eof; pos = a; val = [] }) ∷ [])
                  × (a ≡ length input)))))

  abbrev pub Scanning : Lexer → Type 0
  Scanning l = (Tiled u input l.tokens l.start) × ((l.start ≤ l.pos) × (l.pos ≤ length input))

  abbrev pub starts_number : Lexer → Bool
  starts_number l = let r = (next u input l).0 in test u.is_digit r || is 46 r

  -- Where a state begins.
  abbrev pub Begins : State → Lexer → Type 0
  Begins lex_ident_or_keyword l = l.start < l.pos
  Begins lex_reference l = l.start < l.pos
  Begins lex_regex l = l.start ≤ l.pos
  Begins lex_number_or_duration_or_dot l = (l.start ≡ l.pos) × (starts_number l ≡ true)
  Begins _ l = l.start ≡ l.pos

  abbrev pub rank : State → ℕ
  rank lex_token = 1
  rank try_lex_binary_operator = 2
  rank _ = 0

  abbrev pub weight : State → Lexer → ℕ
  weight st l = 3 * (length input - l.start) + rank st

  -- A step that keeps the tiles and makes the weight less than `bound`.
  abbrev pub Good : (bound : ℕ) → Step → Type 0
  Good bound panics = ⊥
  Good bound unfinished = ⊥
  Good bound (stops l) = Ended l.tokens
  Good bound (goes l st) = (Scanning l) × ((Begins st l) × (weight st l < bound))

  pub if-Good :
      (bound : ℕ) (c : Bool) (x y : Step)
      → (c ≡ true → Good bound x)
      → (c ≡ false → Good bound y)
      → Good bound (if c then x else y)
  if-Good bound true x y f g = f refl
  if-Good bound false x y f g = g refl

  pub error-Good : (bound : ℕ) (l : Lexer) → Scanning l → Good bound (errorf l)
  unfolding errorf
  error-Good bound l (t, h) = (l.tokens, (l.start, (t, inl refl)))

  pub emit-Scanning :
      (t : Kind) (l : Lexer) → Scanning l → l.start < l.pos → Scanning (emit input t l)
  unfolding emit current
  emit-Scanning t l (tiles, (le, h)) lt =
      (tile l.tokens l.start l.pos t tiles lt h, (omega arith, h))

  pub emit-token :
      (bound : ℕ) (t : Kind) (l : Lexer)
      → Scanning l
      → l.start < l.pos
      → 3 * (length input - l.start) ≤ bound
      → Good bound (goes (emit input t l) lex_token)
  unfolding emit
  emit-token bound t l h lt b = (emit-Scanning t l h lt, (refl, omega (arith, h.1.1, lt, b)))

  pub emit-try :
      (bound : ℕ) (t : Kind) (l : Lexer)
      → Scanning l
      → l.start < l.pos
      → 3 * (length input - l.start) ≤ bound
      → Good bound (goes (emit input t l) try_lex_binary_operator)
  unfolding emit
  emit-try bound t l h lt b = (emit-Scanning t l h lt, (refl, omega (arith, h.1.1, lt, b)))

  pub back-Good :
      (bound : ℕ) (l : Lexer) (k : Lexer → Step)
      → l.width ≤ l.pos
      → Good bound (k (record l { pos = l.pos - l.width }))
      → Good bound (backup l k)
  back-Good bound l k le h =
      if-Good bound (ltb l.pos l.width) panics _ (λ e. absurd (ground (arith, e, le))) (λ e. h)

  module _ (decodes : Decodes u) where
    pub decode-at :
        (a : ℕ)
        → a < length input
        → (0 < (u.decode (drop a input)).1) × (a + (u.decode (drop a input)).1 ≤ length input)
    decode-at a lt =
        let (pos, le) = decodes (drop a input) (omega (arith, length-drop a input, lt)) in
        (pos, omega (arith, le, length-drop a input, lt))

    pub next-le :
        (l : Lexer)
        → l.pos ≤ length input
        → (l.pos ≤ (next u input l).1.pos)
          × (((next u input l).1.pos ≤ length input)
              × ((next u input l).1.pos ≡ l.pos + (next u input l).1.width))
    unfolding next
    next-le l h = elim (Bool-cases (leb (length input) l.pos)) [
      | inl e ↦ (ground (arith, e), (ground (arith, e, h), ground (arith, e)))
      | inr e ↦
          let (pos, le) = decode-at l.pos (ground (arith, e)) in
          (ground (arith, e), (ground (arith, e, le), ground (arith, e)))
    ]

    -- A rune takes a byte at least; `c` is a test that eof does not pass.
    pub next-lt :
        (l : Lexer) (c : Bool)
        → c ≡ true
        → ((next u input l).0 ≡ none → c ≡ false)
        → l.pos < (next u input l).1.pos
    unfolding next
    next-lt l c e f = elim (Bool-cases (leb (length input) l.pos)) [
      | inl g ↦ absurd (cc (f (ground (arith, g)), e))
      | inr g ↦ ground (arith, g, (decode-at l.pos (ground (arith, g))).0)
    ]

    pub next-end :
        (l : Lexer)
        → l.pos ≤ length input
        → (next u input l).0 ≡ none
        → ((next u input l).1.pos ≡ length input) × ((next u input l).1.pos ≡ l.pos)
    unfolding next
    next-end l h e = elim (Bool-cases (leb (length input) l.pos)) [
      | inl g ↦ (ground (arith, g, h), ground (arith, g))
      | inr g ↦ absurd (ground (arith, g, e))
    ]

    pub next-Scanning : (l : Lexer) → Scanning l → Scanning (next u input l).1
    unfolding next
    next-Scanning l (t, (le, h)) =
        let (more, (le', eq)) = next-le l h in (t, (omega (arith, le, more), le'))

    -- Back from a rune.
    pub next-back :
        (bound : ℕ) (l : Lexer) (k : Lexer → Step)
        → l.pos ≤ length input
        → ((b : Lexer) → b.tokens ≡ l.tokens → b.start ≡ l.start → b.pos ≡ l.pos → Good bound (k b))
        → Good bound (backup (next u input l).1 k)
    unfolding next
    next-back bound l k h f =
        let (more, (le, eq)) = next-le l h in
        let l' = (next u input l).1 in
        back-Good bound l' k (omega (arith, eq))
          (f (record l' { pos = l'.pos - l'.width }) refl refl (omega (arith, eq)))

  pub same-Scanning :
      (l b : Lexer)
      → b.tokens ≡ l.tokens
      → b.start ≡ l.start
      → b.pos ≡ l.pos
      → Scanning l
      → Scanning b
  same-Scanning l b e1 e2 e3 (t, (le, h)) = (
    subst (λ ts. Tiled u input ts b.start) (sym e1)
        (subst (λ a. Tiled u input l.tokens a) (sym e2) t),
    (omega (arith, le, e2, e3), omega (arith, h, e3)),
  )
