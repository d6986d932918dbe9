-- ===== src/Lex/Spaces.antt =====
-- The spaces that lex.go skips, and its way back from a slash.
use kapacitor.Prelude.{
  ℕ, zero, suc, ◌+◌, ◌-◌, ◌*◌, ◌<◌, ◌≤◌, ◌≡◌, inl, inr, refl, ◌∙◌, ap, subst, true, List, [], ◌∷◌,
  ◌++◌, if◌then◌else◌, ltb, leb, length, take, drop, arith, Bool-cases,
}
use kapacitor.Lex.Scan.{
  goes, token_eof, Lexer, lex_token, lex_regex, Step, Unicode, is, test, goes, next, peek, backup,
  current, emit, ignore, ignore_space,
}
use kapacitor.Lex.States.{regex_or_token}
use kapacitor.Lex.Tiles.{
  Tiled, space, Decodes, Narrow, Scanning, Ended, Good, if-Good, back-Good, decode-at, next-le,
  next-lt, next-back, same-Scanning,
}
use kapacitor.Lex.Ahead.{is_rune}

module _ (u : Unicode) (input : List ℕ) where
  pub end-Ended :
      (l : Lexer)
      → Scanning u input l
      → l.start ≡ l.pos
      → l.pos ≡ length input
      → Ended u input (emit input token_eof l).tokens
  unfolding emit current
  end-Ended l (t, h) eq e =
      let none_left : l.pos - l.start ≡ 0 = omega (arith, eq) in
      (
        l.tokens,
        (
          l.start,
          (
            t,
            inr (
              ap
                  (λ k.
                    l.tokens
                    ++ (record {
                      typ = token_eof;
                      pos = l.start;
                      val = take k (drop l.start input);
                    })
                      ∷ [])
                  none_left,
              eq ∙ e,
            ),
          ),
        ),
      )

  module _ (decodes : Decodes u) where
    pub ignore-Scanning :
        (l : Lexer)
        → Scanning u input l
        → l.start ≡ l.pos
        → test u.is_space (next u input l).0 ≡ true
        → Scanning u input (ignore (next u input l).1)
    unfolding next
    ignore-Scanning l (t, (le, h)) eq e = elim (Bool-cases (leb (length input) l.pos)) [
      | inl g ↦ absurd (ground (arith, g, e))
      | inr g ↦
          let n = next u input l in
          let t' : Tiled u input l.tokens l.pos = subst (λ a. Tiled u input l.tokens a) eq t in
          let at : l.pos + (u.decode (drop l.pos input)).1 ≡ n.1.pos = ground (arith, g) in
          (
            subst (λ a. Tiled u input l.tokens a) at
                (space l.tokens l.pos t' (ground (arith, g)) (ground (arith, g, e))),
            (omega arith, (next-le u input decodes l h).1.0),
          )
    ]

    -- Past the spaces, at a lexer `b` that begins a token there.
    pub ignore_space-Good :
        (fuel : ℕ) (l : Lexer) (bound : ℕ) (k : Lexer → Step)
        → length input - l.pos < fuel
        → Scanning u input l
        → l.start ≡ l.pos
        → ((b : Lexer)
            → Scanning u input b
            → b.start ≡ b.pos
            → l.start ≤ b.start
            → Good u input bound (k b))
        → Good u input bound (ignore_space u input fuel l k)
    unfolding ignore_space next
    ignore_space-Good zero l bound k f h eq g = absurd (omega (arith, f))
    ignore_space-Good (suc fuel) l bound k f h eq g =
        let n = next u input l in
        if-Good u input bound (test u.is_space n.0) _ _
          (λ e.
            let more : l.pos < n.1.pos =
              next-lt u input decodes l _ e (λ z. ap (test u.is_space) z) in
            let sc = ignore-Scanning l h eq e in
            ignore_space-Good fuel (ignore n.1) bound k (omega (arith, f, more, sc.1.1)) sc refl
              (λ b sc' e' le. g b sc' e' (omega (arith, le, more, eq))))
          (λ e. next-back u input decodes bound l k h.1.1 (λ c e1 e2 e3.
            g c (same-Scanning u input l c e1 e2 e3 h) (omega (arith, eq, e2, e3))
              (omega (arith, e2))))

    pub regex_or_token-Good :
        (fuel : ℕ) (l : Lexer) (bound : ℕ)
        → length input - l.pos < fuel
        → Scanning u input l
        → l.start ≡ l.pos
        → 3 * (length input - l.start) + 1 < bound
        → Good u input bound (regex_or_token u input fuel l)
    unfolding peek next
    regex_or_token-Good fuel l bound f h eq b =
        ignore_space-Good fuel l bound
          (λ b.
            if is 47 (peek u input b).0
            then goes (peek u input b).1 lex_regex
            else goes (peek u input b).1 lex_token)
          f h eq
          (λ c sc e le.
            if-Good u input bound (is 47 (peek u input c).0) _ _
              (λ _. (sc, (omega (arith, e), omega (arith, le, b))))
              (λ _. (sc, (e, omega (arith, le, b)))))

    -- A slash is one byte long, also at the end.
    slash-width :
        (l : Lexer)
        → Narrow u input
        → is 47 (next u input l).0 ≡ true
        → (l.pos < length input)
          × (((u.decode (drop l.pos input)).0 ≡ 47) × ((u.decode (drop l.pos input)).1 ≡ 1))
    unfolding next
    slash-width l narrow e = elim (Bool-cases (leb (length input) l.pos)) [
      | inl g ↦ absurd (ground (arith, g, e))
      | inr g ↦
          let lt : l.pos < length input = ground (arith, g) in
          let slash : (u.decode (drop l.pos input)).0 ≡ 47 = ground (arith, g, e) in
          let (pos, le) = decode-at u input decodes l.pos lt in
          elim (Bool-cases (ltb (suc l.pos) (length input))) [
            | inl m ↦ (lt, (slash, (narrow l.pos (ground (arith, m)) slash).0))
            | inr m ↦ (lt, (slash, ground (arith, m, pos, le, lt)))
          ]
    ]

    -- Back from a slash and the look at the rune behind it.
    pub slash-back :
        (bound : ℕ) (l : Lexer) (k : Lexer → Step)
        → Narrow u input
        → is 47 (next u input l).0 ≡ true
        → ((b : Lexer)
            → b.tokens ≡ l.tokens
            → b.start ≡ l.start
            → l.pos ≤ b.pos
            → b.pos ≤ length input
            → (is_rune (peek u input (next u input l).1).0 ≡ true → b.pos ≡ l.pos)
            → Good u input bound (k b))
        → Good u input bound (backup (peek u input (next u input l).1).1 k)
    unfolding next peek
    slash-back bound l k narrow e f =
        let n = next u input l in
        let p = peek u input n.1 in
        let (lt, (slash, wide)) = slash-width l narrow e in
        let at : n.1.pos ≡ suc l.pos = ground (arith, lt, wide) in
        elim (Bool-cases (leb (length input) n.1.pos)) [
          | inl g ↦
              let w : p.1.width ≡ 0 = ground (arith, g) in
              back-Good u input bound p.1 k (omega (arith, w)) (
                f (record p.1 { pos = p.1.pos - p.1.width }) refl refl (omega (arith, w, at))
                  (omega (arith, w, at, lt)) (λ r. absurd (ground (arith, g, r))))
          | inr g ↦
              let w : p.1.width ≡ 1 =
                ground (arith, g, at, (narrow l.pos (ground (arith, g, at)) slash).1) in
              back-Good u input bound p.1 k (omega (arith, w, at)) (
                f (record p.1 { pos = p.1.pos - p.1.width }) refl refl (omega (arith, w, at))
                  (omega (arith, w, at, lt)) (λ r. omega (arith, w, at)))
        ]
