-- ===== src/Lex/Operators.antt =====
-- tryLexBinaryOperator of lex.go keeps the tiles.
use kapacitor.Prelude.{
  ℕ, ◌+◌, ◌-◌, ◌*◌, ◌<◌, ◌≤◌, ◌≡◌, refl, ap, Bool, true, ◌||◌, List, if◌then◌else◌, length, arith,
}
use kapacitor.Lex.Scan.{
  Kind, token_asgn, Lexer, lex_token, try_lex_binary_operator, lex_comment, goes, Unicode, is, next,
  peek, emit,
}
use kapacitor.Lex.States.{regex_or_token, next_if, binary_operator_at, binary_operator}
use kapacitor.Lex.Tiles.{
  Decodes, Narrow, Scanning, Good, weight, if-Good, emit-Scanning, emit-token, next-lt,
  next-Scanning, next-back, same-Scanning,
}
use kapacitor.Lex.Ahead.{Ahead, if-Ahead, next-Ahead}
use kapacitor.Lex.Spaces.{ignore_space-Good, regex_or_token-Good, slash-back}

module _ (u : Unicode) (input : List ℕ) (decodes : Decodes u) (narrow : Narrow u input) where
  next_if-Ahead :
      (start pos c d : ℕ) (l : Lexer)
      → Ahead u input start pos l
      → Ahead u input start pos (next_if u input c d l)
  unfolding peek
  next_if-Ahead start pos c d l h =
      let p = peek u input l in
      if-Ahead u input start pos (is c p.0 || is d p.0) (next u input p.1).1 p.1
        (next-Ahead u input decodes start pos p.1 h) h

  -- An operator, after which a regular expression may follow.
  then_regex-Good :
      (fuel : ℕ) (t : Kind) (regex_follows : Bool) (l : Lexer) (bound : ℕ)
      → length input - l.pos < fuel
      → Scanning u input l
      → l.start < l.pos
      → 3 * (length input - l.start) ≤ bound
      → let l' = emit input t l in
        Good u input bound
          (if regex_follows then regex_or_token u input fuel l' else goes l' lex_token)
  unfolding emit
  then_regex-Good fuel t c l bound f sc lt b =
      if-Good u input bound c _ _
        (λ _.
          regex_or_token-Good u input decodes fuel (emit input t l) bound (omega (arith, f))
            (emit-Scanning u input t l sc lt) refl (omega (arith, b, lt, sc.1.1)))
        (λ _. emit-token u input bound t l sc lt b)

  binary_operator_at-Good :
      (fuel : ℕ) (l : Lexer) (bound : ℕ)
      → length input - l.pos < fuel
      → Scanning u input l
      → l.start ≡ l.pos
      → 3 * (length input - l.start) + 1 < bound
      → Good u input bound (binary_operator_at u input fuel l)
  unfolding binary_operator_at next peek
  binary_operator_at-Good fuel l bound f h eq b =
      let n = next u input l in
      let sc = next-Scanning u input decodes l h in
      let p = peek u input n.1 in
      let here : Ahead u input l.start n.1.pos n.1 = (sc, (refl, omega arith)) in
      let (ne, (ne1, ne2)) = next_if-Ahead l.start n.1.pos 61 126 n.1 here in
      let (le, (le1, le2)) = next_if-Ahead l.start n.1.pos 61 61 n.1 here in
      let (sq, (eq1, eq2)) = next-Ahead u input decodes l.start n.1.pos p.1 here in
      let b' : 3 * (length input - l.start) ≤ bound = omega (arith, b) in
      if-Good u input bound (is 43 n.0 || is 45 n.0 || is 42 n.0 || is 37 n.0) _ _
        (λ e.
          let more : l.pos < n.1.pos =
            next-lt u input decodes l _ e
              (λ z. ap (λ r. is 43 r || is 45 r || is 42 r || is 37 r) z) in
          emit-token u input bound _ n.1 sc (omega (arith, more, eq)) b')
        (λ _.
          if-Good u input bound (is 47 n.0) _ _
            (λ e.
              let more : l.pos < n.1.pos = next-lt u input decodes l _ e (λ z. ap (is 47) z) in
              if-Good u input bound (is 47 p.0) _ _
                (λ e'.
                  slash-back u input decodes bound l (λ c. goes c lex_comment) narrow e
                    (λ c e1 e2 le' le'' at.
                      let same : c.pos ≡ l.pos = at (ground (arith, e')) in
                      (
                        same-Scanning u input l c e1 e2 same h,
                        (omega (arith, e2, same, eq), omega (arith, e2, b)),
                      )))
                (λ _. emit-token u input bound _ p.1 sc (omega (arith, more, eq)) b'))
            (λ _.
              if-Good u input bound (is 33 n.0) _ _
                (λ e.
                  let more : l.pos < n.1.pos = next-lt u input decodes l _ e (λ z. ap (is 33) z) in
                  then_regex-Good fuel _ _ (next_if u input 61 126 n.1) bound
                    (omega (arith, f, ne2, more)) ne (omega (arith, ne1, ne2, more, eq))
                    (omega (arith, b', ne1)))
                (λ _.
                  if-Good u input bound (is 62 n.0 || is 60 n.0) _ _
                    (λ e.
                      let more : l.pos < n.1.pos =
                        next-lt u input decodes l _ e (λ z. ap (λ r. is 62 r || is 60 r) z) in
                      emit-token u input bound _ (next_if u input 61 61 n.1) le
                        (omega (arith, le1, le2, more, eq)) (omega (arith, b', le1)))
                    (λ _.
                      if-Good u input bound (is 61 n.0) _ _
                        (λ e.
                          let more : l.pos < n.1.pos =
                            next-lt u input decodes l _ e (λ z. ap (is 61) z) in
                          if-Good u input bound (is 126 p.0 || is 61 p.0) _ _
                            (λ _.
                              then_regex-Good fuel _ _ (next u input p.1).1 bound
                                (omega (arith, f, eq2, more)) sq (omega (arith, eq1, eq2, more, eq))
                                (omega (arith, b', eq1)))
                            (λ _.
                              then_regex-Good fuel token_asgn true p.1 bound
                                (omega (arith, f, more)) sc (omega (arith, more, eq)) b'))
                        (λ _.
                          next-back u input decodes bound l (λ c. goes c lex_token) h.1.1
                            (λ c e1 e2 e3. (
                              same-Scanning u input l c e1 e2 e3 h,
                              (omega (arith, e2, e3, eq), omega (arith, e2, b)),
                            )))))))

  pub binary-Good :
      (fuel : ℕ) (l : Lexer)
      → length input < fuel
      → Scanning u input l
      → l.start ≡ l.pos
      → Good u input (weight u input try_lex_binary_operator l) (binary_operator u input fuel l)
  unfolding binary_operator
  binary-Good fuel l f h eq =
      let b = weight u input try_lex_binary_operator l in
      ignore_space-Good u input decodes fuel l b (binary_operator_at u input fuel)
        (omega (arith, f)) h eq
        (λ c sc e le. binary_operator_at-Good fuel c b (omega (arith, f)) sc e (omega (arith, le)))
