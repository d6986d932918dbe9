-- ===== src/Lex/Tokens.antt =====
-- lexToken of lex.go keeps the tiles.
use kapacitor.Prelude.{
  ℕ, zero, suc, ◌-◌, ◌*◌, ◌<◌, ◌≤◌, ◌≡◌, refl, ap, true, false, ◌||◌, List, none, some,
  if◌then◌else◌, length, arith,
}
use kapacitor.Lex.Scan.{
  Kind, token_eof, token_l_paren, token_r_paren, token_ls_bracket, token_rs_bracket, token_pipe,
  token_at, token_comma, token_star, Lexer, lex_token, lex_unary_operator,
  lex_number_or_duration_or_dot, lex_single_or_triple_string, lex_regex, lex_comment, stops, goes,
  Unicode, is, test, next, peek, backup, emit, errorf, ignore,
}
use kapacitor.Lex.Words.{is_unary_operator_char}
use kapacitor.Lex.States.{token_rounds}
use kapacitor.Lex.Tiles.{
  Decodes, Narrow, Scanning, Good, starts_number, if-Good, error-Good, emit-token, emit-try,
  next-lt, next-end, next-Scanning, next-back, same-Scanning,
}
use kapacitor.Lex.Ahead.{rune-Good}
use kapacitor.Lex.Spaces.{end-Ended, ignore-Scanning, slash-back}

module _ (u : Unicode) (input : List ℕ) (decodes : Decodes u) (narrow : Narrow u input) where
  -- A token of one rune.
  single-token :
      (l : Lexer) (bound : ℕ) (c : ℕ) (t : Kind)
      → Scanning u input l
      → l.start ≡ l.pos
      → is c (next u input l).0 ≡ true
      → 3 * (length input - l.start) ≤ bound
      → Good u input bound (goes (emit input t (next u input l).1) lex_token)
  unfolding next
  single-token l bound c t h eq e b =
      let more : l.pos < (next u input l).1.pos =
        next-lt u input decodes l _ e (λ z. ap (is c) z) in
      emit-token u input bound t (next u input l).1 (next-Scanning u input decodes l h)
        (omega (arith, more, eq)) b

  number_at :
      (l c : Lexer)
      → c.pos ≡ l.pos
      → is_unary_operator_char (next u input l).0 ≡ false
      → (test u.is_digit (next u input l).0 || is 45 (next u input l).0 || is 46 (next u input l).0)
        ≡ true
      → starts_number u input c ≡ true
  unfolding next is_unary_operator_char
  number_at l c at f e =
      let same : starts_number u input c ≡ starts_number u input l =
        ap (λ a. starts_number u input (record l { pos = a })) at in
      ground (arith, same, f, e)

  behind-Scanning :
      (l c : Lexer)
      → c.tokens ≡ l.tokens
      → c.start ≡ l.start
      → l.pos ≤ c.pos
      → c.pos ≤ length input
      → Scanning u input l
      → Scanning u input c
  behind-Scanning l c e1 e2 le le' (t, (h, _)) = (
    (same-Scanning u input (record l { pos = c.pos }) c e1 e2 refl
        (t, (omega (arith, h, le), le'))).0,
    (omega (arith, h, le, e2), le'),
  )

  -- The last cases: a slash, the end and other runes.
  last-Good :
      (l : Lexer) (bound : ℕ)
      → Scanning u input l
      → l.start ≡ l.pos
      → 3 * (length input - l.start) < bound
      → let n = next u input l in
        let p = peek u input n.1 in
        Good u input bound (
          if is 47 n.0
          then if is 47 p.0
            then backup p.1 (λ c. goes c lex_comment)
            else backup p.1 (λ c. goes c lex_regex)
          else elim n.0 [ none ↦ stops (emit input token_eof n.1) | some _ ↦ errorf n.1 ])
  unfolding next
  last-Good l bound h eq b =
      let n = next u input l in
      let p = peek u input n.1 in
      let sc = next-Scanning u input decodes l h in
      if-Good u input bound (is 47 n.0) _ _
        (λ e.
          if-Good u input bound (is 47 p.0) _ _
            (λ e'.
              slash-back u input decodes bound l (λ c. goes c lex_comment) narrow e
                (λ c e1 e2 le le' at.
                  let same : c.pos ≡ l.pos = at (ground (arith, e')) in
                  (
                    same-Scanning u input l c e1 e2 same h,
                    (omega (arith, e2, same, eq), omega (arith, e2, b)),
                  )))
            (λ _.
              slash-back u input decodes bound l (λ c. goes c lex_regex) narrow e
                (λ c e1 e2 le le' at. (
                  behind-Scanning l c e1 e2 le le' h,
                  (omega (arith, e2, le, eq), omega (arith, e2, b)),
                ))))
        (λ _.
          rune-Good u input bound n.0 _ _
            (λ e.
              let (end, same) = next-end u input decodes l h.1.1 e in
              end-Ended u input n.1 sc (omega (arith, eq, same)) end)
            (λ _. error-Good u input bound n.1 sc))

  pub token-Good :
      (fuel : ℕ) (l : Lexer) (bound : ℕ)
      → length input - l.pos < fuel
      → Scanning u input l
      → l.start ≡ l.pos
      → 3 * (length input - l.start) < bound
      → Good u input bound (token_rounds u input fuel l)
  unfolding token_rounds next
  token-Good zero l bound f h eq b = absurd (omega (arith, f))
  token-Good (suc fuel) l bound f h eq b =
      let n = next u input l in
      let sc = next-Scanning u input decodes l h in
      let b' : 3 * (length input - l.start) ≤ bound = omega (arith, b) in
      if-Good u input bound (is_unary_operator_char n.0) _ _
        (λ _.
          next-back u input decodes bound l (λ c. goes c lex_unary_operator) h.1.1
            (λ c e1 e2 e3. (
              same-Scanning u input l c e1 e2 e3 h,
              (omega (arith, e2, e3, eq), omega (arith, e2, b)),
            )))
        (λ un.
          if-Good u input bound (test u.is_digit n.0 || is 45 n.0 || is 46 n.0) _ _
            (λ e.
              next-back u input decodes bound l (λ c. goes c lex_number_or_duration_or_dot) h.1.1
                (λ c e1 e2 e3. (
                  same-Scanning u input l c e1 e2 e3 h,
                  ((omega (arith, e2, e3, eq), number_at l c e3 un e), omega (arith, e2, b)),
                )))
            (λ _.
              if-Good u input bound (test u.is_letter n.0) _ _
                (λ e. (
                  sc,
                  (
                    omega (arith, eq, next-lt u input decodes l _ e (λ z. ap (test u.is_letter) z)),
                    omega (arith, b),
                  ),
                ))
                (λ _.
                  if-Good u input bound (is 34 n.0) _ _
                    (λ e. (
                      sc,
                      (
                        omega (arith, eq, next-lt u input decodes l _ e (λ z. ap (is 34) z)),
                        omega (arith, b),
                      ),
                    ))
                    (λ _.
                      if-Good u input bound (is 39 n.0) _ _
                        (λ _.
                          next-back u input decodes bound l
                            (λ c. goes c lex_single_or_triple_string) h.1.1
                            (λ c e1 e2 e3. (
                              same-Scanning u input l c e1 e2 e3 h,
                              (omega (arith, e2, e3, eq), omega (arith, e2, b)),
                            )))
                        (λ _.
                          if-Good u input bound (test u.is_space n.0) _ _
                            (λ e.
                              let more : l.pos < n.1.pos =
                                next-lt u input decodes l _ e (λ z. ap (test u.is_space) z) in
                              let si = ignore-Scanning u input decodes l h eq e in
                              token-Good fuel (ignore n.1) bound (omega (arith, f, more, si.1.1)) si
                                refl (omega (arith, b, more, eq)))
                            (λ _.
                              if-Good u input bound (is 40 n.0) _ _
                                (λ e. single-token l bound 40 token_l_paren h eq e b')
                                (λ _.
                                  if-Good u input bound (is 41 n.0) _ _
                                    (λ e.
                                      emit-try u input bound token_r_paren n.1 sc
                                        (omega (
                                          arith,
                                          eq,
                                          next-lt u input decodes l _ e (λ z. ap (is 41) z),
                                        ))
                                        b')
                                    (λ _.
                                      if-Good u input bound (is 91 n.0) _ _
                                        (λ e. single-token l bound 91 token_ls_bracket h eq e b')
                                        (λ _.
                                          if-Good u input bound (is 93 n.0) _ _
                                            (λ e.
                                              single-token l bound 93 token_rs_bracket h eq e b')
                                            (λ _.
                                              if-Good u input bound (is 124 n.0) _ _
                                                (λ e. single-token l bound 124 token_pipe h eq e b')
                                                (λ _.
                                                  if-Good u input bound (is 64 n.0) _ _
                                                    (λ e.
                                                      single-token l bound 64 token_at h eq e b')
                                                    (λ _.
                                                      if-Good u input bound (is 44 n.0) _ _
                                                        (λ e.
                                                          single-token l bound 44 token_comma h eq e
                                                            b')
                                                        (λ _.
                                                          if-Good u input bound (is 42 n.0) _ _
                                                            (λ e.
                                                            single-token l bound 42 token_star h eq
                                                            e b')
                                                            (λ _.
                                                            last-Good l bound h eq b))))))))))))))
