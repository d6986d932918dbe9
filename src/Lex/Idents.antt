-- ===== src/Lex/Idents.antt =====
-- Unary operators, identifiers and numbers of lex.go keep the tiles.
use kapacitor.Prelude.{
  ℕ, zero, suc, ◌-◌, ◌*◌, ◌<◌, ◌≤◌, ◌≡◌, refl, ap, Bool, true, false, not, ◌&&◌, List, Option, none,
  some, if◌then◌else◌, length, arith,
}
use kapacitor.Lex.Scan.{
  Kind, Lexer, lex_unary_operator, try_lex_binary_operator, Unicode, is, test, next, peek, current,
  token_number, token_ident, token_dot, token_duration,
}
use kapacitor.Lex.Words.{str_to_operator, keywords, is_lambda, is_unary_operator_char, is_dur_unit}
use kapacitor.Lex.States.{
  emits, unary_operator, ident_end, ident_kind, ident_rounds, number_rounds, is_valid_ident,
}
use kapacitor.Lex.Tiles.{
  Decodes, Scanning, weight, Good, if-Good, error-Good, emit-token, emit-try, next-le, next-lt,
  next-Scanning, next-back, same-Scanning, starts_number,
}
use kapacitor.Lex.Ahead.{Ahead, if-Ahead, next-Ahead}

module _ (u : Unicode) (input : List ℕ) (decodes : Decodes u) where
  pub unary-Good :
      (l : Lexer)
      → Scanning u input l
      → l.start ≡ l.pos
      → Good u input (weight u input lex_unary_operator l) (unary_operator u input l)
  unfolding unary_operator is_unary_operator_char next
  unary-Good l h eq =
      let b = weight u input lex_unary_operator l in
      let n = next u input l in
      let sc = next-Scanning u input decodes l h in
      if-Good u input b (is_unary_operator_char n.0) _ _
        (λ e.
          let lt : l.pos < n.1.pos =
            next-lt u input decodes l _ e (λ z. ap is_unary_operator_char z) in
          emit-token u input b (str_to_operator (current input n.1)) n.1 sc (omega (arith, lt, eq))
            (omega arith))
        (λ e. error-Good u input b n.1 sc)

  ident_kind-Good :
      (k : Option Kind) (l : Lexer) (bound : ℕ)
      → Scanning u input l
      → l.start < l.pos
      → 3 * (length input - l.start) ≤ bound
      → Good u input bound (ident_kind u input k l)
  unfolding ident_kind next
  ident_kind-Good none l bound h lt b = emit-try u input bound token_ident l h lt b
  ident_kind-Good (some t) l bound h lt b =
      let n = next u input l in
      if-Good u input bound (is_lambda t) _ _
        (λ e.
          if-Good u input bound (is 58 n.0) _ _
            (λ f.
              emit-try u input bound t n.1 (next-Scanning u input decodes l h)
                (omega (arith, lt, (next-le u input decodes l h.1.1).0)) b)
            (λ f.
              next-back u input decodes bound l
                (λ c. emits u input token_ident try_lex_binary_operator c) h.1.1
                (λ c e1 e2 e3.
                  emit-try u input bound token_ident c (same-Scanning u input l c e1 e2 e3 h)
                    (omega (arith, lt, e2, e3)) (omega (arith, b, e2)))))
        (λ e. emit-try u input bound t l h lt b)

  pub ident-Good :
      (fuel : ℕ) (l : Lexer) (bound : ℕ)
      → length input - l.pos < fuel
      → Scanning u input l
      → l.start < l.pos
      → 3 * (length input - l.start) ≤ bound
      → Good u input bound (ident_rounds u input fuel l)
  unfolding ident_rounds ident_end next
  ident-Good zero l bound f h lt b = absurd (omega (arith, f))
  ident-Good (suc fuel) l bound f h lt b =
      let n = next u input l in
      let sc = next-Scanning u input decodes l h in
      if-Good u input bound (is_valid_ident u input n.0) _ _
        (λ e.
          let more : l.pos < n.1.pos =
            next-lt u input decodes l _ e (λ z. ap (is_valid_ident u input) z) in
          ident-Good fuel n.1 bound (omega (arith, f, more, sc.1.1)) sc (omega (arith, lt, more)) b)
        (λ e. next-back u input decodes bound l (ident_end u input) h.1.1 (λ c e1 e2 e3.
          ident_kind-Good (keywords (current input c)) c bound
            (same-Scanning u input l c e1 e2 e3 h) (omega (arith, lt, e2, e3))
            (omega (arith, b, e2))))

  abbrev pub Numbering : (first : Bool) → Lexer → Type 0
  Numbering true l = starts_number u input l ≡ true
  Numbering false l = l.start < l.pos

  number_end :
      (first : Bool) (l : Lexer)
      → Numbering first l
      → is 46 (next u input l).0 ≡ false
      → test u.is_digit (next u input l).0 ≡ false
      → l.start < l.pos
  number_end true l h e f = absurd (ground (arith, h, e, f))
  number_end false l h e f = h

  pub number-Good :
      (fuel : ℕ) (dec first : Bool) (l : Lexer) (bound : ℕ)
      → length input - l.pos < fuel
      → Scanning u input l
      → Numbering first l
      → 3 * (length input - l.start) ≤ bound
      → Good u input bound (number_rounds u input fuel dec first l)
  unfolding number_rounds next peek is_dur_unit
  number-Good zero dec first l bound f h nb b = absurd (omega (arith, f))
  number-Good (suc fuel) dec first l bound f h nb b =
      let n = next u input l in
      let sc = next-Scanning u input decodes l h in
      let p = peek u input n.1 in
      let here : Ahead u input l.start n.1.pos n.1 = (sc, (refl, omega arith)) in
      if-Good u input bound (is 46 n.0) _ _
        (λ e.
          let more : l.pos < n.1.pos = next-lt u input decodes l _ e (λ z. ap (is 46) z) in
          if-Good u input bound (first && not (test u.is_digit p.0)) _ _
            (λ g. emit-token u input bound token_dot p.1 sc (omega (arith, more, h.1.0)) b)
            (λ g.
              if-Good u input bound dec _ _ (λ d. error-Good u input bound n.1 sc)
                (λ d.
                  let (sc', (e1, e2)) = if-Ahead u input l.start n.1.pos first p.1 n.1 here here in
                  number-Good fuel true false (if first then p.1 else n.1) bound
                    (omega (arith, f, more, e2, sc.1.1, sc'.1.1)) sc'
                    (omega (arith, e1, e2, more, h.1.0)) (omega (arith, e1, b)))))
        (λ e.
          if-Good u input bound (test u.is_digit n.0) _ _
            (λ g.
              let more : l.pos < n.1.pos =
                next-lt u input decodes l _ g (λ z. ap (test u.is_digit) z) in
              number-Good fuel dec false n.1 bound (omega (arith, f, more, sc.1.1)) sc
                (omega (arith, more, h.1.0)) b)
            (λ g.
              if-Good u input bound (not dec && is_dur_unit n.0) _ _
                (λ d.
                  let more : l.pos < n.1.pos =
                    next-lt u input decodes l (is_dur_unit n.0) (ground (arith, d))
                      (λ z. ap is_dur_unit z) in
                  let (sc', (e1, e2)) =
                    if-Ahead u input l.start n.1.pos (is 109 n.0) _ n.1
                      (if-Ahead u input l.start n.1.pos (is 115 p.0) (next u input p.1).1 p.1
                        (next-Ahead u input decodes l.start n.1.pos p.1 here) here)
                      here in
                  emit-try u input bound token_duration _ sc' (omega (arith, e1, e2, more, h.1.0))
                    (omega (arith, e1, b)))
                (λ d.
                  next-back u input decodes bound l
                    (emits u input token_number try_lex_binary_operator) h.1.1
                    (λ c e1 e2 e3.
                      emit-try u input bound token_number c (same-Scanning u input l c e1 e2 e3 h)
                        (omega (arith, number_end first l nb e g, e2, e3))
                        (omega (arith, b, e2))))))
