-- ===== src/Lex/Wide.antt =====
-- A slash before a rune of more than one byte (lex.go): lexToken looks at the rune and goes back by
-- the width of it.
use kapacitor.Prelude.{
  false, ◌||◌, ◌==◌, ℕ, zero, suc, ◌<◌, ◌≡◌, refl, ap, List, length, drop, arith,
}
use kapacitor.Lex.Scan.{
  token_regex, Token, Lexer, lex_token, lex_regex, panics, goes, Unicode, next, peek, emit,
}
use kapacitor.Lex.Words.{is_unary_operator_char}
use kapacitor.Lex.States.{token_rounds}
use kapacitor.Lex.Quoted.{regex, regex_rounds}
use kapacitor.Lex.Run.{lexer_panics, lexer_unfinished, new_lexer, state_step, run, lex}

-- What the classes of package unicode say of a slash.
abbrev pub SlashClasses : Unicode → Type 0
SlashClasses u = (u.is_digit 47 || u.is_letter 47 || u.is_space 47) ≡ false

module _ (u : Unicode) (input : List ℕ) (classes : SlashClasses u) where
  first-panics :
      (u.decode input ≡ (47, 1))
      → 1 < length input
      → 1 < (u.decode (drop 1 input)).1
      → state_step u input lex_token new_lexer ≡ panics
  unfolding state_step token_rounds next peek is_unary_operator_char
  first-panics slash long wide =
      ground (arith, ap (λ d. d.0) slash, ap (λ d. d.1) slash, long, wide, classes)

  -- The lexer panics on an input that begins with a slash and a rune of more than one byte, for
  -- example a regular expression at the begin, with any rounds but none.
  pub lex_panics :
      (slash : u.decode input ≡ (47, 1)) (long : 1 < length input)
      (wide : 1 < (u.decode (drop 1 input)).1) (rounds : ℕ)
      → lex u input (suc rounds) ≡ lexer_panics
  unfolding lex run
  lex_panics slash long wide rounds = ground (arith, first-panics slash long wide)

  module _ (a : ℕ) (long : suc (suc (suc a)) < length input)
      (before : (u.decode (drop a input)) ≡ (47, 1))
      (last : (u.decode (drop (suc a) input)) ≡ (47, 1))
      (slash : (u.decode (drop (suc (suc a)) input)) ≡ (47, 1)) (r : ℕ) (other : (r == 47) ≡ false)
      (wide : u.decode (drop (suc (suc (suc a))) input) ≡ (r, 3)) where
    abbrev at : (pos start width : ℕ) → List Token → Lexer
    at pos start width tokens = record { start = start; pos = pos; width = width; tokens = tokens }

    token-back :
        (w : ℕ) (ts : List Token)
        → state_step u input lex_token (at (suc (suc a)) (suc (suc a)) w ts)
          ≡ goes (at a (suc (suc a)) 3 ts) lex_regex
    unfolding state_step token_rounds next peek is_unary_operator_char
    token-back w ts = ground (
      arith,
      ap (λ d. d.0) slash,
      ap (λ d. d.1) slash,
      ap (λ d. d.0) wide,
      ap (λ d. d.1) wide,
      long,
      classes,
      other,
    )

    regex-back :
        (ts : List Token)
        → state_step u input lex_regex (at a (suc (suc a)) 3 ts)
          ≡ goes (emit input token_regex (at (suc (suc a)) (suc (suc a)) 1 ts)) lex_token
    unfolding state_step regex regex_rounds next peek
    regex-back ts = ground (
      arith,
      ap (λ d. d.0) before,
      ap (λ d. d.1) before,
      ap (λ d. d.0) last,
      ap (λ d. d.1) last,
      long,
    )

    regex-again :
        (ts : List Token)
        → (ts' : List Token) × (state_step u input lex_regex (at a (suc (suc a)) 3 ts)
            ≡ goes (at (suc (suc a)) (suc (suc a)) 1 ts') lex_token)
    unfolding emit
    regex-again ts =
        ((emit input token_regex (at (suc (suc a)) (suc (suc a)) 1 ts)).tokens, regex-back ts)

    -- At a token that starts with a slash, behind two slashes and before a rune of three bytes other
    -- than a slash, the lexer does not end: it sends empty regular expressions whatever the number
    -- of rounds.
    pub run_diverges :
        (rounds width : ℕ) (sent : List Token)
        → run u input rounds lex_token (at (suc (suc a)) (suc (suc a)) width sent)
          ≡ lexer_unfinished
    unfolding run
    run_diverges zero w ts = refl
    run_diverges (suc zero) w ts = ground (arith, token-back w ts)
    run_diverges (suc (suc k)) w ts =
        let (ts', e) = regex-again ts in ground (arith, token-back w ts, e, run_diverges k 1 ts')
