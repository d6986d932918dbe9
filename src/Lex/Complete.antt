-- ===== src/Lex/Complete.antt =====
-- The whole run of lex.go.
use kapacitor.Prelude.{
  true, false, ℕ, zero, suc, ◌+◌, ◌*◌, ◌<◌, ◌≤◌, ◌≡◌, refl, List, length, arith,
}
use kapacitor.Lex.Scan.{
  Token, Lexer, State, lex_token, lex_unary_operator, try_lex_binary_operator, lex_ident_or_keyword,
  lex_number_or_duration_or_dot, lex_reference, lex_single_or_triple_string, lex_regex, lex_comment,
  Step, panics, unfinished, stops, goes, Unicode,
}
use kapacitor.Lex.Run.{
  Lexed, lexer_panics, lexer_unfinished, lexed, new_lexer, loop_rounds, state_step, run, lex,
}
use kapacitor.Lex.Tiles.{begin, Decodes, Narrow, Scanning, Begins, Ended, Good, weight}
use kapacitor.Lex.Idents.{unary-Good, ident-Good, number-Good}
use kapacitor.Lex.Quotes.{reference-Good, string-Good, regex-Good, comment-Good}
use kapacitor.Lex.Operators.{binary-Good}
use kapacitor.Lex.Tokens.{token-Good}

module _ (u : Unicode) (input : List ℕ) (decodes : Decodes u) (narrow : Narrow u input) where
  step-Good :
      (st : State) (l : Lexer)
      → Scanning u input l
      → Begins u input st l
      → Good u input (weight u input st l) (state_step u input st l)
  unfolding state_step
  step-Good lex_token l h e =
      token-Good u input decodes narrow (loop_rounds u input) l (weight u input lex_token l)
        (omega arith) h e (omega arith)
  step-Good lex_unary_operator l h e = unary-Good u input decodes l h e
  step-Good try_lex_binary_operator l h e =
      binary-Good u input decodes narrow (loop_rounds u input) l (omega arith) h e
  step-Good lex_ident_or_keyword l h e =
      ident-Good u input decodes (loop_rounds u input) l (weight u input lex_ident_or_keyword l)
        (omega arith) h e (omega arith)
  step-Good lex_number_or_duration_or_dot l h (e, starts) =
      number-Good u input decodes (loop_rounds u input) false true l
        (weight u input lex_number_or_duration_or_dot l) (omega arith) h starts (omega arith)
  step-Good lex_reference l h e =
      reference-Good u input decodes (loop_rounds u input) l (weight u input lex_reference l)
        (omega arith) h e (omega arith)
  step-Good lex_single_or_triple_string l h e =
      string-Good u input decodes (loop_rounds u input) l (omega arith) h
  step-Good lex_regex l h e = regex-Good u input decodes (loop_rounds u input) l (omega arith) h
  step-Good lex_comment l h e = comment-Good u input decodes (loop_rounds u input) l (omega arith) h

  abbrev Completes : Lexed → Type 0
  Completes r = (tokens : List Token) × ((r ≡ lexed tokens) × (Ended u input tokens))

  after-Completes :
      (bound rounds : ℕ) (s : Step)
      → ((st : State) (l : Lexer)
          → Scanning u input l
          → Begins u input st l
          → weight u input st l < rounds
          → Completes (run u input rounds st l))
      → Good u input bound s
      → bound ≤ rounds
      → Completes (elim s [
        | panics ↦ lexer_panics
        | unfinished ↦ lexer_unfinished
        | stops l' ↦ lexed l'.tokens
        | goes l' st' ↦ run u input rounds st' l'
      ])
  after-Completes bound rounds panics ih g le = absurd g
  after-Completes bound rounds unfinished ih g le = absurd g
  after-Completes bound rounds (stops l') ih g le = (l'.tokens, (refl, g))
  after-Completes bound rounds (goes l' st') ih (h, (e, lt)) le =
      ih st' l' h e (omega (arith, lt, le))

  run-Completes :
      (rounds : ℕ) (st : State) (l : Lexer)
      → Scanning u input l
      → Begins u input st l
      → weight u input st l < rounds
      → Completes (run u input rounds st l)
  unfolding run
  run-Completes zero st l h e lt = absurd (omega (arith, lt))
  run-Completes (suc rounds) st l h e lt =
      after-Completes (weight u input st l) rounds (state_step u input st l)
        (λ st' l' h' e' lt'. run-Completes rounds st' l' h' e' lt') (step-Good st l h e)
        (omega (arith, lt))

  -- Where decoding reads a byte at least and none past the end, and a slash and the rune behind it
  -- are one byte long: within three states for each byte and two more the lexer ends without a
  -- panic. It has sent tokens one behind the other, each with the text of the input at its place,
  -- not empty, and with only spaces before it, and last either an error or, at the end of the input,
  -- EOF.
  pub lex_complete :
      (tokens : List Token) × ((lex u input (3 * length input + 2) ≡ lexed tokens)
        × (Ended u input tokens))
  unfolding lex
  lex_complete =
      run-Completes (3 * length input + 2) lex_token new_lexer (begin, (omega arith, omega arith))
        refl (omega arith)
