-- ===== src/Lex/Run.antt =====
-- run of lex.go, with `fuel` rounds for the states and for each of their loops.
use kapacitor.Prelude.{ℕ, zero, suc, true, false, List, [], length}
use kapacitor.Lex.Scan.{
  Token, Lexer, State, lex_token, lex_unary_operator, try_lex_binary_operator, lex_ident_or_keyword,
  lex_number_or_duration_or_dot, lex_reference, lex_single_or_triple_string, lex_regex, lex_comment,
  Step, panics, unfinished, stops, goes, Unicode,
}
use kapacitor.Lex.States.{
  token_rounds, unary_operator, binary_operator, ident_rounds, number_rounds,
}
use kapacitor.Lex.Quoted.{reference_rounds, single_or_triple_string, regex, comment}

-- The tokens that were sent before the end.
pub data Lexed : Type 0 where
  lexer_panics : Lexed
  lexer_unfinished : Lexed
  lexed : (tokens : List Token) → Lexed

abbrev pub new_lexer : Lexer
new_lexer = record { start = 0; pos = 0; width = 0; tokens = [] }

module _ (u : Unicode) (input : List ℕ) where
  -- Each loop reads at least a byte in a round, but for the last.
  abbrev pub loop_rounds : ℕ
  loop_rounds = suc (length input)

  unfoldable pub state_step : State → Lexer → Step
  state_step lex_token l = token_rounds u input loop_rounds l
  state_step lex_unary_operator l = unary_operator u input l
  state_step try_lex_binary_operator l = binary_operator u input loop_rounds l
  state_step lex_ident_or_keyword l = ident_rounds u input loop_rounds l
  state_step lex_number_or_duration_or_dot l = number_rounds u input loop_rounds false true l
  state_step lex_reference l = reference_rounds u input loop_rounds l
  state_step lex_single_or_triple_string l = single_or_triple_string u input loop_rounds l
  state_step lex_regex l = regex u input loop_rounds l
  state_step lex_comment l = comment u input loop_rounds l

  unfoldable pub run : (rounds : ℕ) → State → Lexer → Lexed
  run zero st l = lexer_unfinished
  run (suc rounds) st l = elim (state_step st l) [
    | panics ↦ lexer_panics
    | unfinished ↦ lexer_unfinished
    | stops l' ↦ lexed l'.tokens
    | goes l' st' ↦ run rounds st' l'
  ]

  unfoldable pub lex : (rounds : ℕ) → Lexed
  lex rounds = run rounds lex_token new_lexer
