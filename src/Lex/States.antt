-- ===== src/Lex/States.antt =====
-- The state functions of lex.go for operators, identifiers and numbers. Each loop has `fuel` rounds.
use kapacitor.Prelude.{
  ℕ, zero, suc, Bool, true, false, not, ◌&&◌, ◌||◌, List, Option, none, some, if◌then◌else◌,
}
use kapacitor.Lex.Scan.{
  Kind, token_eof, token_asgn, token_dot, token_pipe, token_at, token_ident, token_number,
  token_duration, token_l_paren, token_r_paren, token_ls_bracket, token_rs_bracket, token_comma,
  token_star, Lexer, State, lex_token, lex_unary_operator, try_lex_binary_operator,
  lex_ident_or_keyword, lex_number_or_duration_or_dot, lex_reference, lex_single_or_triple_string,
  lex_regex, lex_comment, Step, unfinished, stops, goes, Unicode, is, test, next, backup, peek,
  current, emit, ignore, errorf, ignore_space,
}
use kapacitor.Lex.Words.{
  str_to_operator, keywords, is_lambda, is_regex_equal, is_regex_not_equal, is_unary_operator_char,
  is_dur_unit,
}

module _ (u : Unicode) (input : List ℕ) where
  -- emit, and the state that follows.
  abbrev pub emits : Kind → State → Lexer → Step
  emits t st l = goes (emit input t l) st

  -- `op := strToOperator[l.current()]; l.emit(op)`
  abbrev pub emits_operator : State → Lexer → Step
  emits_operator st l = goes (emit input (str_to_operator (current input l)) l) st

  unfoldable pub token_rounds : (fuel : ℕ) → Lexer → Step
  token_rounds zero l = unfinished
  token_rounds (suc fuel) l =
      let (r, l') = next u input l in
      let again = token_rounds fuel (ignore l') in
      let (r2, l2) = peek u input l' in
      if is_unary_operator_char r
      then backup l' (λ b. goes b lex_unary_operator)
      else if test u.is_digit r || is 45 r || is 46 r
      then backup l' (λ b. goes b lex_number_or_duration_or_dot)
      else if test u.is_letter r
      then goes l' lex_ident_or_keyword
      else if is 34 r
      then goes l' lex_reference
      else if is 39 r
      then backup l' (λ b. goes b lex_single_or_triple_string)
      else if test u.is_space r
      then again
      else if is 40 r
      then emits token_l_paren lex_token l'
      else if is 41 r
      then emits token_r_paren try_lex_binary_operator l'
      else if is 91 r
      then emits token_ls_bracket lex_token l'
      else if is 93 r
      then emits token_rs_bracket lex_token l'
      else if is 124 r
      then emits token_pipe lex_token l'
      else if is 64 r
      then emits token_at lex_token l'
      else if is 44 r
      then emits token_comma lex_token l'
      else if is 42 r
      then emits token_star lex_token l'
      else if is 47 r
      then if is 47 r2
        then backup l2 (λ b. goes b lex_comment)
        else backup l2 (λ b. goes b lex_regex)
      else elim r [ none ↦ stops (emit input token_eof l') | some _ ↦ errorf l' ]

  unfoldable pub unary_operator : Lexer → Step
  unary_operator l =
      let (r, l') = next u input l in
      if is_unary_operator_char r then emits_operator lex_token l' else errorf l'

  -- A regular expression may follow: `l.ignoreSpace(); if l.peek() == '/' { return lexRegex }`
  abbrev pub regex_or_token : (fuel : ℕ) → Lexer → Step
  regex_or_token fuel l = ignore_space u input fuel l (λ b.
      let (r, b') = peek u input b in if is 47 r then goes b' lex_regex else goes b' lex_token)

  -- `if l.peek() == c || l.peek() == d { l.next() }`
  abbrev pub next_if : (c d : ℕ) → Lexer → Lexer
  next_if c d l =
      let (r, l') = peek u input l in if is c r || is d r then (next u input l').1 else l'

  unfoldable pub binary_operator_at : (fuel : ℕ) → Lexer → Step
  binary_operator_at fuel l =
      let (r, l') = next u input l in
      let (r2, l2) = peek u input l' in
      let ne = next_if 61 126 l' in
      let eq = (next u input l2).1 in
      let neq = emit input (str_to_operator (current input ne)) ne in
      let op = emit input (str_to_operator (current input eq)) eq in
      if is 43 r || is 45 r || is 42 r || is 37 r
      then emits_operator lex_token l'
      else if is 47 r
      then if is 47 r2 then backup l2 (λ b. goes b lex_comment) else emits_operator lex_token l2
      else if is 33 r
      then if is_regex_not_equal (str_to_operator (current input ne))
        then regex_or_token fuel neq
        else goes neq lex_token
      else if is 62 r || is 60 r
      then emits_operator lex_token (next_if 61 61 l')
      else if is 61 r
      then if is 126 r2 || is 61 r2
        then if is_regex_equal (str_to_operator (current input eq))
          then regex_or_token fuel op
          else goes op lex_token
        else regex_or_token fuel (emit input token_asgn l2)
      else backup l' (λ b. goes b lex_token)

  unfoldable pub binary_operator : (fuel : ℕ) → Lexer → Step
  binary_operator fuel l = ignore_space u input fuel l (binary_operator_at fuel)

  abbrev pub is_valid_ident : Option ℕ → Bool
  is_valid_ident r = test u.is_digit r || test u.is_letter r || is 95 r

  -- What lexIdentOrKeyword does behind the identifier, which may be a keyword.
  unfoldable pub ident_kind : Option Kind → Lexer → Step
  ident_kind none l = emits token_ident try_lex_binary_operator l
  ident_kind (some t) l =
      let (r, l') = next u input l in
      if is_lambda t
      then if is 58 r
        then emits t try_lex_binary_operator l'
        else backup l' (λ b. emits token_ident try_lex_binary_operator b)
      else emits t try_lex_binary_operator l

  unfoldable pub ident_end : Lexer → Step
  ident_end l = ident_kind (keywords (current input l)) l

  unfoldable pub ident_rounds : (fuel : ℕ) → Lexer → Step
  ident_rounds zero l = unfinished
  ident_rounds (suc fuel) l =
      let (r, l') = next u input l in
      let again = ident_rounds fuel l' in if is_valid_ident r then again else backup l' ident_end

  unfoldable pub number_rounds : (fuel : ℕ) → (found_decimal first : Bool) → Lexer → Step
  number_rounds zero found_decimal first l = unfinished
  number_rounds (suc fuel) found_decimal first l =
      let (r, l') = next u input l in
      let (r2, l2) = peek u input l' in
      let dot = number_rounds fuel true false (if first then l2 else l') in
      let digit = number_rounds fuel found_decimal false l' in
      let ms = if is 109 r then (if is 115 r2 then (next u input l2).1 else l2) else l' in
      if is 46 r
      then if first && not (test u.is_digit r2)
        then emits token_dot lex_token l2
        else if found_decimal
        then errorf l'
        else dot
      else if test u.is_digit r
      then digit
      else if not found_decimal && is_dur_unit r
      then emits token_duration try_lex_binary_operator ms
      else backup l' (emits token_number try_lex_binary_operator)
