-- ===== src/Lex/Quoted.antt =====
-- The state functions of lex.go for references, strings, regular expressions and comments.
use kapacitor.Prelude.{
  ℕ, zero, suc, ◌-◌, Bool, true, false, not, ◌&&◌, List, none, some, if◌then◌else◌, ◌==◌,
}
use kapacitor.Lex.Scan.{
  token_reference, token_string, token_regex, token_comment, Lexer, lex_token,
  try_lex_binary_operator, Step, unfinished, Unicode, is, test, next, backup, peek, errorf,
}
use kapacitor.Lex.States.{emits}

module _ (u : Unicode) (input : List ℕ) where
  unfoldable pub reference_rounds : (fuel : ℕ) → Lexer → Step
  reference_rounds zero l = unfinished
  reference_rounds (suc fuel) l =
      let (r, l') = next u input l in
      let (r2, l2) = peek u input l' in
      let escaped = reference_rounds fuel (if is 34 r2 then (next u input l2).1 else l2) in
      let again = reference_rounds fuel l' in
      if is 92 r
      then escaped
      else if is 34 r
      then emits u input token_reference try_lex_binary_operator l'
      else elim r [ none ↦ errorf l' | some _ ↦ again ]

  -- The inner loop, for `total` quotes, of which `count` are still to come.
  unfoldable pub string_rounds : (fuel total count : ℕ) → Lexer → Step
  string_rounds zero total count l = unfinished
  string_rounds (suc fuel) total count l =
      let (r, l') = next u input l in
      let (r2, l2) = peek u input l' in
      let escaped = string_rounds fuel total count (if is 39 r2 then (next u input l2).1 else l2) in
      let fewer = string_rounds fuel total (count - 1) l' in
      let again = string_rounds fuel total total l' in
      if is 92 r && (count == 1)
      then escaped
      else if is 39 r
      then if count == 1 then emits u input token_string try_lex_binary_operator l' else fewer
      else elim r [ none ↦ errorf l' | some _ ↦ again ]

  unfoldable pub single_or_triple_string : (fuel : ℕ) → Lexer → Step
  single_or_triple_string fuel l =
      let (r, l1) = next u input l in
      let (r2, l2) = peek u input l1 in
      let l3 = (next u input l2).1 in
      let (r4, l4) = peek u input l3 in
      let l5 = (next u input l4).1 in
      if is 39 r
      then if is 39 r2
        then if is 39 r4
          then string_rounds fuel 3 3 l5
          else emits u input token_string try_lex_binary_operator l4
        else string_rounds fuel 1 1 l2
      else errorf l1

  unfoldable pub regex_rounds : (fuel : ℕ) → Lexer → Step
  regex_rounds zero l = unfinished
  regex_rounds (suc fuel) l =
      let (r, l') = next u input l in
      let (r2, l2) = peek u input l' in
      let escaped = regex_rounds fuel (if is 47 r2 then (next u input l2).1 else l2) in
      let again = regex_rounds fuel l' in
      if is 92 r
      then escaped
      else if is 47 r
      then emits u input token_regex lex_token l'
      else elim r [ none ↦ errorf l' | some _ ↦ again ]

  unfoldable pub regex : (fuel : ℕ) → Lexer → Step
  regex fuel l = let (r, l') = next u input l in if is 47 r then regex_rounds fuel l' else errorf l'

  -- `gap` is the loop over the spaces behind a new line.
  unfoldable pub comment_rounds : (fuel : ℕ) → (gap : Bool) → Lexer → Step
  comment_rounds zero gap l = unfinished
  comment_rounds (suc fuel) gap l =
      let (r, l') = next u input l in
      let in_gap = comment_rounds fuel true l' in
      let again = comment_rounds fuel false l' in
      if gap
      then if not (is 10 r) && test u.is_space r
        then in_gap
        else if is 47 r
        then again
        else backup l' (emits u input token_comment lex_token)
      else if is 10 r
      then in_gap
      else elim r [ none ↦ emits u input token_comment lex_token l' | some _ ↦ again ]

  unfoldable pub comment : (fuel : ℕ) → Lexer → Step
  comment fuel l =
      let (r, l') = peek u input l in
      if is 47 r then comment_rounds fuel false (next u input l').1 else errorf l'
