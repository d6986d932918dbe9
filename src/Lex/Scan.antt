-- ===== src/Lex/Scan.antt =====
-- The lexer of lex.go and its steps over the input. The input is a list of bytes; runes are numbers,
-- and none is eof.
use kapacitor.Prelude.{
  ℕ, zero, suc, ◌+◌, ◌-◌, Bool, false, List, [], ◌∷◌, ◌++◌, Option, none, some, if◌then◌else◌, ltb,
  leb, ◌==◌, length, take, drop,
}
use kapacitor.Tick.Functions.{TokenType}

-- The token types that are no operators of expressions, and those.
pub data Kind : Type 0 where
  token_error : Kind
  token_eof : Kind
  token_var : Kind
  token_dbrp : Kind
  token_asgn : Kind
  token_dot : Kind
  token_pipe : Kind
  token_at : Kind
  token_ident : Kind
  token_reference : Kind
  token_lambda : Kind
  token_number : Kind
  token_string : Kind
  token_duration : Kind
  token_l_paren : Kind
  token_r_paren : Kind
  token_ls_bracket : Kind
  token_rs_bracket : Kind
  token_comma : Kind
  token_true : Kind
  token_false : Kind
  token_regex : Kind
  token_comment : Kind
  token_star : Kind
  token_operator : (op : TokenType) → Kind

-- The text of an error is left empty.
pub record Token : Type 0 where
  pub typ : Kind
  pub pos : ℕ
  pub val : List ℕ

-- The tokens are those sent so far, in order.
pub record Lexer : Type 0 where
  pub start : ℕ
  pub pos : ℕ
  pub width : ℕ
  pub tokens : List Token

pub data State : Type 0 where
  lex_token : State
  lex_unary_operator : State
  try_lex_binary_operator : State
  lex_ident_or_keyword : State
  lex_number_or_duration_or_dot : State
  lex_reference : State
  lex_single_or_triple_string : State
  lex_regex : State
  lex_comment : State

-- What a state function does: an index out of range, no end within the rounds given to a loop, the
-- end, or the next state.
pub data Step : Type 0 where
  panics : Step
  unfinished : Step
  stops : (l : Lexer) → Step
  goes : (l : Lexer) (next : State) → Step

-- utf8.DecodeRuneInString and the classes of package unicode.
pub record Unicode : Type 0 where
  pub decode : List ℕ → ℕ × ℕ
  pub is_digit : ℕ → Bool
  pub is_letter : ℕ → Bool
  pub is_space : ℕ → Bool

abbrev pub test : (ℕ → Bool) → Option ℕ → Bool
test p none = false
test p (some r) = p r

abbrev pub is : ℕ → Option ℕ → Bool
is c r = test (λ x. x == c) r

-- backup; a position before the input makes the next read panic, which comes at once.
abbrev pub backup : Lexer → (Lexer → Step) → Step
backup l k = if ltb l.pos l.width then panics else k (record l { pos = l.pos - l.width })

abbrev pub ignore : Lexer → Lexer
ignore l = record l { start = l.pos }

unfoldable pub errorf : Lexer → Step
errorf l =
    stops (record l {
      tokens = l.tokens ++ (record { typ = token_error; pos = l.start; val = [] }) ∷ [];
    })

module _ (input : List ℕ) where
  unfoldable pub current : Lexer → List ℕ
  current l = take (l.pos - l.start) (drop l.start input)

  unfoldable pub emit : Kind → Lexer → Lexer
  emit t l = record l {
    tokens = l.tokens ++ (record { typ = t; pos = l.start; val = current l }) ∷ [];
    start = l.pos;
  }

module _ (u : Unicode) (input : List ℕ) where
  unfoldable pub next : Lexer → Option ℕ × Lexer
  next l =
      let (r, w) = u.decode (drop l.pos input) in
      let at_end = leb (length input) l.pos in
      (
        if at_end then none else some r,
        record l { pos = if at_end then l.pos else l.pos + w; width = if at_end then 0 else w },
      )

  -- peek, which leaves the width of the rune that it looks at.
  unfoldable pub peek : Lexer → Option ℕ × Lexer
  peek l = let (r, l') = next l in (r, record l { width = l'.width })

  -- ignoreSpace, and what follows it.
  unfoldable pub ignore_space : (fuel : ℕ) → Lexer → (Lexer → Step) → Step
  ignore_space zero l k = unfinished
  ignore_space (suc fuel) l k =
      let (r, l') = next l in
      let again = ignore_space fuel (ignore l') k in
      if test u.is_space r then again else backup l' k
