-- ===== src/Lex/Words.antt =====
-- The operators, the keywords and the classes of characters of lex.go. Characters are their numbers.
use kapacitor.Prelude.{
  ℕ, Bool, true, false, ◌&&◌, ◌||◌, List, [], ◌∷◌, Option, none, some, if◌then◌else◌, ◌==◌,
}
use kapacitor.Tick.Functions.{
  token_not, token_plus, token_minus, token_mult, token_div, token_mod, token_and, token_or,
  token_equal, token_not_equal, token_less, token_greater, token_less_equal, token_greater_equal,
  token_regex_equal, token_regex_not_equal,
}
use kapacitor.Lex.Scan.{
  Kind, token_error, token_operator, token_true, token_false, token_var, token_dbrp, token_lambda,
  is,
}

abbrev pub same : List ℕ → List ℕ → Bool
same [] [] = true
same [] (b ∷ bs) = false
same (a ∷ rest) [] = false
same (a ∷ rest) (b ∷ bs) = (a == b) && same rest bs

abbrev pub find : List (List ℕ × Kind) → List ℕ → Option Kind
find [] word = none
find ((key, kind) ∷ table) word =
    let later = find table word in if same key word then some kind else later

-- operatorStr
abbrev pub operator_str : List (List ℕ × Kind)
operator_str =
    (33 ∷ [], token_operator token_not)
    ∷ (43 ∷ [], token_operator token_plus)
    ∷ (45 ∷ [], token_operator token_minus)
    ∷ (42 ∷ [], token_operator token_mult)
    ∷ (47 ∷ [], token_operator token_div)
    ∷ (37 ∷ [], token_operator token_mod)
    ∷ (61 ∷ 61 ∷ [], token_operator token_equal)
    ∷ (33 ∷ 61 ∷ [], token_operator token_not_equal)
    ∷ (60 ∷ [], token_operator token_less)
    ∷ (62 ∷ [], token_operator token_greater)
    ∷ (60 ∷ 61 ∷ [], token_operator token_less_equal)
    ∷ (62 ∷ 61 ∷ [], token_operator token_greater_equal)
    ∷ (61 ∷ 126 ∷ [], token_operator token_regex_equal)
    ∷ (33 ∷ 126 ∷ [], token_operator token_regex_not_equal)
    ∷ (65 ∷ 78 ∷ 68 ∷ [], token_operator token_and)
    ∷ (79 ∷ 82 ∷ [], token_operator token_or)
    ∷ []

-- keywords: AND, OR, TRUE, FALSE, var, dbrp, lambda
abbrev pub keyword_table : List (List ℕ × Kind)
keyword_table =
    (65 ∷ 78 ∷ 68 ∷ [], token_operator token_and)
    ∷ (79 ∷ 82 ∷ [], token_operator token_or)
    ∷ (84 ∷ 82 ∷ 85 ∷ 69 ∷ [], token_true)
    ∷ (70 ∷ 65 ∷ 76 ∷ 83 ∷ 69 ∷ [], token_false)
    ∷ (118 ∷ 97 ∷ 114 ∷ [], token_var)
    ∷ (100 ∷ 98 ∷ 114 ∷ 112 ∷ [], token_dbrp)
    ∷ (108 ∷ 97 ∷ 109 ∷ 98 ∷ 100 ∷ 97 ∷ [], token_lambda)
    ∷ []

-- strToOperator, whose zero value is TokenError.
unfoldable pub str_to_operator : List ℕ → Kind
str_to_operator word = elim (find operator_str word) [ none ↦ token_error | some kind ↦ kind ]

unfoldable pub keywords : List ℕ → Option Kind
keywords word = find keyword_table word

abbrev pub is_lambda : Kind → Bool
is_lambda token_lambda = true
is_lambda _ = false

-- op == TokenRegexEqual, op == TokenRegexNotEqual
abbrev pub is_regex_equal : Kind → Bool
is_regex_equal (token_operator token_regex_equal) = true
is_regex_equal _ = false

abbrev pub is_regex_not_equal : Kind → Bool
is_regex_not_equal (token_operator token_regex_not_equal) = true
is_regex_not_equal _ = false

unfoldable pub is_unary_operator_char : Option ℕ → Bool
is_unary_operator_char r = is 45 r || is 33 r

unfoldable pub is_dur_unit : Option ℕ → Bool
is_dur_unit r = is 117 r || is 181 r || is 115 r || is 109 r || is 104 r || is 100 r || is 119 r
