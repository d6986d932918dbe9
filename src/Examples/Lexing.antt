-- ===== src/Examples/Lexing.antt =====
-- The lexer (lex.go) on a few bytes, with a decoder for the runes in them.
use kapacitor.Prelude.{
  ℕ, zero, suc, Bool, true, not, ◌<◌, ◌≡◌, refl, ◌&&◌, List, [], ◌∷◌, if◌then◌else◌, leb, ◌==◌,
  length, arith, drop,
}
use kapacitor.Lex.Scan.{Unicode, Token, lex_token}
use kapacitor.Lex.Run.{lex, run, lexed, lexer_panics, lexer_unfinished}
use kapacitor.Lex.Tiles.{Decodes, Narrow, Ended}
use kapacitor.Lex.Complete.{lex_complete}
use kapacitor.Lex.Wide.{lex_panics, run_diverges}

-- Two runes of more than one byte, among the bytes of ASCII.
abbrev decode : List ℕ → ℕ × ℕ
decode [] = (0, 0)
decode (b ∷ bs) =
    if (b == 226) && leb 2 (length bs)
    then (8364, 3)
    else if (b == 195) && leb 1 (length bs)
    then (233, 2)
    else (b, 1)

abbrev unicode : Unicode
unicode = record {
  decode = decode;
  is_digit = λ r. leb 48 r && leb r 57;
  is_letter = λ r. leb 97 r && leb r 122;
  is_space = λ r. r == 32;
}

decodes : Decodes unicode
decodes [] lt = absurd (omega (arith, lt))
decodes (b ∷ bs) lt = (ground arith, ground arith)

-- Bytes that start no such rune.
abbrev is_ascii : List ℕ → Bool
is_ascii [] = true
is_ascii (b ∷ bs) = not (b == 226) && not (b == 195) && is_ascii bs

ascii-width :
    (bytes : List ℕ) (a : ℕ)
    → is_ascii bytes ≡ true
    → a < length bytes
    → (decode (drop a bytes)).1 ≡ 1
ascii-width [] a h lt = absurd (omega (arith, lt))
ascii-width (b ∷ bs) zero h lt = ground (arith, h)
ascii-width (b ∷ bs) (suc a) h lt = ascii-width bs a (ground (arith, h)) (omega (arith, lt))

-- x = 5 / y
abbrev source : List ℕ
source = 120 ∷ 32 ∷ 61 ∷ 32 ∷ 53 ∷ 32 ∷ 47 ∷ 32 ∷ 121 ∷ []

narrow : Narrow unicode source
narrow a lt e = (ascii-width source a refl (omega (arith, lt)), ascii-width source (suc a) refl lt)

lex_complete_example :
    (tokens : List Token) × ((lex unicode source 29 ≡ lexed tokens) × (Ended unicode source tokens))
lex_complete_example = lex_complete unicode source decodes narrow

lex_panics_example : lex unicode (47 ∷ 195 ∷ 169 ∷ 47 ∷ []) 5 ≡ lexer_panics
lex_panics_example =
    lex_panics unicode (47 ∷ 195 ∷ 169 ∷ 47 ∷ []) refl refl (omega arith) (omega arith) 4

-- The state behind the first regular expression of these bytes.
abbrev slashes : List ℕ
slashes = 47 ∷ 92 ∷ 47 ∷ 47 ∷ 47 ∷ 226 ∷ 130 ∷ 172 ∷ []

run_diverges_example :
    run unicode slashes 7 lex_token (record { start = 4; pos = 4; width = 1; tokens = [] })
    ≡ lexer_unfinished
run_diverges_example =
    run_diverges unicode slashes refl 2 (omega arith) refl refl refl 8364 refl refl 7 1 []
