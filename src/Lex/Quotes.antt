-- ===== src/Lex/Quotes.antt =====
-- References, strings, regular expressions and comments of lex.go keep the tiles.
use kapacitor.Prelude.{
  ℕ, zero, suc, ◌-◌, ◌*◌, ◌<◌, ◌≤◌, refl, ap, Bool, true, false, not, ◌&&◌, List, if◌then◌else◌,
  ◌==◌, length, arith,
}
use kapacitor.Lex.Scan.{
  Lexer, lex_token, lex_regex, lex_comment, lex_single_or_triple_string, Unicode, is, test, next,
  peek, token_reference, token_string, token_regex, token_comment,
}
use kapacitor.Lex.States.{emits}
use kapacitor.Lex.Quoted.{
  reference_rounds, string_rounds, single_or_triple_string, regex_rounds, regex, comment_rounds,
  comment,
}
use kapacitor.Lex.Tiles.{
  Decodes, Scanning, weight, Good, if-Good, error-Good, emit-token, emit-try, next-le, next-lt,
  next-Scanning, next-back, same-Scanning,
}
use kapacitor.Lex.Ahead.{Ahead, if-Ahead, next-Ahead, is_rune, rune-Good}

module _ (u : Unicode) (input : List ℕ) (decodes : Decodes u) where
  -- Behind a rune, and behind an escaped rune `c`.
  escaped-Ahead :
      (c : ℕ) (l : Lexer)
      → Scanning u input l
      → let n = next u input l in
        let p = peek u input n.1 in
        Ahead u input l.start n.1.pos (if is c p.0 then (next u input p.1).1 else p.1)
  unfolding next peek
  escaped-Ahead c l h =
      let n = next u input l in
      let p = peek u input n.1 in
      let here : Ahead u input l.start n.1.pos n.1 =
        (next-Scanning u input decodes l h, (refl, omega arith)) in
      if-Ahead u input l.start n.1.pos (is c p.0) (next u input p.1).1 p.1
        (next-Ahead u input decodes l.start n.1.pos p.1 here) here

  pub reference-Good :
      (fuel : ℕ) (l : Lexer) (bound : ℕ)
      → length input - l.pos < fuel
      → Scanning u input l
      → l.start < l.pos
      → 3 * (length input - l.start) ≤ bound
      → Good u input bound (reference_rounds u input fuel l)
  unfolding reference_rounds next
  reference-Good zero l bound f h lt b = absurd (omega (arith, f))
  reference-Good (suc fuel) l bound f h lt b =
      let n = next u input l in
      let sc = next-Scanning u input decodes l h in
      if-Good u input bound (is 92 n.0) _ _
        (λ e.
          let more : l.pos < n.1.pos = next-lt u input decodes l _ e (λ z. ap (is 92) z) in
          let (sc', (e1, e2)) = escaped-Ahead 34 l h in
          reference-Good fuel _ bound (omega (arith, f, more, e2, sc.1.1, sc'.1.1)) sc'
            (omega (arith, e1, e2, more, lt)) (omega (arith, e1, b)))
        (λ _.
          if-Good u input bound (is 34 n.0) _ _
            (λ e.
              let more : l.pos < n.1.pos = next-lt u input decodes l _ e (λ z. ap (is 34) z) in
              emit-try u input bound token_reference n.1 sc (omega (arith, more, lt)) b)
            (λ _.
              rune-Good u input bound n.0 _ _ (λ e. error-Good u input bound n.1 sc)
                (λ e.
                  let more : l.pos < n.1.pos = next-lt u input decodes l _ e (λ z. ap is_rune z) in
                  reference-Good fuel n.1 bound (omega (arith, f, more, sc.1.1)) sc
                    (omega (arith, more, lt)) b)))

  string_rounds-Good :
      (fuel total count : ℕ) (l : Lexer) (bound : ℕ)
      → length input - l.pos < fuel
      → Scanning u input l
      → l.start < l.pos
      → 3 * (length input - l.start) ≤ bound
      → Good u input bound (string_rounds u input fuel total count l)
  unfolding string_rounds next
  string_rounds-Good zero total count l bound f h lt b = absurd (omega (arith, f))
  string_rounds-Good (suc fuel) total count l bound f h lt b =
      let n = next u input l in
      let sc = next-Scanning u input decodes l h in
      if-Good u input bound (is 92 n.0 && (count == 1)) _ _
        (λ e.
          let more : l.pos < n.1.pos =
            next-lt u input decodes l (is 92 n.0) (ground (arith, e)) (λ z. ap (is 92) z) in
          let (sc', (e1, e2)) = escaped-Ahead 39 l h in
          string_rounds-Good fuel total count _ bound (omega (arith, f, more, e2, sc.1.1, sc'.1.1))
            sc' (omega (arith, e1, e2, more, lt)) (omega (arith, e1, b)))
        (λ _.
          if-Good u input bound (is 39 n.0) _ _
            (λ e.
              let more : l.pos < n.1.pos = next-lt u input decodes l _ e (λ z. ap (is 39) z) in
              if-Good u input bound (count == 1) _ _
                (λ _. emit-try u input bound token_string n.1 sc (omega (arith, more, lt)) b)
                (λ _.
                  string_rounds-Good fuel total (count - 1) n.1 bound
                    (omega (arith, f, more, sc.1.1)) sc (omega (arith, more, lt)) b))
            (λ _.
              rune-Good u input bound n.0 _ _ (λ e. error-Good u input bound n.1 sc)
                (λ e.
                  let more : l.pos < n.1.pos = next-lt u input decodes l _ e (λ z. ap is_rune z) in
                  string_rounds-Good fuel total total n.1 bound (omega (arith, f, more, sc.1.1)) sc
                    (omega (arith, more, lt)) b)))

  regex_rounds-Good :
      (fuel : ℕ) (l : Lexer) (bound : ℕ)
      → length input - l.pos < fuel
      → Scanning u input l
      → l.start < l.pos
      → 3 * (length input - l.start) ≤ bound
      → Good u input bound (regex_rounds u input fuel l)
  unfolding regex_rounds next
  regex_rounds-Good zero l bound f h lt b = absurd (omega (arith, f))
  regex_rounds-Good (suc fuel) l bound f h lt b =
      let n = next u input l in
      let sc = next-Scanning u input decodes l h in
      if-Good u input bound (is 92 n.0) _ _
        (λ e.
          let more : l.pos < n.1.pos = next-lt u input decodes l _ e (λ z. ap (is 92) z) in
          let (sc', (e1, e2)) = escaped-Ahead 47 l h in
          regex_rounds-Good fuel _ bound (omega (arith, f, more, e2, sc.1.1, sc'.1.1)) sc'
            (omega (arith, e1, e2, more, lt)) (omega (arith, e1, b)))
        (λ _.
          if-Good u input bound (is 47 n.0) _ _
            (λ e.
              let more : l.pos < n.1.pos = next-lt u input decodes l _ e (λ z. ap (is 47) z) in
              emit-token u input bound token_regex n.1 sc (omega (arith, more, lt)) b)
            (λ _.
              rune-Good u input bound n.0 _ _ (λ e. error-Good u input bound n.1 sc)
                (λ e.
                  let more : l.pos < n.1.pos = next-lt u input decodes l _ e (λ z. ap is_rune z) in
                  regex_rounds-Good fuel n.1 bound (omega (arith, f, more, sc.1.1)) sc
                    (omega (arith, more, lt)) b)))

  pub regex-Good :
      (fuel : ℕ) (l : Lexer)
      → length input - l.pos < fuel
      → Scanning u input l
      → Good u input (weight u input lex_regex l) (regex u input fuel l)
  unfolding regex next
  regex-Good fuel l f h =
      let n = next u input l in
      let b = weight u input lex_regex l in
      let sc = next-Scanning u input decodes l h in
      if-Good u input b (is 47 n.0) _ _
        (λ e.
          let more : l.pos < n.1.pos = next-lt u input decodes l _ e (λ z. ap (is 47) z) in
          regex_rounds-Good fuel n.1 b (omega (arith, f, more)) sc (omega (arith, more, h.1.0))
            (omega arith))
        (λ _. error-Good u input b n.1 sc)

  pub string-Good :
      (fuel : ℕ) (l : Lexer)
      → length input - l.pos < fuel
      → Scanning u input l
      → Good u input
          (weight u input lex_single_or_triple_string l)
          (single_or_triple_string u input fuel l)
  unfolding single_or_triple_string next peek
  string-Good fuel l f h =
      let n = next u input l in
      let b = weight u input lex_single_or_triple_string l in
      let sc = next-Scanning u input decodes l h in
      let p2 = peek u input n.1 in
      let n3 = next u input p2.1 in
      let p4 = peek u input n3.1 in
      let here : Ahead u input l.start n.1.pos n.1 = (sc, (refl, omega arith)) in
      let (sc3, (e3, le3)) = next-Ahead u input decodes l.start n.1.pos p2.1 here in
      let (sc5, (e5, le5)) = next-Ahead u input decodes l.start n.1.pos p4.1 (sc3, (e3, le3)) in
      if-Good u input b (is 39 n.0) _ _
        (λ e.
          let more : l.pos < n.1.pos = next-lt u input decodes l _ e (λ z. ap (is 39) z) in
          if-Good u input b (is 39 p2.0) _ _
            (λ _.
              if-Good u input b (is 39 p4.0) _ _
                (λ _.
                  string_rounds-Good fuel 3 3 (next u input p4.1).1 b (omega (arith, f, more, le5))
                    sc5 (omega (arith, e5, le5, more, h.1.0)) (omega (arith, e5)))
                (λ _.
                  emit-try u input b token_string p4.1 sc3 (omega (arith, e3, le3, more, h.1.0))
                    (omega (arith, e3))))
            (λ _.
              string_rounds-Good fuel 1 1 p2.1 b (omega (arith, f, more)) sc
                (omega (arith, more, h.1.0)) (omega arith)))
        (λ _. error-Good u input b n.1 sc)

  comment_rounds-Good :
      (fuel : ℕ) (gap : Bool) (l : Lexer) (bound : ℕ)
      → length input - l.pos < fuel
      → Scanning u input l
      → l.start < l.pos
      → 3 * (length input - l.start) ≤ bound
      → Good u input bound (comment_rounds u input fuel gap l)
  unfolding comment_rounds next
  comment_rounds-Good zero gap l bound f h lt b = absurd (omega (arith, f))
  comment_rounds-Good (suc fuel) gap l bound f h lt b =
      let n = next u input l in
      let sc = next-Scanning u input decodes l h in
      let rest : (g : Bool)
          → l.pos < n.1.pos
          → Good u input bound (comment_rounds u input fuel g n.1) =
        λ g more.
          comment_rounds-Good fuel g n.1 bound (omega (arith, f, more, sc.1.1)) sc
            (omega (arith, more, lt)) b in
      if-Good u input bound gap _ _
        (λ _.
          if-Good u input bound (not (is 10 n.0) && test u.is_space n.0) _ _
            (λ e. rest true (
              next-lt u input decodes l (test u.is_space n.0) (ground (arith, e))
                (λ z. ap (test u.is_space) z)))
            (λ _.
              if-Good u input bound (is 47 n.0) _ _
                (λ e. rest false (next-lt u input decodes l _ e (λ z. ap (is 47) z)))
                (λ _.
                  next-back u input decodes bound l (emits u input token_comment lex_token) h.1.1
                    (λ c e1 e2 e3.
                      emit-token u input bound token_comment c
                        (same-Scanning u input l c e1 e2 e3 h) (omega (arith, lt, e2, e3))
                        (omega (arith, b, e2))))))
        (λ _.
          if-Good u input bound (is 10 n.0) _ _
            (λ e. rest true (next-lt u input decodes l _ e (λ z. ap (is 10) z)))
            (λ _.
              rune-Good u input bound n.0 _ _
                (λ e.
                  emit-token u input bound token_comment n.1 sc
                    (omega (arith, lt, (next-le u input decodes l h.1.1).0)) b)
                (λ e. rest false (next-lt u input decodes l _ e (λ z. ap is_rune z)))))

  pub comment-Good :
      (fuel : ℕ) (l : Lexer)
      → length input - l.pos < fuel
      → Scanning u input l
      → Good u input (weight u input lex_comment l) (comment u input fuel l)
  unfolding comment next peek
  comment-Good fuel l f h =
      let p = peek u input l in
      let n = next u input p.1 in
      let b = weight u input lex_comment l in
      if-Good u input b (is 47 p.0) _ _
        (λ e.
          let more : l.pos < n.1.pos = next-lt u input decodes p.1 _ e (λ z. ap (is 47) z) in
          comment_rounds-Good fuel false n.1 b (omega (arith, f, more))
            (next-Scanning u input decodes p.1 h) (omega (arith, more, h.1.0)) (omega arith))
        (λ _. error-Good u input b p.1 h)
