-- ===== src/Lexer/Calm.antt =====
-- Lexing plain bytes, and panics.
use kore_lang.Base.{
  ℕ, zero, suc, ◌==◌, ◌≡◌, subst, not, ◌&&◌, ◌||◌, Option, some, List, [], ◌++◌, length, arith,
}
use kore_lang.Diag.{FileId}
use kore_lang.Diag.Sink.{DiagSink}
use kore_lang.Lexer.{next_is, push, lex_one, run, tokenize}
use kore_lang.Lexer.Tokens.{Bytes, TokenKind, Token}
use kore_lang.Lexer.Scan.{
  Lexer, Outcome, done, panic, out_of_fuel, ◌>>=◌, drop, skip, split_while, Step, token_at,
  is_space, is_ident_start, is_ident_continue, is_digit, skip_whitespace, lex_ident_or_keyword,
  number_of, lex_number, second_of, find_one, one_byte, lex_punct, to_line_end, lex_comment,
}
use kore_lang.Lexer.Literal.{
  simple_escape, string_body, close_string, lex_string, lex_raw_string, char_value, close_char,
  lex_char,
}
use kore_lang.Lexer.Cases.{bool_case, list_case, option_case}
use kore_lang.Lexer.Lines.{DecodesAscii}
use kore_lang.Lexer.Plain.{
  Plain, drop-Plain, split_while-Plain, number_of-Plain, Calm, step_left, text_left,
  punct_step-Plain, NoPanic, then-NoPanic, first_char, to_line_end-Calm, comment-Calm,
}

module _ (next_char : Bytes → Option (ℕ × ℕ)) (ascii : DecodesAscii next_char) (encode : ℕ → Bytes)
    (from_u32 : ℕ → Option ℕ) (format_u8 : ℕ → Bytes) (file : FileId) where
  string_body-Calm :
      (start fuel : ℕ) (s : Lexer) (text : Bytes)
      → Plain s.rest
      → Calm text_left (string_body next_char encode from_u32 format_u8 file start fuel s text)
  unfolding string_body
  string_body-Calm start zero s text h = tt
  string_body-Calm start (suc fuel) s text h =
      list_case (Calm text_left) s.rest _ _ (λ ended. h)
        (λ b bs more.
          let (found, plain) = first_char next_char ascii b bs (subst Plain more h) in
          let known : next_char s.rest ≡ some (b, 1) = rw more found in
          option_case (Calm text_left) (next_char s.rest) _ _
            (λ missing. absurd (ground (arith, known, missing)))
            (λ (c, len) here.
              let same : c ≡ b = ground (arith, known, here) in
              bool_case (Calm text_left) (c == b'"') _ _ (λ closed. h)
                (λ unclosed.
                  bool_case (Calm text_left) (c == b'\n') _ _ (λ line_end. h)
                    (λ inside.
                      bool_case (Calm text_left) (c == b'\\') _ _
                        (λ escape. absurd (ground (arith, same, plain, escape)))
                        (λ letter.
                          string_body-Calm start fuel (skip len s) (text ++ encode c)
                            (drop-Plain len s.rest h))))))

  close_string-Plain :
      (start : ℕ) (s : Lexer)
      → Plain s.rest
      → Plain (close_string next_char encode from_u32 format_u8 file start s).rest
  close_string-Plain start s h =
      list_case (λ (t : Lexer). Plain t.rest) s.rest _ _ (λ ended. h)
        (λ b bs more.
          bool_case (λ (t : Lexer). Plain t.rest) (b == b'"') _ _ (λ closed. drop-Plain 1 s.rest h)
            (λ unclosed. h))

  string-Calm :
      (s : Lexer) (o : Outcome (Bytes × Lexer))
      → Calm text_left o
      → Calm step_left (
          o >>= λ r. done (
            token_at file s.pos
              (TokenKind.str r.0)
              (close_string next_char encode from_u32 format_u8 file s.pos r.1)))
  string-Calm s (done r) h = close_string-Plain s.pos r.1 h
  string-Calm s panic h = h
  string-Calm s out_of_fuel h = h

  lex_raw_string-Plain :
      (s : Lexer)
      → Plain s.rest
      → Plain (lex_raw_string next_char encode from_u32 format_u8 file s).1.rest
  unfolding lex_raw_string
  lex_raw_string-Plain s h =
      let left = split_while-Plain (λ c. not (c == b'`')) (drop 1 s.rest) (drop-Plain 1 s.rest h) in
      list_case (λ (t : Lexer). Plain t.rest) (split_while (λ c. not (c == b'`')) (drop 1 s.rest)).1
        _ _ (λ ended. left) (λ b bs more. drop-Plain 1 _ left)

  close_char-Plain :
      (s : Lexer) → Plain s.rest → Plain (close_char next_char encode from_u32 format_u8 s).rest
  close_char-Plain s h =
      list_case (λ (t : Lexer). Plain t.rest) s.rest _ _ (λ ended. h)
        (λ b bs more.
          bool_case (λ (t : Lexer). Plain t.rest) (b == b'\'') _ _ (λ closed. drop-Plain 1 s.rest h)
            (λ unclosed. h))

  char_value-Plain :
      (b : ℕ) (s : Lexer)
      → Plain s.rest
      → Plain (char_value next_char encode from_u32 format_u8 file b s).1.rest
  unfolding char_value
  char_value-Plain b s h =
      let one = drop-Plain 1 s.rest h in
      bool_case (λ (r : ℕ × Lexer). Plain r.1.rest) (b == b'\\') _ _
        (λ escape.
          list_case (λ (r : ℕ × Lexer). Plain r.1.rest) (drop 1 s.rest) _ _ (λ ended. one)
            (λ e es more.
              option_case (λ (r : ℕ × Lexer). Plain r.1.rest) (simple_escape e) _ _
                (λ unknown. drop-Plain 1 (drop 1 s.rest) one)
                (λ c simple. drop-Plain 1 (drop 1 s.rest) one)))
        (λ letter. one)

  lex_char-Plain :
      (s : Lexer)
      → Plain s.rest
      → Plain (lex_char next_char encode from_u32 format_u8 file s).1.rest
  unfolding lex_char
  lex_char-Plain s h =
      let one = drop-Plain 1 s.rest h in
      list_case (λ (r : Step). Plain r.1.rest) (drop 1 s.rest) _ _ (λ ended. one)
        (λ b bs more.
          close_char-Plain (char_value next_char encode from_u32 format_u8 file b (skip 1 s)).1
            (char_value-Plain b (skip 1 s) one))

  lex_one-Calm :
      (s : Lexer) (b : ℕ) (bs : Bytes)
      → Plain s.rest
      → Calm step_left (lex_one next_char encode from_u32 format_u8 file b bs s)
  unfolding lex_one skip_whitespace lex_comment lex_ident_or_keyword lex_number lex_string lex_punct
  lex_one-Calm s b bs h =
      bool_case (Calm step_left) (is_space b) _ _ (λ space. split_while-Plain is_space s.rest h)
        (λ no_space.
          bool_case (Calm step_left)
            ((b == b'-' && next_is b'-' bs) || (b == b'/' && next_is b'/' bs)) _ _
            (λ comment.
              comment-Calm next_char ascii file s
                (to_line_end next_char (suc (length s.rest)) s.rest 0)
                (to_line_end-Calm next_char ascii (suc (length s.rest)) s.rest 0 h))
            (λ no_comment.
              bool_case (Calm step_left) (is_ident_start b) _ _
                (λ word. split_while-Plain is_ident_continue s.rest h)
                (λ no_word.
                  bool_case (Calm step_left) (is_digit b) _ _
                    (λ digit.
                      split_while-Plain is_ident_continue (number_of s.rest).1
                        (number_of-Plain s.rest h))
                    (λ no_digit.
                      bool_case (Calm step_left) (b == b'"') _ _
                        (λ quote.
                          string-Calm s
                            (string_body next_char encode from_u32 format_u8 file s.pos
                              (suc (length s.rest)) (skip 1 s) [])
                            (string_body-Calm s.pos (suc (length s.rest)) (skip 1 s) []
                              (drop-Plain 1 s.rest h)))
                        (λ no_quote.
                          bool_case (Calm step_left) (b == b'`') _ _
                            (λ raw. lex_raw_string-Plain s h)
                            (λ no_raw.
                              bool_case (Calm step_left) (b == b'\'') _ _
                                (λ char. lex_char-Plain s h)
                                (λ mark.
                                  punct_step-Plain file (second_of bs b) (find_one one_byte b) s
                                    h)))))))

  round-NoPanic :
      (o : Outcome Step) (loop : Lexer → Outcome (List Token × DiagSink))
      → Calm step_left o
      → ((t : Lexer) → Plain t.rest → NoPanic (loop t))
      → NoPanic {A = List Token × DiagSink}
          (o >>= λ r. loop r.1 >>= λ more. done (push r.0 more.0, more.1))
  round-NoPanic (done r) loop h k =
      then-NoPanic (loop r.1) (λ more. (push r.0 more.0, more.1)) (k r.1 h)
  round-NoPanic panic loop h k = h
  round-NoPanic out_of_fuel loop h k = tt

  run-NoPanic :
      (fuel : ℕ) (s : Lexer)
      → Plain s.rest
      → NoPanic (run next_char encode from_u32 format_u8 file fuel s)
  unfolding run
  run-NoPanic zero s h = tt
  run-NoPanic (suc fuel) s h =
      list_case (NoPanic {A = List Token × DiagSink}) s.rest _ _ (λ ended. tt)
        (λ b bs more.
          round-NoPanic (lex_one next_char encode from_u32 format_u8 file b bs s)
            (run next_char encode from_u32 format_u8 file fuel) (lex_one-Calm s b bs h)
            (run-NoPanic fuel))

  pub tokenize-NoPanic :
      (src : Bytes) (sink : DiagSink)
      → Plain src
      → NoPanic (tokenize next_char encode from_u32 format_u8 file src sink)
  unfolding tokenize
  tokenize-NoPanic src sink h =
      then-NoPanic
        (run next_char encode from_u32 format_u8 file (suc (length src))
          (record { rest = src; pos = 0; sink = sink }))
        _ (run-NoPanic (suc (length src)) (record { rest = src; pos = 0; sink = sink }) h)
