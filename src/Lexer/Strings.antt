-- ===== src/Lexer/Strings.antt =====
-- Strings and characters, and how far they move the lexer.
use kore_lang.Base.{
  ℕ, zero, suc, ◌+◌, ◌≤◌, ◌==◌, ◌≡◌, refl, true, false, not, ◌&&◌, Option, [], ◌∷◌, ◌++◌, length,
  arith,
}
use kore_lang.Diag.{FileId}
use kore_lang.Lexer.Tokens.{Bytes, TokenKind}
use kore_lang.Lexer.Scan.{
  Lexer, Outcome, done, panic, out_of_fuel, ◌>>=◌, skip, split_while, token_at,
}
use kore_lang.Lexer.Literal.{
  read_hex_byte, read_unicode, simple_escape, opens_brace, char_or_replacement, escape_char,
  string_body, close_string, lex_string, lex_raw_string, char_value, close_char, lex_char,
}
use kore_lang.Lexer.Moves.{
  Later, Moved, Later-trans, Moved-then, exact-Later, drop-length, skip-Moved, split_while-length,
}
use kore_lang.Lexer.Cases.{bool_case, list_case, option_case}
use kore_lang.Lexer.Steps.{Good, GoodIf}
use kore_lang.Lexer.Lines.{Decodes}
use kore_lang.Lexer.Escapes.{
  Exact-trans, next-Exact, two-Exact, past-Moved, read_hex_byte-Exact, CharRead-trans,
  read_unicode-CharRead, opens_brace-one, right, TextRead-trans, CharRead, TextRead,
}

module _ (next_char : Bytes → Option (ℕ × ℕ)) (decodes : Decodes next_char) (encode : ℕ → Bytes)
    (from_u32 : ℕ → Option ℕ) (format_u8 : ℕ → Bytes) (file : FileId) where
  replaced-CharRead :
      (s : Lexer) (o : Outcome (ℕ × Lexer))
      → CharRead s o
      → CharRead s (
          o >>= λ r.
          done (char_or_replacement next_char encode from_u32 format_u8 (from_u32 r.0), r.1))
  replaced-CharRead s (done r) h = h
  replaced-CharRead s panic h = h
  replaced-CharRead s out_of_fuel h = h

  escape_char-CharRead :
      (s : Lexer) (b : ℕ) (bs : Bytes)
      → s.rest ≡ b ∷ bs
      → CharRead s (escape_char next_char encode from_u32 format_u8 file b bs s)
  unfolding escape_char
  escape_char-CharRead s b bs e =
      option_case (CharRead s) (simple_escape b) _ (λ c. done (c, s))
        (λ no_simple.
          bool_case (CharRead s) (b == b'x') _ _
            (λ hex.
              Exact-trans s (skip 1 s) (read_hex_byte 2 (skip 1 s) 0).1 (next-Exact s b bs e)
                (read_hex_byte-Exact 2 (skip 1 s) 0))
            (λ no_hex.
              bool_case (CharRead s) (b == b'u' && opens_brace bs) _ _
                (λ unicode. replaced-CharRead s (read_unicode (skip 2 s)) (
                  CharRead-trans s (skip 2 s) (read_unicode (skip 2 s))
                    (two-Exact s b bs e
                      (opens_brace-one bs (right (b == b'u') (opens_brace bs) unicode)))
                    (read_unicode-CharRead (skip 2 s))))
                (λ unknown. (omega arith, refl))))
        (λ c simple. (omega arith, refl))

  -- After an escape, the loop goes on one position later.
  escaped-TextRead :
      (s : Lexer) (o : Outcome (ℕ × Lexer)) (more : ℕ → Lexer → Outcome (Bytes × Lexer))
      → 1 ≤ length s.rest
      → CharRead s o
      → ((c : ℕ) (t : Lexer) → Moved s t → TextRead t (more c t))
      → TextRead s (o >>= λ r. more r.0 (skip 1 r.1))
  escaped-TextRead s (done r) more h k m =
      let moved = past-Moved s r.1 h k in
      TextRead-trans s (skip 1 r.1) (more r.0 (skip 1 r.1)) moved.later (m r.0 (skip 1 r.1) moved)
  escaped-TextRead s panic more h k m = tt
  escaped-TextRead s out_of_fuel more h k m = k

  stay-TextRead : (s : Lexer) (text : Bytes) → TextRead s (done (text, s))
  stay-TextRead s text = exact-Later s s (omega arith) refl

  -- A round of the loop at a character of `len` bytes, given what the loop does later.
  round-TextRead :
      (start : ℕ) (s : Lexer) (text : Bytes) (c len : ℕ)
      (loop : Lexer → Bytes → Outcome (Bytes × Lexer))
      → 1 ≤ len
      → len ≤ length s.rest
      → ((t : Lexer) (text' : Bytes) → Moved s t → TextRead t (loop t text'))
      → TextRead s (elim (c == b'\\') [
        | false ↦ loop (skip len s) (text ++ encode c)
        | true ↦
            let s' = skip len s in
            elim s'.rest [
              | [] ↦ done (text, s')
              | e ∷ es ↦
                  (escape_char next_char encode from_u32 format_u8 file e es s' >>= λ r.
                  loop (skip 1 r.1) (text ++ encode r.0))
            ]
      ])
  round-TextRead start s text c len loop pos le ih =
      let moved = skip-Moved len s pos le in
      bool_case (TextRead s) (c == b'\\') _ _
        (λ escape.
          list_case (TextRead s) (skip len s).rest _ _ (λ ended. moved.later)
            (λ e es more. TextRead-trans s (skip len s) _ moved.later (
              escaped-TextRead (skip len s)
                (escape_char next_char encode from_u32 format_u8 file e es (skip len s))
                (λ c' t. loop t (text ++ encode c')) (rw more (omega arith))
                (escape_char-CharRead (skip len s) e es more)
                (λ c' t moved'.
                  ih t (text ++ encode c') (Moved-then s (skip len s) t moved moved'.later)))))
        (λ plain.
          TextRead-trans s (skip len s) _ moved.later (ih (skip len s) (text ++ encode c) moved))

  string_body-TextRead :
      (start fuel : ℕ) (s : Lexer) (text : Bytes)
      → suc (length s.rest) ≤ fuel
      → TextRead s (string_body next_char encode from_u32 format_u8 file start fuel s text)
  unfolding string_body
  string_body-TextRead start zero s text h = absurd (omega (arith, h))
  string_body-TextRead start (suc fuel) s text h =
      list_case (TextRead s) s.rest _ _ (λ ended. stay-TextRead s text)
        (λ b bs more.
          option_case (TextRead s) (next_char s.rest) _ _ (λ none_there. tt)
            (λ (c, len) found.
              bool_case (TextRead s) (c == b'"') _ _ (λ closed. stay-TextRead s text)
                (λ unclosed.
                  bool_case (TextRead s) (c == b'\n') _ _
                    (λ line_end. exact-Later s _ (omega arith) refl)
                    (λ inside.
                      let (pos, le) = decodes s.rest c len found in
                      round-TextRead start s text c len
                        (λ t text'.
                          string_body next_char encode from_u32 format_u8 file start fuel t text')
                        pos le
                        (λ t text' moved.
                          string_body-TextRead start fuel t text'
                            (omega (arith, h, moved.less)))))))

  close_string-Later :
      (start : ℕ) (s : Lexer)
      → Later s (close_string next_char encode from_u32 format_u8 file start s)
  close_string-Later start s =
      list_case (Later s) s.rest _ _ (λ ended. exact-Later s _ (omega arith) refl)
        (λ b bs more.
          bool_case (Later s) (b == b'"') _ _
            (λ closed. (skip-Moved 1 s (omega arith) (rw more (omega arith))).later)
            (λ unclosed. exact-Later s s (omega arith) refl))

  string-GoodIf :
      (s : Lexer) (o : Outcome (Bytes × Lexer))
      → 1 ≤ length s.rest
      → TextRead (skip 1 s) o
      → GoodIf file s (
          o >>= λ r. done (
            token_at file s.pos
              (TokenKind.str r.0)
              (close_string next_char encode from_u32 format_u8 file s.pos r.1)))
  string-GoodIf s (done r) h k =
      let opened = skip-Moved 1 s (omega arith) h in
      let closed = close_string-Later s.pos r.1 in
      (Moved-then s (skip 1 s) _ opened (Later-trans (skip 1 s) r.1 _ k closed), refl)
  string-GoodIf s panic h k = tt
  string-GoodIf s out_of_fuel h k = k

  pub lex_string-GoodIf :
      (s : Lexer) (b : ℕ) (bs : Bytes)
      → s.rest ≡ b ∷ bs
      → GoodIf file s (lex_string next_char encode from_u32 format_u8 file s)
  unfolding lex_string
  lex_string-GoodIf s b bs e =
      let one : 1 ≤ length s.rest = rw e (omega arith) in
      string-GoodIf s
        (string_body next_char encode from_u32 format_u8 file s.pos (suc (length s.rest)) (skip 1 s)
          [])
        one
        (string_body-TextRead s.pos (suc (length s.rest)) (skip 1 s) []
          (omega (arith, drop-length 1 s.rest one)))

  pub lex_raw_string-Good :
      (s : Lexer) (b : ℕ) (bs : Bytes)
      → s.rest ≡ b ∷ bs
      → Good file s (lex_raw_string next_char encode from_u32 format_u8 file s)
  unfolding lex_raw_string
  lex_raw_string-Good s b bs e =
      let opened = skip-Moved 1 s (omega arith) (rw e (omega arith)) in
      let s' = skip 1 s in
      let total = split_while-length (λ c. not (c == b'`')) s'.rest in
      let text = (split_while (λ c. not (c == b'`')) s'.rest).0 in
      let rest = (split_while (λ c. not (c == b'`')) s'.rest).1 in
      let s'' : Lexer = record s' { rest = rest; pos = s'.pos + length text } in
      let read : Later s' s'' = exact-Later s' s'' (omega arith) (omega (arith, total)) in
      (
        Moved-then s s' _ opened (
            list_case (Later s') rest s'' (λ c cs. skip 1 s'') (λ ended. read)
              (λ c cs more.
                Later-trans s' s'' (skip 1 s'') read
                  (skip-Moved 1 s'' (omega arith) (rw more (omega arith))).later)),
        refl,
      )

  close_char-Later : (s : Lexer) → Later s (close_char next_char encode from_u32 format_u8 s)
  close_char-Later s =
      list_case (Later s) s.rest _ _ (λ ended. exact-Later s s (omega arith) refl)
        (λ b bs more.
          bool_case (Later s) (b == b'\'') _ _
            (λ closed. (skip-Moved 1 s (omega arith) (rw more (omega arith))).later)
            (λ unclosed. exact-Later s s (omega arith) refl))

  char_value-Later :
      (s : Lexer) (b : ℕ)
      → 1 ≤ length s.rest
      → Later s (char_value next_char encode from_u32 format_u8 file b s).1
  unfolding char_value
  char_value-Later s b h =
      let one = skip-Moved 1 s (omega arith) h in
      let s' = skip 1 s in
      bool_case (λ (r : ℕ × Lexer). Later s r.1) (b == b'\\') _ _
        (λ escape.
          list_case (λ (r : ℕ × Lexer). Later s r.1) s'.rest _ _ (λ ended. one.later)
            (λ e es more.
              let next : Later s' (skip 1 s') =
                (skip-Moved 1 s' (omega arith) (rw more (omega arith))).later in
              option_case (λ (r : ℕ × Lexer). Later s r.1) (simple_escape e) _ _
                (λ unknown.
                  Later-trans s s' _ one.later (record {
                    shrinks = next.shrinks;
                    forward = next.forward;
                    within = next.within;
                  }))
                (λ c simple. Later-trans s s' (skip 1 s') one.later next)))
        (λ plain. one.later)

  pub lex_char-Good :
      (s : Lexer) (b : ℕ) (bs : Bytes)
      → s.rest ≡ b ∷ bs
      → Good file s (lex_char next_char encode from_u32 format_u8 file s)
  unfolding lex_char
  lex_char-Good s b bs e =
      let opened = skip-Moved 1 s (omega arith) (rw e (omega arith)) in
      let s' = skip 1 s in
      list_case (Good file s) s'.rest _ _
        (λ ended. (
          record {
            later = record {
              shrinks = opened.later.shrinks;
              forward = opened.later.forward;
              within = opened.later.within;
            };
            less = opened.less;
            further = opened.further;
          },
          tt,
        ))
        (λ c cs more. (
          Moved-then s s' _ opened (
              Later-trans s' (char_value next_char encode from_u32 format_u8 file c s').1 _
                (char_value-Later s' c (rw more (omega arith)))
                (close_char-Later (char_value next_char encode from_u32 format_u8 file c s').1)),
          refl,
        ))
