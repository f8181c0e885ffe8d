-- ===== src/Lexer.antt =====
-- stage0/src/frontend/lexer: the lexer, over the bytes of a source. Its text functions of the standard
-- library are parameters.
pub mod Tokens
pub mod Comment
pub mod Scan
pub mod Literal
pub mod Cases
pub mod Moves
pub mod Steps
pub mod Numbers
pub mod Lines
pub mod Escapes
pub mod Strings
pub mod Plain
pub mod Calm
pub mod Spans
pub mod Total
mod Tests
use kore_lang.Base.{
  ℕ, zero, suc, ◌==◌, Bool, true, false, ◌&&◌, ◌||◌, Option, none, some, List, [], ◌∷◌, ◌++◌,
  length,
}
use kore_lang.Diag.{FileId}
use kore_lang.Diag.Sink.{DiagSink}
use kore_lang.Lexer.Tokens.{Bytes, TokenKind, Token}
use kore_lang.Lexer.Scan.{
  Lexer, Outcome, done, panic, out_of_fuel, ◌>>=◌, span_at, Step, is_space, is_ident_start,
  is_digit, skip_whitespace, lex_comment, lex_ident_or_keyword, lex_number, lex_punct,
}
use kore_lang.Lexer.Literal.{lex_string, lex_raw_string, lex_char}

abbrev pub next_is : ℕ → Bytes → Bool
next_is a [] = false
next_is a (b ∷ bs) = b == a

abbrev pub push : Option Token → List Token → List Token
push none ts = ts
push (some t) ts = t ∷ ts

module _ (next_char : Bytes → Option (ℕ × ℕ)) (encode : ℕ → Bytes) (from_u32 : ℕ → Option ℕ)
    (format_u8 : ℕ → Bytes) (file : FileId) where
  -- The `match` of the main loop, at a byte and those after it.
  unfoldable pub lex_one : ℕ → Bytes → Lexer → Outcome Step
  unfolding skip_whitespace lex_comment lex_ident_or_keyword lex_number lex_string lex_raw_string
      lex_char lex_punct
  lex_one b bs s = elim (is_space b) [
    | true ↦ done (skip_whitespace s)
    | false ↦ elim ((b == b'-' && next_is b'-' bs) || (b == b'/' && next_is b'/' bs)) [
      | true ↦ lex_comment next_char file s
      | false ↦ elim (is_ident_start b) [
        | true ↦ done (lex_ident_or_keyword file s)
        | false ↦ elim (is_digit b) [
          | true ↦ done (lex_number file s)
          | false ↦ elim (b == b'"') [
            | true ↦ lex_string next_char encode from_u32 format_u8 file s
            | false ↦ elim (b == b'`') [
              | true ↦ done (lex_raw_string next_char encode from_u32 format_u8 file s)
              | false ↦ elim (b == b'\'') [
                | true ↦ done (lex_char next_char encode from_u32 format_u8 file s)
                | false ↦ done (lex_punct file b bs s)
              ]
            ]
          ]
        ]
      ]
    ]
  ]

  -- The main loop: the tokens in their order, and the sink.
  unfoldable pub run : ℕ → Lexer → Outcome (List Token × DiagSink)
  unfolding lex_one
  run zero s = out_of_fuel
  run (suc fuel) s = elim s.rest [
    | [] ↦ done ([], s.sink)
    | b ∷ bs ↦ do r ← lex_one b bs s; more ← run fuel r.1; done (push r.0 more.0, more.1)
  ]

  unfoldable pub tokenize : Bytes → DiagSink → Outcome (List Token × DiagSink)
  unfolding run
  tokenize src sink = do
    r ← run (suc (length src)) (record { rest = src; pos = 0; sink = sink })
    let end : Token = record {
      kind = TokenKind.eof;
      span = span_at file (length src) (length src);
    } in
        done (r.0 ++ end ∷ [], r.1)
