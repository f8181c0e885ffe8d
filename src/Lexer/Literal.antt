-- ===== src/Lexer/Literal.antt =====
-- stage0/src/frontend/lexer/lexer_impl.rs: strings, raw strings and characters.
use kore_lang.Base.{
  ℕ, zero, suc, ◌+◌, ◌-◌, ◌*◌, ◌^◌, ltb, ◌==◌, Bool, true, false, not, ◌&&◌, ◌||◌, Option, none,
  some, [], ◌∷◌, ◌++◌, length, if◌then◌else◌,
}
use kore_lang.Diag.{FileId}
use kore_lang.Diag.Sink.{emit}
use kore_lang.Lexer.Tokens.{Bytes, TokenKind}
use kore_lang.Lexer.Scan.{
  Lexer, Outcome, done, panic, out_of_fuel, ◌>>=◌, span_at, skip, report, split_while, in_range,
  Step, token_at,
}

abbrev pub hex_value : ℕ → ℕ
hex_value b =
    if in_range b'0' b'9' b
    then b - b'0'
    else if in_range b'a' b'f' b
    then b - b'a' + 10
    else if in_range b'A' b'F' b
    then b - b'A' + 10
    else 0

-- Two digits at most: the value stays below 256.
unfoldable pub read_hex_byte : ℕ → Lexer → ℕ → ℕ × Lexer
read_hex_byte zero s val = (val, s)
read_hex_byte (suc n) s val = elim s.rest [
  | [] ↦ (val, s)
  | b ∷ bs ↦ read_hex_byte n (skip 1 s) (val * 16 + hex_value b)
]

-- The digits up to the brace, and what is left; a value out of u32 panics, as in a build that checks
-- for overflow.
unfoldable pub read_digits : Bytes → ℕ → ℕ → Outcome (ℕ × ℕ × Bytes)
read_digits [] val n = done (val, n, [])
read_digits (b ∷ bs) val n =
    let val' = val * 16 + hex_value b in
    let rest = read_digits bs val' (suc n) in
    if b == b'}' then done (val, n, b ∷ bs) else if ltb val' (2 ^ 32) then rest else panic

-- The brace is read, if there is one.
unfoldable pub read_unicode : Lexer → Outcome (ℕ × Lexer)
unfolding read_digits
read_unicode s = do
  r ← read_digits s.rest 0 0
  let s' = record s { rest = r.2; pos = s.pos + r.1 } in
      elim r.2 [ [] ↦ done (r.0, s') | b ∷ bs ↦ done (r.0, skip 1 s') ]

-- The escapes of one character.
abbrev pub simple_escape : ℕ → Option ℕ
simple_escape b =
    if b == b'n'
    then some b'\n'
    else if b == b'r'
    then some b'\r'
    else if b == b't'
    then some b'\t'
    else if b == b'0'
    then some 0
    else if b == b'\\' || b == b'"' || b == b'\''
    then some b
    else none

abbrev pub opens_brace : Bytes → Bool
opens_brace [] = false
opens_brace (b ∷ bs) = b == b'{'

-- The standard library's characters: the first of a text with its length in bytes, the bytes of one,
-- those that a number stands for, and the digits of a byte.
module _ (next_char : Bytes → Option (ℕ × ℕ)) (encode : ℕ → Bytes) (from_u32 : ℕ → Option ℕ)
    (format_u8 : ℕ → Bytes) where
  abbrev pub char_or_replacement : Option ℕ → ℕ
  char_or_replacement none = 65533
  char_or_replacement (some c) = c

  -- The character that follows a backslash, before the position moves past it.
  unfoldable pub escape_char : FileId → ℕ → Bytes → Lexer → Outcome (ℕ × Lexer)
  unfolding read_hex_byte read_unicode emit
  escape_char file b bs s = elim (simple_escape b) [
    | some c ↦ done (c, s)
    | none ↦ elim (b == b'x') [
      | true ↦ done (read_hex_byte 2 (skip 1 s) 0)
      | false ↦ elim (b == b'u' && opens_brace bs) [
        | true ↦ do r ← read_unicode (skip 2 s); done (char_or_replacement (from_u32 r.0), r.1)
        | false ↦ done (b'?', report 2002 (span_at file (s.pos - 1) s.pos) s)
      ]
    ]
  ]

  -- The loop of `lex_string`: the text, and the lexer where it stops, at the end, at a quote or at the
  -- end of the line.
  unfoldable pub string_body : FileId → ℕ → ℕ → Lexer → Bytes → Outcome (Bytes × Lexer)
  unfolding escape_char emit
  string_body file start zero s text = out_of_fuel
  string_body file start (suc fuel) s text = elim s.rest [
    | [] ↦ done (text, s)
    | b ∷ bs ↦ elim (next_char s.rest) [
      | none ↦ panic
      | some (c, len) ↦ elim (c == b'"') [
        | true ↦ done (text, s)
        | false ↦ elim (c == b'\n') [
          | true ↦ done (text, report 2001 (span_at file start s.pos) s)
          | false ↦ elim (c == b'\\') [
            | false ↦ string_body file start fuel (skip len s) (text ++ encode c)
            | true ↦
                let s' = skip len s in
                elim s'.rest [
                  | [] ↦ done (text, s')
                  | e ∷ es ↦ do
                    r ← escape_char file e es s'
                    string_body file start fuel (skip 1 r.1) (text ++ encode r.0)
                ]
          ]
        ]
      ]
    ]
  ]

  -- The closing quote, or an error at the end of the source.
  abbrev pub close_string : FileId → ℕ → Lexer → Lexer
  close_string file start s = elim s.rest [
    | [] ↦ report 4002 (span_at file start s.pos) s
    | b ∷ bs ↦ elim (b == b'"') [ true ↦ skip 1 s | false ↦ s ]
  ]

  unfoldable pub lex_string : FileId → Lexer → Outcome Step
  unfolding string_body emit
  lex_string file s = do
    r ← string_body file s.pos (suc (length s.rest)) (skip 1 s) []
    done (token_at file s.pos (TokenKind.str r.0) (close_string file s.pos r.1))

  unfoldable pub lex_raw_string : FileId → Lexer → Step
  unfolding split_while
  lex_raw_string file s =
      let s' = skip 1 s in
      let (text, rest) = split_while (λ b. not (b == b'`')) s'.rest in
      let s'' = record s' { rest = rest; pos = s'.pos + length text } in
      token_at file s.pos (TokenKind.str text) (elim rest [ [] ↦ s'' | b ∷ bs ↦ skip 1 s'' ])

  -- The value of a character, after the opening quote and before the closing one.
  unfoldable pub char_value : FileId → ℕ → Lexer → ℕ × Lexer
  unfolding emit
  char_value file b s = elim (b == b'\\') [
    | false ↦ (b, skip 1 s)
    | true ↦
        let s' = skip 1 s in
        elim s'.rest [
          | [] ↦ (0, s')
          | e ∷ es ↦ elim (simple_escape e) [
            | some c ↦ (c, skip 1 s')
            | none ↦ (b'?', skip 1 (report 2002 (span_at file (s'.pos - 1) s'.pos) s'))
          ]
        ]
  ]

  abbrev pub close_char : Lexer → Lexer
  close_char s = elim s.rest [ [] ↦ s | b ∷ bs ↦ elim (b == b'\'') [ true ↦ skip 1 s | false ↦ s ] ]

  unfoldable pub lex_char : FileId → Lexer → Step
  unfolding char_value emit
  lex_char file s =
      let s' = skip 1 s in
      elim s'.rest [
        | [] ↦ (none, report 2003 (span_at file s.pos s'.pos) s')
        | b ∷ bs ↦
            let (val, s'') = char_value file b s' in
            token_at file s.pos (TokenKind.int (format_u8 val)) (close_char s'')
      ]
