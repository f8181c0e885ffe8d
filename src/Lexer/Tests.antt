-- ===== src/Lexer/Tests.antt =====
-- A line of source, and the escape that moves the lexer past the end.
use kore_lang.Base.{
  ℕ, ltb, ◌≡◌, refl, Option, none, some, List, [], ◌∷◌, map, length, if◌then◌else◌, arith,
}
use kore_lang.Diag.Sink.{DiagSink}
use kore_lang.Diag.Sink
use kore_lang.Lexer.{tokenize}
use kore_lang.Lexer.Tokens.{Bytes, TokenKind, Token, CommentKind, bytes_of}
use kore_lang.Lexer.Scan.{Outcome, done, panic, out_of_fuel}
use kore_lang.Lexer.Lines.{Decodes, DecodesAscii}
use kore_lang.Lexer.Spans.{LaidOut, Lexed, tokenize-Lexed}
use kore_lang.Lexer.Total.{tokenize-Plain}

-- Stands for the library's decoder: it knows ASCII only.
abbrev ascii_char : Bytes → Option (ℕ × ℕ)
ascii_char [] = none
ascii_char (b ∷ bs) = if ltb b 128 then some (b, 1) else none

abbrev one_byte_of : ℕ → Bytes
one_byte_of c = c ∷ []

abbrev any_char : ℕ → Option ℕ
any_char c = some c

abbrev kinds_of : Outcome (List Token × DiagSink) → List (TokenKind × (ℕ × ℕ))
kinds_of (done r) = map (λ t. (t.kind, (t.span.lo, t.span.hi))) r.0
kinds_of panic = []
kinds_of out_of_fuel = []

abbrev lexed : Bytes → Outcome (List Token × DiagSink)
lexed src = tokenize ascii_char one_byte_of any_char one_byte_of 0 src Sink.new

abbrev source : Bytes
source = bytes_of "pub x := 0x1F --= y"

source_run :
    kinds_of (lexed source)
    ≡ (TokenKind.keyword (bytes_of "pub"), (0, 3))
      ∷ (TokenKind.ident (bytes_of "x"), (4, 5))
      ∷ (TokenKind.punct ":=", (6, 8))
      ∷ (TokenKind.int (bytes_of "0x1F"), (9, 13))
      ∷ (TokenKind.comment CommentKind.contract (bytes_of "y"), (14, 19))
      ∷ (TokenKind.eof, (19, 19))
      ∷ []
unfolding tokenize
source_run = refl

-- `"\x41" y`: the escape takes the closing quote with it, and the string goes on to the end.
escape_run :
    kinds_of (lexed (b'"' ∷ b'\\' ∷ b'x' ∷ b'4' ∷ b'1' ∷ b'"' ∷ b' ' ∷ b'y' ∷ []))
    ≡ (TokenKind.str (65 ∷ b' ' ∷ b'y' ∷ []), (0, 8)) ∷ (TokenKind.eof, (8, 8)) ∷ []
unfolding tokenize
escape_run = refl

-- `"\x4`: the token ends one past the end of the source, and so past the token after it.
past_end_run :
    kinds_of (lexed (b'"' ∷ b'\\' ∷ b'x' ∷ b'4' ∷ []))
    ≡ (TokenKind.str (4 ∷ []), (0, 5)) ∷ (TokenKind.eof, (4, 4)) ∷ []
unfolding tokenize
past_end_run = refl

ascii_char-Decodes : Decodes ascii_char
ascii_char-Decodes [] c n e = absurd (ground arith)
ascii_char-Decodes (b ∷ bs) c n e = ground arith

ascii_char-DecodesAscii : DecodesAscii ascii_char
ascii_char-DecodesAscii b bs h = ground (arith, h)

tokenize-Lexed_example : Lexed (length source) (lexed source)
tokenize-Lexed_example =
    tokenize-Lexed ascii_char ascii_char-Decodes ascii_char-DecodesAscii one_byte_of any_char
      one_byte_of 0 source Sink.new refl

-- A word, a string and an unknown byte.
abbrev plain_source : Bytes
plain_source = bytes_of "x \"a b\" #"

tokenize-Plain_example :
    (ts : List Token) × (sink : DiagSink) × (lexed plain_source ≡ done (ts, sink))
    × LaidOut 0 (length plain_source) ts
tokenize-Plain_example =
    tokenize-Plain ascii_char ascii_char-Decodes ascii_char-DecodesAscii one_byte_of any_char
      one_byte_of 0 plain_source Sink.new refl
      (refl, (refl, (refl, (refl, (refl, (refl, (refl, (refl, (refl, tt)))))))))
