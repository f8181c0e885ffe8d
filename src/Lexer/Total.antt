-- ===== src/Lexer/Total.antt =====
-- The tokens of a source of plain bytes.
use kore_lang.Base.{ℕ, suc, ltb, ◌^◌, ◌≡◌, refl, true, Option, List, length, arith}
use kore_lang.Diag.{FileId}
use kore_lang.Diag.Sink.{DiagSink}
use kore_lang.Lexer.{tokenize}
use kore_lang.Lexer.Tokens.{Bytes, Token}
use kore_lang.Lexer.Scan.{Outcome, done, panic, out_of_fuel}
use kore_lang.Lexer.Lines.{Decodes, DecodesAscii}
use kore_lang.Lexer.Spans.{LaidOut, Lexed, tokenize-Lexed}
use kore_lang.Lexer.Plain.{Plain, NoPanic}
use kore_lang.Lexer.Calm.{tokenize-NoPanic}

module _ (next_char : Bytes → Option (ℕ × ℕ)) (decodes : Decodes next_char)
    (ascii : DecodesAscii next_char) (encode : ℕ → Bytes) (from_u32 : ℕ → Option ℕ)
    (format_u8 : ℕ → Bytes) (file : FileId) where
  yields :
      (n : ℕ) (o : Outcome (List Token × DiagSink))
      → Lexed n o
      → NoPanic o
      → (ts : List Token) × (sink : DiagSink) × (o ≡ done (ts, sink)) × LaidOut 0 n ts
  yields n (done r) h k = (r.0, r.1, refl, h)
  yields n panic h k = absurd (ground arith)
  yields n out_of_fuel h k = absurd (ground arith)

  -- On a source of less than 2^32 - 1 bytes, all ASCII and none a backslash, where the library's decoder
  -- gives characters that are there and ASCII bytes as they are, the lexer returns. Its tokens are not
  -- empty, start in the source, do not overlap, stand in their order and end at most one past the
  -- source's end, and after them stands the end of the file.
  pub tokenize-Plain :
      (src : Bytes) (sink : DiagSink)
      → ltb (suc (length src)) (2 ^ 32) ≡ true
      → Plain src
      → (ts : List Token) × (sink' : DiagSink) × (tokenize next_char encode from_u32 format_u8 file
            src sink
          ≡ done (ts, sink'))
        × LaidOut 0 (length src) ts
  tokenize-Plain src sink small plain =
      yields (length src) (tokenize next_char encode from_u32 format_u8 file src sink)
        (tokenize-Lexed next_char decodes ascii encode from_u32 format_u8 file src sink small)
        (tokenize-NoPanic next_char ascii encode from_u32 format_u8 file src sink plain)
