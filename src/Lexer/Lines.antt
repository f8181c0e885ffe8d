-- ===== src/Lexer/Lines.antt =====
-- A comment goes to the end of its line.
use kore_lang.Base.{
  ℕ, zero, suc, ◌+◌, ◌≤◌, ◌==◌, ltb, ◌≡◌, refl, Bool, true, false, Option, none, some, [], ◌∷◌,
  length, arith,
}
use kore_lang.Diag.{FileId}
use kore_lang.Lexer.Tokens.{Bytes}
use kore_lang.Lexer.Scan.{
  Lexer, Outcome, done, panic, out_of_fuel, ◌>>=◌, drop, to_line_end, comment_token, lex_comment,
}
use kore_lang.Lexer.Moves.{exact-Moved, drop-length}
use kore_lang.Lexer.Steps.{GoodIf}

-- The library's decoder gives a character of at least one byte that the text has.
abbrev pub Decodes : (Bytes → Option (ℕ × ℕ)) → Type 0
Decodes next_char = (bs : Bytes) (c n : ℕ) → next_char bs ≡ some (c, n) → (1 ≤ n) × (n ≤ length bs)

-- An ASCII byte is the character of its number.
abbrev pub DecodesAscii : (Bytes → Option (ℕ × ℕ)) → Type 0
DecodesAscii next_char = (b : ℕ) (bs : Bytes) → ltb b 128 ≡ true → next_char (b ∷ bs) ≡ some (b, 1)

module _ (next_char : Bytes → Option (ℕ × ℕ)) (decodes : Decodes next_char) where
  -- The bytes before the end of the line, of which `n` were read before.
  abbrev LineEnd : ℕ → Bytes → Outcome (ℕ × Bytes) → Type 0
  LineEnd n bs (done (m, rest)) = (n ≤ m) × (m + length rest ≡ n + length bs)
  LineEnd n bs panic = Unit
  LineEnd n bs out_of_fuel = true ≡ false

  LineEnd-later :
      (k n : ℕ) (bs : Bytes) (o : Outcome (ℕ × Bytes))
      → k ≤ length bs
      → LineEnd (n + k) (drop k bs) o
      → LineEnd n bs o
  LineEnd-later k n bs (done (m, rest)) h e =
      (omega (arith, e.0), omega (arith, e.1, drop-length k bs h))
  LineEnd-later k n bs panic h e = tt
  LineEnd-later k n bs out_of_fuel h e = e

  stop-LineEnd :
      (n : ℕ) (bs : Bytes) (stop : Bool) (more : Outcome (ℕ × Bytes))
      → LineEnd n bs more
      → LineEnd n bs (elim stop [ true ↦ done (n, bs) | false ↦ more ])
  stop-LineEnd n bs true more h = (omega arith, refl)
  stop-LineEnd n bs false more h = h

  round-LineEnd :
      (n : ℕ) (bs : Bytes) (o : Option (ℕ × ℕ)) (more : ℕ → Outcome (ℕ × Bytes))
      → ((c len : ℕ) → o ≡ some (c, len) → LineEnd n bs (more len))
      → LineEnd n bs (elim o [
        | none ↦ panic
        | some (c, len) ↦ elim (c == b'\n') [ true ↦ done (n, bs) | false ↦ more len ]
      ])
  round-LineEnd n bs none more h = tt
  round-LineEnd n bs (some (c, len)) more h =
      stop-LineEnd n bs (c == b'\n') (more len) (h c len refl)

  to_line_end-LineEnd :
      (fuel : ℕ) (bs : Bytes) (n : ℕ)
      → suc (length bs) ≤ fuel
      → LineEnd n bs (to_line_end next_char fuel bs n)
  unfolding to_line_end
  to_line_end-LineEnd zero bs n h = absurd (omega (arith, h))
  to_line_end-LineEnd (suc fuel) [] n h = (omega arith, omega arith)
  to_line_end-LineEnd (suc fuel) (b ∷ bs) n h =
      round-LineEnd n (b ∷ bs) (next_char (b ∷ bs))
        (λ len. to_line_end next_char fuel (drop len (b ∷ bs)) (n + len))
        (λ c len e.
          let (pos, le) = decodes (b ∷ bs) c len e in
          LineEnd-later len n (b ∷ bs) _ le (
            to_line_end-LineEnd fuel (drop len (b ∷ bs)) (n + len)
              (omega (arith, h, pos, le, drop-length len (b ∷ bs) le))))

  -- The first character of a comment is the dash or the slash, and no line ends there.
  first-LineEnd :
      (fuel : ℕ) (b : ℕ) (bs : Bytes)
      → DecodesAscii next_char
      → ltb b 128 ≡ true
      → (b == b'\n') ≡ false
      → suc (length (b ∷ bs)) ≤ fuel
      → LineEnd 1 bs (to_line_end next_char fuel (b ∷ bs) 0)
  unfolding to_line_end
  first-LineEnd zero b bs ascii small other h = absurd (omega (arith, h))
  first-LineEnd (suc fuel) b bs ascii small other h =
      rw (ascii b bs small, other, to_line_end) (to_line_end-LineEnd fuel bs 1 (omega (arith, h)))

  comment-GoodIf :
      (file : FileId) (s : Lexer) (b : ℕ) (bs : Bytes) (o : Outcome (ℕ × Bytes))
      → s.rest ≡ b ∷ bs
      → LineEnd 1 bs o
      → GoodIf file s (o >>= λ line. done (comment_token next_char file s line))
  unfolding comment_token
  comment-GoodIf file s b bs (done (n, rest)) e k =
      let whole : length s.rest ≡ suc (length bs) = rw e refl in
      (
        exact-Moved s (comment_token next_char file s (n, rest)).1 (omega (arith, k.0))
            (omega (arith, k.1, whole)),
        refl,
      )
  comment-GoodIf file s b bs panic e k = tt
  comment-GoodIf file s b bs out_of_fuel e k = k

  pub lex_comment-GoodIf :
      (file : FileId) (s : Lexer) (b : ℕ) (bs : Bytes)
      → DecodesAscii next_char
      → s.rest ≡ b ∷ bs
      → ltb b 128 ≡ true
      → (b == b'\n') ≡ false
      → GoodIf file s (lex_comment next_char file s)
  unfolding lex_comment
  lex_comment-GoodIf file s b bs ascii e small other =
      comment-GoodIf file s b bs (to_line_end next_char (suc (length s.rest)) s.rest 0) e
        (rw e (first-LineEnd (suc (length (b ∷ bs))) b bs ascii small other (omega arith)))
