-- ===== src/Lexer/Spans.antt =====
-- The layout of the tokens of a source, through the main loop.
use kore_lang.Base.{
  ℕ, zero, suc, ◌+◌, ◌%◌, ◌^◌, ◌≤◌, ◌==◌, ltb, ◌≡◌, ◌∙◌, refl, ap, true, false, ◌&&◌, ◌||◌, Option,
  none, some, List, [], ◌∷◌, ◌++◌, length, arith,
}
use kore_lang.Diag.{FileId}
use kore_lang.Diag.Sink.{DiagSink}
use kore_lang.Lexer.{next_is, push, lex_one, run, tokenize}
use kore_lang.Lexer.Tokens.{Bytes, Token, eof}
use kore_lang.Lexer.Scan.{
  Lexer, Outcome, done, panic, out_of_fuel, ◌>>=◌, Step, is_space, is_ident_start, is_digit,
}
use kore_lang.Lexer.Moves.{slack, Moved}
use kore_lang.Lexer.Cases.{bool_case, list_case}
use kore_lang.Lexer.Steps.{
  Covers, GoodIf, skip_whitespace-Good, lex_ident_or_keyword-Good, lex_punct-Good,
}
use kore_lang.Lexer.Numbers.{lex_number-Good}
use kore_lang.Lexer.Lines.{Decodes, DecodesAscii, lex_comment-GoodIf}
use kore_lang.Lexer.Strings.{lex_string-GoodIf, lex_raw_string-Good, lex_char-Good}

-- Each token is not empty, starts in the source and not before the end of the one before, and ends at most
-- one past the source's end. The last one is the end of the file, and it is empty.
abbrev pub LaidOut : ℕ → ℕ → List Token → Type 0
LaidOut from n [] = true ≡ false
LaidOut from n (t ∷ []) = (t.kind ≡ eof) × (t.span.lo ≡ n) × (t.span.hi ≡ n)
LaidOut from n (t ∷ u ∷ ts) =
    ((from ≤ t.span.lo) × (suc t.span.lo ≤ n) × (suc t.span.lo ≤ t.span.hi) × (t.span.hi ≤ suc n))
    × LaidOut t.span.hi n (u ∷ ts)

-- The lexer never runs out of fuel, and the tokens that it yields are laid out.
abbrev pub Lexed : ℕ → Outcome (List Token × DiagSink) → Type 0
Lexed n (done r) = LaidOut 0 n r.0
Lexed n panic = Unit
Lexed n out_of_fuel = true ≡ false

-- The tokens before the end.
abbrev Body : ℕ → ℕ → List Token → Type 0
Body from n [] = Unit
Body from n (t ∷ ts) =
    ((from ≤ t.span.lo) × (suc t.span.lo ≤ n) × (suc t.span.lo ≤ t.span.hi) × (t.span.hi ≤ suc n))
    × Body t.span.hi n ts

Body-LaidOut :
    (from n : ℕ) (ts : List Token) (end : Token)
    → Body from n ts
    → (end.kind ≡ eof) × (end.span.lo ≡ n) × (end.span.hi ≡ n)
    → LaidOut from n (ts ++ end ∷ [])
Body-LaidOut from n [] end b e = e
Body-LaidOut from n (t ∷ []) end b e = (b.0, e)
Body-LaidOut from n (t ∷ u ∷ ts) end b e = (b.0, Body-LaidOut t.span.hi n (u ∷ ts) end b.1 e)

Body-earlier : (a b n : ℕ) (ts : List Token) → a ≤ b → Body b n ts → Body a n ts
Body-earlier a b n [] h k = tt
Body-earlier a b n (t ∷ ts) h k = ((omega (arith, h, k.0.0), k.0.1, k.0.2, k.0.3), k.1)

cast_small : (a n : ℕ) → a ≤ n → ltb n (2 ^ 32) ≡ true → a % 2 ^ 32 ≡ a
cast_small a n h k = ground (arith, h, k)

push-Body :
    (file : FileId) (s t : Lexer) (n : ℕ) (o : Option Token) (ts : List Token)
    → ltb (suc n) (2 ^ 32) ≡ true
    → suc s.pos ≤ n
    → suc s.pos ≤ t.pos
    → t.pos ≤ suc n
    → Covers file s t o
    → Body t.pos n ts
    → Body s.pos n (push o ts)
push-Body file s t n none ts small a b c e k = Body-earlier s.pos t.pos n ts (omega (arith, b)) k
push-Body file s t n (some u) ts small a b c e k =
    let lo : u.span.lo ≡ s.pos =
      ap (λ x. x.lo) e ∙ cast_small s.pos (suc n) (omega (arith, a)) small in
    let hi : u.span.hi ≡ t.pos = ap (λ x. x.hi) e ∙ cast_small t.pos (suc n) c small in
    (
      (omega (arith, lo), omega (arith, lo, a), omega (arith, lo, hi, b), omega (arith, hi, c)),
      Body-earlier u.span.hi t.pos n ts (omega (arith, hi)) k,
    )

-- Past the end by one only where nothing is left.
abbrev over : Bytes → ℕ
over [] = 1
over (b ∷ bs) = 0

over-slack :
    (xs ys : Bytes) (p q n : ℕ)
    → 1 ≤ length xs
    → p + length xs ≤ n + over xs
    → q + length ys ≤ p + length xs + slack xs ys
    → q + length ys ≤ n + over ys
over-slack [] ys p q n one h k = absurd (omega (arith, one))
over-slack (x ∷ xs) [] p q n one h k = omega (arith, h, k)
over-slack (x ∷ xs) (y ∷ ys) p q n one h k = omega (arith, h, k)

over_start : (xs : Bytes) (p n : ℕ) → 1 ≤ length xs → p + length xs ≤ n + over xs → suc p ≤ n
over_start [] p n one h = absurd (omega (arith, one))
over_start (x ∷ xs) p n one h = omega (arith, h)

over_bound : (ys : Bytes) (q n : ℕ) → q + length ys ≤ n + over ys → q ≤ suc n
over_bound [] q n h = omega (arith, h)
over_bound (y ∷ ys) q n h = omega (arith, h)

module _ (next_char : Bytes → Option (ℕ × ℕ)) (decodes : Decodes next_char)
    (ascii : DecodesAscii next_char) (encode : ℕ → Bytes) (from_u32 : ℕ → Option ℕ)
    (format_u8 : ℕ → Bytes) (file : FileId) where
  lex_one-GoodIf :
      (s : Lexer) (b : ℕ) (bs : Bytes)
      → s.rest ≡ b ∷ bs
      → GoodIf file s (lex_one next_char encode from_u32 format_u8 file b bs s)
  unfolding lex_one
  lex_one-GoodIf s b bs e =
      bool_case (GoodIf file s) (is_space b) _ _ (λ space. skip_whitespace-Good file s b bs e space)
        (λ no_space.
          bool_case (GoodIf file s)
            ((b == b'-' && next_is b'-' bs) || (b == b'/' && next_is b'/' bs)) _ _
            (λ comment.
              lex_comment-GoodIf next_char decodes file s b bs ascii e (ground (arith, comment))
                (ground (arith, comment)))
            (λ no_comment.
              bool_case (GoodIf file s) (is_ident_start b) _ _
                (λ word. lex_ident_or_keyword-Good file s b bs e word)
                (λ no_word.
                  bool_case (GoodIf file s) (is_digit b) _ _
                    (λ digit. lex_number-Good file s b bs e digit)
                    (λ no_digit.
                      bool_case (GoodIf file s) (b == b'"') _ _
                        (λ quote.
                          lex_string-GoodIf next_char decodes encode from_u32 format_u8 file s b bs
                            e)
                        (λ no_quote.
                          bool_case (GoodIf file s) (b == b'`') _ _
                            (λ raw.
                              lex_raw_string-Good next_char decodes encode from_u32 format_u8 file s
                                b bs e)
                            (λ no_raw.
                              bool_case (GoodIf file s) (b == b'\'') _ _
                                (λ char.
                                  lex_char-Good next_char decodes encode from_u32 format_u8 file s b
                                    bs e)
                                (λ mark. lex_punct-Good file s b bs e)))))))

  abbrev RunBody : ℕ → ℕ → Outcome (List Token × DiagSink) → Type 0
  RunBody from n (done r) = Body from n r.0
  RunBody from n panic = Unit
  RunBody from n out_of_fuel = true ≡ false

  pushed-RunBody :
      (s t : Lexer) (n : ℕ) (o : Option Token) (r : Outcome (List Token × DiagSink))
      → ltb (suc n) (2 ^ 32) ≡ true
      → suc s.pos ≤ n
      → suc s.pos ≤ t.pos
      → t.pos ≤ suc n
      → Covers file s t o
      → RunBody t.pos n r
      → RunBody s.pos n (r >>= λ more. done (push o more.0, more.1))
  pushed-RunBody s t n o (done r) small a b c e k = push-Body file s t n o r.0 small a b c e k
  pushed-RunBody s t n o panic small a b c e k = tt
  pushed-RunBody s t n o out_of_fuel small a b c e k = k

  round-RunBody :
      (s : Lexer) (n b : ℕ) (bs : Bytes) (o : Outcome Step)
      (loop : Lexer → Outcome (List Token × DiagSink))
      → ltb (suc n) (2 ^ 32) ≡ true
      → s.rest ≡ b ∷ bs
      → s.pos + length s.rest ≤ n + over s.rest
      → GoodIf file s o
      → ((t : Lexer)
          → Moved s t
          → t.pos + length t.rest ≤ n + over t.rest
          → RunBody t.pos n (loop t))
      → RunBody s.pos n (o >>= λ r. loop r.1 >>= λ more. done (push r.0 more.0, more.1))
  round-RunBody s n b bs (done (o, t)) loop small e h g ih =
      let one : 1 ≤ length s.rest = rw e (omega arith) in
      let after = over-slack s.rest t.rest s.pos t.pos n one h g.0.later.within in
      pushed-RunBody s t n o (loop t) small (over_start s.rest s.pos n one h) g.0.further
        (over_bound t.rest t.pos n after) g.1 (ih t g.0 after)
  round-RunBody s n b bs panic loop small e h g ih = tt
  round-RunBody s n b bs out_of_fuel loop small e h g ih = g

  run-RunBody :
      (fuel : ℕ) (s : Lexer) (n : ℕ)
      → ltb (suc n) (2 ^ 32) ≡ true
      → suc (length s.rest) ≤ fuel
      → s.pos + length s.rest ≤ n + over s.rest
      → RunBody s.pos n (run next_char encode from_u32 format_u8 file fuel s)
  unfolding run
  run-RunBody zero s n small f h = absurd (omega (arith, f))
  run-RunBody (suc fuel) s n small f h =
      list_case (RunBody s.pos n) s.rest _ _ (λ ended. tt)
        (λ b bs more.
          round-RunBody s n b bs (lex_one next_char encode from_u32 format_u8 file b bs s)
            (run next_char encode from_u32 format_u8 file fuel) small more h
            (lex_one-GoodIf s b bs more)
            (λ t moved within. run-RunBody fuel t n small (omega (arith, f, moved.less)) within))

  ended-Lexed :
      (n : ℕ) (r : Outcome (List Token × DiagSink)) (end : Token)
      → (end.kind ≡ eof) × (end.span.lo ≡ n) × (end.span.hi ≡ n)
      → RunBody 0 n r
      → Lexed n (r >>= λ q. done (q.0 ++ end ∷ [], q.1))
  ended-Lexed n (done r) end e b = Body-LaidOut 0 n r.0 end b e
  ended-Lexed n panic end e b = tt
  ended-Lexed n out_of_fuel end e b = b

  start_fits : (src : Bytes) → 0 + length src ≤ length src + over src
  start_fits [] = omega arith
  start_fits (b ∷ bs) = omega arith

  -- On a source of less than 2^32 - 1 bytes, where the library's decoder gives characters that are there
  -- and ASCII bytes as they are, the lexer ends: it panics, or yields tokens that are not empty, start in
  -- the source, do not overlap, stand in their order and end at most one past the source's end, and
  -- after them the end of the file.
  pub tokenize-Lexed :
      (src : Bytes) (sink : DiagSink)
      → ltb (suc (length src)) (2 ^ 32) ≡ true
      → Lexed (length src) (tokenize next_char encode from_u32 format_u8 file src sink)
  unfolding tokenize
  tokenize-Lexed src sink small =
      let n = length src in
      let exact = cast_small n (suc n) (omega arith) small in
      ended-Lexed n _ _ (refl, exact, exact)
        (run-RunBody (suc n) (record { rest = src; pos = 0; sink = sink }) n small (omega arith)
          (start_fits src))
