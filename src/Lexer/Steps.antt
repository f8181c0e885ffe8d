-- ===== src/Lexer/Steps.antt =====
-- What a good step of the main loop is; words, marks and white space.
use kore_lang.Base.{
  ℕ, ◌≤◌, ◌≡◌, refl, true, false, Option, none, some, [], ◌∷◌, length, arith, String,
}
use kore_lang.Diag.{FileId}
use kore_lang.Lexer.Tokens.{Bytes, Token}
use kore_lang.Lexer.Scan.{
  Lexer, Outcome, done, panic, out_of_fuel, span_at, split_while, Step, is_space, is_ident_start,
  is_ident_continue, skip_whitespace, lex_ident_or_keyword, single, punct_step, second_of, find_one,
  one_byte, lex_punct,
}
use kore_lang.Lexer.Moves.{
  Moved, exact-Moved, drop-length, skip-Moved, split_while-length, split_while-first,
}

-- The span of the token is from where the lexer was to where it is.
abbrev pub Covers : FileId → Lexer → Lexer → Option Token → Type 0
Covers file s t none = Unit
Covers file s t (some k) = k.span ≡ span_at file s.pos t.pos

abbrev pub Good : FileId → Lexer → Step → Type 0
Good file s (o, t) = Moved s t × Covers file s t o

-- Enough fuel: a panic or a good step.
abbrev pub GoodIf : FileId → Lexer → Outcome Step → Type 0
GoodIf file s (done r) = Good file s r
GoodIf file s panic = Unit
GoodIf file s out_of_fuel = true ≡ false

-- The next bytes: a lexer whose rest starts with a byte.
abbrev pub at_byte : Lexer → ℕ → Bytes → Lexer
at_byte s b bs = record s { rest = b ∷ bs }

module _ (file : FileId) (s : Lexer) where
  pub skip_whitespace-Good :
      (b : ℕ) (bs : Bytes) → s.rest ≡ b ∷ bs → is_space b ≡ true → Good file s (skip_whitespace s)
  unfolding skip_whitespace
  skip_whitespace-Good b bs e h =
      let total = split_while-length is_space s.rest in
      let first : 1 ≤ length (split_while is_space s.rest).0 =
        rw e (split_while-first is_space b bs h) in
      (exact-Moved s (skip_whitespace s).1 (omega (arith, first)) (omega (arith, total)), tt)

  pub lex_ident_or_keyword-Good :
      (b : ℕ) (bs : Bytes)
      → s.rest ≡ b ∷ bs
      → is_ident_start b ≡ true
      → Good file s (lex_ident_or_keyword file s)
  unfolding lex_ident_or_keyword
  lex_ident_or_keyword-Good b bs e h =
      let total = split_while-length is_ident_continue s.rest in
      let first : 1 ≤ length (split_while is_ident_continue s.rest).0 =
        rw e (split_while-first is_ident_continue b bs (ground (arith, h))) in
      (
        exact-Moved s (lex_ident_or_keyword file s).1 (omega (arith, first)) (omega (arith, total)),
        refl,
      )

  single-Good : (o : Option String) → 1 ≤ length s.rest → Good file s (single file o s)
  single-Good none h = (
    exact-Moved s (single file none s).1 (omega arith) (omega (arith, drop-length 1 s.rest h)),
    tt,
  )
  single-Good (some text) h = (skip-Moved 1 s (omega arith) h, refl)

  punct_step-Good :
      (two one : Option String)
      → 1 ≤ length s.rest
      → ((text : String) → two ≡ some text → 2 ≤ length s.rest)
      → Good file s (punct_step file two one s)
  punct_step-Good none one h k = single-Good one h
  punct_step-Good (some text) one h k = (skip-Moved 2 s (omega arith) (k text refl), refl)

  second_of-two :
      (b : ℕ) (bs : Bytes) (text : String) → second_of bs b ≡ some text → 2 ≤ length (b ∷ bs)
  unfolding second_of
  second_of-two b [] text h = absurd (ground arith)
  second_of-two b (c ∷ bs) text h = omega arith

  pub lex_punct-Good : (b : ℕ) (bs : Bytes) → s.rest ≡ b ∷ bs → Good file s (lex_punct file b bs s)
  unfolding lex_punct
  lex_punct-Good b bs e =
      punct_step-Good (second_of bs b) (find_one one_byte b) (rw e (omega arith))
        (λ text h. rw e (second_of-two b bs text h))
