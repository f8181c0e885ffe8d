-- ===== src/Lexer/Plain.antt =====
-- Plain bytes: ASCII without a backslash. What is read of them leaves plain bytes.
use kore_lang.Base.{
  ℕ, zero, suc, ◌+◌, ◌==◌, ltb, ◌≡◌, Bool, true, false, not, ◌&&◌, Option, none, some, [], ◌∷◌, All,
  arith, Bool-cases, if◌then◌else◌, inl, inr, String,
}
use kore_lang.Diag.{FileId}
use kore_lang.Lexer.Tokens.{Bytes}
use kore_lang.Lexer.Scan.{
  Lexer, Outcome, done, panic, out_of_fuel, ◌>>=◌, drop, split_while, Step, is_digit_or_underscore,
  is_hex_digit_or_underscore, has_radix, has_fraction, number_of, single, punct_step, to_line_end,
  comment_token,
}
use kore_lang.Lexer.Cases.{bool_case}
use kore_lang.Lexer.Lines.{DecodesAscii}

abbrev pub is_plain : ℕ → Bool
is_plain b = ltb b 128 && not (b == b'\\')

abbrev pub Plain : Bytes → Type 0
Plain = All (λ b. is_plain b ≡ true)

pub drop-Plain : (n : ℕ) (bs : Bytes) → Plain bs → Plain (drop n bs)
drop-Plain zero bs h = h
drop-Plain (suc n) [] h = tt
drop-Plain (suc n) (b ∷ bs) h = drop-Plain n bs h.1

pub split_while-Plain : (p : ℕ → Bool) (bs : Bytes) → Plain bs → Plain (split_while p bs).1
unfolding split_while
split_while-Plain p [] h = tt
split_while-Plain p (b ∷ bs) h = elim (Bool-cases (p b)) [
  | inl passes ↦ rw (passes) (split_while-Plain p bs h.1)
  | inr fails ↦ rw (fails) h
]

if-Plain : (b : Bool) (x y : Bytes × Bytes) → Plain x.1 → Plain y.1 → Plain (if b then x else y).1
if-Plain true x y h k = h
if-Plain false x y h k = k

pub number_of-Plain : (bs : Bytes) → Plain bs → Plain (number_of bs).1
unfolding number_of
number_of-Plain bs h =
    let whole = split_while-Plain is_digit_or_underscore bs h in
    let rest = (split_while is_digit_or_underscore bs).1 in
    if-Plain (has_radix bs) _ _
      (split_while-Plain is_hex_digit_or_underscore (drop 2 bs) (drop-Plain 2 bs h))
      (if-Plain (has_fraction rest) _ (split_while is_digit_or_underscore bs)
        (split_while-Plain is_digit_or_underscore (drop 1 rest) (drop-Plain 1 rest whole)) whole)

-- No panic, and the bytes that are left are plain.
abbrev pub Calm : {A : Type 0} → (A → Bytes) → Outcome A → Type 0
Calm left (done a) = Plain (left a)
Calm left panic = true ≡ false
Calm left out_of_fuel = Unit

abbrev pub step_left : Step → Bytes
step_left r = r.1.rest

abbrev line_left : ℕ × Bytes → Bytes
line_left r = r.1

abbrev pub text_left : Bytes × Lexer → Bytes
text_left r = r.1.rest

single-Plain :
    (file : FileId) (o : Option String) (s : Lexer) → Plain s.rest → Plain (single file o s).1.rest
single-Plain file none s h = drop-Plain 1 s.rest h
single-Plain file (some text) s h = drop-Plain 1 s.rest h

pub punct_step-Plain :
    (file : FileId) (two one : Option String) (s : Lexer)
    → Plain s.rest
    → Plain (punct_step file two one s).1.rest
punct_step-Plain file none one s h = single-Plain file one s h
punct_step-Plain file (some text) one s h = drop-Plain 2 s.rest h

-- An outcome that is no panic.
abbrev pub NoPanic : {A : Type 0} → Outcome A → Type 0
NoPanic panic = true ≡ false
NoPanic _ = Unit

pub then-NoPanic :
    {A B : Type 0} (o : Outcome A) (f : A → B) → NoPanic o → NoPanic (o >>= λ a. done (f a))
then-NoPanic (done a) f h = tt
then-NoPanic panic f h = h
then-NoPanic out_of_fuel f h = tt

-- The first character of plain bytes is a byte, and no backslash.
module _ (next_char : Bytes → Option (ℕ × ℕ)) (ascii : DecodesAscii next_char) where
  pub first_char :
      (b : ℕ) (bs : Bytes)
      → Plain (b ∷ bs)
      → (next_char (b ∷ bs) ≡ some (b, 1)) × ((b == b'\\') ≡ false)
  first_char b bs h = (ascii b bs (ground (arith, h.0)), ground (arith, h.0))

  pub to_line_end-Calm :
      (fuel : ℕ) (bs : Bytes) (n : ℕ) → Plain bs → Calm line_left (to_line_end next_char fuel bs n)
  unfolding to_line_end
  to_line_end-Calm zero bs n h = tt
  to_line_end-Calm (suc fuel) [] n h = tt
  to_line_end-Calm (suc fuel) (b ∷ bs) n h =
      rw ((first_char b bs h).0, to_line_end)
        (bool_case (Calm line_left) (b == b'\n') (done (n, b ∷ bs))
          (to_line_end next_char fuel bs (n + 1)) (λ stop. h)
          (λ more. to_line_end-Calm fuel bs (n + 1) h.1))

  pub comment-Calm :
      (file : FileId) (s : Lexer) (o : Outcome (ℕ × Bytes))
      → Calm line_left o
      → Calm step_left (o >>= λ line. done (comment_token next_char file s line))
  unfolding comment_token
  comment-Calm file s (done r) h = h
  comment-Calm file s panic h = h
  comment-Calm file s out_of_fuel h = h
