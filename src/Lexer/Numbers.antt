-- ===== src/Lexer/Numbers.antt =====
-- The digits of a number are read and left as they stand.
use kore_lang.Base.{
  ℕ, ◌+◌, ◌≤◌, ◌≡◌, refl, Bool, true, false, [], ◌∷◌, ◌++◌, length, length-append, arith,
  if◌then◌else◌,
}
use kore_lang.Diag.{FileId}
use kore_lang.Lexer.Tokens.{Bytes}
use kore_lang.Lexer.Scan.{
  Lexer, drop, take, split_while, is_ident_continue, is_digit, is_digit_or_underscore,
  is_hex_digit_or_underscore, has_radix, has_fraction, number_of, lex_number,
}
use kore_lang.Lexer.Moves.{
  exact-Moved, drop-length, take-length, split_while-length, split_while-first,
}
use kore_lang.Lexer.Steps.{Good}

has_radix-two : (bs : Bytes) → has_radix bs ≡ true → 2 ≤ length bs
has_radix-two [] h = absurd (ground arith)
has_radix-two (a ∷ []) h = absurd (ground arith)
has_radix-two (a ∷ b ∷ bs) h = omega arith

has_fraction-one : (bs : Bytes) → has_fraction bs ≡ true → 1 ≤ length bs
has_fraction-one [] h = absurd (ground arith)
has_fraction-one (a ∷ bs) h = omega arith

-- A split into a text and what follows it, with at least one byte in the text.
abbrev Splits : Bytes → Bytes × Bytes → Type 0
Splits bs (text, after) = (1 ≤ length text) × (length text + length after ≡ length bs)

radix-Splits :
    (bs : Bytes)
    → has_radix bs ≡ true
    → Splits bs (
      take 2 bs ++ (split_while is_hex_digit_or_underscore (drop 2 bs)).0,
      (split_while is_hex_digit_or_underscore (drop 2 bs)).1,
    )
radix-Splits bs h =
    let two = has_radix-two bs h in
    let digits = split_while is_hex_digit_or_underscore (drop 2 bs) in
    let joined = length-append (take 2 bs) digits.0 in
    let taken = take-length 2 bs two in
    let dropped = drop-length 2 bs two in
    let total = split_while-length is_hex_digit_or_underscore (drop 2 bs) in
    (omega (arith, joined, taken), omega (arith, joined, taken, dropped, total))

fraction-Splits :
    (bs whole rest : Bytes)
    → Splits bs (whole, rest)
    → has_fraction rest ≡ true
    → Splits bs (
      whole ++ take 1 rest ++ (split_while is_digit_or_underscore (drop 1 rest)).0,
      (split_while is_digit_or_underscore (drop 1 rest)).1,
    )
fraction-Splits bs whole rest k h =
    let one = has_fraction-one rest h in
    let digits = split_while is_digit_or_underscore (drop 1 rest) in
    let joined = length-append (whole ++ take 1 rest) digits.0 in
    let joined' = length-append whole (take 1 rest) in
    let taken = take-length 1 rest one in
    let dropped = drop-length 1 rest one in
    let total = split_while-length is_digit_or_underscore (drop 1 rest) in
    (
      omega (arith, k.0, joined, joined', taken),
      omega (arith, k.1, joined, joined', taken, dropped, total),
    )

if-Splits :
    (bs : Bytes) (b : Bool) (x y : Bytes × Bytes)
    → (b ≡ true → Splits bs x)
    → Splits bs y
    → Splits bs (if b then x else y)
if-Splits bs true x y h k = h refl
if-Splits bs false x y h k = k

number_of-Splits : (b : ℕ) (bs : Bytes) → is_digit b ≡ true → Splits (b ∷ bs) (number_of (b ∷ bs))
unfolding number_of
number_of-Splits b bs h =
    let whole = split_while is_digit_or_underscore (b ∷ bs) in
    let decimal : Splits (b ∷ bs) whole = (
      split_while-first is_digit_or_underscore b bs (ground (arith, h)),
      split_while-length is_digit_or_underscore (b ∷ bs),
    ) in
    if-Splits (b ∷ bs) (has_radix (b ∷ bs)) _ _ (radix-Splits (b ∷ bs)) (
      if-Splits (b ∷ bs) (has_fraction whole.1) _ _
        (fraction-Splits (b ∷ bs) whole.0 whole.1 decimal) decimal)

pub lex_number-Good :
    (file : FileId) (s : Lexer) (b : ℕ) (bs : Bytes)
    → s.rest ≡ b ∷ bs
    → is_digit b ≡ true
    → Good file s (lex_number file s)
unfolding lex_number
lex_number-Good file s b bs e h =
    let k : Splits s.rest (number_of s.rest) = rw e (number_of-Splits b bs h) in
    let suffix = split_while-length is_ident_continue (number_of s.rest).1 in
    (exact-Moved s (lex_number file s).1 (omega (arith, k.0)) (omega (arith, k.1, suffix)), refl)
