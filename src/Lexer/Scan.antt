-- ===== src/Lexer/Scan.antt =====
-- stage0/src/frontend/lexer/lexer_impl.rs: comments, words, numbers and punctuation.
use kore_lang.Base.{
  ℕ, zero, suc, ◌+◌, ◌%◌, ◌^◌, leb, ◌==◌, Bool, true, false, ◌&&◌, ◌||◌, Option, none, some, List,
  [], ◌∷◌, ◌++◌, String, length, any, if◌then◌else◌,
}
use kore_lang.Diag.{FileId, Span, at, error_diagnostic}
use kore_lang.Diag.Sink.{DiagSink, emit}
use kore_lang.Lexer.Tokens.{Bytes, TokenKind, Token, is_keyword}
use kore_lang.Lexer.Comment.{classify_comment}

-- The bytes from `pos` on, which the source has as `bytes[pos..]` and `src[pos..]`, and the sink.
pub record Lexer : Type 0 where
  pub rest : Bytes
  pub pos : ℕ
  pub sink : DiagSink

-- A panic, or a recursion that needs more fuel than it was given.
pub data Outcome (A : Type 0) : Type 0 where
  done : A → Outcome A
  panic out_of_fuel : Outcome A

infixl 5 ◌>>=◌
abbrev pub ◌>>=◌ : {A B : Type 0} → Outcome A → (A → Outcome B) → Outcome B
o >>= f = elim o [ done a ↦ f a | panic ↦ panic | out_of_fuel ↦ out_of_fuel ]

-- `Span::new`, with the casts to u32.
abbrev pub span_at : FileId → ℕ → ℕ → Span
span_at file lo hi = record { file = file; lo = lo % 2 ^ 32; hi = hi % 2 ^ 32 }

abbrev pub drop : ℕ → Bytes → Bytes
drop zero bs = bs
drop (suc n) [] = []
drop (suc n) (b ∷ bs) = drop n bs

abbrev pub take : ℕ → Bytes → Bytes
take zero bs = []
take (suc n) [] = []
take (suc n) (b ∷ bs) = b ∷ take n bs

-- `self.pos += n`: the position may pass the end, where no bytes are left.
abbrev pub skip : ℕ → Lexer → Lexer
skip n s = record s { rest = drop n s.rest; pos = s.pos + n }

abbrev pub report : ℕ → Span → Lexer → Lexer
report code span s = record s { sink = emit (error_diagnostic code (at span)) s.sink }

-- The longest prefix that passes a test, and what follows it.
unfoldable pub split_while : (ℕ → Bool) → Bytes → Bytes × Bytes
split_while p [] = ([], [])
split_while p (b ∷ bs) =
    let (xs, ys) = split_while p bs in if p b then (b ∷ xs, ys) else ([], b ∷ bs)

abbrev pub in_range : ℕ → ℕ → ℕ → Bool
in_range lo hi b = leb lo b && leb b hi

abbrev pub is_space : ℕ → Bool
is_space b = b == b' ' || b == b'\t' || b == b'\r' || b == b'\n'

abbrev pub is_digit : ℕ → Bool
is_digit b = in_range b'0' b'9' b

abbrev pub is_ident_start : ℕ → Bool
is_ident_start b = b == b'_' || in_range b'a' b'z' b || in_range b'A' b'Z' b

abbrev pub is_ident_continue : ℕ → Bool
is_ident_continue b = is_ident_start b || is_digit b

abbrev pub is_digit_or_underscore : ℕ → Bool
is_digit_or_underscore b = is_digit b || b == b'_'

abbrev pub is_hex_digit_or_underscore : ℕ → Bool
is_hex_digit_or_underscore b =
    is_digit b || in_range b'a' b'f' b || in_range b'A' b'F' b || b == b'_'

-- What one round of the main loop does: it pushes a token or none.
abbrev pub Step : Type 0
Step = Option Token × Lexer

abbrev pub token_at : FileId → ℕ → TokenKind → Lexer → Step
token_at file start kind s = (some (record { kind = kind; span = span_at file start s.pos }), s)

unfoldable pub skip_whitespace : Lexer → Step
unfolding split_while
skip_whitespace s =
    let (spaces, rest) = split_while is_space s.rest in
    (none, record s { rest = rest; pos = s.pos + length spaces })

unfoldable pub lex_ident_or_keyword : FileId → Lexer → Step
unfolding split_while is_keyword
lex_ident_or_keyword file s =
    let (word, rest) = split_while is_ident_continue s.rest in
    token_at file s.pos (if is_keyword word then TokenKind.keyword word else TokenKind.ident word)
      (record s { rest = rest; pos = s.pos + length word })

abbrev pub has_radix : Bytes → Bool
has_radix (a ∷ b ∷ bs) = a == b'0' && (b == b'x' || b == b'o' || b == b'b')
has_radix _ = false

abbrev pub has_fraction : Bytes → Bool
has_fraction (a ∷ b ∷ bs) = a == b'.' && is_digit b
has_fraction _ = false

-- The text of a number, and what follows it.
unfoldable pub number_of : Bytes → Bytes × Bytes
unfolding split_while
number_of bs =
    if has_radix bs
    then (let (digits, rest) = split_while is_hex_digit_or_underscore (drop 2 bs) in
        (take 2 bs ++ digits, rest))
    else (let (whole, rest) = split_while is_digit_or_underscore bs in
        let (fraction, rest') = split_while is_digit_or_underscore (drop 1 rest) in
        if has_fraction rest then (whole ++ take 1 rest ++ fraction, rest') else (whole, rest))

-- The suffix is skipped and belongs to the span.
unfoldable pub lex_number : FileId → Lexer → Step
unfolding split_while number_of any
lex_number file s =
    let (text, after) = number_of s.rest in
    let (suffix, rest) = split_while is_ident_continue after in
    token_at file s.pos
      (if any (λ b. b == b'.') text then TokenKind.float text else TokenKind.int text)
      (record s { rest = rest; pos = s.pos + length text + length suffix })

abbrev pub two_bytes : List ((ℕ × ℕ) × String)
two_bytes =
    ((b':', b':'), "::")
    ∷ ((b':', b'='), ":=")
    ∷ ((b'=', b'>'), "=>")
    ∷ ((b'=', b'='), "==")
    ∷ ((b'!', b'='), "!=")
    ∷ ((b'<', b'='), "<=")
    ∷ ((b'<', b'<'), "<<")
    ∷ ((b'>', b'='), ">=")
    ∷ ((b'>', b'>'), ">>")
    ∷ ((b'&', b'&'), "&&")
    ∷ ((b'|', b'|'), "||")
    ∷ []

abbrev pub one_byte : List (ℕ × String)
one_byte =
    (b':', ":")
    ∷ (b'=', "=")
    ∷ (b'!', "!")
    ∷ (b'<', "<")
    ∷ (b'>', ">")
    ∷ (b'&', "&")
    ∷ (b'|', "|")
    ∷ (b'+', "+")
    ∷ (b'-', "-")
    ∷ (b'*', "*")
    ∷ (b'/', "/")
    ∷ (b'%', "%")
    ∷ (b'~', "~")
    ∷ (b'^', "^")
    ∷ (b'?', "?")
    ∷ (b'@', "@")
    ∷ (b'(', "(")
    ∷ (b')', ")")
    ∷ (b'{', "{")
    ∷ (b'}', "}")
    ∷ (b'[', "[")
    ∷ (b']', "]")
    ∷ (b',', ",")
    ∷ (b';', ";")
    ∷ (b'.', ".")
    ∷ []

unfoldable pub find_two : List ((ℕ × ℕ) × String) → ℕ → ℕ → Option String
find_two [] a b = none
find_two (((x, y), text) ∷ table) a b = if x == a && y == b then some text else find_two table a b

unfoldable pub find_one : List (ℕ × String) → ℕ → Option String
find_one [] a = none
find_one ((x, text) ∷ table) a = if x == a then some text else find_one table a

unfoldable pub second_of : Bytes → ℕ → Option String
unfolding find_two
second_of [] a = none
second_of (b ∷ bs) a = find_two two_bytes a b

abbrev pub single : FileId → Option String → Lexer → Step
single file none s = let s' = skip 1 s in (none, report 2004 (span_at file s.pos s'.pos) s')
single file (some text) s = token_at file s.pos (TokenKind.punct text) (skip 1 s)

abbrev pub punct_step : FileId → Option String → Option String → Lexer → Step
punct_step file (some text) one s = token_at file s.pos (TokenKind.punct text) (skip 2 s)
punct_step file none one s = single file one s

-- A mark of two bytes goes before one of one byte.
unfoldable pub lex_punct : FileId → ℕ → Bytes → Lexer → Step
unfolding second_of find_one emit
lex_punct file a bs s = punct_step file (second_of bs a) (find_one one_byte a) s

-- The library's decoder of the first character of a text: the code point and the length in bytes, or
-- nothing where the text does not start with a character, at which the slice panics.
module _ (next_char : Bytes → Option (ℕ × ℕ)) where
  -- The characters before the end of the line.
  unfoldable pub to_line_end : ℕ → Bytes → ℕ → Outcome (ℕ × Bytes)
  to_line_end zero bs n = out_of_fuel
  to_line_end (suc fuel) [] n = done (n, [])
  to_line_end (suc fuel) (b ∷ bs) n = elim (next_char (b ∷ bs)) [
    | none ↦ panic
    | some (c, len) ↦ elim (c == b'\n') [
      | true ↦ done (n, b ∷ bs)
      | false ↦ to_line_end fuel (drop len (b ∷ bs)) (n + len)
    ]
  ]

  unfoldable pub comment_token : FileId → Lexer → ℕ × Bytes → Step
  unfolding classify_comment
  comment_token file s (n, rest) =
      let (kind, body) = classify_comment (take n s.rest) in
      token_at file s.pos (TokenKind.comment kind body) (record s { rest = rest; pos = s.pos + n })

  unfoldable pub lex_comment : FileId → Lexer → Outcome Step
  unfolding to_line_end comment_token
  lex_comment file s = do
    line ← to_line_end (suc (length s.rest)) s.rest 0
    done (comment_token file s line)
