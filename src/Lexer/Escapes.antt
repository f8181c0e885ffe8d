-- ===== src/Lexer/Escapes.antt =====
-- The escapes of a string: what they read and what they leave.
use kore_lang.Base.{
  ℕ, zero, suc, ◌+◌, ◌*◌, ◌^◌, ◌≤◌, ◌==◌, ltb, ◌≡◌, refl, Bool, true, false, ◌&&◌, [], ◌∷◌, length,
  arith, if◌then◌else◌,
}
use kore_lang.Lexer.Tokens.{Bytes}
use kore_lang.Lexer.Scan.{Lexer, Outcome, done, panic, out_of_fuel, ◌>>=◌, drop, skip}
use kore_lang.Lexer.Literal.{hex_value, read_hex_byte, read_digits, read_unicode, opens_brace}
use kore_lang.Lexer.Moves.{slack, Later, Moved, Later-trans, drop-length}
use kore_lang.Lexer.Cases.{list_case}

-- Only the sink differs, or nothing is lost.
abbrev pub Exact : Lexer → Lexer → Type 0
Exact s t = (s.pos ≤ t.pos) × (t.pos + length t.rest ≡ s.pos + length s.rest)

pub Exact-trans : (s t u : Lexer) → Exact s t → Exact t u → Exact s u
Exact-trans s t u p q = (omega (arith, p.0, q.0), omega (arith, p.1, q.1))

-- One byte on, where there is one.
pub next-Exact : (s : Lexer) (b : ℕ) (bs : Bytes) → s.rest ≡ b ∷ bs → Exact s (skip 1 s)
next-Exact s b bs e = (omega arith, omega (arith, drop-length 1 s.rest (rw e (omega arith))))

pub two-Exact :
    (s : Lexer) (b : ℕ) (bs : Bytes) → s.rest ≡ b ∷ bs → 1 ≤ length bs → Exact s (skip 2 s)
two-Exact s b bs e h = (omega arith, omega (arith, drop-length 2 s.rest (rw e (omega (arith, h)))))

past_end :
    (xs ys : Bytes) (p q : ℕ)
    → 1 ≤ length xs
    → p ≤ q
    → q + length ys ≡ p + length xs
    → (suc (length (drop 1 ys)) ≤ length xs)
      × (q + 1 + length (drop 1 ys) ≤ p + length xs + slack xs (drop 1 ys))
past_end [] ys p q h f e = absurd (omega (arith, h))
past_end (x ∷ xs) [] p q h f e = (omega arith, omega (arith, e))
past_end (x ∷ xs) (y ∷ []) p q h f e = (omega arith, omega (arith, e))
past_end (x ∷ xs) (y ∷ z ∷ zs) p q h f e = (omega (arith, e, f), omega (arith, e))

-- One position on, past the end where no byte is left.
pub past-Moved : (s t : Lexer) → 1 ≤ length s.rest → Exact s t → Moved s (skip 1 t)
past-Moved s t h x =
    let k = past_end s.rest t.rest s.pos t.pos h x.0 x.1 in
    record {
      later = record { shrinks = omega (arith, k.0); forward = omega (arith, x.0); within = k.1 };
      less = k.0;
      further = omega (arith, x.0);
    }

pub read_hex_byte-Exact : (n : ℕ) (s : Lexer) (val : ℕ) → Exact s (read_hex_byte n s val).1
unfolding read_hex_byte
read_hex_byte-Exact zero s val = (omega arith, refl)
read_hex_byte-Exact (suc n) s val =
    list_case (λ r. Exact s r.1) s.rest (val, s)
      (λ b bs. read_hex_byte n (skip 1 s) (val * 16 + hex_value b)) (λ e. (omega arith, refl))
      (λ b bs e.
        Exact-trans s (skip 1 s) (read_hex_byte n (skip 1 s) (val * 16 + hex_value b)).1
          (next-Exact s b bs e) (read_hex_byte-Exact n (skip 1 s) (val * 16 + hex_value b)))

abbrev pub DigitsRead : ℕ → Bytes → Outcome (ℕ × ℕ × Bytes) → Type 0
DigitsRead n bs (done (val, m, rest)) = (n ≤ m) × (m + length rest ≡ n + length bs)
DigitsRead n bs panic = Unit
DigitsRead n bs out_of_fuel = true ≡ false

DigitsRead-later :
    (n b : ℕ) (bs : Bytes) (o : Outcome (ℕ × ℕ × Bytes))
    → DigitsRead (suc n) bs o
    → DigitsRead n (b ∷ bs) o
DigitsRead-later n b bs (done (val, m, rest)) h = (omega (arith, h.0), omega (arith, h.1))
DigitsRead-later n b bs panic h = h
DigitsRead-later n b bs out_of_fuel h = h

if-DigitsRead :
    (n : ℕ) (bs : Bytes) (b : Bool) (x y : Outcome (ℕ × ℕ × Bytes))
    → DigitsRead n bs x
    → DigitsRead n bs y
    → DigitsRead n bs (if b then x else y)
if-DigitsRead n bs true x y h k = h
if-DigitsRead n bs false x y h k = k

read_digits-DigitsRead : (bs : Bytes) (val n : ℕ) → DigitsRead n bs (read_digits bs val n)
unfolding read_digits
read_digits-DigitsRead [] val n = (omega arith, refl)
read_digits-DigitsRead (b ∷ bs) val n =
    let val' = val * 16 + hex_value b in
    if-DigitsRead n (b ∷ bs) (b == b'}') _ _ (omega arith, refl)
      (if-DigitsRead n (b ∷ bs) (ltb val' (2 ^ 32)) _ panic
        (DigitsRead-later n b bs (read_digits bs val' (suc n))
          (read_digits-DigitsRead bs val' (suc n)))
        tt)

-- A character and the lexer after it, with nothing lost.
abbrev pub CharRead : Lexer → Outcome (ℕ × Lexer) → Type 0
CharRead s (done r) = Exact s r.1
CharRead s panic = Unit
CharRead s out_of_fuel = true ≡ false

pub CharRead-trans :
    (s t : Lexer) (o : Outcome (ℕ × Lexer)) → Exact s t → CharRead t o → CharRead s o
CharRead-trans s t (done r) x h = Exact-trans s t r.1 x h
CharRead-trans s t panic x h = h
CharRead-trans s t out_of_fuel x h = h

brace-CharRead :
    (s : Lexer) (o : Outcome (ℕ × ℕ × Bytes))
    → DigitsRead 0 s.rest o
    → CharRead s (
        o >>= λ r. elim r.2 [
          | [] ↦ done (r.0, record s { rest = r.2; pos = s.pos + r.1 })
          | b ∷ bs ↦ done (r.0, skip 1 (record s { rest = r.2; pos = s.pos + r.1 }))
        ])
brace-CharRead s (done (val, n, [])) h = (omega arith, omega (arith, h.1))
brace-CharRead s (done (val, n, b ∷ bs)) h = (omega arith, omega (arith, h.1))
brace-CharRead s panic h = tt
brace-CharRead s out_of_fuel h = h

pub read_unicode-CharRead : (s : Lexer) → CharRead s (read_unicode s)
unfolding read_unicode
read_unicode-CharRead s =
    brace-CharRead s (read_digits s.rest 0 0) (read_digits-DigitsRead s.rest 0 0)

pub opens_brace-one : (bs : Bytes) → opens_brace bs ≡ true → 1 ≤ length bs
opens_brace-one [] h = absurd (ground arith)
opens_brace-one (b ∷ bs) h = omega arith

pub right : (a b : Bool) → (a && b) ≡ true → b ≡ true
right a b h = ground arith

-- What the string loop yields: a text, and a lexer that is later.
abbrev pub TextRead : Lexer → Outcome (Bytes × Lexer) → Type 0
TextRead s (done r) = Later s r.1
TextRead s panic = Unit
TextRead s out_of_fuel = true ≡ false

pub TextRead-trans :
    (s t : Lexer) (o : Outcome (Bytes × Lexer)) → Later s t → TextRead t o → TextRead s o
TextRead-trans s t (done r) x h = Later-trans s t r.1 x h
TextRead-trans s t panic x h = h
TextRead-trans s t out_of_fuel x h = h
