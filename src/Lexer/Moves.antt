-- ===== src/Lexer/Moves.antt =====
-- How far a lexer moves: the position and the bytes that are left.
use kore_lang.Base.{
  ℕ, zero, suc, ◌+◌, ◌≤◌, ◌≡◌, Bool, true, [], ◌∷◌, length, arith, Bool-cases, inl, inr,
}
use kore_lang.Lexer.Tokens.{Bytes}
use kore_lang.Lexer.Scan.{Lexer, drop, take, skip, split_while}

-- The position may pass the end by one, where the last byte of an escape is missing.
abbrev pub slack : Bytes → Bytes → ℕ
slack [] ys = 0
slack (x ∷ xs) [] = 1
slack (x ∷ xs) (y ∷ ys) = 0

pub record Later (s t : Lexer) : Type 0 where
  pub shrinks : length t.rest ≤ length s.rest
  pub forward : s.pos ≤ t.pos
  pub within : t.pos + length t.rest ≤ s.pos + length s.rest + slack s.rest t.rest

pub record Moved (s t : Lexer) : Type 0 where
  pub later : Later s t
  pub less : suc (length t.rest) ≤ length s.rest
  pub further : suc s.pos ≤ t.pos

slack_trans :
    (xs ys zs : Bytes) (p q r : ℕ)
    → length ys ≤ length xs
    → length zs ≤ length ys
    → q + length ys ≤ p + length xs + slack xs ys
    → r + length zs ≤ q + length ys + slack ys zs
    → r + length zs ≤ p + length xs + slack xs zs
slack_trans [] [] zs p q r a b c d = omega (arith, b, c, d)
slack_trans [] (y ∷ ys) zs p q r a b c d = absurd (omega (arith, a))
slack_trans (x ∷ xs) [] [] p q r a b c d = omega (arith, c, d)
slack_trans (x ∷ xs) [] (z ∷ zs) p q r a b c d = absurd (omega (arith, b))
slack_trans (x ∷ xs) (y ∷ ys) [] p q r a b c d = omega (arith, c, d)
slack_trans (x ∷ xs) (y ∷ ys) (z ∷ zs) p q r a b c d = omega (arith, c, d)

pub Later-trans : (s t u : Lexer) → Later s t → Later t u → Later s u
Later-trans s t u p q = record {
  shrinks = omega (arith, p.shrinks, q.shrinks);
  forward = omega (arith, p.forward, q.forward);
  within = slack_trans s.rest t.rest u.rest s.pos t.pos u.pos p.shrinks q.shrinks p.within q.within;
}

pub Moved-then : (s t u : Lexer) → Moved s t → Later t u → Moved s u
Moved-then s t u p q = record {
  later = Later-trans s t u p.later q;
  less = omega (arith, p.less, q.shrinks);
  further = omega (arith, p.further, q.forward);
}

-- Nothing is lost: what the position gains is what the rest loses.
pub exact-Later :
    (s t : Lexer) → s.pos ≤ t.pos → t.pos + length t.rest ≡ s.pos + length s.rest → Later s t
exact-Later s t f e = record {
  shrinks = omega (arith, f, e);
  forward = f;
  within = omega (arith, e);
}

pub exact-Moved :
    (s t : Lexer) → suc s.pos ≤ t.pos → t.pos + length t.rest ≡ s.pos + length s.rest → Moved s t
exact-Moved s t f e = record {
  later = exact-Later s t (omega (arith, f)) e;
  less = omega (arith, f, e);
  further = f;
}

pub drop-length : (n : ℕ) (bs : Bytes) → n ≤ length bs → n + length (drop n bs) ≡ length bs
drop-length zero bs h = omega arith
drop-length (suc n) [] h = absurd (omega (arith, h))
drop-length (suc n) (b ∷ bs) h = omega (arith, drop-length n bs (omega (arith, h)))

pub take-length : (n : ℕ) (bs : Bytes) → n ≤ length bs → length (take n bs) ≡ n
take-length zero bs h = omega arith
take-length (suc n) [] h = absurd (omega (arith, h))
take-length (suc n) (b ∷ bs) h = omega (arith, take-length n bs (omega (arith, h)))

pub skip-Moved : (n : ℕ) (s : Lexer) → 1 ≤ n → n ≤ length s.rest → Moved s (skip n s)
skip-Moved n s pos le =
    exact-Moved s (skip n s) (omega (arith, pos)) (omega (arith, drop-length n s.rest le))

pub split_while-length :
    (p : ℕ → Bool) (bs : Bytes)
    → length (split_while p bs).0 + length (split_while p bs).1 ≡ length bs
unfolding split_while
split_while-length p [] = omega arith
split_while-length p (b ∷ bs) = elim (Bool-cases (p b)) [
  | inl passes ↦ ground (arith, split_while-length p bs)
  | inr fails ↦ ground arith
]

pub split_while-first :
    (p : ℕ → Bool) (b : ℕ) (bs : Bytes) → p b ≡ true → 1 ≤ length (split_while p (b ∷ bs)).0
unfolding split_while
split_while-first p b bs h = ground arith
