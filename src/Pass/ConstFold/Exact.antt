-- ===== src/Pass/ConstFold/Exact.antt =====
-- An operation on integers has one exact value, the one that is computed.
use kore_lang.Base.{ℕ, zero, suc, ◌+◌, ◌*◌, ◌/◌, ◌<◌, ◌≡◌, ◌∙◌, sym, refl, ap, subst, arith}
use native.Mathlib.Nat.{mul-add-div_right, div-eq_of_lt}
use kore_lang.Base.Int.{
  ℤ, pos, negsuc, pos_part, neg_part, abs, neg_ℤ, ◌+ℤ◌, ◌-ℤ◌, ◌*ℤ◌, quot_ℤ, rem_ℤ, eq_of_parts,
}
use kore_lang.Hir.{BinOp}
use kore_lang.Pass.ConstFold.Values.{
  IsExact, IsProduct, SignOf, +ℤ_parts, -ℤ_parts, *ℤ_parts, quot-rem,
}

div_of : (a q n r : ℕ) → a ≡ q * n + r → r < n → a / n ≡ q
div_of a q n r e h =
    let positive : 0 < n = omega arith in
    let rest : r / n ≡ 0 = div-eq_of_lt h in
    ap (λ (t : ℕ). t / n) e ∙ mul-add-div_right positive q r ∙ omega (arith, rest)

size_pos : (r : ℤ) → neg_part r ≡ 0 → pos_part r ≡ abs r
size_pos (pos n) h = refl
size_pos (negsuc n) h = absurd (omega (arith, h))

size_neg : (r : ℤ) → pos_part r ≡ 0 → neg_part r ≡ abs r
size_neg (pos n) h = sym h
size_neg (negsuc n) h = refl

neg_pos : (v : ℕ) → negsuc v ≡ neg_ℤ (pos (suc v))
neg_pos v = ground arith

-- The quotient of the sizes, where the remainder has the dividend's sign.
quot_of :
    (a b v p r : ℤ)
    → IsProduct v b p
    → SignOf a r
    → abs r < abs b
    → pos_part a + neg_part p + neg_part r ≡ neg_part a + pos_part p + pos_part r
    → v ≡ quot_ℤ a b
unfolding quot_ℤ
quot_of (pos a) (pos b) (pos v) p r prod sign small sum =
    let size = size_pos r (sign.0 refl) in
    let only : neg_part r ≡ 0 = sign.0 refl in
    let split : a ≡ v * b + abs r = omega (arith, prod, sum, size, only) in
    let quotient = div_of a v b (abs r) split small in ap pos (sym quotient)
quot_of (pos a) (pos b) (negsuc v) p r prod sign small sum =
    let size = size_pos r (sign.0 refl) in
    let only : neg_part r ≡ 0 = sign.0 refl in absurd (omega (arith, prod, small, sum, size, only))
quot_of (pos a) (negsuc b) (pos zero) p r prod sign small sum =
    let size = size_pos r (sign.0 refl) in
    let only : neg_part r ≡ 0 = sign.0 refl in
    let split : a ≡ 0 * (suc b) + abs r = omega (arith, prod, sum, size, only) in
    let quotient = div_of a 0 (suc b) (abs r) split small in
    ap (λ (t : ℕ). neg_ℤ (pos t)) (sym quotient)
quot_of (pos a) (negsuc b) (pos (suc v)) p r prod sign small sum =
    let size = size_pos r (sign.0 refl) in
    let only : neg_part r ≡ 0 = sign.0 refl in absurd (omega (arith, prod, small, sum, size, only))
quot_of (pos a) (negsuc b) (negsuc v) p r prod sign small sum =
    let size = size_pos r (sign.0 refl) in
    let only : neg_part r ≡ 0 = sign.0 refl in
    let split : a ≡ (suc v) * (suc b) + abs r = omega (arith, prod, sum, size, only) in
    let quotient = div_of a (suc v) (suc b) (abs r) split small in
    neg_pos v ∙ ap (λ (t : ℕ). neg_ℤ (pos t)) (sym quotient)
quot_of (negsuc a) (pos b) (pos zero) p r prod sign small sum =
    let size = size_neg r (sign.1 refl) in
    let only : pos_part r ≡ 0 = sign.1 refl in
    let split : (suc a) ≡ 0 * b + abs r = omega (arith, prod, sum, size, only) in
    let quotient = div_of (suc a) 0 b (abs r) split small in
    ap (λ (t : ℕ). neg_ℤ (pos t)) (sym quotient)
quot_of (negsuc a) (pos b) (pos (suc v)) p r prod sign small sum =
    let size = size_neg r (sign.1 refl) in
    let only : pos_part r ≡ 0 = sign.1 refl in absurd (omega (arith, prod, small, sum, size, only))
quot_of (negsuc a) (pos b) (negsuc v) p r prod sign small sum =
    let size = size_neg r (sign.1 refl) in
    let only : pos_part r ≡ 0 = sign.1 refl in
    let split : (suc a) ≡ (suc v) * b + abs r = omega (arith, prod, sum, size, only) in
    let quotient = div_of (suc a) (suc v) b (abs r) split small in
    neg_pos v ∙ ap (λ (t : ℕ). neg_ℤ (pos t)) (sym quotient)
quot_of (negsuc a) (negsuc b) (pos v) p r prod sign small sum =
    let size = size_neg r (sign.1 refl) in
    let only : pos_part r ≡ 0 = sign.1 refl in
    let split : (suc a) ≡ v * (suc b) + abs r = omega (arith, prod, sum, size, only) in
    let quotient = div_of (suc a) v (suc b) (abs r) split small in ap pos (sym quotient)
quot_of (negsuc a) (negsuc b) (negsuc v) p r prod sign small sum =
    let size = size_neg r (sign.1 refl) in
    let only : pos_part r ≡ 0 = sign.1 refl in absurd (omega (arith, prod, small, sum, size, only))

pub exact_div : (a b v : ℤ) → IsExact BinOp.div a b v → v ≡ quot_ℤ a b
exact_div a b v (p, r, prod, sign, small, sum) = quot_of a b v p r prod sign small sum

pub exact_rem : (a b v : ℤ) → IsExact BinOp.rem a b v → v ≡ rem_ℤ a b
exact_rem a b v (p, q, prod, sign, small, sum) =
    let quot : q ≡ quot_ℤ a b = quot_of a b q p v prod sign small sum in
    let known = quot-rem a b p (subst (λ w. IsProduct w b p) quot prod) in
    eq_of_parts v (rem_ℤ a b) (omega (arith, known, sum))

pub exact_add : (a b v : ℤ) → IsExact BinOp.add a b v → v ≡ a +ℤ b
exact_add a b v h = eq_of_parts v (a +ℤ b) (omega (arith, h, +ℤ_parts a b))

pub exact_sub : (a b v : ℤ) → IsExact BinOp.sub a b v → v ≡ a -ℤ b
exact_sub a b v h = eq_of_parts v (a -ℤ b) (omega (arith, h, -ℤ_parts a b))

pub exact_mul : (a b v : ℤ) → IsExact BinOp.mul a b v → v ≡ a *ℤ b
exact_mul a b v h = eq_of_parts v (a *ℤ b) (omega (arith, h, *ℤ_parts a b))
