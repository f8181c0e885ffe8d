-- ===== src/Pass/ConstFold/Values.antt =====
-- The value of a folded operation.
use kore_lang.Base.{
  ℕ, suc, ◌+◌, ◌*◌, ◌/◌, ◌%◌, ◌<◌, ◌≡◌, subst, inl, inr, refl, true, false, some, arith, Bool-cases,
}
use native.Mathlib.Nat.{div-add-mod'}
use kore_lang.Base.Int.{
  ℤ, pos, negsuc, pos_part, neg_part, abs, neg_ℤ, ◌+ℤ◌, ◌-ℤ◌, ◌*ℤ◌, ◌≤ℤ◌, quot_ℤ, rem_ℤ, eqb_ℤ,
  sub_ℕ,
}
use kore_lang.Hir.{BinOp}
use kore_lang.Pass.ConstFold.{i128_min, i128_max, in_i128, checked}

-- The product of two integers, through their parts.
abbrev pub IsProduct : ℤ → ℤ → ℤ → Type 0
IsProduct a b v =
    pos_part v + pos_part a * neg_part b + neg_part a * pos_part b
    ≡ neg_part v + pos_part a * pos_part b + neg_part a * neg_part b

-- `r` has the sign of `a`, if any.
abbrev pub SignOf : ℤ → ℤ → Type 0
SignOf a r = (neg_part a ≡ 0 → neg_part r ≡ 0) × (pos_part a ≡ 0 → pos_part r ≡ 0)

-- `v` is the exact value of the operation on `a` and `b`: for a division, what leaves a remainder
-- of the dividend's sign that is smaller than the divisor, and for `rem` that remainder.
abbrev pub IsExact : BinOp → ℤ → ℤ → ℤ → Type 0
IsExact BinOp.add a b v =
    pos_part v + neg_part a + neg_part b ≡ neg_part v + pos_part a + pos_part b
IsExact BinOp.sub a b v =
    pos_part v + neg_part a + pos_part b ≡ neg_part v + pos_part a + neg_part b
IsExact BinOp.mul a b v = IsProduct a b v
IsExact BinOp.div a b v =
    (p r : ℤ) × IsProduct v b p
    × SignOf a r
    × (abs r < abs b)
    × (pos_part a + neg_part p + neg_part r ≡ neg_part a + pos_part p + pos_part r)
IsExact BinOp.rem a b v =
    (p q : ℤ) × IsProduct q b p
    × SignOf a v
    × (abs v < abs b)
    × (pos_part a + neg_part p + neg_part v ≡ neg_part a + pos_part p + pos_part v)
IsExact _ a b v = ⊥

abbrev pub InI128 : ℤ → Type 0
InI128 v = (i128_min ≤ℤ v) × (v ≤ℤ i128_max)

in_i128→InI128 : (v : ℤ) → in_i128 v ≡ true → InI128 v
in_i128→InI128 v h = ground arith

pub checked_range : (v w : ℤ) → checked v ≡ some w → (v ≡ w) × InI128 w
unfolding checked
checked_range v w h = elim (Bool-cases (in_i128 v)) [
  | inl fits ↦ let same : v ≡ w = ground arith in (same, subst InI128 same (in_i128→InI128 v fits))
  | inr out ↦ absurd (ground arith)
]

pub checked_fits : (v : ℤ) → InI128 v → checked v ≡ some v
unfolding checked
checked_fits v h = ground arith

pub +ℤ_parts : (a b : ℤ) → IsExact BinOp.add a b (a +ℤ b)
unfolding ◌+ℤ◌
+ℤ_parts a b = ground arith

pub -ℤ_parts : (a b : ℤ) → IsExact BinOp.sub a b (a -ℤ b)
unfolding ◌-ℤ◌
-ℤ_parts a b = ground arith

sub_ℕ_parts : (m n : ℕ) → pos_part (sub_ℕ m n) + n ≡ neg_part (sub_ℕ m n) + m
sub_ℕ_parts m n = ground arith

pub *ℤ_parts : (a b : ℤ) → IsProduct a b (a *ℤ b)
unfolding ◌*ℤ◌
*ℤ_parts a b = omega (
  arith,
  sub_ℕ_parts (pos_part a * pos_part b + neg_part a * neg_part b)
      (pos_part a * neg_part b + neg_part a * pos_part b),
)

pub neg_parts : (n : ℕ) → (pos_part (neg_ℤ (pos n)) ≡ 0) × (neg_part (neg_ℤ (pos n)) ≡ n)
neg_parts n = ground arith

pub SignOf-rem : (a b : ℤ) → SignOf a (rem_ℤ a b)
unfolding rem_ℤ
SignOf-rem (pos n) b = ((λ h. refl), (λ h. rw h (omega arith)))
SignOf-rem (negsuc n) b = ((λ h. absurd (omega arith)), (λ h. ground arith))

pub abs-rem-lt : (a b : ℤ) → eqb_ℤ b (pos 0) ≡ false → abs (rem_ℤ a b) < abs b
unfolding rem_ℤ
abs-rem-lt (pos n) b h = ground arith
abs-rem-lt (negsuc n) b h = ground arith

div_rem :
    (a b c d : ℕ) → c + (a / b) * 0 + 0 * b ≡ d + (a / b) * b + 0 * 0 → a + d + 0 ≡ 0 + c + a % b
div_rem a b c d h = omega (arith, div-add-mod' a b)

IsProduct-neg :
    (q : ℕ) (b p : ℤ)
    → IsProduct (neg_ℤ (pos q)) b p
    → pos_part p + q * pos_part b ≡ neg_part p + q * neg_part b
IsProduct-neg q b p h = let (z, n) = neg_parts q in let h' = rw z at h in omega (arith, rw n at h')

-- The dividend is the product of quotient and divisor, and the remainder.
pub quot-rem :
    (a b p : ℤ)
    → IsProduct (quot_ℤ a b) b p
    → pos_part a + neg_part p + neg_part (rem_ℤ a b)
      ≡ neg_part a + pos_part p + pos_part (rem_ℤ a b)
unfolding quot_ℤ rem_ℤ
quot-rem (pos a) (pos b) p h = div_rem a b _ _ h
quot-rem (pos a) (negsuc b) p h =
    omega (arith, div-add-mod' a (suc b), IsProduct-neg (a / suc b) (negsuc b) p h)
quot-rem (negsuc a) (pos b) p h =
    omega
      (arith, div-add-mod' (suc a) b, neg_parts (suc a % b), IsProduct-neg (suc a / b) (pos b) p h)
quot-rem (negsuc a) (negsuc b) p h =
    omega (arith, div-add-mod' (suc a) (suc b), neg_parts (suc a % suc b))
