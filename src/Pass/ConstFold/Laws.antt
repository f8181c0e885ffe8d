-- ===== src/Pass/ConstFold/Laws.antt =====
-- What a folded operation is replaced by.
use kore_lang.Base.{
  suc, ◌+◌, ◌<◌, ◌≡◌, ◌≢◌, ◌↔◌, ◌⊎◌, inl, inr, refl, subst, Bool, true, false, not, ◌||◌, Option,
  none, some, arith, Bool-cases, Option-cases, ◌%◌,
}
use kore_lang.Base.Int.{
  ℤ, pos, negsuc, pos_part, neg_part, ◌+ℤ◌, ◌-ℤ◌, ◌*ℤ◌, quot_ℤ, rem_ℤ, abs, eqb_ℤ, ltb_ℤ, leb_ℤ,
  ◌≤ℤ◌,
}
use kore_lang.Hir.{BinOp, Const, HirOperand, HirRvalue, use_operand}
use kore_lang.Pass.ConstFold.{
  checked, checked_add, checked_sub, checked_mul, checked_div, checked_rem, fold_ints, use_int,
  use_bool, ◌>>=◌, extract_const_int, try_fold_binary_op,
}
use kore_lang.Pass.ConstFold.Values.{
  IsExact, InI128, checked_range, +ℤ_parts, -ℤ_parts, *ℤ_parts, SignOf-rem, abs-rem-lt, quot-rem,
  neg_parts,
}

-- The relation that a comparison tests, and the truth of integers read as Booleans.
abbrev pub Relates : BinOp → ℤ → ℤ → Type 0
Relates BinOp.eq a b = a ≡ b
Relates BinOp.ne a b = a ≢ b
Relates BinOp.lt a b = pos_part a + neg_part b < pos_part b + neg_part a
Relates BinOp.le a b = a ≤ℤ b
Relates BinOp.gt a b = pos_part b + neg_part a < pos_part a + neg_part b
Relates BinOp.ge a b = b ≤ℤ a
Relates BinOp.logic_and a b = (a ≢ pos 0) × (b ≢ pos 0)
Relates BinOp.logic_or a b = (a ≢ pos 0) ⊎ (b ≢ pos 0)
Relates _ a b = ⊥

abbrev pub Compares : BinOp → Type 0
Compares BinOp.eq = Unit
Compares BinOp.ne = Unit
Compares BinOp.lt = Unit
Compares BinOp.le = Unit
Compares BinOp.gt = Unit
Compares BinOp.ge = Unit
Compares BinOp.logic_and = Unit
Compares BinOp.logic_or = Unit
Compares _ = ⊥

-- The constant is the operation's value on `a` and `b`.
abbrev pub IsValue : BinOp → ℤ → ℤ → Const → Type 0
IsValue op a b (Const.int v) = InI128 v × IsExact op a b v
IsValue op a b (Const.bool c) = Compares op × ((c ≡ true) ↔ Relates op a b)
IsValue op a b _ = ⊥

abbrev pub Evaluates : BinOp → ℤ → ℤ → HirRvalue → Type 0
Evaluates op a b r = (c : Const) × (r ≡ use_operand (HirOperand.const c)) × IsValue op a b c

bind_int :
    (op : BinOp) (a b : ℤ) (o : Option ℤ) (r : HirRvalue)
    → ((v : ℤ) → o ≡ some v → IsValue op a b (Const.int v))
    → (o >>= use_int) ≡ some r
    → Evaluates op a b r
bind_int op a b none r value h = absurd (ground arith)
bind_int op a b (some v) r value h = (Const.int v, cc, value v refl)

bool_value :
    (op : BinOp) (a b : ℤ) (c : Bool) (r : HirRvalue)
    → Compares op
    → ((c ≡ true) ↔ Relates op a b)
    → use_bool c ≡ some r
    → Evaluates op a b r
bool_value op a b c r k value h = (Const.bool c, cc, (k, value))

pub eqb_iff : (a b : ℤ) → (eqb_ℤ a b ≡ true) ↔ (a ≡ b)
eqb_iff a b = ground arith

checked-IsValue :
    (op : BinOp) (a b w v : ℤ)
    → IsExact op a b w
    → checked w ≡ some v
    → IsValue op a b (Const.int v)
checked-IsValue op a b w v exact h =
    let (same, fits) = checked_range w v h in (fits, subst (IsExact op a b) same exact)

IsExact-quot : (a b : ℤ) → eqb_ℤ b (pos 0) ≡ false → IsExact BinOp.div a b (quot_ℤ a b)
IsExact-quot a b nonzero =
    let p = quot_ℤ a b *ℤ b in
    (
      p,
      rem_ℤ a b,
      *ℤ_parts (quot_ℤ a b) b,
      SignOf-rem a b,
      abs-rem-lt a b nonzero,
      quot-rem a b p (*ℤ_parts (quot_ℤ a b) b),
    )

IsExact-rem : (a b : ℤ) → eqb_ℤ b (pos 0) ≡ false → IsExact BinOp.rem a b (rem_ℤ a b)
IsExact-rem a b nonzero =
    let p = quot_ℤ a b *ℤ b in
    (
      p,
      quot_ℤ a b,
      *ℤ_parts (quot_ℤ a b) b,
      SignOf-rem a b,
      abs-rem-lt a b nonzero,
      quot-rem a b p (*ℤ_parts (quot_ℤ a b) b),
    )

div-IsValue :
    (a b : ℤ)
    → eqb_ℤ b (pos 0) ≡ false
    → (v : ℤ) → checked_div a b ≡ some v
    → IsValue BinOp.div a b (Const.int v)
unfolding checked_div
div-IsValue a b nonzero v h =
    checked-IsValue BinOp.div a b (quot_ℤ a b) v (IsExact-quot a b nonzero) (rw nonzero at h)

InI128-rem : (a b : ℤ) → InI128 a → InI128 (rem_ℤ a b)
unfolding rem_ℤ
InI128-rem (pos n) b h = omega arith
InI128-rem (negsuc n) b h = omega (arith, neg_parts (suc n % abs b))

rem-IsValue :
    (a b : ℤ)
    → InI128 a
    → eqb_ℤ b (pos 0) ≡ false
    → (v : ℤ) → checked_rem a b ≡ some v
    → IsValue BinOp.rem a b (Const.int v)
unfolding checked_rem
rem-IsValue a b fits nonzero v h = elim (Option-cases (checked (quot_ℤ a b))) [
  | inl out ↦ absurd (ground arith)
  | inr (q, good) ↦
      let same : rem_ℤ a b ≡ v = ground arith in
      subst (λ w. IsValue BinOp.rem a b (Const.int w)) same
        (InI128-rem a b fits, IsExact-rem a b nonzero)
]

logic_or_iff :
    (a b : ℤ)
    → ((not (eqb_ℤ a (pos 0)) || not (eqb_ℤ b (pos 0))) ≡ true) ↔ ((a ≢ pos 0) ⊎ (b ≢ pos 0))
logic_or_iff a b = ground (arith, eqb_iff a (pos 0), eqb_iff b (pos 0))

fold_ints-Evaluates :
    (op : BinOp) (a b : ℤ) (r : HirRvalue)
    → InI128 a
    → fold_ints op a b ≡ some r
    → Evaluates op a b r
unfolding fold_ints
fold_ints-Evaluates BinOp.add a b r fits h =
    bind_int BinOp.add a b (checked_add a b) r
      (λ v e. checked-IsValue BinOp.add a b (a +ℤ b) v (+ℤ_parts a b) e) h
fold_ints-Evaluates BinOp.sub a b r fits h =
    bind_int BinOp.sub a b (checked_sub a b) r
      (λ v e. checked-IsValue BinOp.sub a b (a -ℤ b) v (-ℤ_parts a b) e) h
fold_ints-Evaluates BinOp.mul a b r fits h =
    bind_int BinOp.mul a b (checked_mul a b) r
      (λ v e. checked-IsValue BinOp.mul a b (a *ℤ b) v (*ℤ_parts a b) e) h
fold_ints-Evaluates BinOp.div a b r fits h = elim (Bool-cases (eqb_ℤ b (pos 0))) [
  | inl zero ↦ absurd (ground arith)
  | inr nonzero ↦
      bind_int BinOp.div a b (checked_div a b) r (div-IsValue a b nonzero) (ground arith)
]
fold_ints-Evaluates BinOp.rem a b r fits h = elim (Bool-cases (eqb_ℤ b (pos 0))) [
  | inl zero ↦ absurd (ground arith)
  | inr nonzero ↦
      bind_int BinOp.rem a b (checked_rem a b) r (rem-IsValue a b fits nonzero) (ground arith)
]
fold_ints-Evaluates BinOp.eq a b r fits h = bool_value BinOp.eq a b (eqb_ℤ a b) r tt (eqb_iff a b) h
fold_ints-Evaluates BinOp.ne a b r fits h =
    bool_value BinOp.ne a b (not (eqb_ℤ a b)) r tt (ground (arith, eqb_iff a b)) h
fold_ints-Evaluates BinOp.lt a b r fits h =
    bool_value BinOp.lt a b (ltb_ℤ a b) r tt (ground arith) h
fold_ints-Evaluates BinOp.le a b r fits h =
    bool_value BinOp.le a b (leb_ℤ a b) r tt (ground arith) h
fold_ints-Evaluates BinOp.gt a b r fits h =
    bool_value BinOp.gt a b (ltb_ℤ b a) r tt (ground arith) h
fold_ints-Evaluates BinOp.ge a b r fits h =
    bool_value BinOp.ge a b (leb_ℤ b a) r tt (ground arith) h
fold_ints-Evaluates BinOp.logic_and a b r fits h =
    bool_value BinOp.logic_and a b _ r tt (ground (arith, eqb_iff a (pos 0), eqb_iff b (pos 0))) h
fold_ints-Evaluates BinOp.logic_or a b r fits h =
    bool_value BinOp.logic_or a b _ r tt (logic_or_iff a b) h
fold_ints-Evaluates _ a b r fits h = absurd (ground arith)

pub extract_const_int-some :
    (o : HirOperand) (v : ℤ) → extract_const_int o ≡ some v → o ≡ HirOperand.const (Const.int v)
unfolding extract_const_int
extract_const_int-some (HirOperand.const (Const.int w)) v h = cc
extract_const_int-some _ v h = absurd (ground arith)

-- A binary operation is replaced only if both operands are integer literals, and then by the literal
-- that is its value: the exact result, in the range of an i128, for `+ - * / %` (`/` cuts towards
-- zero, the divisor is not zero), and for a comparison, `&&` or `||` the Boolean that says whether
-- the relation holds.
pub try_fold_binary_op_lem :
    (op : BinOp) (lhs rhs : HirOperand) (r : HirRvalue)
    → ((a : ℤ) → lhs ≡ HirOperand.const (Const.int a) → InI128 a)
    → try_fold_binary_op op lhs rhs ≡ some r
    → (a b : ℤ) × (lhs ≡ HirOperand.const (Const.int a))
      × (rhs ≡ HirOperand.const (Const.int b))
      × Evaluates op a b r
unfolding try_fold_binary_op
try_fold_binary_op_lem op lhs rhs r fits h = elim (Option-cases (extract_const_int lhs)) [
  | inl absent ↦ absurd (ground arith)
  | inr (a, left) ↦ elim (Option-cases (extract_const_int rhs)) [
    | inl absent ↦ absurd (ground arith)
    | inr (b, right) ↦
        let lit = extract_const_int-some lhs a left in
        (
          a,
          b,
          lit,
          extract_const_int-some rhs b right,
          fold_ints-Evaluates op a b r (fits a lit) (ground arith),
        )
  ]
]
