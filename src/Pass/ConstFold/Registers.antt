-- ===== src/Pass/ConstFold/Registers.antt =====
-- A machine of 32-bit registers, as stage0/src/backend/llvm/rvalue.rs has them: literals are cut to an i32,
-- sums wrap around, a division by zero traps. It has the operations that the pass folds, on locals.
use kore_lang.Base.{
  ℕ, suc, ◌-◌, ◌%◌, ◌==◌, ◌≡◌, ◌≢◌, ◌↔◌, ◌∙◌, refl, sym, ap, Bool, true, false, not, Option, none,
  some, arith, ltb, if◌then◌else◌,
}
use kore_lang.Base.Int.{
  ℤ, pos, negsuc, ◌+ℤ◌, ◌-ℤ◌, ◌*ℤ◌, neg_ℤ, quot_ℤ, rem_ℤ, eqb_ℤ, ltb_ℤ, leb_ℤ, abs, eq_of_parts,
}
use kore_lang.Hir.{
  BinOp, UnOp, neg, bit_not, Const, HirPlace, HirOperand, HirRvalue, HirStmt, binary_op, unary_op,
  use_operand, assign,
}
use kore_lang.Hir.Run.{Machine}
use kore_lang.Pass.ConstFold.{complement}
use kore_lang.Pass.ConstFold.Values.{IsExact}
use kore_lang.Pass.ConstFold.Laws.{IsValue, Relates, Compares, eqb_iff}
use kore_lang.Pass.ConstFold.Unary.{IsUnaryValue}
use kore_lang.Pass.ConstFold.Exact.{exact_add, exact_sub, exact_mul, exact_div, exact_rem}
use kore_lang.Pass.ConstFold.Meaning.{InI32, IsNative, IsArithmetic}

abbrev residue : ℤ → ℕ
residue (pos n) = n % 4294967296
residue (negsuc n) = 4294967295 - n % 4294967296

abbrev signed : ℕ → ℤ
signed m = if ltb m 2147483648 then pos m else negsuc (4294967295 - m)

-- The i32 with the low 32 bits of an integer.
unfoldable wrap_i32 : ℤ → ℤ
wrap_i32 v = signed (residue v)

abbrev pub Registers : Type 0
Registers = ℕ → Const

unfoldable pub read : HirOperand → Registers → Const
unfolding wrap_i32
read (HirOperand.const (Const.int v)) s = Const.int (wrap_i32 v)
read (HirOperand.const c) s = c
read (HirOperand.place (HirPlace.local x)) s = s x
read _ s = Const.nil

abbrev int : ℤ → Option Const
int v = some (Const.int (wrap_i32 v))

abbrev truth : Bool → Option Const
truth b = some (Const.bool b)

unfoldable compute : BinOp → ℤ → ℤ → Option Const
unfolding wrap_i32 ◌+ℤ◌ ◌-ℤ◌ ◌*ℤ◌ quot_ℤ rem_ℤ
compute BinOp.add a b = int (a +ℤ b)
compute BinOp.sub a b = int (a -ℤ b)
compute BinOp.mul a b = int (a *ℤ b)
compute BinOp.div a b = if eqb_ℤ b (pos 0) then none else int (quot_ℤ a b)
compute BinOp.rem a b = if eqb_ℤ b (pos 0) then none else int (rem_ℤ a b)
compute BinOp.eq a b = truth (eqb_ℤ a b)
compute BinOp.ne a b = truth (not (eqb_ℤ a b))
compute BinOp.lt a b = truth (ltb_ℤ a b)
compute BinOp.le a b = truth (leb_ℤ a b)
compute BinOp.gt a b = truth (ltb_ℤ b a)
compute BinOp.ge a b = truth (leb_ℤ b a)
compute _ a b = none

unfoldable binary_value : BinOp → Const → Const → Option Const
unfolding compute
binary_value op (Const.int a) (Const.int b) = compute op a b
binary_value op _ _ = none

unfoldable unary_value : UnOp → Const → Option Const
unfolding wrap_i32 complement
unary_value neg (Const.int a) = int (neg_ℤ a)
unary_value UnOp.not (Const.int a) = int (complement a)
unary_value bit_not (Const.int a) = int (complement a)
unary_value op _ = none

unfoldable value : HirRvalue → Registers → Option Const
unfolding read binary_value unary_value
value (use_operand o) s = some (read o s)
value (binary_op op lhs rhs) s = binary_value op (read lhs s) (read rhs s)
value (unary_op op operand) s = unary_value op (read operand s)
value _ s = none

abbrev set_local : HirPlace → Option Const → Registers → Option Registers
set_local (HirPlace.local x) (some c) s = some (λ y. if x == y then c else s y)
set_local _ _ s = none

unfoldable pub step : HirStmt → Registers → Option Registers
unfolding value
step (assign lhs rhs span) s = set_local lhs (value rhs s) s
step _ s = some s

unfoldable pub tested : Const → Option ℕ
tested (Const.int (pos n)) = some n
tested (Const.bool b) = some (if b then 1 else 0)
tested _ = none

abbrev pub registers : Machine
registers = record { State = Registers; exec = step; discr = λ o s. tested (read o s) }

wrap_fits : (v : ℤ) → InI32 v → wrap_i32 v ≡ v
unfolding wrap_i32
wrap_fits (pos n) h = ground arith
wrap_fits (negsuc n) h = ground arith

nonzero : (b : ℤ) (n : ℕ) → suc n ≡ abs b → eqb_ℤ b (pos 0) ≡ false
nonzero (pos b) n h = ground arith
nonzero (negsuc b) n h = ground arith

same_truth : {P : Type 0} (c d : Bool) → (c ≡ true) ↔ P → (d ≡ true) ↔ P → c ≡ d
same_truth true true f g = refl
same_truth false false f g = refl
same_truth true false f g = sym (g.1 (f.0 refl))
same_truth false true f g = f.1 (g.0 refl)

int_computed : (op : BinOp) (a b v : ℤ) → IsExact op a b v → compute op a b ≡ int v
unfolding compute
int_computed BinOp.add a b v h = ap int (sym (exact_add a b v h))
int_computed BinOp.sub a b v h = ap int (sym (exact_sub a b v h))
int_computed BinOp.mul a b v h = ap int (sym (exact_mul a b v h))
int_computed BinOp.div a b v h =
    let (p, r, prod, sign, small, sum) = h in
    let plain : eqb_ℤ b (pos 0) ≡ false = ground arith in
    rw plain (ap int (sym (exact_div a b v h)))
int_computed BinOp.rem a b v h =
    let (p, q, prod, sign, small, sum) = h in
    let plain : eqb_ℤ b (pos 0) ≡ false = ground arith in
    rw plain (ap int (sym (exact_rem a b v h)))
int_computed _ a b v h = absurd h

truth_computed :
    (op : BinOp) (a b : ℤ) (c : Bool)
    → IsNative op
    → Compares op
    → (c ≡ true) ↔ Relates op a b
    → compute op a b ≡ truth c
unfolding compute
truth_computed BinOp.eq a b c n k h = ap truth (same_truth (eqb_ℤ a b) c (eqb_iff a b) h)
truth_computed BinOp.ne a b c n k h =
    ap truth (same_truth (not (eqb_ℤ a b)) c (ground (arith, eqb_iff a b)) h)
truth_computed BinOp.lt a b c n k h = ap truth (same_truth (ltb_ℤ a b) c (ground arith) h)
truth_computed BinOp.le a b c n k h = ap truth (same_truth (leb_ℤ a b) c (ground arith) h)
truth_computed BinOp.gt a b c n k h = ap truth (same_truth (ltb_ℤ b a) c (ground arith) h)
truth_computed BinOp.ge a b c n k h = ap truth (same_truth (leb_ℤ b a) c (ground arith) h)
truth_computed BinOp.logic_and a b c n k h = absurd n
truth_computed BinOp.logic_or a b c n k h = absurd n
truth_computed _ a b c n k h = absurd k

computed :
    (op : BinOp) (a b : ℤ) (c : Const) (s : Registers)
    → IsNative op
    → IsValue op a b c
    → compute op a b ≡ some (read (HirOperand.const c) s)
unfolding read
computed op a b (Const.int v) s native h = int_computed op a b v h.1
computed op a b (Const.bool c) s native h = truth_computed op a b c native h.0 h.1
computed op a b _ s native h = absurd h

unary_computed :
    (op : UnOp) (a v : ℤ)
    → op ≢ UnOp.not
    → IsUnaryValue op a v
    → unary_value op (Const.int a) ≡ int v
unfolding unary_value complement
unary_computed neg a v plain h = ap int (eq_of_parts (neg_ℤ a) v (ground (arith, h.1)))
unary_computed UnOp.not a v plain h = absurd (plain refl)
unary_computed bit_not (pos n) v plain h = ap int (eq_of_parts (negsuc n) v (omega (arith, h)))
unary_computed bit_not (negsuc n) v plain h = ap int (eq_of_parts (pos n) v (omega (arith, h)))

pub registers-IsArithmetic : IsArithmetic registers
unfolding step value read binary_value
registers-IsArithmetic = record {
  binary = λ op a b c lhs span s native fits_a fits_b fits h.
      ap (λ o. set_local lhs o s)
        (ap (λ (x : ℤ). compute op x (wrap_i32 b)) (wrap_fits a fits_a)
          ∙ ap (λ (y : ℤ). compute op a y) (wrap_fits b fits_b)
          ∙ computed op a b c s native h);
  unary = λ op a v lhs span s plain fits_a fits h.
      ap (λ o. set_local lhs o s)
        (ap (λ (x : ℤ). unary_value op (Const.int x)) (wrap_fits a fits_a)
          ∙ unary_computed op a v plain h);
}
