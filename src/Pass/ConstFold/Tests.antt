-- ===== src/Pass/ConstFold/Tests.antt =====
-- Test operations, and the theorems of the pass at them.
use kore_lang.Base.{◌≡◌, sym, subst, refl, true, false, Option, none, some, [], ◌∷◌, arith}
use kore_lang.Base.Int.{ℤ, pos, negsuc, quot_ℤ}
use kore_lang.Diag.{Span}
use kore_lang.Hir.{
  BinOp, UnOp, neg, Const, HirPlace, HirOperand, HirRvalue, HirTerminator, HirBody, binary_op,
  unary_op, use_operand, assign,
}
use kore_lang.Hir.Run.{Outcome, run}
use kore_lang.Pass.ConstFold.{try_fold_binary_op, try_fold_unary_op, run_on_body}
use kore_lang.Pass.ConstFold.Values.{InI128, IsExact}
use kore_lang.Pass.ConstFold.Laws.{Evaluates, try_fold_binary_op_lem}
use kore_lang.Pass.ConstFold.Meaning.{lit, InI32, BodyFits, run_on_body-run_folded}
use kore_lang.Pass.ConstFold.Unary.{IsUnaryValue, try_fold_unary_op_lem}
use kore_lang.Pass.ConstFold.Exact.{exact_div}
use kore_lang.Pass.ConstFold.Registers.{Registers, step, read, registers, registers-IsArithmetic}
use kore_lang.Pass.ConstFold.Idem.{run_on_body_idem_folded}

abbrev origin : Span
origin = record { file = 0; lo = 0; hi = 0 }

abbrev minus_three : HirRvalue
minus_three = use_operand (lit (negsuc 2))

-- -7 / 2 is -3.
fold_div : try_fold_binary_op BinOp.div (lit (negsuc 6)) (lit (pos 2)) ≡ some minus_three
unfolding try_fold_binary_op
fold_div = refl

fold_rem_by_zero : try_fold_binary_op BinOp.rem (lit (pos 6)) (lit (pos 0)) ≡ none
unfolding try_fold_binary_op
fold_rem_by_zero = refl

fold_min_over_minus_one :
    try_fold_binary_op BinOp.div
      (lit (negsuc 170141183460469231731687303715884105727))
      (lit (negsuc 0))
    ≡ none
unfolding try_fold_binary_op
fold_min_over_minus_one = refl

try_fold_binary_op_lem_example :
    (a b : ℤ) × (lit (negsuc 6) ≡ HirOperand.const (Const.int a))
    × (lit (pos 2) ≡ HirOperand.const (Const.int b))
    × Evaluates BinOp.div a b minus_three
try_fold_binary_op_lem_example =
    try_fold_binary_op_lem BinOp.div (lit (negsuc 6)) (lit (pos 2)) minus_three literal fold_div
  where
    literal : (a : ℤ) → lit (negsuc 6) ≡ HirOperand.const (Const.int a) → InI128 a
    literal a e = let same : negsuc 6 ≡ a = cc in subst InI128 same (omega arith)

fold_neg : try_fold_unary_op neg (lit (pos 3)) ≡ some minus_three
unfolding try_fold_unary_op
fold_neg = refl

try_fold_unary_op_lem_example :
    (a v : ℤ) × (lit (pos 3) ≡ HirOperand.const (Const.int a))
    × (minus_three ≡ use_operand (HirOperand.const (Const.int v)))
    × IsUnaryValue neg a v
try_fold_unary_op_lem_example = try_fold_unary_op_lem neg (lit (pos 3)) minus_three fold_neg

-- One block: `_0 = -7 / 2; return`.
abbrev sample : HirBody
sample = record {
  blocks =
      record {
        id = 0;
        stmts =
            assign (HirPlace.local 0) (binary_op BinOp.div (lit (negsuc 6)) (lit (pos 2))) origin
            ∷ [];
        terminator = HirTerminator.return none;
        span = origin;
      }
      ∷ [];
  locals = [];
  entry_block = 0;
}

abbrev unset : Registers
unset x = Const.nil

abbrev first_register : Outcome Registers → Option Const
first_register (Outcome.returned value s) = some (s 0)
first_register _ = none

registers_run : first_register (run registers sample.blocks 3 0 unset) ≡ some (Const.int (negsuc 2))
unfolding run step read
registers_run = refl

-- `-2147483647 - 2` wraps around.
wrapped_run :
    step
      (assign
        (HirPlace.local 0)
        (binary_op BinOp.sub (lit (negsuc 2147483646)) (lit (pos 2)))
        origin)
      unset
    ≡ step (assign (HirPlace.local 0) (use_operand (lit (pos 2147483647))) origin) unset
unfolding step read
wrapped_run = refl

sample_fits : BodyFits sample.blocks
unfolding quot_ℤ
sample_fits = (((tt, left, right, quotient), tt), tt)
  where
    left : (a : ℤ) → lit (negsuc 6) ≡ lit a → InI32 a
    left a e = let same : negsuc 6 ≡ a = cc in subst InI32 same (omega arith)

    right : (b : ℤ) → lit (pos 2) ≡ lit b → InI32 b
    right b e = let same : pos 2 ≡ b = cc in subst InI32 same (omega arith)

    quotient :
        (a b v : ℤ)
        → lit (negsuc 6) ≡ lit a
        → lit (pos 2) ≡ lit b
        → IsExact BinOp.div a b v
        → InI32 v
    quotient a b v e e' h =
        let same : negsuc 6 ≡ a = cc in
        let same' : pos 2 ≡ b = cc in
        let exact =
          subst (λ x. IsExact BinOp.div x (pos 2) v) (sym same)
            (subst (λ y. IsExact BinOp.div a y v) (sym same') h) in
        subst InI32 (sym (exact_div (negsuc 6) (pos 2) v exact)) (omega arith)

run_on_body-run_folded_example :
    run registers (run_on_body sample).0.blocks 3 0 unset ≡ run registers sample.blocks 3 0 unset
run_on_body-run_folded_example =
    run_on_body-run_folded registers sample registers-IsArithmetic sample_fits 3 0 unset

-- `!5` is folded to 0; the registers have -6.
not_diverges :
    (try_fold_unary_op UnOp.not (lit (pos 5)) ≡ some (use_operand (lit (pos 0))))
    × (step (assign (HirPlace.local 0) (unary_op UnOp.not (lit (pos 5))) origin) unset
        ≡ step (assign (HirPlace.local 0) (use_operand (lit (negsuc 5))) origin) unset)
unfolding try_fold_unary_op step read
not_diverges = (refl, refl)

-- `2147483648 > 0` is folded to true; the registers have false.
compare_diverges :
    (try_fold_binary_op BinOp.gt (lit (pos 2147483648)) (lit (pos 0))
      ≡ some (use_operand (HirOperand.const (Const.bool true))))
    × (step
          (assign
            (HirPlace.local 0)
            (binary_op BinOp.gt (lit (pos 2147483648)) (lit (pos 0)))
            origin)
          unset
        ≡ step
            (assign (HirPlace.local 0) (use_operand (HirOperand.const (Const.bool false))) origin)
            unset)
unfolding try_fold_binary_op step read
compare_diverges = (refl, refl)

run_on_body_idem_folded_example :
    (run_on_body (run_on_body sample).0 ≡ ((run_on_body sample).0, false))
    × ((run_on_body sample).1 ≡ false → (run_on_body sample).0 ≡ sample)
run_on_body_idem_folded_example = run_on_body_idem_folded sample
