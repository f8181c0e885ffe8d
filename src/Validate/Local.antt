-- ===== src/Validate/Local.antt =====
-- stage0/src/middleend/validate/local.rs: the checks on the use of local variables.
pub mod DefUse
pub mod InRange
pub mod Laws
mod Tests
use kore_lang.Base.{
  ℕ, zero, suc, ltb, Bool, true, false, Option, none, some, List, [], ◌∷◌, length, if◌then◌else◌,
}
use kore_lang.Diag.{Span, at, error_diagnostic}
use kore_lang.Diag.Sink.{DiagSink, emit}
use kore_lang.Hir.{
  LocalId, HirPlace, HirOperand, HirRvalue, HirStmt, HirTerminator, HirBlock, HirBody, assign,
}
use kore_lang.Validate.Local.DefUse.{check_def_before_use}

-- The validator's `sink` and `valid`.
abbrev pub Check : Type 0
Check = DiagSink × Bool

abbrev pub no_span : Span
no_span = record { file = 0; lo = 0; hi = 0 }

-- `valid_locals` is the set of the ids below `n`, here its membership test.
abbrev pub valid_local : ℕ → LocalId → Bool
valid_local n id = ltb id n

-- The case of a local in `check_place_locals`.
unfoldable pub check_local : ℕ → LocalId → Span → Check → Check
unfolding emit
check_local n id span (sink, valid) =
    if valid_local n id then (sink, valid) else (emit (error_diagnostic 9010 (at span)) sink, false)

unfoldable mutual
  unfolding check_local

  pub check_place_locals : ℕ → HirPlace → Span → Check → Check
  check_place_locals n (HirPlace.local id) span c = check_local n id span c
  check_place_locals n (HirPlace.field base i) span c = check_place_locals n base span c
  check_place_locals n (HirPlace.index base i) span c =
      check_operand_locals n i span (check_place_locals n base span c)
  check_place_locals n (HirPlace.deref base) span c = check_place_locals n base span c

  pub check_operand_locals : ℕ → HirOperand → Span → Check → Check
  check_operand_locals n (HirOperand.const k) span c = c
  check_operand_locals n (HirOperand.place p) span c = check_place_locals n p span c
  check_operand_locals n (HirOperand.func_ref f) span c = c

unfoldable pub check_operands_locals : ℕ → List HirOperand → Span → Check → Check
unfolding check_place_locals
check_operands_locals n [] span c = c
check_operands_locals n (o ∷ os) span c =
    check_operands_locals n os span (check_operand_locals n o span c)

unfoldable pub check_rvalue_locals : ℕ → HirRvalue → Span → Check → Check
unfolding check_place_locals check_operands_locals
check_rvalue_locals n (HirRvalue.use_operand o) span c = check_operand_locals n o span c
check_rvalue_locals n (HirRvalue.binary_op op lhs rhs) span c =
    check_operand_locals n rhs span (check_operand_locals n lhs span c)
check_rvalue_locals n (HirRvalue.unary_op op o) span c = check_operand_locals n o span c
check_rvalue_locals n (HirRvalue.ref p owned) span c = check_place_locals n p span c
check_rvalue_locals n (HirRvalue.deref o) span c = check_operand_locals n o span c
check_rvalue_locals n (HirRvalue.aggregate kind fields) span c =
    check_operands_locals n fields span c
check_rvalue_locals n (HirRvalue.discriminant p) span c = check_place_locals n p span c
check_rvalue_locals n (HirRvalue.extract_payload p variant) span c = check_place_locals n p span c
check_rvalue_locals n (HirRvalue.array_to_slice o ty len) span c = check_operand_locals n o span c

abbrev pub check_dest_locals : ℕ → Option HirPlace → Span → Check → Check
check_dest_locals n none span c = c
check_dest_locals n (some p) span c = check_place_locals n p span c

unfoldable pub check_stmt_locals : ℕ → HirStmt → Check → Check
unfolding check_place_locals check_operands_locals check_rvalue_locals
check_stmt_locals n (assign lhs rhs span) c =
    check_rvalue_locals n rhs span (check_place_locals n lhs span c)
check_stmt_locals n (HirStmt.call dest func args span) c =
    check_operands_locals n args span
      (check_operand_locals n func span (check_dest_locals n dest span c))
check_stmt_locals n (HirStmt.drop p span) c = check_place_locals n p span c

unfoldable pub check_terminator_locals : ℕ → HirTerminator → Check → Check
unfolding check_place_locals
check_terminator_locals n (HirTerminator.return (some o)) c = check_operand_locals n o no_span c
check_terminator_locals n (HirTerminator.switch discr targets otherwise) c =
    check_operand_locals n discr no_span c
check_terminator_locals n _ c = c

unfoldable pub check_stmts_locals : ℕ → List HirStmt → Check → Check
unfolding check_stmt_locals
check_stmts_locals n [] c = c
check_stmts_locals n (st ∷ sts) c = check_stmts_locals n sts (check_stmt_locals n st c)

unfoldable pub check_blocks_locals : ℕ → List HirBlock → Check → Check
unfolding check_stmts_locals check_terminator_locals
check_blocks_locals n [] c = c
check_blocks_locals n (b ∷ bs) c =
    check_blocks_locals n bs
      (check_terminator_locals n b.terminator (check_stmts_locals n b.stmts c))

unfoldable pub validate_locals : HirBody → DiagSink → DiagSink × Bool
unfolding check_blocks_locals check_def_before_use
validate_locals body sink =
    let (sink', valid) = check_blocks_locals (length body.locals) body.blocks (sink, true) in
    (check_def_before_use body sink', valid)
