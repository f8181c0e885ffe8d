-- ===== src/Validate/Local/InRange.antt =====
-- What the check of local ids means.
use kore_lang.Base.{ℕ, ltb, ◌≡◌, refl, true, Option, none, some, List, [], ◌∷◌, All, arith}
use kore_lang.Diag.{Span}
use kore_lang.Hir.{
  LocalId, HirPlace, HirOperand, HirRvalue, HirStmt, HirTerminator, HirBlock, assign,
}
use kore_lang.Validate.Local.{
  Check, no_span, check_local, check_place_locals, check_operand_locals, check_operands_locals,
  check_rvalue_locals, check_dest_locals, check_stmt_locals, check_terminator_locals,
  check_stmts_locals, check_blocks_locals,
}

-- Every local that is mentioned has an id below `n`.
unfoldable mutual
  pub PlaceInRange : ℕ → HirPlace → Type 0
  PlaceInRange n (HirPlace.local id) = ltb id n ≡ true
  PlaceInRange n (HirPlace.field base i) = PlaceInRange n base
  PlaceInRange n (HirPlace.index base i) = PlaceInRange n base × OperandInRange n i
  PlaceInRange n (HirPlace.deref base) = PlaceInRange n base

  pub OperandInRange : ℕ → HirOperand → Type 0
  OperandInRange n (HirOperand.const k) = Unit
  OperandInRange n (HirOperand.place p) = PlaceInRange n p
  OperandInRange n (HirOperand.func_ref f) = Unit

abbrev pub RvalueInRange : ℕ → HirRvalue → Type 0
RvalueInRange n (HirRvalue.use_operand o) = OperandInRange n o
RvalueInRange n (HirRvalue.binary_op op lhs rhs) = OperandInRange n lhs × OperandInRange n rhs
RvalueInRange n (HirRvalue.unary_op op o) = OperandInRange n o
RvalueInRange n (HirRvalue.ref p owned) = PlaceInRange n p
RvalueInRange n (HirRvalue.deref o) = OperandInRange n o
RvalueInRange n (HirRvalue.aggregate kind fields) = All (OperandInRange n) fields
RvalueInRange n (HirRvalue.discriminant p) = PlaceInRange n p
RvalueInRange n (HirRvalue.extract_payload p variant) = PlaceInRange n p
RvalueInRange n (HirRvalue.array_to_slice o ty len) = OperandInRange n o

abbrev pub DestInRange : ℕ → Option HirPlace → Type 0
DestInRange n none = Unit
DestInRange n (some p) = PlaceInRange n p

abbrev pub StmtInRange : ℕ → HirStmt → Type 0
StmtInRange n (assign lhs rhs span) = PlaceInRange n lhs × RvalueInRange n rhs
StmtInRange n (HirStmt.call dest func args span) =
    DestInRange n dest × (OperandInRange n func × All (OperandInRange n) args)
StmtInRange n (HirStmt.drop p span) = PlaceInRange n p

abbrev pub TerminatorInRange : ℕ → HirTerminator → Type 0
TerminatorInRange n (HirTerminator.return (some o)) = OperandInRange n o
TerminatorInRange n (HirTerminator.switch discr targets otherwise) = OperandInRange n discr
TerminatorInRange n _ = Unit

abbrev pub BlockInRange : ℕ → HirBlock → Type 0
BlockInRange n b = All (StmtInRange n) b.stmts × TerminatorInRange n b.terminator

-- What a check promises: it answers `true` only if it did before and the property holds, and then it
-- reports nothing.
abbrev Decides : (Check → Check) → Type 0 → Type 0
Decides check P = (c : Check) → (((check c).1 ≡ true → (c.1 ≡ true) × P)) × (P → check c ≡ c)

module _ (n : ℕ) where
  local_decides : (id : LocalId) (span : Span) → Decides (check_local n id span) (ltb id n ≡ true)
  unfolding check_local
  local_decides id span c = ((λ h. (ground arith, ground arith)), (λ h. ground arith))

  then_decides :
      (f g : Check → Check) (P Q : Type 0)
      → Decides f P
      → Decides g Q
      → Decides (λ c. g (f c)) (P × Q)
  then_decides f g P Q df dg c = (
    λ h.
        let (before, q) = (dg (f c)).0 h in let (before', p) = (df c).0 before in (before', (p, q)),
    λ h. rw ((df c).1 h.0) ((dg c).1 h.1),
  )

  nothing_decides : Decides (λ c. c) Unit
  nothing_decides c = ((λ h. (h, tt)), (λ h. refl))

  mutual
    unfolding check_place_locals PlaceInRange

    place_decides :
        (p : HirPlace) (span : Span) → Decides (check_place_locals n p span) (PlaceInRange n p)
    place_decides (HirPlace.local id) span = local_decides id span
    place_decides (HirPlace.field base i) span = place_decides base span
    place_decides (HirPlace.index base i) span =
        then_decides (check_place_locals n base span) (check_operand_locals n i span)
          (PlaceInRange n base) (OperandInRange n i) (place_decides base span)
          (operand_decides i span)
    place_decides (HirPlace.deref base) span = place_decides base span

    operand_decides :
        (o : HirOperand) (span : Span)
        → Decides (check_operand_locals n o span) (OperandInRange n o)
    operand_decides (HirOperand.const k) span = nothing_decides
    operand_decides (HirOperand.place p) span = place_decides p span
    operand_decides (HirOperand.func_ref f) span = nothing_decides

  operands_decide :
      (os : List HirOperand) (span : Span)
      → Decides (check_operands_locals n os span) (All (OperandInRange n) os)
  unfolding check_operands_locals
  operands_decide [] span = nothing_decides
  operands_decide (o ∷ os) span =
      then_decides (check_operand_locals n o span) (check_operands_locals n os span)
        (OperandInRange n o) (All (OperandInRange n) os) (operand_decides o span)
        (operands_decide os span)

  rvalue_decides :
      (r : HirRvalue) (span : Span) → Decides (check_rvalue_locals n r span) (RvalueInRange n r)
  unfolding check_rvalue_locals
  rvalue_decides (HirRvalue.use_operand o) span = operand_decides o span
  rvalue_decides (HirRvalue.binary_op op lhs rhs) span =
      then_decides (check_operand_locals n lhs span) (check_operand_locals n rhs span)
        (OperandInRange n lhs) (OperandInRange n rhs) (operand_decides lhs span)
        (operand_decides rhs span)
  rvalue_decides (HirRvalue.unary_op op o) span = operand_decides o span
  rvalue_decides (HirRvalue.ref p owned) span = place_decides p span
  rvalue_decides (HirRvalue.deref o) span = operand_decides o span
  rvalue_decides (HirRvalue.aggregate kind fields) span = operands_decide fields span
  rvalue_decides (HirRvalue.discriminant p) span = place_decides p span
  rvalue_decides (HirRvalue.extract_payload p variant) span = place_decides p span
  rvalue_decides (HirRvalue.array_to_slice o ty len) span = operand_decides o span

  dest_decides :
      (dest : Option HirPlace) (span : Span)
      → Decides (check_dest_locals n dest span) (DestInRange n dest)
  dest_decides none span = nothing_decides
  dest_decides (some p) span = place_decides p span

  stmt_decides : (st : HirStmt) → Decides (check_stmt_locals n st) (StmtInRange n st)
  unfolding check_stmt_locals
  stmt_decides (assign lhs rhs span) =
      then_decides (check_place_locals n lhs span) (check_rvalue_locals n rhs span)
        (PlaceInRange n lhs) (RvalueInRange n rhs) (place_decides lhs span)
        (rvalue_decides rhs span)
  stmt_decides (HirStmt.call dest func args span) =
      then_decides (check_dest_locals n dest span)
        (λ c. check_operands_locals n args span (check_operand_locals n func span c))
        (DestInRange n dest) (OperandInRange n func × All (OperandInRange n) args)
        (dest_decides dest span)
        (then_decides (check_operand_locals n func span) (check_operands_locals n args span)
          (OperandInRange n func) (All (OperandInRange n) args) (operand_decides func span)
          (operands_decide args span))
  stmt_decides (HirStmt.drop p span) = place_decides p span

  terminator_decides :
      (t : HirTerminator) → Decides (check_terminator_locals n t) (TerminatorInRange n t)
  unfolding check_terminator_locals
  terminator_decides (HirTerminator.goto target) = nothing_decides
  terminator_decides (HirTerminator.return none) = nothing_decides
  terminator_decides (HirTerminator.return (some o)) = operand_decides o no_span
  terminator_decides (HirTerminator.switch discr targets otherwise) = operand_decides discr no_span
  terminator_decides HirTerminator.unreachable = nothing_decides

  stmts_decide : (sts : List HirStmt) → Decides (check_stmts_locals n sts) (All (StmtInRange n) sts)
  unfolding check_stmts_locals
  stmts_decide [] = nothing_decides
  stmts_decide (st ∷ sts) =
      then_decides (check_stmt_locals n st) (check_stmts_locals n sts) (StmtInRange n st)
        (All (StmtInRange n) sts) (stmt_decides st) (stmts_decide sts)

  pub blocks_decide :
      (bs : List HirBlock) → Decides (check_blocks_locals n bs) (All (BlockInRange n) bs)
  unfolding check_blocks_locals
  blocks_decide [] = nothing_decides
  blocks_decide (b ∷ bs) =
      then_decides (λ c. check_terminator_locals n b.terminator (check_stmts_locals n b.stmts c))
        (check_blocks_locals n bs) (BlockInRange n b) (All (BlockInRange n) bs)
        (then_decides (check_stmts_locals n b.stmts) (check_terminator_locals n b.terminator)
          (All (StmtInRange n) b.stmts) (TerminatorInRange n b.terminator) (stmts_decide b.stmts)
          (terminator_decides b.terminator))
        (blocks_decide bs)
