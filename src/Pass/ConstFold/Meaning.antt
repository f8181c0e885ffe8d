-- ===== src/Pass/ConstFold/Meaning.antt =====
-- The pass keeps what the body does, and a second run changes nothing.
use kore_lang.Base.{
  ℕ, ◌≡◌, ◌≢◌, refl, sym, ap, inl, inr, some, List, [], ◌∷◌, All, arith, ◌==◌, Option-cases,
  Bool-cases,
}
use kore_lang.Base.Int.{ℤ, pos, negsuc, ◌≤ℤ◌}
use kore_lang.Diag.{Span}
use kore_lang.Hir.{
  BlockId, BinOp, UnOp, Const, HirPlace, HirOperand, HirRvalue, HirStmt, HirBlock, HirBody,
  binary_op, unary_op, use_operand, assign,
}
use kore_lang.Hir.Cfg.{find_block}
use kore_lang.Hir.Run.{Machine, exec_all, after_stmts, enter, run, run_congr}
use kore_lang.Pass.ConstFold.{try_fold_rvalue, fold_stmt, fold_stmts, fold_blocks, run_on_body}
use kore_lang.Pass.ConstFold.Values.{InI128, IsExact}
use kore_lang.Pass.ConstFold.Laws.{IsValue, try_fold_binary_op_lem}
use kore_lang.Pass.ConstFold.Unary.{IsUnaryValue, try_fold_unary_op_lem}

abbrev pub lit : ℤ → HirOperand
lit a = HirOperand.const (Const.int a)

abbrev pub InI32 : ℤ → Type 0
InI32 v = (negsuc 2147483647 ≤ℤ v) × (v ≤ℤ pos 2147483647)

-- The operations that the back end has on integers.
abbrev pub IsNative : BinOp → Type 0
IsNative BinOp.logic_and = ⊥
IsNative BinOp.logic_or = ⊥
IsNative _ = Unit

-- The back end has an operation, takes each of its literals for an i32, and so the literal that is its
-- value. On an integer its `!` is the complement, so an operation `!` has no integer literal.
abbrev pub RvalueFits : HirRvalue → Type 0
RvalueFits (binary_op op lhs rhs) =
    IsNative op
    × ((a : ℤ) → lhs ≡ lit a → InI32 a)
    × ((b : ℤ) → rhs ≡ lit b → InI32 b)
    × ((a b v : ℤ) → lhs ≡ lit a → rhs ≡ lit b → IsExact op a b v → InI32 v)
RvalueFits (unary_op op operand) =
    ((a : ℤ) → operand ≡ lit a → (op ≢ UnOp.not) × InI32 a)
    × ((a v : ℤ) → operand ≡ lit a → IsUnaryValue op a v → InI32 v)
RvalueFits _ = Unit

abbrev pub StmtFits : HirStmt → Type 0
StmtFits (assign lhs rhs span) = RvalueFits rhs
StmtFits _ = Unit

abbrev pub BodyFits : List HirBlock → Type 0
BodyFits bs = All (λ b. All StmtFits b.stmts) bs

abbrev pub ConstFits : Const → Type 0
ConstFits (Const.int v) = InI32 v
ConstFits _ = Unit

-- The machine computes an operation on literals to its value, as far as these fit an i32.
pub record IsArithmetic (m : Machine) : Type 0 where
  pub binary :
      (op : BinOp) (a b : ℤ) (c : Const) (lhs : HirPlace) (span : Span) (s : m.State)
      → IsNative op
      → InI32 a
      → InI32 b
      → ConstFits c
      → IsValue op a b c
      → m.exec (assign lhs (binary_op op (lit a) (lit b)) span) s
        ≡ m.exec (assign lhs (use_operand (HirOperand.const c)) span) s
  pub unary :
      (op : UnOp) (a v : ℤ) (lhs : HirPlace) (span : Span) (s : m.State)
      → op ≢ UnOp.not
      → InI32 a
      → InI32 v
      → IsUnaryValue op a v
      → m.exec (assign lhs (unary_op op (lit a)) span) s
        ≡ m.exec (assign lhs (use_operand (lit v)) span) s

InI32→InI128 : (v : ℤ) → InI32 v → InI128 v
InI32→InI128 v h = omega arith

value-ConstFits :
    (op : BinOp) (a b : ℤ) (c : Const)
    → ((v : ℤ) → IsExact op a b v → InI32 v)
    → IsValue op a b c
    → ConstFits c
value-ConstFits op a b (Const.int v) fits value = fits v value.1
value-ConstFits op a b (Const.bool c) fits value = tt
value-ConstFits op a b _ fits value = absurd value

module _ (m : Machine) (laws : IsArithmetic m) where
  open m use {State, exec}

  exec-folded :
      (lhs : HirPlace) (rhs r : HirRvalue) (span : Span) (s : State)
      → RvalueFits rhs
      → try_fold_rvalue rhs ≡ some r
      → exec (assign lhs r span) s ≡ exec (assign lhs rhs span) s
  unfolding try_fold_rvalue
  exec-folded lhs (binary_op op x y) r span s (native, left_fits, right_fits, value_fits) h =
      let (a, b, left, right, (c, same, value)) =
        try_fold_binary_op_lem op x y r (λ v e. InI32→InI128 v (left_fits v e)) h in
      let fits = value-ConstFits op a b c (λ v. value_fits a b v left right) value in
      let step =
        laws.binary op a b c lhs span s native (left_fits a left) (right_fits b right) fits value in
      rw (left, right, same) (sym step)
  exec-folded lhs (unary_op op x) r span s (operand_fits, value_fits) h =
      let (a, v, operand, same, value) = try_fold_unary_op_lem op x r h in
      let (native, fits) = operand_fits a operand in
      let step = laws.unary op a v lhs span s native fits (value_fits a v operand value) value in
      rw (operand, same) (sym step)
  exec-folded lhs _ r span s fits h = absurd (ground arith)

  exec-fold_stmt : (st : HirStmt) (s : State) → StmtFits st → exec (fold_stmt st).0 s ≡ exec st s
  unfolding fold_stmt
  exec-fold_stmt (assign lhs rhs span) s fits = elim (Option-cases (try_fold_rvalue rhs)) [
    | inl kept ↦ ground arith
    | inr (r, folded) ↦ ground (arith, exec-folded lhs rhs r span s fits folded)
  ]
  exec-fold_stmt _ s fits = refl

  exec_all-fold_stmts :
      (sts : List HirStmt) (s : State)
      → All StmtFits sts
      → exec_all m (fold_stmts sts).0 s ≡ exec_all m sts s
  unfolding fold_stmts exec_all
  exec_all-fold_stmts [] s fits = refl
  exec_all-fold_stmts (st ∷ sts) s fits =
      let first = exec-fold_stmt st s fits.0 in
      elim (Option-cases (exec st s)) [
        | inl trap ↦ ground arith
        | inr (s', done) ↦ ground (arith, exec_all-fold_stmts sts s' fits.1)
      ]

  enter-fold_blocks :
      (bs : List HirBlock) (i : BlockId) (s : State)
      → BodyFits bs
      → enter m (find_block (fold_blocks bs).0 i) i s ≡ enter m (find_block bs i) i s
  unfolding fold_blocks find_block enter
  enter-fold_blocks [] i s fits = refl
  enter-fold_blocks (b ∷ bs) i s fits = elim (Bool-cases (b.id == i)) [
    | inl found ↦ rw found (ap (after_stmts m b.terminator) (exec_all-fold_stmts b.stmts s fits.0))
    | inr other ↦ rw other (enter-fold_blocks bs i s fits.1)
  ]

-- On a machine that computes operations on literals to their values, as far as those are i32, a body whose
-- literals, and the values of whose operations on literals, are i32, and which has no `!` of an integer
-- literal, no `&&` and no `||`: the new body has the old body's outcome from every block, in every state
-- and for every bound on the blocks entered.
pub run_on_body-run_folded :
    (m : Machine) (body : HirBody)
    → IsArithmetic m
    → BodyFits body.blocks
    → (fuel : ℕ) (i : BlockId) (s : m.State)
    → run m (run_on_body body).0.blocks fuel i s ≡ run m body.blocks fuel i s
unfolding run_on_body
run_on_body-run_folded m body laws fits fuel i s =
    run_congr m (λ j. Unit) (fold_blocks body.blocks).0 body.blocks
      (λ j t _. enter-fold_blocks m laws body.blocks j t fits) (λ _ _ _ _ _ _. tt) fuel i s tt
