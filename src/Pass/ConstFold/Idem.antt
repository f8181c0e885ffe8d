-- ===== src/Pass/ConstFold/Idem.antt =====
-- A second run of the pass changes nothing and says so.
use kore_lang.Base.{◌≡◌, refl, ap, inl, inr, false, List, [], ◌∷◌, arith, Option-cases}
use kore_lang.Hir.{HirStmt, HirBlock, HirBody, assign}
use kore_lang.Pass.ConstFold.{try_fold_rvalue, fold_stmt, fold_stmts, fold_blocks, run_on_body}
use kore_lang.Pass.ConstFold.Use.{try_fold_rvalue-use}

fold_stmt_idem : (st : HirStmt) → fold_stmt (fold_stmt st).0 ≡ ((fold_stmt st).0, false)
unfolding fold_stmt
fold_stmt_idem (assign lhs rhs span) = elim (Option-cases (try_fold_rvalue rhs)) [
  | inl kept ↦ ground arith
  | inr (r, folded) ↦ ground (arith, try_fold_rvalue-use rhs r folded)
]
fold_stmt_idem _ = refl

fold_stmts_idem : (sts : List HirStmt) → fold_stmts (fold_stmts sts).0 ≡ ((fold_stmts sts).0, false)
unfolding fold_stmts
fold_stmts_idem [] = refl
fold_stmts_idem (st ∷ sts) = ground (arith, fold_stmt_idem st, fold_stmts_idem sts)

fold_blocks_idem :
    (bs : List HirBlock) → fold_blocks (fold_blocks bs).0 ≡ ((fold_blocks bs).0, false)
unfolding fold_blocks
fold_blocks_idem [] = refl
fold_blocks_idem (b ∷ bs) = ground (arith, fold_stmts_idem b.stmts, fold_blocks_idem bs)

unchanged_stmts : (sts : List HirStmt) → (fold_stmts sts).1 ≡ false → (fold_stmts sts).0 ≡ sts
unfolding fold_stmts fold_stmt
unchanged_stmts [] h = refl
unchanged_stmts (assign lhs rhs span ∷ sts) h = ground (arith, unchanged_stmts sts)
unchanged_stmts (st ∷ sts) h = ground (arith, unchanged_stmts sts)

unchanged_blocks : (bs : List HirBlock) → (fold_blocks bs).1 ≡ false → (fold_blocks bs).0 ≡ bs
unfolding fold_blocks
unchanged_blocks [] h = refl
unchanged_blocks (b ∷ bs) h = ground (arith, unchanged_stmts b.stmts, unchanged_blocks bs)

-- A second run of the pass changes nothing and says so; and whenever it says so, it changed nothing.
pub run_on_body_idem_folded :
    (body : HirBody)
    → (run_on_body (run_on_body body).0 ≡ ((run_on_body body).0, false))
      × ((run_on_body body).1 ≡ false → (run_on_body body).0 ≡ body)
unfolding run_on_body
run_on_body_idem_folded body = (
  ap (λ r. (record body { blocks = r.0 }, r.1)) (fold_blocks_idem body.blocks),
  λ h. ap (λ bs. record body { blocks = bs }) (unchanged_blocks body.blocks h),
)
