-- ===== src/Eval/Evaluator/Steps.antt =====
-- How many expressions an evaluation enters at most: those of the syntax tree that it may evaluate, each
-- once.
use kore_lang.Base.{ℕ, suc, ◌+◌}
use kore_lang.Ast.{Expr, MaybeExpr, Arms, Pattern, Stmts, Stmt}

unfoldable mutual
  pub expr_steps : Expr → ℕ
  expr_steps (Expr.binary op lhs rhs span) = suc (expr_steps lhs + expr_steps rhs)
  expr_steps (Expr.unary op operand span) = suc (expr_steps operand)
  expr_steps (Expr.block stmts span) = suc (block_steps stmts)
  expr_steps (Expr.branch scrutinee arms span) = suc (maybe_steps scrutinee + arms_steps arms)
  expr_steps _ = 1

  pub maybe_steps : MaybeExpr → ℕ
  maybe_steps MaybeExpr.no_expr = 0
  maybe_steps (MaybeExpr.an_expr e) = expr_steps e

  pub arms_steps : Arms → ℕ
  arms_steps Arms.no_arms = 0
  arms_steps (Arms.more_arms pattern body span arms) =
      pattern_steps pattern + (expr_steps body + arms_steps arms)

  pub pattern_steps : Pattern → ℕ
  pattern_steps (Pattern.lit e) = expr_steps e
  pattern_steps (Pattern.cond e) = expr_steps e
  pattern_steps _ = 0

  pub block_steps : Stmts → ℕ
  block_steps Stmts.no_stmts = 0
  block_steps (Stmts.more_stmts st sts) = stmt_steps st + block_steps sts

  pub stmt_steps : Stmt → ℕ
  stmt_steps (Stmt.expr_stmt e) = expr_steps e
  stmt_steps (Stmt.let_stmt name is_mut ty init span) = expr_steps init
  stmt_steps (Stmt.assign target value span) = expr_steps value
  stmt_steps (Stmt.defer e span) = 0
