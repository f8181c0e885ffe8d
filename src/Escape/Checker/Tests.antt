-- ===== src/Escape/Checker/Tests.antt =====
-- Functions over one owner, and the theorems on the walk at them.
use kore_lang.Base.{ℕ, ◌≡◌, refl, false, none, some, [], ◌∷◌, length}
use kore_lang.Diag.{Span}
use kore_lang.Diag.Sink.{DiagSink}
use kore_lang.Diag.Sink
use kore_lang.Ast.{Expr, Exprs, FieldInits, Arms, Pattern, Stmts, Stmt, no_expr}
use kore_lang.Escape.Context.{
  EscapeContext, own_info, lookup, moved, push_scope, pop_scope, restore_snapshot, snapshot_moves,
}
use kore_lang.Escape.Context.Restore.{shape, seen_of}
use kore_lang.Escape.Branch.{check_arms}
use kore_lang.Escape.Branch.Join.{moved_if, moved_in_any}
use kore_lang.Escape.Checker.{check_expr, arm_checks}
use kore_lang.Escape.Checker.Walk.{
  check_expr-shape, check_expr-branch_lem, arm_check, restore_snapshot-arm_check,
}

abbrev site : ℕ → Span
site i = record { file = 0; lo = i; hi = i }

abbrev sample : EscapeContext
sample = record { scopes = (("x", own_info 0) ∷ []) ∷ [] }

abbrev use_x : ℕ → Expr
use_x i = Expr.path ("x" ∷ []) (site i)

-- `f(x)`.
abbrev give_x : ℕ → Expr
give_x i =
    Expr.call (Expr.path ("f" ∷ []) (site i)) (Exprs.more_exprs (use_x i) Exprs.no_exprs) (site i)

-- `? { a => f(x), _ => x }`.
abbrev arms : Arms
arms =
    Arms.more_arms (Pattern.bind "a" (site 1)) (give_x 2) (site 1)
      (Arms.more_arms (Pattern.wildcard (site 3)) (use_x 3) (site 3) Arms.no_arms)

-- `{ y := x; f(x) }`.
abbrev body : Expr
body =
    Expr.block
      (Stmts.more_stmts (Stmt.let_stmt "y" false none (use_x 1) (site 1))
        (Stmts.more_stmts (Stmt.expr_stmt (give_x 2)) Stmts.no_stmts))
      (site 0)

-- One report, for two uses at one place.
body_run : (check_expr body (sample, Sink.new)).1.err_count ≡ 2
unfolding check_expr
body_run = refl

-- A literal's fields are not walked: the second use in one is not seen.
literal_run :
    (check_expr
      (Expr.block
        (Stmts.more_stmts (Stmt.expr_stmt (give_x 1)) (
          Stmts.more_stmts
            (Stmt.expr_stmt (
              Expr.struct_lit "S"
                (FieldInits.more_inits "a" (use_x 2) FieldInits.no_inits)
                (site 2)))
            Stmts.no_stmts))
        (site 0))
      (sample, Sink.new)).1.err_count
    ≡ 0
unfolding check_expr
literal_run = refl

-- Nor does the second round of a loop see what the first has moved.
loop_run :
    (check_expr (Expr.loop none no_expr (give_x 1) (site 0)) (sample, Sink.new)).1.err_count ≡ 0
unfolding check_expr
loop_run = refl

-- An assignment of an owner does not move it.
assign_run :
    (check_expr
      (Expr.block
        (Stmts.more_stmts
          (Stmt.assign (Expr.path ("y" ∷ []) (site 1)) (use_x 1) (site 1))
          (Stmts.more_stmts (Stmt.expr_stmt (use_x 2)) Stmts.no_stmts))
        (site 0))
      (sample, Sink.new)).1.err_count
    ≡ 0
unfolding check_expr
assign_run = refl

check_expr-shape_example :
    (length (check_expr body (sample, Sink.new)).0.scopes ≡ length sample.scopes)
    × (shape (lookup (check_expr body (sample, Sink.new)).0 "x") ≡ shape (lookup sample "x"))
check_expr-shape_example = check_expr-shape body (sample, Sink.new) "x" refl

check_expr-branch_lem_example :
    seen_of (lookup (check_expr (Expr.branch no_expr arms (site 0)) (sample, Sink.new)).0 "x")
    ≡ seen_of (
        moved_if
          (moved_in_any
            (check_arms (snapshot_moves sample) (arm_checks arms) (sample, Sink.new)).1
            "x")
          (site 0)
          (lookup sample "x"))
check_expr-branch_lem_example = check_expr-branch_lem arms (site 0) (sample, Sink.new) "x" refl

-- An arm with a branch of its own that moves `x`.
abbrev nested : Expr
nested =
    Expr.block
      (Stmts.more_stmts (Stmt.expr_stmt (Expr.branch no_expr arms (site 4)))
        (Stmts.more_stmts (Stmt.expr_stmt (give_x 5)) Stmts.no_stmts))
      (site 4)

nested_moves :
    lookup
      (pop_scope (arm_check (Pattern.bind "a" (site 1)) nested (push_scope sample, Sink.new)).0)
      "x"
    ≡ some (record (own_info 0) { state = moved (site 5) })
unfolding lookup push_scope pop_scope check_expr
nested_moves = refl

restore_snapshot-arm_check_example :
    seen_of (
      lookup
        (restore_snapshot
          (pop_scope (arm_check (Pattern.bind "a" (site 1)) nested (push_scope sample, Sink.new)).0)
          (snapshot_moves sample))
        "x")
    ≡ seen_of (lookup sample "x")
restore_snapshot-arm_check_example =
    restore_snapshot-arm_check (Pattern.bind "a" (site 1)) nested sample Sink.new "x" refl
