-- ===== src/Escape/Checker/Walk.antt =====
-- The walk over the syntax tree keeps the bindings, and so the join of a branch's arms is right.
use kore_lang.Base.{◌≡◌, Option, List, [], ◌∷◌, String, length, All, Option-cases, inl, inr}
use kore_lang.Diag.{Span}
use kore_lang.Diag.Sink.{DiagSink}
use kore_lang.Ast.{TypeExpr, Expr, MaybeExpr, Exprs, Pattern, Arms, Stmts, Stmt}
use kore_lang.Escape.Context.{
  BindingInfo, EscapeContext, live, push_scope, pop_scope, depth, define, lookup, mark_moved,
  snapshot_moves, restore_snapshot,
}
use kore_lang.Escape.Context.Restore.{shape, seen_of, restore_seen}
use kore_lang.Escape.Branch.{Checked, ArmCheck, check_arms, check_branch}
use kore_lang.Escape.Branch.Join.{KeepsBindings, moved_if, moved_in_any, check_branch_lem}
use kore_lang.Escape.Checker.{
  path_name, kind_of, inject_arm_bindings, after_ret, after_arg, after_init, after_value, use_first,
  check_expr, check_maybe, check_ret, check_args, arm_checks, check_stmts, check_stmt,
}
use kore_lang.Escape.Checker.Shapes.{
  SameShapes, SameBelow, SameShapes-refl, SameShapes-length, SameShapes-lookup,
  mark_moved-SameShapes,
}
use kore_lang.Escape.Checker.Balance.{
  scopes_of, HasScope, Preserves, PreservesBelow, SameShapes-Below, SameBelow-trans,
  SameShapes-nonempty, nothing-Preserves, then-Preserves, Preserves-Below, then-PreservesBelow,
  in_scope-Preserves, define-Below, inject-PreservesBelow, check_branch-Preserves,
}

after_ret-Preserves : (value : Expr) (span : Span) → Preserves (after_ret value span)
unfolding after_ret
after_ret-Preserves value span (c, sink) n = elim (Option-cases (path_name value)) [
  | inl other ↦ rw (other, SameShapes, scopes_of) (SameShapes-refl c.scopes)
  | inr ((name, at_name), named) ↦ rw (named, SameShapes, scopes_of) (SameShapes-refl c.scopes)
]

after_arg-Preserves : (arg : Expr) → Preserves (after_arg arg)
unfolding after_arg
after_arg-Preserves arg (c, sink) n = elim (Option-cases (path_name arg)) [
  | inl other ↦ rw (other, SameShapes, scopes_of) (SameShapes-refl c.scopes)
  | inr ((name, span), named) ↦
      rw (named, SameShapes, scopes_of) (mark_moved-SameShapes c name span)
]

after_value-Preserves :
    (target value : Expr) (span : Span) → Preserves (after_value target value span)
unfolding after_value
after_value-Preserves target value span (c, sink) n = elim (Option-cases (path_name value)) [
  | inl other ↦ rw (other, SameShapes, scopes_of) (SameShapes-refl c.scopes)
  | inr ((name, at_name), named) ↦ rw (named, SameShapes, scopes_of) (SameShapes-refl c.scopes)
]

after_init-PreservesBelow :
    (name : String) (ty : Option TypeExpr) (init : Expr) → PreservesBelow (after_init name ty init)
unfolding after_init
after_init-PreservesBelow name ty init (c, sink) n = elim (Option-cases (path_name init)) [
  | inl other ↦
      rw (other, SameBelow)
        (define-Below c name (record { kind = kind_of ty; state = live; depth = depth c }) n)
  | inr ((source, span), named) ↦
      let d = mark_moved c source span in
      let same = mark_moved-SameShapes c source span in
      let info : BindingInfo = record { kind = kind_of ty; state = live; depth = depth d } in
      rw (named, SameBelow)
        (SameBelow-trans c.scopes d.scopes (define d name info).scopes
          (SameShapes-Below c.scopes d.scopes n same)
          (define-Below d name info (SameShapes-nonempty c.scopes d.scopes n same)))
]

use_first-Preserves : (segments : List String) (span : Span) → Preserves (use_first segments span)
use_first-Preserves [] span w n = SameShapes-refl (scopes_of w)
use_first-Preserves (name ∷ segments) span (c, sink) n = SameShapes-refl c.scopes

mutual
  unfolding check_expr

  check_expr-Preserves : (e : Expr) → Preserves (check_expr e)
  check_expr-Preserves (Expr.block stmts span) =
      in_scope-Preserves (check_stmts stmts) (check_stmts-PreservesBelow stmts)
  check_expr-Preserves (Expr.ret value span) = check_ret-Preserves value span
  check_expr-Preserves (Expr.call callee args span) =
      then-Preserves (check_expr callee) (check_args args) (check_expr-Preserves callee)
        (check_args-Preserves args)
  check_expr-Preserves (Expr.path segments span) = use_first-Preserves segments span
  check_expr-Preserves (Expr.binary op lhs rhs span) =
      then-Preserves (check_expr lhs) (check_expr rhs) (check_expr-Preserves lhs)
        (check_expr-Preserves rhs)
  check_expr-Preserves (Expr.unary op operand span) = check_expr-Preserves operand
  check_expr-Preserves (Expr.field base name span) = check_expr-Preserves base
  check_expr-Preserves (Expr.index base i span) =
      then-Preserves (check_expr base) (check_expr i) (check_expr-Preserves base)
        (check_expr-Preserves i)
  check_expr-Preserves (Expr.deref inner span) = check_expr-Preserves inner
  check_expr-Preserves (Expr.propagate inner span) = check_expr-Preserves inner
  check_expr-Preserves (Expr.jmp target label span) = check_maybe-Preserves target
  check_expr-Preserves (Expr.loop label subject body span) =
      then-Preserves (check_maybe subject) (check_expr body) (check_maybe-Preserves subject)
        (check_expr-Preserves body)
  check_expr-Preserves (Expr.branch scrutinee arms span) =
      then-Preserves (check_maybe scrutinee) (check_branch (arm_checks arms) span)
        (check_maybe-Preserves scrutinee)
        (check_branch-Preserves (arm_checks arms) span (arm_checks-PreserveBelow arms))
  check_expr-Preserves (Expr.int s span) = nothing-Preserves
  check_expr-Preserves (Expr.float s span) = nothing-Preserves
  check_expr-Preserves (Expr.str s span) = nothing-Preserves
  check_expr-Preserves (Expr.bool b span) = nothing-Preserves
  check_expr-Preserves (Expr.nil span) = nothing-Preserves
  check_expr-Preserves (Expr.stop label span) = nothing-Preserves
  check_expr-Preserves (Expr.skip label span) = nothing-Preserves
  check_expr-Preserves (Expr.struct_lit name inits span) = nothing-Preserves
  check_expr-Preserves (Expr.array_lit elements span) = nothing-Preserves
  check_expr-Preserves (Expr.variant_constructor name payload span) = nothing-Preserves

  check_maybe-Preserves : (e : MaybeExpr) → Preserves (check_maybe e)
  check_maybe-Preserves MaybeExpr.no_expr = nothing-Preserves
  check_maybe-Preserves (MaybeExpr.an_expr e) = check_expr-Preserves e

  check_ret-Preserves : (value : MaybeExpr) (span : Span) → Preserves (check_ret value span)
  check_ret-Preserves MaybeExpr.no_expr span = nothing-Preserves
  check_ret-Preserves (MaybeExpr.an_expr value) span =
      then-Preserves (check_expr value) (after_ret value span) (check_expr-Preserves value)
        (after_ret-Preserves value span)

  check_args-Preserves : (args : Exprs) → Preserves (check_args args)
  check_args-Preserves Exprs.no_exprs = nothing-Preserves
  check_args-Preserves (Exprs.more_exprs arg args) =
      then-Preserves (λ w. after_arg arg (check_expr arg w)) (check_args args)
        (then-Preserves (check_expr arg) (after_arg arg) (check_expr-Preserves arg)
          (after_arg-Preserves arg))
        (check_args-Preserves args)

  arm_checks-PreserveBelow : (arms : Arms) → All PreservesBelow (arm_checks arms)
  arm_checks-PreserveBelow Arms.no_arms = tt
  arm_checks-PreserveBelow (Arms.more_arms pattern body span arms) = (
    then-PreservesBelow (inject_arm_bindings pattern) (check_expr body)
        (inject-PreservesBelow pattern)
        (Preserves-Below (check_expr body) (check_expr-Preserves body)),
    arm_checks-PreserveBelow arms,
  )

  check_stmts-PreservesBelow : (sts : Stmts) → PreservesBelow (check_stmts sts)
  check_stmts-PreservesBelow Stmts.no_stmts = Preserves-Below (λ w. w) nothing-Preserves
  check_stmts-PreservesBelow (Stmts.more_stmts st sts) =
      then-PreservesBelow (check_stmt st) (check_stmts sts) (check_stmt-PreservesBelow st)
        (check_stmts-PreservesBelow sts)

  check_stmt-PreservesBelow : (st : Stmt) → PreservesBelow (check_stmt st)
  check_stmt-PreservesBelow (Stmt.let_stmt name is_mut ty init span) =
      then-PreservesBelow (check_expr init) (after_init name ty init)
        (Preserves-Below (check_expr init) (check_expr-Preserves init))
        (after_init-PreservesBelow name ty init)
  check_stmt-PreservesBelow (Stmt.assign target value span) =
      Preserves-Below (λ w. check_expr target (after_value target value span (check_expr value w)))
        (then-Preserves (λ w. after_value target value span (check_expr value w))
          (check_expr target)
          (then-Preserves (check_expr value) (after_value target value span)
            (check_expr-Preserves value) (after_value-Preserves target value span))
          (check_expr-Preserves target))
  check_stmt-PreservesBelow (Stmt.defer e span) =
      Preserves-Below (check_expr e) (check_expr-Preserves e)
  check_stmt-PreservesBelow (Stmt.expr_stmt e) =
      Preserves-Below (check_expr e) (check_expr-Preserves e)

-- The check of an expression leaves as many scopes as it found, and every name means a binding of the
-- same kind and depth as before, or none as before.
pub check_expr-shape :
    (e : Expr) (w : Checked) (j : String)
    → HasScope w
    → (length (check_expr e w).0.scopes ≡ length w.0.scopes)
      × (shape (lookup (check_expr e w).0 j) ≡ shape (lookup w.0 j))
unfolding lookup
check_expr-shape e w j n =
    let same = check_expr-Preserves e w n in
    (
      SameShapes-length (scopes_of w) (scopes_of (check_expr e w)) same,
      SameShapes-lookup (scopes_of w) (scopes_of (check_expr e w)) j same,
    )

PreservesBelow-KeepsBindings : (check : ArmCheck) → PreservesBelow check → KeepsBindings check
unfolding lookup push_scope
PreservesBelow-KeepsBindings check p c sink n =
    let after = pop_scope (check (push_scope c, sink)).0 in
    let same = in_scope-Preserves check p (c, sink) n in
    (
      SameShapes-nonempty c.scopes after.scopes n same,
      λ j. SameShapes-lookup c.scopes after.scopes j same,
    )

-- An arm of a branch, with the scope that the branch opens for it: its bindings and the check of its
-- body.
abbrev pub arm_check : Pattern → Expr → ArmCheck
arm_check pattern body w = check_expr body (inject_arm_bindings pattern w)

-- After the check of an arm of a branch, in a scope of its own, the snapshot taken before the arm, once
-- restored, gives every name the kind, the depth and, if it owns, the state that it had before the arm.
pub restore_snapshot-arm_check :
    (pattern : Pattern) (body : Expr) (c : EscapeContext) (sink : DiagSink) (j : String)
    → HasScope (c, sink)
    → seen_of (
        lookup
          (restore_snapshot
            (pop_scope (arm_check pattern body (push_scope c, sink)).0)
            (snapshot_moves c))
          j)
      ≡ seen_of (lookup c j)
restore_snapshot-arm_check pattern body c sink j n =
    let below =
      then-PreservesBelow (inject_arm_bindings pattern) (check_expr body)
        (inject-PreservesBelow pattern)
        (Preserves-Below (check_expr body) (check_expr-Preserves body)) in
    restore_seen c (pop_scope (arm_check pattern body (push_scope c, sink)).0) j
      ((PreservesBelow-KeepsBindings (arm_check pattern body) below c sink n).1 j)

arm_checks-KeepBindings : (arms : Arms) → All KeepsBindings (arm_checks arms)
arm_checks-KeepBindings arms = go (arm_checks arms) (arm_checks-PreserveBelow arms)
  where
    go : (checks : List ArmCheck) → All PreservesBelow checks → All KeepsBindings checks
    go [] k = tt
    go (check ∷ checks) k = (PreservesBelow-KeepsBindings check k.0, go checks k.1)

-- After the check of a branch without a scrutinee, every name has the binding it had, with the state
-- that it had if it owns, but moved at the branch where the snapshot after the check of some arm has a
-- moved owner of that name.
pub check_expr-branch_lem :
    (arms : Arms) (span : Span) (w : Checked) (j : String)
    → HasScope w
    → seen_of (lookup (check_expr (Expr.branch MaybeExpr.no_expr arms span) w).0 j)
      ≡ seen_of (
          moved_if
            (moved_in_any (check_arms (snapshot_moves w.0) (arm_checks arms) w).1 j)
            span
            (lookup w.0 j))
unfolding check_expr
check_expr-branch_lem arms span w j n =
    check_branch_lem (arm_checks arms) span w j n (arm_checks-KeepBindings arms)
