-- ===== src/Escape/Checker.antt =====
-- stage0/src/frontend/escape/checker.rs: the walk over a function's body.
pub mod Shapes
pub mod Balance
pub mod Walk
mod Tests
use kore_lang.Base.{
  ℕ, ltb, Bool, true, false, ◌&&◌, Option, none, some, List, [], ◌∷◌, String, if◌then◌else◌,
}
use kore_lang.Diag.{Span, at, error_diagnostic}
use kore_lang.Diag.Sink.{DiagSink, emit}
use kore_lang.Ast.{
  TypeExpr, Expr, MaybeExpr, Exprs, Arms, Pattern, Stmts, Stmt, Param, Func, Item, Module,
}
use kore_lang.Escape.Context.{
  BindingKind, own, borrow, plain, BindingInfo, live, plain_info, EscapeContext, new, depth,
  push_scope, pop_scope, define, lookup, mark_moved, snapshot_moves,
}
use kore_lang.Escape.Branch.{Checked, ArmCheck, check_branch}
use kore_lang.Escape.Use.{check_use}

unfoldable pub binding_kind_from_type : TypeExpr → BindingKind
binding_kind_from_type (TypeExpr.own t span) = own
binding_kind_from_type (TypeExpr.borrow t span) = borrow
binding_kind_from_type _ = plain

abbrev kind_of : Option TypeExpr → BindingKind
kind_of none = plain
kind_of (some ty) = binding_kind_from_type ty

unfoldable pub register_param : Param → Checked → Checked
unfolding binding_kind_from_type define
register_param p (c, sink) =
    (define c p.name (record { kind = binding_kind_from_type p.ty; state = live; depth = 0 }), sink)

unfoldable pub register_params : List Param → Checked → Checked
unfolding register_param
register_params [] w = w
register_params (p ∷ ps) w = register_params ps (register_param p w)

abbrev is_borrow_within : Option BindingInfo → Bool
is_borrow_within none = false
is_borrow_within (some info) = elim info.kind [
  | borrow ↦ ltb 0 info.depth
  | own ↦ false
  | plain ↦ false
]

unfoldable pub is_local_borrow : EscapeContext → String → Bool
unfolding lookup
is_local_borrow c name = is_borrow_within (lookup c name)

unfoldable pub define_plain : List String → ℕ → EscapeContext → EscapeContext
unfolding define
define_plain [] d c = c
define_plain (name ∷ names) d c = define_plain names d (define c name (plain_info d))

unfoldable pub inject_arm_bindings : Pattern → Checked → Checked
unfolding define_plain define depth
inject_arm_bindings (Pattern.bind name span) (c, sink) =
    (define c name (plain_info (depth c)), sink)
inject_arm_bindings (Pattern.variant name bindings span) (c, sink) =
    (define_plain bindings (depth c) c, sink)
inject_arm_bindings _ w = w

-- `if let Expr::Path(segments, span) = e && let Some(name) = segments.first()`.
abbrev path_name : Expr → Option (String × Span)
path_name (Expr.path (name ∷ segments) span) = some (name, span)
path_name _ = none

-- What follows the check of a returned value.
unfoldable pub after_ret : Expr → Span → Checked → Checked
unfolding is_local_borrow emit
after_ret value span (c, sink) = elim (path_name value) [
  | none ↦ (c, sink)
  | some (name, at_name) ↦
      (c, (if is_local_borrow c name then emit (error_diagnostic 5003 (at span)) sink else sink))
]

-- What follows the check of an argument: a use, and a move.
unfoldable pub after_arg : Expr → Checked → Checked
unfolding check_use mark_moved
after_arg arg (c, sink) = elim (path_name arg) [
  | none ↦ (c, sink)
  | some (name, span) ↦ (mark_moved c name span, check_use c name span sink)
]

-- What follows the check of an initial value: a move, and the new binding.
unfoldable pub after_init : String → Option TypeExpr → Expr → Checked → Checked
unfolding mark_moved define depth binding_kind_from_type
after_init name ty init (c, sink) =
    let moved_from : EscapeContext = elim (path_name init) [
      | none ↦ c
      | some (source, span) ↦ mark_moved c source span
    ] in
    (
      define moved_from name (record { kind = kind_of ty; state = live; depth = depth moved_from }),
      sink,
    )

abbrev is_field : Expr → Bool
is_field (Expr.field base name span) = true
is_field _ = false

-- What follows the check of an assigned value: a borrow must not be stored in a field.
unfoldable pub after_value : Expr → Expr → Span → Checked → Checked
unfolding is_local_borrow emit
after_value target value span (c, sink) = elim (path_name value) [
  | none ↦ (c, sink)
  | some (name, at_name) ↦ (
    c,
    (if is_field target && is_local_borrow c name
        then emit (error_diagnostic 5002 (at span)) sink
        else sink),
  )
]

abbrev in_scope : (Checked → Checked) → Checked → Checked
in_scope body (c, sink) = let (c', sink') = body (push_scope c, sink) in (pop_scope c', sink')

abbrev use_first : List String → Span → Checked → Checked
use_first [] span w = w
use_first (name ∷ segments) span (c, sink) = (c, check_use c name span sink)

unfoldable mutual
  unfolding push_scope pop_scope after_ret after_arg after_init after_value check_branch check_use
      inject_arm_bindings

  pub check_expr : Expr → Checked → Checked
  check_expr (Expr.block stmts span) w = in_scope (check_stmts stmts) w
  check_expr (Expr.ret value span) w = check_ret value span w
  check_expr (Expr.call callee args span) w = check_args args (check_expr callee w)
  check_expr (Expr.path segments span) w = use_first segments span w
  check_expr (Expr.binary op lhs rhs span) w = check_expr rhs (check_expr lhs w)
  check_expr (Expr.unary op operand span) w = check_expr operand w
  check_expr (Expr.field base name span) w = check_expr base w
  check_expr (Expr.index base i span) w = check_expr i (check_expr base w)
  check_expr (Expr.deref inner span) w = check_expr inner w
  check_expr (Expr.propagate inner span) w = check_expr inner w
  check_expr (Expr.jmp target label span) w = check_maybe target w
  check_expr (Expr.loop label subject body span) w = check_expr body (check_maybe subject w)
  check_expr (Expr.branch scrutinee arms span) w =
      check_branch (arm_checks arms) span (check_maybe scrutinee w)
  check_expr _ w = w

  pub check_maybe : MaybeExpr → Checked → Checked
  check_maybe MaybeExpr.no_expr w = w
  check_maybe (MaybeExpr.an_expr e) w = check_expr e w

  pub check_ret : MaybeExpr → Span → Checked → Checked
  check_ret MaybeExpr.no_expr span w = w
  check_ret (MaybeExpr.an_expr value) span w = after_ret value span (check_expr value w)

  pub check_args : Exprs → Checked → Checked
  check_args Exprs.no_exprs w = w
  check_args (Exprs.more_exprs arg args) w = check_args args (after_arg arg (check_expr arg w))

  pub arm_checks : Arms → List ArmCheck
  arm_checks Arms.no_arms = []
  arm_checks (Arms.more_arms pattern body span arms) =
      (λ w. check_expr body (inject_arm_bindings pattern w)) ∷ arm_checks arms

  pub check_stmts : Stmts → Checked → Checked
  check_stmts Stmts.no_stmts w = w
  check_stmts (Stmts.more_stmts st sts) w = check_stmts sts (check_stmt st w)

  pub check_stmt : Stmt → Checked → Checked
  check_stmt (Stmt.let_stmt name is_mut ty init span) w =
      after_init name ty init (check_expr init w)
  check_stmt (Stmt.assign target value span) w =
      check_expr target (after_value target value span (check_expr value w))
  check_stmt (Stmt.defer e span) w = check_expr e w
  check_stmt (Stmt.expr_stmt e) w = check_expr e w

-- The context starts afresh.
unfoldable pub check_func : Func → DiagSink → DiagSink
unfolding check_expr register_params
check_func f sink = (check_expr f.body (register_params f.params (new, sink))).1

unfoldable pub check_items : List Item → DiagSink → DiagSink
unfolding check_func
check_items [] sink = sink
check_items (Item.func f ∷ items) sink = check_items items (check_func f sink)
check_items (_ ∷ items) sink = check_items items sink

unfoldable pub check_module : Module → DiagSink → DiagSink
unfolding check_items
check_module m sink = check_items m.items sink
