-- ===== src/TypeCheck/Checker.antt =====
-- stage0/src/frontend/typecheck/checker.rs: the check of expressions and statements.
pub mod Parts
pub mod Noted
pub mod Keeps
use kore_lang.Base.{
  ℕ, suc, Bool, true, false, ◌||◌, ◌&&◌, Option, none, some, any, String, List, [], ◌∷◌,
  if◌then◌else◌,
}
use kore_lang.Base.Dict.{name_eq, is_some}
use kore_lang.Diag.{Span}
use kore_lang.Ast.{
  TypeExpr, Expr, MaybeExpr, Exprs, FieldInits, Arms, Pattern, Stmts, Stmt, span_of,
}
use kore_lang.TypeCheck.Types.{Ty, eqb, i32, f64}
use kore_lang.TypeCheck.Context.{get_struct, get_struct_field, resolve_type_expr}
use kore_lang.TypeCheck.Monad.{
  TypeChecker, Check, pure, ◌>>=◌, ◌>>◌, skip, look, push_scope, pop_scope, define_var, emit_error,
  undefined_name, type_mismatch, internal_compiler_error, demand, expect, enter, with_pos,
  is_unknown,
}
use kore_lang.TypeCheck.Rules.{
  fits, is_assignable, path_ty, call_ty, field_ty, field_code, deref_ty, index_ty, propagate_ty,
  unary_ty, is_arithmetic, is_comparison, is_logical, is_bitwise, arithmetic_ty, bitwise_ty,
  variant_ty, payload_fits, ArmTypes, no_arm_types, note_arm, mixed_arm, or_unknown,
}

unfoldable pub check_binop : String → Ty → Ty → Span → Check Ty
unfolding expect demand eqb arithmetic_ty bitwise_ty any
check_binop op lty rty span =
    if is_arithmetic op
    then expect (arithmetic_ty lty rty) internal_compiler_error span
    else if is_comparison op
    then (do demand (eqb lty rty) internal_compiler_error span; pure Ty.bool)
    else if is_logical op
    then (do demand (eqb lty Ty.bool && eqb rty Ty.bool) internal_compiler_error span; pure Ty.bool)
    else if is_bitwise op
    then expect (bitwise_ty lty rty) internal_compiler_error span
    else pure Ty.unknown

unfoldable pub check_unary : String → Ty → Span → Check Ty
unfolding expect demand eqb is_unknown unary_ty
check_unary op ty span =
    if name_eq op "!"
    then (do demand (eqb ty Ty.bool || is_unknown ty) internal_compiler_error span; pure Ty.bool)
    else expect (unary_ty op ty) internal_compiler_error span

-- What a field of a struct literal must be.
unfoldable pub check_field : Option Ty → Ty → Span → Check (Unit {0})
unfolding demand emit_error fits
check_field none ty span = emit_error undefined_name span
check_field (some expected) ty span = demand (fits ty expected) type_mismatch span

unfoldable pub check_payload : Option (Ty × Ty) → Option Ty → Span → Check Ty
unfolding demand expect payload_fits
check_payload none payload span = expect none internal_compiler_error span
check_payload (some (result, expected)) payload span = do
  demand (payload_fits payload expected) internal_compiler_error span
  pure result

unfoldable pub define_unknown : List String → Check (Unit {0})
unfolding define_var
define_unknown [] = skip
define_unknown (name ∷ names) = do define_var name Ty.unknown; define_unknown names

unfoldable pub inject_pattern_bindings : Pattern → Check (Unit {0})
unfolding define_var define_unknown
inject_pattern_bindings (Pattern.bind name span) = define_var name Ty.unknown
inject_pattern_bindings (Pattern.variant name bindings span) = define_unknown bindings
inject_pattern_bindings _ = skip

unfoldable pub finish_branch : Bool → ArmTypes → Check Ty
unfolding mixed_arm emit_error
finish_branch pos seen = elim (mixed_arm pos seen) [
  | some span ↦ do emit_error type_mismatch span; pure Ty.unknown
  | none ↦ pure (or_unknown seen.unified)
]

-- The type of a new variable: its annotation, which the initial value must fit, or that of the value.
unfoldable pub annotate : Option TypeExpr → Ty → Span → Check Ty
unfolding demand is_assignable resolve_type_expr
annotate none init_ty span = pure init_ty
annotate (some type_expr) init_ty span = do
  c ← look (λ s. s.type_ctx)
  demand (is_assignable init_ty (resolve_type_expr c type_expr)) internal_compiler_error span
  pure (resolve_type_expr c type_expr)

unfoldable pub count_exprs : Exprs → ℕ
count_exprs Exprs.no_exprs = 0
count_exprs (Exprs.more_exprs e es) = suc (count_exprs es)

abbrev pub in_scope : {A : Type 0} → Check A → Check A
in_scope body = do push_scope; a ← body; pop_scope; pure a

-- What a statement does with the checks of its expressions.
unfoldable pub check_let : String → Option TypeExpr → Span → Check Ty → Check (Unit {0})
unfolding annotate define_var
check_let name ty init_span check_init = do
  init_ty ← check_init
  resolved_ty ← annotate ty init_ty init_span
  define_var name resolved_ty

unfoldable pub check_assign : Check Ty → Check Ty → Span → Check (Unit {0})
unfolding demand is_assignable
check_assign check_target check_value span = do
  target_ty ← check_target
  value_ty ← check_value
  demand (is_assignable value_ty target_ty) internal_compiler_error span

-- The flag is set for the check of a value that is dropped, and is not set after it.
unfoldable pub check_dropped : Check Ty → Check (Unit {0})
unfolding with_pos
check_dropped check_value = do with_pos true check_value; with_pos false skip

unfoldable mutual
  unfolding push_scope pop_scope define_var emit_error demand expect enter with_pos check_binop
      check_unary check_field check_payload inject_pattern_bindings finish_branch check_let
      check_assign check_dropped path_ty call_ty field_ty deref_ty index_ty propagate_ty variant_ty
      get_struct get_struct_field span_of note_arm count_exprs fits

  -- The `match` of `check_expr`, after the flag has been taken.
  pub check_kind : Expr → Bool → Check Ty
  check_kind (Expr.int n span) pos = pure i32
  check_kind (Expr.float x span) pos = pure f64
  check_kind (Expr.bool b span) pos = pure Ty.bool
  check_kind (Expr.str text span) pos = pure Ty.str
  check_kind (Expr.nil span) pos = pure Ty.void
  check_kind (Expr.path segments span) pos = look λ s. path_ty s.type_ctx s.var_scopes segments
  check_kind (Expr.binary op lhs rhs span) pos = do
    lty ← enter (check_kind lhs)
    rty ← enter (check_kind rhs)
    check_binop op lty rty span
  check_kind (Expr.call callee args span) pos = do
    func_ty ← enter (check_kind callee)
    check_all args
    pure (call_ty func_ty)
  check_kind (Expr.field base name span) pos = do
    base_ty ← enter (check_kind base)
    c ← look λ s. s.type_ctx
    expect (field_ty c base_ty name) (field_code base_ty) span
  check_kind (Expr.unary op operand span) pos = do
    ty ← enter (check_kind operand)
    check_unary op ty span
  check_kind (Expr.deref inner span) pos = do
    ty ← enter (check_kind inner)
    expect (deref_ty ty) internal_compiler_error span
  check_kind (Expr.index base i span) pos = do
    base_ty ← enter (check_kind base)
    enter (check_kind i)
    expect (index_ty base_ty) internal_compiler_error span
  check_kind (Expr.propagate inner span) pos = do
    ty ← enter (check_kind inner)
    expect (propagate_ty ty) internal_compiler_error span
  check_kind (Expr.block stmts span) pos = in_scope (check_block stmts pos)
  check_kind (Expr.branch scrutinee arms span) pos = do
    check_maybe scrutinee
    seen ← check_arms arms pos no_arm_types
    finish_branch pos seen
  check_kind (Expr.loop label subject body span) pos = do
    check_maybe subject
    enter (check_kind body)
    pure Ty.void
  check_kind (Expr.ret value span) pos = do check_maybe value; pure Ty.never
  check_kind (Expr.stop label span) pos = pure Ty.never
  check_kind (Expr.skip label span) pos = pure Ty.never
  check_kind (Expr.jmp target label span) pos = do check_maybe target; pure Ty.never
  check_kind (Expr.struct_lit name inits span) pos = do
    c ← look λ s. s.type_ctx
    if is_some (get_struct c name)
        then (do check_inits name inits span; pure (Ty.struct name))
        else expect none undefined_name span
  check_kind (Expr.array_lit elements span) pos = check_array elements span
  check_kind (Expr.variant_constructor name payload span) pos = do
    payload_ty ← check_maybe payload
    expected ← look λ s. variant_ty s.type_ctx s.current_return_type name
    check_payload expected payload_ty span

  pub check_maybe : MaybeExpr → Check (Option Ty)
  check_maybe MaybeExpr.no_expr = pure none
  check_maybe (MaybeExpr.an_expr e) = do ty ← enter (check_kind e); pure (some ty)

  pub check_all : Exprs → Check (Unit {0})
  check_all Exprs.no_exprs = skip
  check_all (Exprs.more_exprs e es) = do enter (check_kind e); check_all es

  pub check_inits : String → FieldInits → Span → Check (Unit {0})
  check_inits name FieldInits.no_inits span = skip
  check_inits name (FieldInits.more_inits field e inits) span = do
    ty ← enter (check_kind e)
    expected ← look λ s. get_struct_field s.type_ctx name field
    check_field expected ty span
    check_inits name inits span

  pub check_array : Exprs → Span → Check Ty
  check_array Exprs.no_exprs span = pure Ty.unknown
  check_array (Exprs.more_exprs e es) span = do
    first ← enter (check_kind e)
    check_elements es first span
    pure (Ty.array first (suc (count_exprs es)))

  pub check_elements : Exprs → Ty → Span → Check (Unit {0})
  check_elements Exprs.no_exprs first span = skip
  check_elements (Exprs.more_exprs e es) first span = do
    ty ← enter (check_kind e)
    demand (fits ty first) internal_compiler_error span
    check_elements es first span

  pub check_arms : Arms → Bool → ArmTypes → Check ArmTypes
  check_arms Arms.no_arms pos seen = pure seen
  check_arms (Arms.more_arms pattern body span arms) pos seen = do
    ty ← in_scope (do inject_pattern_bindings pattern; with_pos pos (enter (check_kind body)))
    check_arms arms pos (note_arm ty span seen)

  -- The last statement gives the block its type, where it is an expression.
  pub check_block : Stmts → Bool → Check Ty
  check_block Stmts.no_stmts pos = pure Ty.void
  check_block (Stmts.more_stmts st Stmts.no_stmts) pos = check_tail st pos
  check_block (Stmts.more_stmts st (Stmts.more_stmts st' sts)) pos = do
    check_stmt st
    check_block (Stmts.more_stmts st' sts) pos

  pub check_tail : Stmt → Bool → Check Ty
  check_tail (Stmt.expr_stmt e) pos = with_pos pos (enter (check_kind e))
  check_tail (Stmt.let_stmt name is_mut ty init span) pos = do
    check_let name ty (span_of init) (enter (check_kind init))
    pure Ty.void
  check_tail (Stmt.assign target value span) pos = do
    check_assign (enter (check_kind target)) (enter (check_kind value)) span
    pure Ty.void
  check_tail (Stmt.defer e span) pos = do check_dropped (enter (check_kind e)); pure Ty.void

  pub check_stmt : Stmt → Check (Unit {0})
  check_stmt (Stmt.let_stmt name is_mut ty init span) =
      check_let name ty (span_of init) (enter (check_kind init))
  check_stmt (Stmt.assign target value span) =
      check_assign (enter (check_kind target)) (enter (check_kind value)) span
  check_stmt (Stmt.expr_stmt e) = check_dropped (enter (check_kind e))
  check_stmt (Stmt.defer e span) = check_dropped (enter (check_kind e))

unfoldable pub check_expr : Expr → Check Ty
unfolding enter check_kind
check_expr e = enter (check_kind e)
