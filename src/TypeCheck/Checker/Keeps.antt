-- ===== src/TypeCheck/Checker/Keeps.antt =====
-- The check of an expression leaves the scopes, the definitions and the return type as it found them.
use kore_lang.Base.{suc, Bool, none, some, String}
use kore_lang.Base.Dict.{is_some}
use kore_lang.Diag.{Span}
use kore_lang.Ast.{Pattern, Expr, MaybeExpr, Exprs, FieldInits, Arms, Stmts, Stmt, span_of}
use kore_lang.TypeCheck.Types.{Ty, i32, f64}
use kore_lang.TypeCheck.Context.{get_struct, get_struct_field}
use kore_lang.TypeCheck.Monad.{
  ◌>>◌, enter, TypeChecker, outer, undefined_name, internal_compiler_error, with_pos,
}
use kore_lang.TypeCheck.Monad.Keeps.{
  Kept, Keeps, id_scopes, pure-Keeps, look-Keeps, ◌⟫◌, ◌▹◌, weaken, demand-Keeps, expect-Keeps,
  Takes-Keeps, enter-Takes, in_scope-Keeps,
}
use kore_lang.TypeCheck.Rules.{
  fits, path_ty, call_ty, field_ty, field_code, deref_ty, index_ty, propagate_ty, variant_ty,
  ArmTypes, no_arm_types, note_arm,
}
use kore_lang.TypeCheck.Checker.{
  inject_pattern_bindings, count_exprs, check_kind, check_expr, check_maybe, check_all, check_inits,
  check_array, check_elements, check_arms, check_block, check_tail, check_stmt,
}
use kore_lang.TypeCheck.Checker.Parts.{
  if-Keeps, check_binop-Keeps, check_unary-Keeps, check_field-Keeps, check_payload-Keeps,
  define_unknown-Keeps, inject-Keeps, finish_branch-Keeps, annotate-Keeps, skip-Keeps,
  check_let-Keeps, check_assign-Keeps, check_dropped-Keeps, part_rules,
}

mutual
  unfolding check_kind

  pub kind-Keeps : (e : Expr) (pos : Bool) → Keeps id_scopes (check_kind e pos)
  kind-Keeps (Expr.int n span) pos = pure-Keeps i32
  kind-Keeps (Expr.float x span) pos = pure-Keeps f64
  kind-Keeps (Expr.bool b span) pos = pure-Keeps Ty.bool
  kind-Keeps (Expr.str text span) pos = pure-Keeps Ty.str
  kind-Keeps (Expr.nil span) pos = pure-Keeps Ty.void
  kind-Keeps (Expr.path segments span) pos =
      look-Keeps λ s. path_ty s.type_ctx s.var_scopes segments
  kind-Keeps (Expr.binary op lhs rhs span) pos = Takes-Keeps (enter-Takes (kind-Keeps lhs)) ⟫ λ lty.
      Takes-Keeps (enter-Takes (kind-Keeps rhs)) ⟫ λ rty. check_binop-Keeps op lty rty span
  kind-Keeps (Expr.call callee args span) pos =
      Takes-Keeps (enter-Takes (kind-Keeps callee)) ⟫ λ ty. all-Keeps args ▹ pure-Keeps (call_ty ty)
  kind-Keeps (Expr.field base name span) pos = Takes-Keeps (enter-Takes (kind-Keeps base)) ⟫ λ ty.
      look-Keeps (λ s. s.type_ctx) ⟫ λ c. expect-Keeps (field_ty c ty name) (field_code ty) span
  kind-Keeps (Expr.unary op operand span) pos =
      Takes-Keeps (enter-Takes (kind-Keeps operand)) ⟫ λ ty. check_unary-Keeps op ty span
  kind-Keeps (Expr.deref inner span) pos = Takes-Keeps (enter-Takes (kind-Keeps inner)) ⟫ λ ty.
      expect-Keeps (deref_ty ty) internal_compiler_error span
  kind-Keeps (Expr.index base i span) pos = Takes-Keeps (enter-Takes (kind-Keeps base)) ⟫ λ ty.
      Takes-Keeps (enter-Takes (kind-Keeps i))
      ▹ expect-Keeps (index_ty ty) internal_compiler_error span
  kind-Keeps (Expr.propagate inner span) pos = Takes-Keeps (enter-Takes (kind-Keeps inner)) ⟫ λ ty.
      expect-Keeps (propagate_ty ty) internal_compiler_error span
  kind-Keeps (Expr.block stmts span) pos = in_scope-Keeps (block-Keeps stmts pos)
  kind-Keeps (Expr.branch scrutinee arms span) pos =
      maybe-Keeps scrutinee
      ▹ (arms-Keeps arms pos no_arm_types ⟫ λ seen. finish_branch-Keeps pos seen)
  kind-Keeps (Expr.loop label subject body span) pos =
      maybe-Keeps subject ▹ (Takes-Keeps (enter-Takes (kind-Keeps body)) ▹ pure-Keeps Ty.void)
  kind-Keeps (Expr.ret value span) pos = maybe-Keeps value ▹ pure-Keeps Ty.never
  kind-Keeps (Expr.stop label span) pos = pure-Keeps Ty.never
  kind-Keeps (Expr.skip label span) pos = pure-Keeps Ty.never
  kind-Keeps (Expr.jmp target label span) pos = maybe-Keeps target ▹ pure-Keeps Ty.never
  kind-Keeps (Expr.struct_lit name inits span) pos = look-Keeps (λ s. s.type_ctx) ⟫ λ c.
      if-Keeps (is_some (get_struct c name))
        (inits-Keeps name inits span ▹ pure-Keeps (Ty.struct name))
        (expect-Keeps none undefined_name span)
  kind-Keeps (Expr.array_lit elements span) pos = array-Keeps elements span
  kind-Keeps (Expr.variant_constructor name payload span) pos = maybe-Keeps payload ⟫ λ ty.
      look-Keeps (λ s. variant_ty s.type_ctx s.current_return_type name) ⟫ λ expected.
      check_payload-Keeps expected ty span

  pub maybe-Keeps : (m : MaybeExpr) → Keeps id_scopes (check_maybe m)
  maybe-Keeps MaybeExpr.no_expr = pure-Keeps none
  maybe-Keeps (MaybeExpr.an_expr e) =
      Takes-Keeps (enter-Takes (kind-Keeps e)) ⟫ λ ty. pure-Keeps (some ty)

  pub all-Keeps : (es : Exprs) → Keeps id_scopes (check_all es)
  all-Keeps Exprs.no_exprs = pure-Keeps tt
  all-Keeps (Exprs.more_exprs e es) = Takes-Keeps (enter-Takes (kind-Keeps e)) ▹ all-Keeps es

  pub inits-Keeps :
      (name : String) (inits : FieldInits) (span : Span)
      → Keeps id_scopes (check_inits name inits span)
  inits-Keeps name FieldInits.no_inits span = pure-Keeps tt
  inits-Keeps name (FieldInits.more_inits field e inits) span =
      Takes-Keeps (enter-Takes (kind-Keeps e)) ⟫ λ ty.
      look-Keeps (λ s. get_struct_field s.type_ctx name field) ⟫ λ expected.
      check_field-Keeps expected ty span ▹ inits-Keeps name inits span

  pub array-Keeps : (es : Exprs) (span : Span) → Keeps id_scopes (check_array es span)
  array-Keeps Exprs.no_exprs span = pure-Keeps Ty.unknown
  array-Keeps (Exprs.more_exprs e es) span = Takes-Keeps (enter-Takes (kind-Keeps e)) ⟫ λ first.
      elements-Keeps es first span ▹ pure-Keeps (Ty.array first (suc (count_exprs es)))

  pub elements-Keeps :
      (es : Exprs) (first : Ty) (span : Span) → Keeps id_scopes (check_elements es first span)
  elements-Keeps Exprs.no_exprs first span = pure-Keeps tt
  elements-Keeps (Exprs.more_exprs e es) first span =
      Takes-Keeps (enter-Takes (kind-Keeps e)) ⟫ λ ty.
      demand-Keeps (fits ty first) internal_compiler_error span ▹ elements-Keeps es first span

  pub arms-Keeps :
      (arms : Arms) (pos : Bool) (seen : ArmTypes) → Keeps id_scopes (check_arms arms pos seen)
  arms-Keeps Arms.no_arms pos seen = pure-Keeps seen
  arms-Keeps (Arms.more_arms pattern body span arms) pos seen =
      in_scope-Keeps (inject-Keeps pattern ▹ weaken ((enter-Takes (kind-Keeps body)).for pos))
      ⟫ λ ty. arms-Keeps arms pos (note_arm ty span seen)

  pub block-Keeps : (sts : Stmts) (pos : Bool) → Keeps outer (check_block sts pos)
  block-Keeps Stmts.no_stmts pos = pure-Keeps Ty.void
  block-Keeps (Stmts.more_stmts st Stmts.no_stmts) pos = tail-Keeps st pos
  block-Keeps (Stmts.more_stmts st (Stmts.more_stmts st' sts)) pos =
      stmt-Keeps st ▹ block-Keeps (Stmts.more_stmts st' sts) pos

  pub tail-Keeps : (st : Stmt) (pos : Bool) → Keeps outer (check_tail st pos)
  tail-Keeps (Stmt.expr_stmt e) pos = weaken ((enter-Takes (kind-Keeps e)).for pos)
  tail-Keeps (Stmt.let_stmt name is_mut ty init span) pos =
      check_let-Keeps (enter-Takes (kind-Keeps init)) name ty (span_of init) ▹ pure-Keeps Ty.void
  tail-Keeps (Stmt.assign target value span) pos =
      weaken
        (check_assign-Keeps (enter-Takes (kind-Keeps target)) (enter-Takes (kind-Keeps value)) span)
      ▹ pure-Keeps Ty.void
  tail-Keeps (Stmt.defer e span) pos =
      weaken (check_dropped-Keeps (enter-Takes (kind-Keeps e))) ▹ pure-Keeps Ty.void

  pub stmt-Keeps : (st : Stmt) → Keeps outer (check_stmt st)
  stmt-Keeps (Stmt.let_stmt name is_mut ty init span) =
      check_let-Keeps (enter-Takes (kind-Keeps init)) name ty (span_of init)
  stmt-Keeps (Stmt.assign target value span) =
      weaken
        (check_assign-Keeps (enter-Takes (kind-Keeps target)) (enter-Takes (kind-Keeps value)) span)
  stmt-Keeps (Stmt.expr_stmt e) = weaken (check_dropped-Keeps (enter-Takes (kind-Keeps e)))
  stmt-Keeps (Stmt.defer e span) = weaken (check_dropped-Keeps (enter-Takes (kind-Keeps e)))

-- The check of an arm's body, in the scope of the arm.
pub arm-Keeps :
    (pattern : Pattern) (body : Expr) (pos : Bool)
    → Keeps outer (do inject_pattern_bindings pattern; with_pos pos (enter (check_kind body)))
arm-Keeps pattern body pos = inject-Keeps pattern ▹ weaken ((enter-Takes (kind-Keeps body)).for pos)

-- From any state the check of an expression leaves the scopes, the definitions and the return type that
-- it found, takes no report back and leaves the flag down.
pub check_expr-Kept : (e : Expr) (s : TypeChecker) → Kept id_scopes s (check_expr e s).1
unfolding with_pos check_expr enter
check_expr-Kept e s = ((enter-Takes (kind-Keeps e)).for s.branch_in_stmt_pos).run s

pub ruleset keeps_rules = (
  part_rules, kind-Keeps, maybe-Keeps, all-Keeps, inits-Keeps, array-Keeps, elements-Keeps,
  arms-Keeps, block-Keeps, tail-Keeps, stmt-Keeps,
)
