-- ===== src/TypeCheck/Sound.antt =====
-- Where the check reports nothing, the rules give the type that it returns.
pub mod Parts
mod Checks
use kore_lang.Base.{
  suc, ◌≡◌, refl, ◌∙◌, sym, subst, Bool, true, false, not, ◌&&◌, ◌||◌, Option, none, some, String,
  List, [], ◌∷◌, any, inl, inr, Bool-cases, Option-cases, ap, arith, ℕ, if◌then◌else◌,
}
use kore_lang.Base.Dict.{name_eq, is_some}
use kore_lang.Diag.{Span}
use kore_lang.Ast.{
  TypeExpr, Expr, MaybeExpr, Exprs, FieldInits, Arms, Pattern, Stmts, Stmt, span_of,
}
use kore_lang.TypeCheck.Types.{Ty, eqb}
use kore_lang.TypeCheck.Context.{TypeContext, get_struct, get_struct_field, resolve_type_expr}
use kore_lang.TypeCheck.Monad.{
  TypeChecker, Check, pure, ◌>>=◌, ◌>>◌, define_var, define_in, undefined_name, type_mismatch,
  internal_compiler_error, emit_error, skip, demand, expect, enter, with_pos, is_unknown, outer,
}
use kore_lang.TypeCheck.Monad.Keeps.{
  errors, calm, Scopes, Keeps, Takes, enter-Takes, Takes-Keeps, weaken, ◌⟫◌, in_scope-Keeps,
  pure-Keeps, define_var-Keeps,
}
use kore_lang.TypeCheck.Monad.Yields.{
  Yields, pure-Yields, look-Yields, bind-Yields, over-Yields, then-Yields, map-Yields, enter-Yields,
  with_pos-Yields, in_scope-Yields, demand-Yields, expect-Yields, reported, with_scopes,
}
use kore_lang.TypeCheck.Rules.{
  fits, is_assignable, path_ty, call_ty, field_ty, field_code, deref_ty, index_ty, propagate_ty,
  unary_ty, is_arithmetic, is_comparison, is_logical, is_bitwise, arithmetic_ty, bitwise_ty,
  variant_ty, payload_fits, ArmTypes, no_arm_types, note_arm, mixed_arm, or_unknown,
}
use kore_lang.TypeCheck.Checker.{
  check_binop, check_unary, check_field, check_payload, define_unknown, inject_pattern_bindings,
  finish_branch, annotate, check_let, check_assign, check_dropped, count_exprs, check_kind,
  check_expr, check_maybe, check_all, check_inits, check_array, check_elements, check_arms,
  check_block, check_tail, check_stmt,
}
use kore_lang.TypeCheck.Checker.Parts.{annotate-Keeps, inject-Keeps, part_rules}
use kore_lang.TypeCheck.Checker.Keeps.{
  kind-Keeps, arm-Keeps, arms-Keeps, block-Keeps, stmt-Keeps, keeps_rules,
}
use kore_lang.TypeCheck.Checker.Noted.{Noted, unified-Noted, mixed-Noted}
use kore_lang.TypeCheck.Forms.{define_names, bind_pattern, branch_ty, is_mixed, binary_ty, is_expr}
use kore_lang.TypeCheck.Typing.{
  Typed, TypedMaybe, TypedAll, TypedInits, TypedElements, TypedArms, TypedBlock, TypedStmt,
}
use kore_lang.TypeCheck.Sound.Parts.{
  Annotated, checked, check_binop-Yields, check_field-Yields, check_payload-Yields,
  finish_branch-Yields, annotate-Yields, inject-Yields, define_var-Yields, dropped-Yields,
  demand-scopes,
}
use kore_lang.TypeCheck.Sound.Checks.{check_unary-Yields, struct_sound, let-Yields, assign-Yields}

module _ (s : TypeChecker) where
  mutual
    unfolding check_kind

    kind_sound :
        (e : Expr) (sc : Scopes) (pos : Bool)
        → Yields s sc (check_kind e pos) (λ t _. Typed s.type_ctx s.current_return_type sc pos e t)
    kind_sound (Expr.int n span) sc pos = pure-Yields _ Typed.int
    kind_sound (Expr.float x span) sc pos = pure-Yields _ Typed.float
    kind_sound (Expr.bool b span) sc pos = pure-Yields _ Typed.bool
    kind_sound (Expr.str text span) sc pos = pure-Yields _ Typed.str
    kind_sound (Expr.nil span) sc pos = pure-Yields _ Typed.nil
    kind_sound (Expr.path segments span) sc pos = look-Yields _ Typed.path
    kind_sound (Expr.binary op lhs rhs span) sc pos =
        then-Yields (search keeps_rules) (λ t. search keeps_rules)
          (enter-Yields (kind_sound lhs sc))
          (λ t dl.
            then-Yields (search keeps_rules) (λ u. search keeps_rules)
              (enter-Yields (kind_sound rhs sc))
              (λ u dr.
                map-Yields (λ v sc' h. Typed.binary dl dr h) (check_binop-Yields op t u span)))
    kind_sound (Expr.call callee args span) sc pos =
        then-Yields (search keeps_rules) (λ _. search keeps_rules)
          (enter-Yields (kind_sound callee sc))
          (λ t d.
            then-Yields (search keeps_rules) (λ _. search keeps_rules) (all_sound args sc)
              (λ _ ds. pure-Yields (call_ty t) (Typed.call d ds)))
    kind_sound (Expr.field base name span) sc pos =
        then-Yields (search keeps_rules) (λ _. search keeps_rules)
          (enter-Yields (kind_sound base sc))
          (λ t d.
            then-Yields (search keeps_rules) (λ _. search keeps_rules)
              (look-Yields {R = λ c _. c ≡ s.type_ctx} (λ u. u.type_ctx) refl)
              (λ c e.
                map-Yields (λ u sc' h. Typed.field d (rw e at h))
                  (expect-Yields (field_ty c t name) (field_code t) span)))
    kind_sound (Expr.unary op operand span) sc pos =
        then-Yields (search keeps_rules) (λ _. search keeps_rules)
          (enter-Yields (kind_sound operand sc)) (λ t d. check_unary-Yields op t span d pos)
    kind_sound (Expr.deref inner span) sc pos =
        then-Yields (search keeps_rules) (λ _. search keeps_rules)
          (enter-Yields (kind_sound inner sc))
          (λ t d.
            map-Yields (λ u sc' h. Typed.deref d h)
              (expect-Yields (deref_ty t) internal_compiler_error span))
    kind_sound (Expr.index base i span) sc pos =
        then-Yields (search keeps_rules) (λ _. search keeps_rules)
          (enter-Yields (kind_sound base sc))
          (λ t d.
            then-Yields (search keeps_rules) (λ _. search keeps_rules)
              (enter-Yields (kind_sound i sc))
              (λ _ d'.
                map-Yields (λ u sc' h. Typed.index d d' h)
                  (expect-Yields (index_ty t) internal_compiler_error span)))
    kind_sound (Expr.propagate inner span) sc pos =
        then-Yields (search keeps_rules) (λ _. search keeps_rules)
          (enter-Yields (kind_sound inner sc))
          (λ t d.
            map-Yields (λ u sc' h. Typed.propagate d h)
              (expect-Yields (propagate_ty t) internal_compiler_error span))
    kind_sound (Expr.block stmts span) sc pos =
        map-Yields (λ t sc' d. Typed.block d)
          (in_scope-Yields (block-Keeps stmts pos) (block_sound stmts ([] ∷ sc) pos))
    kind_sound (Expr.branch scrutinee arms span) sc pos =
        then-Yields (search keeps_rules) (λ _. search keeps_rules) (maybe_sound scrutinee sc)
          (λ o dm.
            then-Yields (search keeps_rules) (λ _. search keeps_rules)
              (arms_sound arms sc pos no_arm_types)
              (λ seen (tys, ds, n).
                map-Yields
                  (λ t sc' (fine, e).
                    rw (e, unified-Noted n) (Typed.branch dm ds (mixed-Noted pos n ∙ fine)))
                  (finish_branch-Yields pos seen)))
    kind_sound (Expr.loop label subject body span) sc pos =
        then-Yields (search keeps_rules) (λ _. search keeps_rules) (maybe_sound subject sc)
          (λ o dm.
            then-Yields (search keeps_rules) (λ _. search keeps_rules)
              (enter-Yields (kind_sound body sc)) (λ t d. pure-Yields Ty.void (Typed.loop dm d)))
    kind_sound (Expr.ret value span) sc pos =
        then-Yields (search keeps_rules) (λ _. search keeps_rules) (maybe_sound value sc)
          (λ o d. pure-Yields Ty.never (Typed.ret d))
    kind_sound (Expr.stop label span) sc pos = pure-Yields _ Typed.stop
    kind_sound (Expr.skip label span) sc pos = pure-Yields _ Typed.skip
    kind_sound (Expr.jmp target label span) sc pos =
        then-Yields (search keeps_rules) (λ _. search keeps_rules) (maybe_sound target sc)
          (λ o d. pure-Yields Ty.never (Typed.jmp d))
    kind_sound (Expr.struct_lit name inits span) sc pos =
        then-Yields (search keeps_rules) (λ _. search keeps_rules)
          (look-Yields {R = λ c _. c ≡ s.type_ctx} (λ u. u.type_ctx) refl)
          (λ c e. struct_sound name inits span c e (inits_sound name inits span sc) pos)
    kind_sound (Expr.array_lit Exprs.no_exprs span) sc pos =
        pure-Yields Ty.unknown Typed.empty_array
    kind_sound (Expr.array_lit (Exprs.more_exprs e es) span) sc pos =
        then-Yields (search keeps_rules) (λ _. search keeps_rules) (enter-Yields (kind_sound e sc))
          (λ t d.
            then-Yields (search keeps_rules) (λ _. search keeps_rules) (elements_sound es t span sc)
              (λ _ ds. pure-Yields (Ty.array t (suc (count_exprs es))) (Typed.array_lit d ds)))
    kind_sound (Expr.variant_constructor name payload span) sc pos =
        then-Yields (search keeps_rules) (λ _. search keeps_rules) (maybe_sound payload sc)
          (λ o d.
            then-Yields (search keeps_rules) (λ _. search keeps_rules)
              (look-Yields {R = λ v _. v ≡ variant_ty s.type_ctx s.current_return_type name}
                (λ u. variant_ty u.type_ctx u.current_return_type name) refl)
              (λ v e.
                map-Yields (λ t sc' (u, h, fit). Typed.variant_constructor d (sym e ∙ h) fit)
                  (check_payload-Yields v o span)))

    maybe_sound :
        (m : MaybeExpr) (sc : Scopes)
        → Yields s sc (check_maybe m) (λ o _. TypedMaybe s.type_ctx s.current_return_type sc m o)
    maybe_sound MaybeExpr.no_expr sc = pure-Yields none TypedMaybe.no_expr
    maybe_sound (MaybeExpr.an_expr e) sc =
        then-Yields (search keeps_rules) (λ _. search keeps_rules) (enter-Yields (kind_sound e sc))
          (λ t d. pure-Yields (some t) (TypedMaybe.an_expr d))

    all_sound :
        (es : Exprs) (sc : Scopes)
        → Yields s sc (check_all es) (λ _ _. TypedAll s.type_ctx s.current_return_type sc es)
    all_sound Exprs.no_exprs sc = pure-Yields tt TypedAll.no_exprs
    all_sound (Exprs.more_exprs e es) sc =
        then-Yields (search keeps_rules) (λ _. search keeps_rules) (enter-Yields (kind_sound e sc))
          (λ t d. map-Yields (λ _ sc' ds. TypedAll.more_exprs d ds) (all_sound es sc))

    inits_sound :
        (name : String) (inits : FieldInits) (span : Span) (sc : Scopes)
        → Yields s sc
            (check_inits name inits span)
            (λ _ _. TypedInits s.type_ctx s.current_return_type sc name inits)
    inits_sound name FieldInits.no_inits span sc = pure-Yields tt TypedInits.no_inits
    inits_sound name (FieldInits.more_inits field e inits) span sc =
        then-Yields (search keeps_rules) (λ _. search keeps_rules) (enter-Yields (kind_sound e sc))
          (λ t d.
            then-Yields (search keeps_rules) (λ _. search keeps_rules)
              (look-Yields {R = λ v _. v ≡ get_struct_field s.type_ctx name field}
                (λ u. get_struct_field u.type_ctx name field) refl)
              (λ v e.
                then-Yields (search keeps_rules) (λ _. search keeps_rules)
                  (check_field-Yields v t span)
                  (λ _ (u, h, fit).
                    map-Yields (λ _ sc' ds. TypedInits.more_inits d (sym e ∙ h) fit ds)
                      (inits_sound name inits span sc))))

    elements_sound :
        (es : Exprs) (first : Ty) (span : Span) (sc : Scopes)
        → Yields s sc
            (check_elements es first span)
            (λ _ _. TypedElements s.type_ctx s.current_return_type sc first es)
    elements_sound Exprs.no_exprs first span sc = pure-Yields tt TypedElements.no_elements
    elements_sound (Exprs.more_exprs e es) first span sc =
        then-Yields (search keeps_rules) (λ _. search keeps_rules) (enter-Yields (kind_sound e sc))
          (λ t d.
            then-Yields (search keeps_rules) (λ _. search keeps_rules)
              (demand-Yields (fits t first) internal_compiler_error span)
              (λ _ fit.
                map-Yields (λ _ sc' ds. TypedElements.more_elements d fit ds)
                  (elements_sound es first span sc)))

    arms_sound :
        (arms : Arms) (sc : Scopes) (pos : Bool) (seen : ArmTypes)
        → Yields s sc (check_arms arms pos seen) (λ last _.
          (tys : List Ty) × TypedArms s.type_ctx s.current_return_type sc pos arms tys
          × Noted seen tys last)
    arms_sound Arms.no_arms sc pos seen = pure-Yields seen ([], TypedArms.no_arms, Noted.noted)
    arms_sound (Arms.more_arms pattern body span arms) sc pos seen =
        then-Yields (in_scope-Keeps (arm-Keeps pattern body pos))
          (λ t. arms-Keeps arms pos (note_arm t span seen))
          (in_scope-Yields (arm-Keeps pattern body pos) (
            bind-Yields (inject-Keeps pattern)
              (λ _. weaken ((enter-Takes (kind-Keeps body)).for pos)) (inject-Yields pattern)
              (λ _ sc' e.
                rw e (with_pos-Yields (kind_sound body (bind_pattern pattern ([] ∷ sc))) pos))))
          (λ t d.
            map-Yields
              (λ last sc' (tys, ds, n). (t ∷ tys, TypedArms.more_arms d ds, Noted.note span n))
              (arms_sound arms sc pos (note_arm t span seen)))

    block_sound :
        (sts : Stmts) (sc : Scopes) (pos : Bool)
        → Yields s sc
            (check_block sts pos)
            (λ t _. TypedBlock s.type_ctx s.current_return_type sc pos sts t)
    block_sound Stmts.no_stmts sc pos = pure-Yields Ty.void TypedBlock.no_stmts
    block_sound (Stmts.more_stmts st Stmts.no_stmts) sc pos = tail_sound st sc pos
    block_sound (Stmts.more_stmts st (Stmts.more_stmts st' sts)) sc pos =
        bind-Yields (search keeps_rules) (λ _. search keeps_rules) (stmt_sound st sc)
          (λ _ sc' d.
            map-Yields (λ t sc'' ds. TypedBlock.more_stmts d ds)
              (block_sound (Stmts.more_stmts st' sts) sc' pos))

    tail_sound :
        (st : Stmt) (sc : Scopes) (pos : Bool)
        → Yields s sc (check_tail st pos) (λ t _.
          TypedBlock s.type_ctx s.current_return_type sc pos (Stmts.more_stmts st Stmts.no_stmts) t)
    tail_sound (Stmt.expr_stmt e) sc pos =
        map-Yields (λ t sc' d. TypedBlock.last_expr d) (with_pos-Yields (kind_sound e sc) pos)
    tail_sound (Stmt.let_stmt name is_mut ty init span) sc pos =
        bind-Yields (search keeps_rules) (λ _. search keeps_rules)
          (let-Yields name is_mut ty init span (enter-Takes (kind-Keeps init))
            (enter-Yields (kind_sound init sc)))
          (λ _ sc' d. pure-Yields Ty.void (TypedBlock.last_stmt refl d))
    tail_sound (Stmt.assign target value span) sc pos =
        bind-Yields (stmt-Keeps (Stmt.assign target value span)) (λ _. pure-Keeps Ty.void)
          (assign-Yields target value span (enter-Takes (kind-Keeps target))
            (enter-Takes (kind-Keeps value)) (enter-Yields (kind_sound target sc))
            (enter-Yields (kind_sound value sc)))
          (λ _ sc' d. pure-Yields Ty.void (TypedBlock.last_stmt refl d))
    tail_sound (Stmt.defer e span) sc pos =
        bind-Yields (stmt-Keeps (Stmt.defer e span)) (λ _. pure-Keeps Ty.void)
          (dropped-Yields (enter-Takes (kind-Keeps e)) (with_pos-Yields (kind_sound e sc) true))
          (λ _ sc' (_, (t, d)). pure-Yields Ty.void (TypedBlock.last_stmt refl (TypedStmt.defer d)))

    stmt_sound :
        (st : Stmt) (sc : Scopes)
        → Yields s sc
            (check_stmt st)
            (λ _ sc'. TypedStmt s.type_ctx s.current_return_type sc st sc')
    stmt_sound (Stmt.let_stmt name is_mut ty init span) sc =
        let-Yields name is_mut ty init span (enter-Takes (kind-Keeps init))
          (enter-Yields (kind_sound init sc))
    stmt_sound (Stmt.assign target value span) sc =
        assign-Yields target value span (enter-Takes (kind-Keeps target))
          (enter-Takes (kind-Keeps value)) (enter-Yields (kind_sound target sc))
          (enter-Yields (kind_sound value sc))
    stmt_sound (Stmt.expr_stmt e) sc =
        map-Yields (λ _ sc' (same, (t, d)). rw same (TypedStmt.expr_stmt d))
          (dropped-Yields (enter-Takes (kind-Keeps e)) (with_pos-Yields (kind_sound e sc) true))
    stmt_sound (Stmt.defer e span) sc =
        map-Yields (λ _ sc' (same, (t, d)). rw same (TypedStmt.defer d))
          (dropped-Yields (enter-Takes (kind-Keeps e)) (with_pos-Yields (kind_sound e sc) true))

  -- A check that adds no error to those of the state returns the type that the rules give, and leaves the
  -- state as it was, with the flag down.
  pub check_expr_sound :
      (e : Expr)
      → errors (check_expr e s).1 ≡ errors s
      → (check_expr e s ≡ ((check_expr e s).0, calm s))
        × Typed s.type_ctx s.current_return_type s.var_scopes s.branch_in_stmt_pos e
            (check_expr e s).0
  unfolding check_expr enter
  check_expr_sound e quiet =
      let (same, d) = (kind_sound e s.var_scopes s.branch_in_stmt_pos).run quiet in
      let kept = (kind-Keeps e s.branch_in_stmt_pos).run s in
      let t = (check_expr e s).0 in (ap (λ u. (t, u)) (same ∙ ap (with_scopes s) kept.scopes), d)
