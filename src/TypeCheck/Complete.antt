-- ===== src/TypeCheck/Complete.antt =====
-- Where the rules give an expression a type, the check returns that type and reports nothing.
mod Parts
use kore_lang.Base.{
  suc, ◌≡◌, ◌↔◌, refl, ◌∙◌, sym, subst, Bool, true, false, not, ◌&&◌, ◌||◌, Option, none, some,
  String, List, [], ◌∷◌, any, inl, inr, Bool-cases, Option-cases, ap, arith, ℕ, if◌then◌else◌,
}
use kore_lang.Base.Dict.{name_eq, is_some}
use kore_lang.Diag.{Span}
use kore_lang.Ast.{
  TypeExpr, Expr, MaybeExpr, Exprs, FieldInits, Arms, Pattern, Stmts, Stmt, span_of,
}
use kore_lang.TypeCheck.Types.{Ty, eqb}
use kore_lang.TypeCheck.Context.{TypeContext, get_struct, get_struct_field, resolve_type_expr}
use kore_lang.TypeCheck.Monad.{
  TypeChecker, Check, pure, ◌>>=◌, ◌>>◌, skip, define_var, define_in, undefined_name, type_mismatch,
  internal_compiler_error, emit_error, push_scope, pop_scope, demand, expect, with_pos, enter,
  is_unknown, outer,
}
use kore_lang.TypeCheck.Monad.Keeps.{Scopes, Keeps, calm, errors}
use kore_lang.TypeCheck.Monad.Yields.{with_scopes}
use kore_lang.TypeCheck.Rules.{
  fits, is_assignable, call_ty, field_code, index_ty, field_ty, unary_ty, deref_ty, propagate_ty,
  is_arithmetic, is_comparison, is_logical, is_bitwise, arithmetic_ty, bitwise_ty, payload_fits,
  ArmTypes, no_arm_types, note_arm, mixed_arm, or_unknown,
}
use kore_lang.TypeCheck.Checker.{
  check_binop, check_unary, check_field, check_payload, inject_pattern_bindings, finish_branch,
  annotate, in_scope, count_exprs, check_let, check_assign, check_dropped, check_kind, check_expr,
  check_maybe, check_all, check_inits, check_array, check_elements, check_arms, check_block,
  check_tail, check_stmt,
}
use kore_lang.TypeCheck.Checker.Keeps.{arm-Keeps, block-Keeps}
use kore_lang.TypeCheck.Checker.Noted.{Noted, unified-Noted, mixed-Noted}
use kore_lang.TypeCheck.Forms.{bind_pattern, branch_ty, is_mixed, binary_ty, is_expr}
use kore_lang.TypeCheck.Typing.{
  Typed, TypedMaybe, TypedAll, TypedInits, TypedElements, TypedArms, TypedBlock, TypedStmt,
}
use kore_lang.TypeCheck.Sound.{check_expr_sound}
use kore_lang.TypeCheck.Sound.Parts.{Annotated, inject-scopes}
use kore_lang.TypeCheck.Complete.Parts.{
  some_injective, expected, demanded, check_binop-binary_ty, finish_branch-fine, last_complete,
  in_scope-same, arm-same, let-same, assign-same,
}

module _ (s : TypeChecker) where
  mutual
    unfolding check_kind enter push_scope pop_scope check_unary check_payload check_field check_let
        check_assign check_dropped define_var with_pos

    kind_complete :
        {e : Expr} {sc : Scopes} {pos : Bool} {t : Ty}
        → Typed s.type_ctx s.current_return_type sc pos e t
        → check_kind e pos (with_scopes s sc) ≡ (t, with_scopes s sc)
    kind_complete Typed.int = refl
    kind_complete Typed.float = refl
    kind_complete Typed.bool = refl
    kind_complete Typed.str = refl
    kind_complete Typed.nil = refl
    kind_complete Typed.path = refl
    kind_complete {sc = sc} (Typed.binary {op = op} {span = span} {t} {u} d d' h) =
        rw (kind_complete d, kind_complete d')
          (check_binop-binary_ty (with_scopes s sc) op t u span h)
    kind_complete (Typed.call d ds) = rw (kind_complete d, all_complete ds) refl
    kind_complete {sc = sc} (Typed.field {name = name} {span} {t} d h) =
        rw (kind_complete d)
          (expected (with_scopes s sc) (field_ty s.type_ctx t name) (field_code t) span h)
    kind_complete {sc = sc} (Typed.not_ {span = span} {t} d bang h) =
        rw
          (
            kind_complete d,
            bang,
            demanded (with_scopes s sc) (eqb t Ty.bool || is_unknown t) internal_compiler_error span
                h,
          )
          refl
    kind_complete {sc = sc} (Typed.minus {op = op} {span = span} {t} d other h) =
        rw (kind_complete d, other)
          (expected (with_scopes s sc) (unary_ty op t) internal_compiler_error span h)
    kind_complete {sc = sc} (Typed.deref {span = span} {t} d h) =
        rw (kind_complete d)
          (expected (with_scopes s sc) (deref_ty t) internal_compiler_error span h)
    kind_complete {sc = sc} (Typed.index {span = span} {t} d d' h) =
        rw (kind_complete d, kind_complete d')
          (expected (with_scopes s sc) (index_ty t) internal_compiler_error span h)
    kind_complete {sc = sc} (Typed.propagate {span = span} {t} d h) =
        rw (kind_complete d)
          (expected (with_scopes s sc) (propagate_ty t) internal_compiler_error span h)
    kind_complete {sc = sc} {pos} {t} (Typed.block {stmts = stmts} d) =
        let (sc', run) = block_complete d in in_scope-same s (block-Keeps stmts pos) run
    kind_complete {sc = sc} {pos} (Typed.branch {tys = tys} dm ds fine) =
        let (seen, run, n) = arms_complete ds no_arm_types in
        rw (maybe_complete dm, run, ← unified-Noted n)
          (finish_branch-fine (with_scopes s sc) pos seen (sym (mixed-Noted pos n) ∙ fine))
    kind_complete (Typed.loop dm d) = rw (maybe_complete dm, kind_complete d) refl
    kind_complete (Typed.ret d) = rw (maybe_complete d) refl
    kind_complete Typed.stop = refl
    kind_complete Typed.skip = refl
    kind_complete (Typed.jmp d) = rw (maybe_complete d) refl
    kind_complete (Typed.struct_lit {span = span} present ds) =
        rw (present, inits_complete span ds) refl
    kind_complete Typed.empty_array = refl
    kind_complete (Typed.array_lit {span = span} d ds) =
        rw (kind_complete d, elements_complete span ds) refl
    kind_complete {sc = sc} (Typed.variant_constructor {span = span} {o} {expected = u} d h fit) =
        rw
          (
            maybe_complete d,
            h,
            demanded (with_scopes s sc) (payload_fits o u) internal_compiler_error span fit,
          )
          refl

    maybe_complete :
        {m : MaybeExpr} {sc : Scopes} {o : Option Ty}
        → TypedMaybe s.type_ctx s.current_return_type sc m o
        → check_maybe m (with_scopes s sc) ≡ (o, with_scopes s sc)
    maybe_complete TypedMaybe.no_expr = refl
    maybe_complete (TypedMaybe.an_expr d) = rw (kind_complete d) refl

    all_complete :
        {es : Exprs} {sc : Scopes}
        → TypedAll s.type_ctx s.current_return_type sc es
        → check_all es (with_scopes s sc) ≡ (tt, with_scopes s sc)
    all_complete TypedAll.no_exprs = refl
    all_complete (TypedAll.more_exprs d ds) = rw (kind_complete d) (all_complete ds)

    inits_complete :
        {name : String} {inits : FieldInits} {sc : Scopes} (span : Span)
        → TypedInits s.type_ctx s.current_return_type sc name inits
        → check_inits name inits span (with_scopes s sc) ≡ (tt, with_scopes s sc)
    inits_complete span TypedInits.no_inits = refl
    inits_complete {sc = sc} span (TypedInits.more_inits {t = t} {expected} d h fit ds) =
        rw
          (kind_complete d, h, demanded (with_scopes s sc) (fits t expected) type_mismatch span fit)
          (inits_complete span ds)

    elements_complete :
        {es : Exprs} {first : Ty} {sc : Scopes} (span : Span)
        → TypedElements s.type_ctx s.current_return_type sc first es
        → check_elements es first span (with_scopes s sc) ≡ (tt, with_scopes s sc)
    elements_complete span TypedElements.no_elements = refl
    elements_complete {first = first} {sc} span (TypedElements.more_elements {t = t} d fit ds) =
        rw
          (
            kind_complete d,
            demanded (with_scopes s sc) (fits t first) internal_compiler_error span fit,
          )
          (elements_complete span ds)

    arms_complete :
        {arms : Arms} {sc : Scopes} {pos : Bool} {tys : List Ty}
        → TypedArms s.type_ctx s.current_return_type sc pos arms tys
        → (seen : ArmTypes)
        → (last : ArmTypes) × (check_arms arms pos seen (with_scopes s sc)
            ≡ (last, with_scopes s sc))
          × Noted seen tys last
    arms_complete TypedArms.no_arms seen = (seen, refl, Noted.noted)
    arms_complete {sc = sc} {pos}
          (TypedArms.more_arms {pattern = pattern} {body} {span} {arms} {t = t} d ds) seen =
        let (last, run, n) = arms_complete ds (note_arm t span seen) in
        let arm =
          in_scope-same s (arm-Keeps pattern body pos)
            (arm-same s pattern body pos ([] ∷ sc) (kind_complete d)) in
        (
          last,
          ap (λ r. check_arms arms pos (note_arm r.0 span seen) r.1) arm ∙ run,
          Noted.note span n,
        )

    block_complete :
        {sts : Stmts} {sc : Scopes} {pos : Bool} {t : Ty}
        → TypedBlock s.type_ctx s.current_return_type sc pos sts t
        → (sc' : Scopes) × (check_block sts pos (with_scopes s sc) ≡ (t, with_scopes s sc'))
    block_complete {sc = sc} TypedBlock.no_stmts = (sc, refl)
    block_complete {sc = sc} (TypedBlock.last_expr d) = (sc, kind_complete d)
    block_complete {sc = sc} {pos} (TypedBlock.last_stmt {sc' = sc'} {st = st} not_expr d) = (
      sc',
      last_complete st pos (with_scopes s sc) (with_scopes s sc') not_expr (stmt_complete d),
    )
    block_complete (TypedBlock.more_stmts d ds) =
        let (sc', run) = block_complete ds in (sc', rw (stmt_complete d) run)

    stmt_complete :
        {st : Stmt} {sc sc' : Scopes}
        → TypedStmt s.type_ctx s.current_return_type sc st sc'
        → check_stmt st (with_scopes s sc) ≡ (tt, with_scopes s sc')
    stmt_complete {sc = sc} (TypedStmt.let_plain {name = name} {init = init} {t = t} d) =
        let-same s name none (span_of init) (enter (check_kind init)) t (kind_complete d) refl
    stmt_complete {sc = sc} (TypedStmt.let_annotated {name = name} {type_expr = te} {init} d h) =
        let-same s name (some te) (span_of init) (enter (check_kind init))
          (resolve_type_expr s.type_ctx te) (kind_complete d) (h, refl)
    stmt_complete (TypedStmt.assign {target = target} {value} {span} d d' h) =
        assign-same s (enter (check_kind target)) (enter (check_kind value)) span (kind_complete d)
          (kind_complete d') h
    stmt_complete (TypedStmt.expr_stmt d) = rw (kind_complete d) refl
    stmt_complete (TypedStmt.defer d) = rw (kind_complete d) refl

  -- An expression has a type by the rules exactly if the check returns the type and leaves the state as
  -- it was, with the flag down.
  pub check_expr_iff :
      (e : Expr) (t : Ty)
      → (check_expr e s ≡ (t, calm s))
        ↔ Typed s.type_ctx s.current_return_type s.var_scopes s.branch_in_stmt_pos e t
  unfolding check_expr enter
  check_expr_iff e t = (
    (λ run.
        let (_, d) = check_expr_sound s e (ap (λ r. errors r.1) run) in
        subst (λ u. Typed s.type_ctx s.current_return_type s.var_scopes s.branch_in_stmt_pos e u)
          (ap (λ r. r.0) run) d),
    kind_complete,
  )
