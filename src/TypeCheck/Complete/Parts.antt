-- ===== src/TypeCheck/Complete/Parts.antt =====
-- Checks of the parts of a form that hold, and so leave the state as it was.
use kore_lang.Base.{
  ◌≡◌, refl, ◌∙◌, sym, Bool, true, false, not, ◌&&◌, Option, none, some, String, [], ◌∷◌, ap, arith,
  ℕ, if◌then◌else◌,
}
use kore_lang.Base.Dict.{is_some}
use kore_lang.Diag.{Span}
use kore_lang.Ast.{TypeExpr, Expr, Pattern, Stmt}
use kore_lang.TypeCheck.Types.{Ty, eqb}
use kore_lang.TypeCheck.Context.{resolve_type_expr}
use kore_lang.TypeCheck.Monad.{
  TypeChecker, Check, pure, ◌>>=◌, ◌>>◌, define_var, define_in, type_mismatch,
  internal_compiler_error, emit_error, push_scope, pop_scope, demand, expect, with_pos, enter,
  outer,
}
use kore_lang.TypeCheck.Monad.Keeps.{Scopes, Keeps}
use kore_lang.TypeCheck.Monad.Yields.{with_scopes}
use kore_lang.TypeCheck.Rules.{
  is_assignable, is_arithmetic, is_comparison, is_logical, is_bitwise, arithmetic_ty, bitwise_ty,
  ArmTypes, mixed_arm, or_unknown,
}
use kore_lang.TypeCheck.Checker.{
  check_binop, inject_pattern_bindings, finish_branch, annotate, in_scope, check_let, check_assign,
  check_kind, check_tail, check_stmt,
}
use kore_lang.TypeCheck.Forms.{bind_pattern, binary_ty, is_expr}
use kore_lang.TypeCheck.Sound.Parts.{Annotated, inject-scopes}

pub some_injective : (t : Ty) {u : Ty} → some t ≡ some u → t ≡ u
some_injective t h = ap (λ o. or_unknown o) h

module _ (at_rest : TypeChecker) where
  record Same (m : Check Ty) (t : Ty) : Type 0 where
    run : m at_rest ≡ (t, at_rest)

  if-Same :
      (b : Bool) {m n : Check Ty} {o o' : Option Ty} {t : Ty}
      → (o ≡ some t → Same m t)
      → (o' ≡ some t → Same n t)
      → (if b then o else o') ≡ some t
      → Same (if b then m else n) t
  if-Same true hm hn = hm
  if-Same false hm hn = hn

  pub expected :
      (o : Option Ty) {t : Ty} (code : ℕ) (span : Span)
      → o ≡ some t
      → expect o code span at_rest ≡ (t, at_rest)
  unfolding expect
  expected none code span h = absurd (ground (arith, h))
  expected (some u) code span h = ap (λ v. (v, at_rest)) (some_injective u h)

  tested :
      (ok : Bool) {t : Ty} (span : Span)
      → (if ok then some Ty.bool else none) ≡ some t
      → (do demand ok internal_compiler_error span; pure Ty.bool) at_rest ≡ (t, at_rest)
  unfolding demand
  tested true span h = ap (λ v. (v, at_rest)) (some_injective Ty.bool h)
  tested false span h = absurd (ground (arith, h))

  pub demanded :
      (ok : Bool) (code : ℕ) (span : Span) → ok ≡ true → demand ok code span at_rest ≡ (tt, at_rest)
  unfolding demand
  demanded true code span h = refl
  demanded false code span h = absurd (ground (arith, h))

  pub check_binop-binary_ty :
      (op : String) (t u : Ty) {v : Ty} (span : Span)
      → binary_ty op t u ≡ some v
      → check_binop op t u span at_rest ≡ (v, at_rest)
  unfolding check_binop binary_ty
  check_binop-binary_ty op t u span h =
      (if-Same (is_arithmetic op)
        (λ e. record { run = expected (arithmetic_ty t u) internal_compiler_error span e })
        (if-Same (is_comparison op) (λ e. record { run = tested (eqb t u) span e })
          (if-Same (is_logical op)
            (λ e. record { run = tested (eqb t Ty.bool && eqb u Ty.bool) span e })
            (if-Same (is_bitwise op)
              (λ e. record { run = expected (bitwise_ty t u) internal_compiler_error span e })
              (λ e. record { run = ap (λ v. (v, at_rest)) (some_injective Ty.unknown e) }))))
        h).run

  pub finish_branch-fine :
      (pos : Bool) (seen : ArmTypes)
      → not (is_some (mixed_arm pos seen)) ≡ true
      → finish_branch pos seen at_rest ≡ (or_unknown seen.unified, at_rest)
  unfolding finish_branch
  finish_branch-fine pos seen = go (mixed_arm pos seen)
    where
      go :
          (mixed : Option Span)
          → not (is_some mixed) ≡ true
          → (elim mixed as (λ _. Check Ty) [
            | some span ↦ do emit_error type_mismatch span; pure Ty.unknown
            | none ↦ pure (or_unknown seen.unified)
          ])
              at_rest
            ≡ (or_unknown seen.unified, at_rest)
      go none h = refl
      go (some span) h = absurd (ground (arith, h))

-- A last statement that is no expression.
pub last_complete :
    (st : Stmt) (pos : Bool) (s s' : TypeChecker)
    → is_expr st ≡ false
    → check_stmt st s ≡ (tt, s')
    → check_tail st pos s ≡ (Ty.void, s')
unfolding check_kind
last_complete (Stmt.expr_stmt e) pos s s' h run = absurd (ground (arith, h))
last_complete (Stmt.let_stmt name is_mut ty init span) pos s s' h run = ap (λ r. (Ty.void, r.1)) run
last_complete (Stmt.assign target value span) pos s s' h run = ap (λ r. (Ty.void, r.1)) run
last_complete (Stmt.defer e span) pos s s' h run = ap (λ r. (Ty.void, r.1)) run

module _ (s : TypeChecker) where
  -- A step that keeps the outer scopes leaves them under its own.
  pub in_scope-same :
      {A : Type 0} {m : Check A} {a : A} {sc sc' : Scopes}
      → Keeps outer m
      → m (with_scopes s ([] ∷ sc)) ≡ (a, with_scopes s sc')
      → in_scope m (with_scopes s sc) ≡ (a, with_scopes s sc)
  unfolding push_scope pop_scope outer
  in_scope-same {a = a} {sc} {sc'} keeps run =
      let kept = (keeps.run (with_scopes s ([] ∷ sc))).scopes in
      let e : outer sc' ≡ sc = ap (λ r. outer r.1.var_scopes) (sym run) ∙ kept in
      ap (λ r. (r.0, record r.1 { var_scopes = outer r.1.var_scopes })) run
      ∙ ap (λ scopes. (a, with_scopes s scopes)) e

  pub arm-same :
      (pattern : Pattern) (body : Expr) (pos : Bool) {t : Ty} (sc : Scopes)
      → check_kind body pos (with_scopes s (bind_pattern pattern sc))
        ≡ (t, with_scopes s (bind_pattern pattern sc))
      → (do inject_pattern_bindings pattern; with_pos pos (enter (check_kind body)))
          (with_scopes s sc)
        ≡ (t, with_scopes s (bind_pattern pattern sc))
  unfolding with_pos enter
  arm-same pattern body pos {t} sc run =
      ap (λ r. with_pos pos (enter (check_kind body)) r.1)
        (inject-scopes pattern (with_scopes s sc))
      ∙ run

  annotate-same :
      (ty : Option TypeExpr) (t : Ty) (v : Ty) (span : Span) (sc : Scopes)
      → Annotated s.type_ctx ty t v
      → annotate ty t span (with_scopes s sc) ≡ (v, with_scopes s sc)
  unfolding annotate
  annotate-same none t v span sc h = ap (λ u. (u, with_scopes s sc)) (sym h)
  annotate-same (some te) t v span sc (h, e) =
      let run =
        demanded (with_scopes s sc) (is_assignable t (resolve_type_expr s.type_ctx te))
          internal_compiler_error span h in
      ap (λ r. (resolve_type_expr s.type_ctx te, r.1)) run ∙ ap (λ u. (u, with_scopes s sc)) (sym e)

  pub let-same :
      (name : String) (ty : Option TypeExpr) (span : Span) (m : Check Ty) {t : Ty} (v : Ty)
      {sc : Scopes}
      → m (with_scopes s sc) ≡ (t, with_scopes s sc)
      → Annotated s.type_ctx ty t v
      → check_let name ty span m (with_scopes s sc) ≡ (tt, with_scopes s (define_in name v sc))
  unfolding check_let define_var
  let-same name ty span m {t} v {sc} run h =
      ap (λ r. (do resolved ← annotate ty r.0 span; define_var name resolved) r.1) run
      ∙ ap (λ r. define_var name r.0 r.1) (annotate-same ty t v span sc h)

  pub assign-same :
      (m n : Check Ty) (span : Span) {t u : Ty} {sc : Scopes}
      → m (with_scopes s sc) ≡ (t, with_scopes s sc)
      → n (with_scopes s sc) ≡ (u, with_scopes s sc)
      → is_assignable u t ≡ true
      → check_assign m n span (with_scopes s sc) ≡ (tt, with_scopes s sc)
  unfolding check_assign
  assign-same m n span {t} {u} {sc} run run' h =
      let after : Ty → Ty → Check (Unit {0}) =
        λ x y. demand (is_assignable y x) internal_compiler_error span in
      ap (λ r. (do value_ty ← n; after r.0 value_ty) r.1) run
      ∙ ap (λ r. after t r.0 r.1) run'
      ∙ demanded (with_scopes s sc) (is_assignable u t) internal_compiler_error span h
