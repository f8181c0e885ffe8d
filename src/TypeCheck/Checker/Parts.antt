-- ===== src/TypeCheck/Checker/Parts.antt =====
-- What the check of each form does besides checking its parts keeps scopes, definitions and reports.
use kore_lang.Base.{
  Bool, true, false, Option, none, some, String, List, [], ◌∷◌, ◌&&◌, ◌||◌, if◌then◌else◌,
}
use kore_lang.Base.Dict.{name_eq}
use kore_lang.Diag.{Span}
use kore_lang.Ast.{TypeExpr, Pattern}
use kore_lang.TypeCheck.Types.{Ty, eqb}
use kore_lang.TypeCheck.Context.{resolve_type_expr}
use kore_lang.TypeCheck.Monad.{
  Check, pure, ◌>>◌, skip, outer, emit_error, undefined_name, type_mismatch,
  internal_compiler_error, with_pos, is_unknown,
}
use kore_lang.TypeCheck.Monad.Keeps.{
  Kept, Keeps, Takes, id_scopes, pure-Keeps, look-Keeps, ◌⟫◌, ◌▹◌, weaken, emit_error-Keeps,
  demand-Keeps, expect-Keeps, Takes-Keeps, enter-Takes, in_scope-Keeps, define_var-Keeps,
}
use kore_lang.TypeCheck.Rules.{
  fits, is_assignable, unary_ty, is_arithmetic, is_comparison, is_logical, is_bitwise,
  arithmetic_ty, bitwise_ty, payload_fits, ArmTypes, mixed_arm, or_unknown,
}
use kore_lang.TypeCheck.Checker.{
  check_binop, check_unary, check_field, check_payload, define_unknown, inject_pattern_bindings,
  finish_branch, annotate, check_let, check_assign, check_dropped,
}

pub if-Keeps :
    {A : Type 0} (b : Bool) {m n : Check A}
    → Keeps id_scopes m
    → Keeps id_scopes n
    → Keeps id_scopes (if b then m else n)
if-Keeps true hm hn = hm
if-Keeps false hm hn = hn

pub check_binop-Keeps :
    (op : String) (lty rty : Ty) (span : Span) → Keeps id_scopes (check_binop op lty rty span)
unfolding check_binop
check_binop-Keeps op lty rty span =
    if-Keeps (is_arithmetic op) (expect-Keeps (arithmetic_ty lty rty) internal_compiler_error span)
      (if-Keeps (is_comparison op)
        (demand-Keeps (eqb lty rty) internal_compiler_error span ▹ pure-Keeps Ty.bool)
        (if-Keeps (is_logical op)
          (demand-Keeps (eqb lty Ty.bool && eqb rty Ty.bool) internal_compiler_error span
            ▹ pure-Keeps Ty.bool)
          (if-Keeps (is_bitwise op) (expect-Keeps (bitwise_ty lty rty) internal_compiler_error span)
            (pure-Keeps Ty.unknown))))

pub check_unary-Keeps :
    (op : String) (ty : Ty) (span : Span) → Keeps id_scopes (check_unary op ty span)
unfolding check_unary
check_unary-Keeps op ty span =
    if-Keeps (name_eq op "!")
      (demand-Keeps (eqb ty Ty.bool || is_unknown ty) internal_compiler_error span
        ▹ pure-Keeps Ty.bool)
      (expect-Keeps (unary_ty op ty) internal_compiler_error span)

pub check_field-Keeps :
    (expected : Option Ty) (ty : Ty) (span : Span) → Keeps id_scopes (check_field expected ty span)
unfolding check_field
check_field-Keeps none ty span = emit_error-Keeps undefined_name span
check_field-Keeps (some expected) ty span = demand-Keeps (fits ty expected) type_mismatch span

pub check_payload-Keeps :
    (expected : Option (Ty × Ty)) (payload : Option Ty) (span : Span)
    → Keeps id_scopes (check_payload expected payload span)
unfolding check_payload
check_payload-Keeps none payload span = expect-Keeps none internal_compiler_error span
check_payload-Keeps (some (result, expected)) payload span =
    demand-Keeps (payload_fits payload expected) internal_compiler_error span ▹ pure-Keeps result

pub define_unknown-Keeps : (names : List String) → Keeps outer (define_unknown names)
unfolding define_unknown
define_unknown-Keeps [] = pure-Keeps tt
define_unknown-Keeps (name ∷ names) = define_var-Keeps name Ty.unknown ▹ define_unknown-Keeps names

pub inject-Keeps : (pattern : Pattern) → Keeps outer (inject_pattern_bindings pattern)
unfolding inject_pattern_bindings
inject-Keeps (Pattern.bind name span) = define_var-Keeps name Ty.unknown
inject-Keeps (Pattern.variant name bindings span) = define_unknown-Keeps bindings
inject-Keeps (Pattern.lit e) = pure-Keeps tt
inject-Keeps (Pattern.wildcard span) = pure-Keeps tt
inject-Keeps (Pattern.cond e) = pure-Keeps tt

pub finish_branch-Keeps : (pos : Bool) (seen : ArmTypes) → Keeps id_scopes (finish_branch pos seen)
unfolding finish_branch
finish_branch-Keeps pos seen = go (mixed_arm pos seen)
  where
    go :
        (mixed : Option Span)
        → Keeps id_scopes (elim mixed [
          | some span ↦ do emit_error type_mismatch span; pure Ty.unknown
          | none ↦ pure (or_unknown seen.unified)
        ])
    go none = pure-Keeps (or_unknown seen.unified)
    go (some span) = emit_error-Keeps type_mismatch span ▹ pure-Keeps Ty.unknown

pub annotate-Keeps :
    (ty : Option TypeExpr) (init_ty : Ty) (span : Span) → Keeps id_scopes (annotate ty init_ty span)
unfolding annotate
annotate-Keeps none init_ty span = pure-Keeps init_ty
annotate-Keeps (some type_expr) init_ty span = look-Keeps (λ s. s.type_ctx) ⟫ λ c.
    demand-Keeps (is_assignable init_ty (resolve_type_expr c type_expr)) internal_compiler_error
      span
    ▹ pure-Keeps (resolve_type_expr c type_expr)

pub skip-Keeps : Keeps id_scopes (with_pos false skip)
unfolding with_pos
skip-Keeps = record { run = (pure-Keeps tt).run }

module _ {m : Check Ty} (hm : Takes m) where
  pub check_let-Keeps :
      (name : String) (ty : Option TypeExpr) (span : Span) → Keeps outer (check_let name ty span m)
  unfolding check_let
  check_let-Keeps name ty span = weaken (Takes-Keeps hm) ⟫ λ init_ty.
      weaken (annotate-Keeps ty init_ty span) ⟫ λ resolved_ty. define_var-Keeps name resolved_ty

  pub check_assign-Keeps :
      {n : Check Ty} → Takes n → (span : Span) → Keeps id_scopes (check_assign m n span)
  unfolding check_assign
  check_assign-Keeps hn span = Takes-Keeps hm ⟫ λ target_ty. Takes-Keeps hn ⟫ λ value_ty.
      demand-Keeps (is_assignable value_ty target_ty) internal_compiler_error span

  pub check_dropped-Keeps : Keeps id_scopes (check_dropped m)
  unfolding check_dropped
  check_dropped-Keeps = hm.for true ▹ skip-Keeps

pub ruleset part_rules = (
  ◌⟫◌, ◌▹◌, pure-Keeps, look-Keeps, emit_error-Keeps, demand-Keeps, expect-Keeps, Takes-Keeps,
  enter-Takes, in_scope-Keeps, if-Keeps, check_binop-Keeps, check_unary-Keeps, check_field-Keeps,
  check_payload-Keeps, define_unknown-Keeps, inject-Keeps, finish_branch-Keeps, annotate-Keeps,
  skip-Keeps, check_let-Keeps, check_assign-Keeps, check_dropped-Keeps,
)
