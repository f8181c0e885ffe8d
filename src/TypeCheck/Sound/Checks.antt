-- ===== src/TypeCheck/Sound/Checks.antt =====
-- What the checks that give an expression or a statement its rule have found out.
use kore_lang.Base.{
  ◌≡◌, Bool, false, ◌||◌, Option, none, some, String, inl, inr, Bool-cases, arith, if◌then◌else◌,
}
use kore_lang.Base.Dict.{name_eq, is_some}
use kore_lang.Diag.{Span}
use kore_lang.Ast.{TypeExpr, Expr, FieldInits, Stmt, span_of}
use kore_lang.TypeCheck.Types.{Ty, eqb}
use kore_lang.TypeCheck.Context.{TypeContext, get_struct}
use kore_lang.TypeCheck.Monad.{
  TypeChecker, Check, pure, ◌>>◌, define_in, undefined_name, internal_compiler_error, expect,
  is_unknown, outer,
}
use kore_lang.TypeCheck.Monad.Keeps.{Scopes, Takes, Takes-Keeps, weaken, ◌⟫◌, define_var-Keeps}
use kore_lang.TypeCheck.Monad.Yields.{
  Yields, pure-Yields, over-Yields, then-Yields, map-Yields, expect-Yields,
}
use kore_lang.TypeCheck.Rules.{is_assignable, unary_ty}
use kore_lang.TypeCheck.Checker.{check_unary, check_let, check_assign, check_inits}
use kore_lang.TypeCheck.Checker.Parts.{annotate-Keeps, part_rules}
use kore_lang.TypeCheck.Checker.Keeps.{keeps_rules}
use kore_lang.TypeCheck.Typing.{Typed, TypedInits, TypedStmt}
use kore_lang.TypeCheck.Sound.Parts.{
  Annotated, checked, annotate-Yields, define_var-Yields, demand-scopes,
}

let-typed :
    {name : String} {is_mut : Bool} (ty : Option TypeExpr) {init : Expr} {span : Span} {t : Ty}
    (v : Ty) {c : TypeContext} {r : Option Ty} {sc : Scopes}
    → Typed c r sc false init t
    → Annotated c ty t v
    → TypedStmt c r sc (Stmt.let_stmt name is_mut ty init span) (define_in name v sc)
let-typed none v d a = rw a (TypedStmt.let_plain d)
let-typed (some te) v d (h, a) = rw a (TypedStmt.let_annotated d h)

module _ {s : TypeChecker} {sc : Scopes} where
  pub check_unary-Yields :
      {e : Expr} (op : String) (t : Ty) (span : Span)
      → Typed s.type_ctx s.current_return_type sc false e t
      → (pos : Bool)
      → Yields s sc
          (check_unary op t span)
          (λ u _. Typed s.type_ctx s.current_return_type sc pos (Expr.unary op e span) u)
  unfolding check_unary
  check_unary-Yields op t span d pos = elim (Bool-cases (name_eq op "!")) [
    | inl bang ↦ rw bang (
        map-Yields (λ u sc' (h, e). rw e (Typed.not_ d bang h))
          (checked (eqb t Ty.bool || is_unknown t) internal_compiler_error span Ty.bool))
    | inr other ↦ rw other (
        map-Yields (λ u sc' h. Typed.minus d other h)
          (expect-Yields (unary_ty op t) internal_compiler_error span))
  ]

  pub struct_sound :
      (name : String) (inits : FieldInits) (span : Span) (c : TypeContext)
      → c ≡ s.type_ctx
      → Yields s sc
          (check_inits name inits span)
          (λ _ _. TypedInits s.type_ctx s.current_return_type sc name inits)
      → (pos : Bool)
      → Yields s sc
          (if is_some (get_struct c name)
            then (do check_inits name inits span; pure (Ty.struct name))
            else expect none undefined_name span)
          (λ t _. Typed s.type_ctx s.current_return_type sc pos (Expr.struct_lit name inits span) t)
  struct_sound name inits span c e y pos = elim (Bool-cases (is_some (get_struct c name))) [
    | inl present ↦ rw present (
        then-Yields (search keeps_rules) (λ _. search keeps_rules) (y)
          (λ _ ds. pure-Yields (Ty.struct name) (Typed.struct_lit (rw (← e) present) ds)))
    | inr absent ↦ rw absent (
        map-Yields (λ t sc' h. absurd (ground (arith, h))) (expect-Yields none undefined_name span))
  ]

  pub let-Yields :
      (name : String) (is_mut : Bool) (ty : Option TypeExpr) (init : Expr) (span : Span)
      {m : Check Ty}
      → Takes m
      → Yields s sc m (λ t _. Typed s.type_ctx s.current_return_type sc false init t)
      → Yields s sc (check_let name ty (span_of init) m) (λ _ sc'.
        TypedStmt s.type_ctx s.current_return_type sc (Stmt.let_stmt name is_mut ty init span) sc')
  unfolding check_let
  let-Yields name is_mut ty init span h y =
      over-Yields outer (Takes-Keeps h)
        (λ t. weaken (annotate-Keeps ty t (span_of init)) ⟫ λ v. define_var-Keeps name v) y
        (λ t d.
          over-Yields outer (annotate-Keeps ty t (span_of init)) (λ v. define_var-Keeps name v)
            (annotate-Yields ty t (span_of init))
            (λ v a. map-Yields (λ _ sc' e. rw e (let-typed ty v d a)) (define_var-Yields name v)))

  pub assign-Yields :
      (target value : Expr) (span : Span) {m n : Check Ty}
      → Takes m
      → Takes n
      → Yields s sc m (λ t _. Typed s.type_ctx s.current_return_type sc false target t)
      → Yields s sc n (λ t _. Typed s.type_ctx s.current_return_type sc false value t)
      → Yields s sc (check_assign m n span) (λ _ sc'.
        TypedStmt s.type_ctx s.current_return_type sc (Stmt.assign target value span) sc')
  unfolding check_assign
  assign-Yields target value span hm hn ym yn =
      then-Yields (Takes-Keeps hm) (λ t. search (part_rules, hn)) ym
        (λ t d.
          then-Yields (Takes-Keeps hn) (λ u. search part_rules) yn
            (λ u d'.
              map-Yields (λ _ sc' (same, h). rw same (TypedStmt.assign d d' h))
                (demand-scopes (is_assignable u t) internal_compiler_error span)))
