-- ===== src/TypeCheck/Sound/Parts.antt =====
-- What the check of each form has found out, besides its parts, where it reports nothing.
use kore_lang.Base.{
  ◌≡◌, refl, sym, Bool, true, false, not, ◌&&◌, Option, none, some, String, List, [], ◌∷◌, ap,
  arith, ℕ, if◌then◌else◌,
}
use kore_lang.Base.Dict.{is_some}
use kore_lang.Diag.{Span}
use kore_lang.Ast.{TypeExpr, Pattern}
use kore_lang.TypeCheck.Types.{Ty, eqb}
use kore_lang.TypeCheck.Context.{TypeContext, resolve_type_expr}
use kore_lang.TypeCheck.Monad.{
  TypeChecker, Check, pure, ◌>>◌, define_var, define_in, undefined_name, type_mismatch,
  internal_compiler_error, emit_error, skip, demand, with_pos,
}
use kore_lang.TypeCheck.Monad.Keeps.{Scopes, Takes}
use kore_lang.TypeCheck.Monad.Yields.{
  Yields, pure-Yields, then-Yields, map-Yields, demand-Yields, expect-Yields, reported, with_scopes,
}
use kore_lang.TypeCheck.Rules.{
  fits, is_assignable, is_arithmetic, is_comparison, is_logical, is_bitwise, arithmetic_ty,
  bitwise_ty, payload_fits, ArmTypes, mixed_arm, or_unknown,
}
use kore_lang.TypeCheck.Checker.{
  check_binop, check_field, check_payload, define_unknown, inject_pattern_bindings, finish_branch,
  annotate, check_dropped,
}
use kore_lang.TypeCheck.Checker.Parts.{part_rules, skip-Keeps}
use kore_lang.TypeCheck.Forms.{define_names, bind_pattern, binary_ty}

-- What the check of an annotation has found out.
abbrev pub Annotated : TypeContext → Option TypeExpr → Ty → Ty → Type 0
Annotated c none t v = v ≡ t
Annotated c (some te) t v =
    (is_assignable t (resolve_type_expr c te) ≡ true) × (v ≡ resolve_type_expr c te)

module _ {s : TypeChecker} {sc : Scopes} where
  -- A test that must hold, then a value.
  pub checked :
      {A : Type 0} (ok : Bool) (code : ℕ) (span : Span) (a : A)
      → Yields s sc (do demand ok code span; pure a) (λ b _. (ok ≡ true) × (b ≡ a))
  checked ok code span a =
      then-Yields (search part_rules) (λ u. search part_rules) (demand-Yields ok code span)
        (λ u h. pure-Yields a (h, refl))

  if-Yields :
      (b : Bool) {m n : Check Ty} {o o' : Option Ty}
      → Yields s sc m (λ v _. o ≡ some v)
      → Yields s sc n (λ v _. o' ≡ some v)
      → Yields s sc (if b then m else n) (λ v _. (if b then o else o') ≡ some v)
  if-Yields true hm hn = hm
  if-Yields false hm hn = hn

  -- A Boolean where the test holds.
  tested :
      (ok : Bool) (span : Span)
      → Yields s sc
          (do demand ok internal_compiler_error span; pure Ty.bool)
          (λ v _. (if ok then some Ty.bool else none) ≡ some v)
  tested ok span =
      map-Yields (λ v sc' (h, e). rw (h, e) refl) (checked ok internal_compiler_error span Ty.bool)

  pub check_binop-Yields :
      (op : String) (t u : Ty) (span : Span)
      → Yields s sc (check_binop op t u span) (λ v _. binary_ty op t u ≡ some v)
  unfolding check_binop binary_ty
  check_binop-Yields op t u span =
      if-Yields (is_arithmetic op) (expect-Yields (arithmetic_ty t u) internal_compiler_error span)
        (if-Yields (is_comparison op) (tested (eqb t u) span) (
          if-Yields (is_logical op) (tested (eqb t Ty.bool && eqb u Ty.bool) span) (
            if-Yields (is_bitwise op) (expect-Yields (bitwise_ty t u) internal_compiler_error span)
              (pure-Yields Ty.unknown refl))))

  pub check_field-Yields :
      (expected : Option Ty) (t : Ty) (span : Span)
      → Yields s sc
          (check_field expected t span)
          (λ _ _. (u : Ty) × (expected ≡ some u) × (fits t u ≡ true))
  unfolding check_field
  check_field-Yields none t span =
      map-Yields (λ _ sc' h. absurd (ground (arith, h))) (reported undefined_name span)
  check_field-Yields (some u) t span =
      map-Yields (λ _ sc' h. (u, refl, h)) (demand-Yields (fits t u) type_mismatch span)

  pub check_payload-Yields :
      (expected : Option (Ty × Ty)) (payload : Option Ty) (span : Span)
      → Yields s sc
          (check_payload expected payload span)
          (λ v _. (u : Ty) × (expected ≡ some (v, u)) × (payload_fits payload u ≡ true))
  unfolding check_payload
  check_payload-Yields none payload span =
      map-Yields (λ v sc' h. absurd (ground (arith, h)))
        (expect-Yields none internal_compiler_error span)
  check_payload-Yields (some (v, u)) payload span =
      map-Yields (λ w sc' (h, e). (u, ap (λ x. some (x, u)) (sym e), h))
        (checked (payload_fits payload u) internal_compiler_error span v)

  pub finish_branch-Yields :
      (pos : Bool) (seen : ArmTypes)
      → Yields s sc
          (finish_branch pos seen)
          (λ v _. (not (is_some (mixed_arm pos seen)) ≡ true) × (v ≡ or_unknown seen.unified))
  unfolding finish_branch
  finish_branch-Yields pos seen = go (mixed_arm pos seen)
    where
      go :
          (mixed : Option Span)
          → Yields s sc
              (elim mixed [
                | some span ↦ do emit_error type_mismatch span; pure Ty.unknown
                | none ↦ pure (or_unknown seen.unified)
              ])
              (λ v _. (not (is_some mixed) ≡ true) × (v ≡ or_unknown seen.unified))
      go none = pure-Yields (or_unknown seen.unified) (refl, refl)
      go (some span) =
          then-Yields {k = λ _. pure Ty.unknown} (search part_rules) (λ u. search part_rules)
            (reported type_mismatch span) (λ u h. absurd (ground (arith, h)))

  pub annotate-Yields :
      (ty : Option TypeExpr) (t : Ty) (span : Span)
      → Yields s sc (annotate ty t span) (λ v _. Annotated s.type_ctx ty t v)
  unfolding annotate
  annotate-Yields none t span = pure-Yields t refl
  annotate-Yields (some te) t span =
      let ty = resolve_type_expr s.type_ctx te in
      record { run = (checked (is_assignable t ty) internal_compiler_error span ty).run }

-- The names that a pattern binds.
define_unknown-scopes :
    (names : List String) (s : TypeChecker)
    → define_unknown names s ≡ (tt, record s { var_scopes = define_names names s.var_scopes })
unfolding define_unknown define_names define_var
define_unknown-scopes [] s = refl
define_unknown-scopes (name ∷ names) s =
    define_unknown-scopes names (record s { var_scopes = define_in name Ty.unknown s.var_scopes })

pub inject-scopes :
    (p : Pattern) (s : TypeChecker)
    → inject_pattern_bindings p s ≡ (tt, record s { var_scopes = bind_pattern p s.var_scopes })
unfolding inject_pattern_bindings bind_pattern define_var
inject-scopes (Pattern.bind name span) s = refl
inject-scopes (Pattern.variant name bindings span) s = define_unknown-scopes bindings s
inject-scopes (Pattern.lit e) s = refl
inject-scopes (Pattern.wildcard span) s = refl
inject-scopes (Pattern.cond e) s = refl

settled :
    {s : TypeChecker} (sc : Scopes) {P : Type 0}
    → P
    → Yields s sc (with_pos false skip) (λ _ sc'. (sc' ≡ sc) × P)
unfolding with_pos
settled sc p = record { run = λ quiet. (refl, (refl, p)) }

module _ {s : TypeChecker} {sc : Scopes} where
  pub inject-Yields :
      (p : Pattern) → Yields s sc (inject_pattern_bindings p) (λ _ sc'. sc' ≡ bind_pattern p sc)
  inject-Yields p = record { run = λ quiet. rw (inject-scopes p (with_scopes s sc)) (refl, refl) }

  pub define_var-Yields :
      (name : String) (t : Ty)
      → Yields s sc (define_var name t) (λ _ sc'. sc' ≡ define_in name t sc)
  unfolding define_var
  define_var-Yields name t = record { run = λ quiet. (refl, refl) }

  pub demand-scopes :
      (ok : Bool) (code : ℕ) (span : Span)
      → Yields s sc (demand ok code span) (λ _ sc'. (sc' ≡ sc) × (ok ≡ true))
  unfolding demand
  demand-scopes true code span = pure-Yields tt (refl, refl)
  demand-scopes false code span =
      map-Yields (λ _ sc' h. absurd (ground (arith, h))) (reported code span)

  -- The check of a dropped value takes the flag.
  pub dropped-Yields :
      {m : Check Ty} {R : Ty → Type 0}
      → Takes m
      → Yields s sc (with_pos true m) (λ t _. R t)
      → Yields s sc (check_dropped m) (λ _ sc'. (sc' ≡ sc) × ((t : Ty) × R t))
  unfolding check_dropped
  dropped-Yields h y = then-Yields (h.for true) (λ t. skip-Keeps) y (λ t r. settled sc (t, r))
