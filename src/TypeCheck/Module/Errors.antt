-- ===== src/TypeCheck/Module/Errors.antt =====
-- A function with an error type whose body is one of the two variants of its result.
use kore_lang.Base.{
  ℕ, ◌<◌, ◌≤◌, ◌≡◌, ◌⊎◌, refl, Bool, false, Option, none, some, String, [], ◌∷◌, All, arith, inl,
  inr, Bool-cases,
}
use kore_lang.Base.Dict.{Dict, get, name_eq}
use kore_lang.Diag.{Span}
use kore_lang.Ast.{TypeExpr, Expr, MaybeExpr, Func}
use kore_lang.TypeCheck.Types.{Ty, eqb}
use kore_lang.TypeCheck.Context.{
  TypeContext, find_variant_union, resolve_name, builtin_types, resolve_type_expr,
}
use kore_lang.TypeCheck.Monad.{TypeChecker, is_unknown}
use kore_lang.TypeCheck.Monad.Keeps.{Scopes, errors}
use kore_lang.TypeCheck.Rules.{variant_ty}
use kore_lang.TypeCheck.Typing.{Typed}
use kore_lang.TypeCheck.Module.{ret_type, err_type, fits_return, check_func}
use kore_lang.TypeCheck.Module.Funcs.{FuncTyped, rest, check_func-FuncKept, check_func_sound}

quiet_or_loud : (a b : ℕ) → a ≤ b → (b ≡ a) ⊎ (a < b)
quiet_or_loud a b h = omega arith

-- A result type is never the type of its own value.
ok-differs : (t e : Ty) → eqb (Ty.err_union t e) t ≡ false
unfolding eqb
ok-differs (Ty.err_union t u) e = ground (arith, ok-differs t u)
ok-differs _ e = refl

get-known :
    (d : Dict Ty) (name : String) (t : Ty)
    → All (λ p. is_unknown p.1 ≡ false) d
    → get d name ≡ some t
    → is_unknown t ≡ false
unfolding get is_unknown
get-known [] name t known h = absurd (ground (arith, h))
get-known ((n, u) ∷ d) name t known h = elim (Bool-cases (name_eq n name)) [
  | inl same ↦ let e : u ≡ t = ground (arith, h) in rw (← e) known.0
  | inr other ↦ get-known d name t known.1 (ground (arith, h))
]

resolve_name-known : (c : TypeContext) (name : String) → is_unknown (resolve_name c name) ≡ false
unfolding resolve_name is_unknown
resolve_name-known c name = ground arith

builtin-known :
    (c : TypeContext) (name : String) (o : Option Ty)
    → get builtin_types name ≡ o
    → is_unknown (elim o [ some ty ↦ ty | none ↦ resolve_name c name ]) ≡ false
unfolding is_unknown
builtin-known c name none h = resolve_name-known c name
builtin-known c name (some t) h =
    get-known builtin_types name t
      (
        refl,
        (
          refl,
          (
            refl,
            (refl, (refl, (refl, (refl, (refl, (refl, (refl, (refl, (refl, (refl, tt)))))))))),
          ),
        ),
      )
      h

resolve-known : (c : TypeContext) (ty : TypeExpr) → is_unknown (resolve_type_expr c ty) ≡ false
unfolding resolve_type_expr is_unknown
resolve-known c (TypeExpr.named name span) = builtin-known c name (get builtin_types name) refl
resolve-known c (TypeExpr.borrow ty span) = refl
resolve-known c (TypeExpr.own ty span) = refl
resolve-known c (TypeExpr.array ty n span) = refl
resolve-known c (TypeExpr.slice ty span) = refl
resolve-known c (TypeExpr.err_union ok err span) = refl

ret_type-known : (c : TypeContext) (ret : Option TypeExpr) → is_unknown (ret_type c ret) ≡ false
unfolding ret_type is_unknown
ret_type-known c none = refl
ret_type-known c (some ty) = resolve-known c ty

misfit :
    (c : TypeContext) (ret : Option TypeExpr) (e : Ty)
    → fits_return (Ty.err_union (ret_type c ret) e) (ret_type c ret) ≡ false
unfolding fits_return
misfit c ret e = ground (arith, ret_type-known c ret, ok-differs (ret_type c ret) e)

-- A variant of no union has the type of the function's result.
variant-result :
    {c : TypeContext} {sc : Scopes} {pos : Bool} {ok err : Ty} {name : String} {payload : MaybeExpr}
    {span : Span} {t : Ty}
    → find_variant_union c name ≡ none
    → Typed c (some (Ty.err_union ok err)) sc pos (Expr.variant_constructor name payload span) t
    → t ≡ Ty.err_union ok err
unfolding variant_ty
variant-result h (Typed.variant_constructor d e fit) = ground (arith, h, e)

variant_body-untyped :
    (c : TypeContext) (sc : Scopes) (f : Func) (e : TypeExpr) (name : String) (payload : MaybeExpr)
    (span : Span)
    → f.err ≡ some e
    → f.body ≡ Expr.variant_constructor name payload span
    → find_variant_union c name ≡ none
    → ¬ FuncTyped c sc f
unfolding FuncTyped err_type
variant_body-untyped c sc f e name payload span has_err is_variant no_union (t, d, fits) =
    let err = resolve_type_expr c e in
    let same = variant-result no_union (rw (has_err, is_variant) at d) in
    absurd (ground (arith, misfit c f.ret err, rw same at fits))

-- The check of a function with an error type whose body is `.Ok` or `.Err`, where no union has such a
-- variant, adds an error: the type of such a body is the result, and is compared with the declared type
-- alone.
pub variant_body-reported :
    (f : Func) (s : TypeChecker) (e : TypeExpr) (name : String) (payload : MaybeExpr) (span : Span)
    → f.err ≡ some e
    → f.body ≡ Expr.variant_constructor name payload span
    → find_variant_union s.type_ctx name ≡ none
    → errors s < errors (check_func f (rest s)).1
variant_body-reported f s e name payload span has_err is_variant no_union =
    let grows = (check_func-FuncKept f s).grows in
    elim (quiet_or_loud (errors s) (errors (check_func f (rest s)).1) grows) [
      | inl same ↦ absurd (
          variant_body-untyped s.type_ctx s.var_scopes f e name payload span has_err is_variant
            no_union (check_func_sound f s same))
      | inr more ↦ more
    ]
