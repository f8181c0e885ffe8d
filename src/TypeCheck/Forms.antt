-- ===== src/TypeCheck/Forms.antt =====
-- What the typing rules say of patterns, branches and binary operators of
-- stage0/src/frontend/typecheck/checker.rs, without the checker's state.
use kore_lang.Base.{
  Bool, true, false, not, ◌&&◌, Option, none, some, String, List, [], ◌∷◌, any, retain,
  if◌then◌else◌,
}
use kore_lang.Ast.{Pattern, Stmt}
use kore_lang.TypeCheck.Types.{Ty, eqb}
use kore_lang.TypeCheck.Monad.{define_in}
use kore_lang.TypeCheck.Monad.Keeps.{Scopes}
use kore_lang.TypeCheck.Rules.{
  is_arithmetic, is_comparison, is_logical, is_bitwise, arithmetic_ty, bitwise_ty, is_void,
  is_skipped,
}

unfoldable pub define_names : List String → Scopes → Scopes
unfolding define_in
define_names [] scopes = scopes
define_names (name ∷ names) scopes = define_names names (define_in name Ty.unknown scopes)

-- The names of a pattern have no known type.
unfoldable pub bind_pattern : Pattern → Scopes → Scopes
unfolding define_in define_names
bind_pattern (Pattern.bind name span) scopes = define_in name Ty.unknown scopes
bind_pattern (Pattern.variant name bindings span) scopes = define_names bindings scopes
bind_pattern _ scopes = scopes

-- The types of the arms that take part in the type of a branch.
abbrev pub known : List Ty → List Ty
known tys = retain (λ t. not (is_skipped t)) tys

-- The one type of all arms, else none that is known.
abbrev pub common : List Ty → Ty
common [] = Ty.unknown
common (t ∷ tys) = if any (λ u. not (eqb t u)) tys then Ty.unknown else t

unfoldable pub branch_ty : List Ty → Ty
unfolding retain is_skipped any eqb
branch_ty tys = common (known tys)

-- Some arm has a value and some is void.
unfoldable pub is_mixed : List Ty → Bool
unfolding retain is_skipped any is_void
is_mixed tys = any is_void (known tys) && any (λ t. not (is_void t)) (known tys)

unfoldable pub binary_ty : String → Ty → Ty → Option Ty
unfolding any arithmetic_ty bitwise_ty eqb
binary_ty op lty rty =
    if is_arithmetic op
    then arithmetic_ty lty rty
    else if is_comparison op
    then (if eqb lty rty then some Ty.bool else none)
    else if is_logical op
    then (if eqb lty Ty.bool && eqb rty Ty.bool then some Ty.bool else none)
    else if is_bitwise op
    then bitwise_ty lty rty
    else some Ty.unknown

abbrev pub is_expr : Stmt → Bool
is_expr (Stmt.expr_stmt e) = true
is_expr _ = false
