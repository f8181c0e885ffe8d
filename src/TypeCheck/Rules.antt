-- ===== src/TypeCheck/Rules.antt =====
-- stage0/src/frontend/typecheck/checker.rs: the types that the checker gives to forms whose parts have
-- types; `none` where it reports an error.
use kore_lang.Base.{
  ℕ, Bool, true, false, not, ◌&&◌, ◌||◌, Option, none, some, String, List, [], ◌∷◌, any,
  if◌then◌else◌,
}
use kore_lang.Base.Dict.{Dict, name_eq}
use kore_lang.Diag.{Span}
use kore_lang.TypeCheck.Types.{Ty, eqb, is_numeric}
use kore_lang.TypeCheck.Context.{TypeContext, get_func, get_struct_field, find_variant_union}
use kore_lang.TypeCheck.Monad.{is_unknown, lookup_in, undefined_name, internal_compiler_error}

-- The comparisons with `Type::Unknown`: two types that are known and differ do not fit.
unfoldable pub fits : Ty → Ty → Bool
unfolding eqb is_unknown
fits t u = is_unknown t || (is_unknown u || eqb t u)

unfoldable pub is_assignable : Ty → Ty → Bool
unfolding eqb is_unknown
is_assignable from to =
    eqb from to
    || (is_unknown from
        || (is_unknown to || elim from [
          | Ty.array elem n ↦ elim to [ Ty.slice elem' ↦ eqb elem elem' | _ ↦ false ]
          | _ ↦ false
        ]))

-- Only the first segment counts; a function's name is a path too.
unfoldable pub path_ty : TypeContext → List (Dict Ty) → List String → Ty
unfolding lookup_in get_func is_unknown
path_ty c scopes [] = Ty.unknown
path_ty c scopes (name ∷ segments) =
    let ty = lookup_in scopes name in
    if is_unknown ty then elim (get_func c name) [ some f ↦ f | none ↦ Ty.unknown ] else ty

unfoldable pub call_ty : Ty → Ty
call_ty (Ty.func params ret err) = ret
call_ty _ = Ty.unknown

unfoldable pub field_ty : TypeContext → Ty → String → Option Ty
unfolding get_struct_field
field_ty c (Ty.struct struct_name) name = get_struct_field c struct_name name
field_ty c _ name = none

abbrev pub field_code : Ty → ℕ
field_code (Ty.struct struct_name) = undefined_name
field_code _ = internal_compiler_error

unfoldable pub deref_ty : Ty → Option Ty
deref_ty (Ty.borrow t) = some t
deref_ty (Ty.own t) = some t
deref_ty Ty.unknown = some Ty.unknown
deref_ty _ = none

unfoldable pub index_ty : Ty → Option Ty
index_ty (Ty.array elem len) = some elem
index_ty (Ty.slice elem) = some elem
index_ty Ty.unknown = some Ty.unknown
index_ty _ = none

unfoldable pub propagate_ty : Ty → Option Ty
propagate_ty (Ty.err_union ok err) = some ok
propagate_ty Ty.unknown = some Ty.unknown
propagate_ty _ = none

unfoldable pub unary_ty : String → Ty → Option Ty
unfolding is_numeric is_unknown
unary_ty op ty =
    if name_eq op "-" then (if is_numeric ty || is_unknown ty then some ty else none) else none

abbrev one_of : String → List String → Bool
one_of op ops = any (name_eq op) ops

abbrev pub is_arithmetic : String → Bool
is_arithmetic op = one_of op ("+" ∷ "-" ∷ "*" ∷ "/" ∷ [])

abbrev pub is_comparison : String → Bool
is_comparison op = one_of op ("==" ∷ "!=" ∷ "<" ∷ "<=" ∷ ">" ∷ ">=" ∷ [])

abbrev pub is_logical : String → Bool
is_logical op = one_of op ("&&" ∷ "||" ∷ [])

abbrev pub is_bitwise : String → Bool
is_bitwise op = one_of op ("&" ∷ "|" ∷ "^" ∷ "<<" ∷ ">>" ∷ [])

unfoldable pub arithmetic_ty : Ty → Ty → Option Ty
unfolding eqb is_numeric
arithmetic_ty lty rty = if eqb lty rty then (if is_numeric lty then some lty else none) else none

unfoldable pub bitwise_ty : Ty → Ty → Option Ty
unfolding eqb is_numeric is_unknown
bitwise_ty lty rty =
    if not (eqb lty rty) && (not (is_unknown lty) && not (is_unknown rty))
    then none
    else if not (is_numeric lty) && not (is_unknown lty)
    then none
    else some lty

-- The type of a variant, and that of its payload.
unfoldable pub variant_ty : TypeContext → Option Ty → String → Option (Ty × Ty)
unfolding find_variant_union
variant_ty c ret name = elim (find_variant_union c name) [
  | some (union_name, expected) ↦ some (Ty.union union_name, expected)
  | none ↦
      if name_eq name "Ok" || name_eq name "Err"
      then elim ret [
        | some (Ty.err_union ok err) ↦
            some (Ty.err_union ok err, (if name_eq name "Ok" then ok else err))
        | _ ↦ none
      ]
      else none
]

unfoldable pub payload_fits : Option Ty → Ty → Bool
unfolding eqb is_unknown
payload_fits none expected = eqb expected Ty.void
payload_fits (some actual) expected = eqb actual expected || is_unknown actual

-- What the loop over the arms of a branch keeps.
pub record ArmTypes : Type 0 where
  pub unified : Option Ty
  pub void_arm : Option Span
  pub value_arm : Option (Span × Ty)

abbrev pub no_arm_types : ArmTypes
no_arm_types = record { unified = none; void_arm = none; value_arm = none }

unfoldable pub is_void : Ty → Bool
is_void Ty.void = true
is_void _ = false

-- `Never` and `Unknown` take no part.
unfoldable pub is_skipped : Ty → Bool
is_skipped Ty.never = true
is_skipped Ty.unknown = true
is_skipped _ = false

abbrev pub first_of : {A : Type 0} → Option A → A → Option A
first_of none a = some a
first_of (some b) a = some b

abbrev unify : Option Ty → Ty → Ty
unify none ty = ty
unify (some prev) ty = if eqb prev ty then prev else Ty.unknown

unfoldable pub note_arm : Ty → Span → ArmTypes → ArmTypes
unfolding is_skipped is_void eqb
note_arm ty span seen = if is_skipped ty then seen else record {
  unified = some (unify seen.unified ty);
  void_arm = if is_void ty then first_of seen.void_arm span else seen.void_arm;
  value_arm = if is_void ty then seen.value_arm else first_of seen.value_arm (span, ty);
}

-- Void arms and arms with a value, where the value is used.
unfoldable pub mixed_arm : Bool → ArmTypes → Option Span
mixed_arm true seen = none
mixed_arm false seen = elim seen.void_arm [
  | none ↦ none
  | some span ↦ elim seen.value_arm [ none ↦ none | some (value_span, ty) ↦ some value_span ]
]

abbrev pub or_unknown : Option Ty → Ty
or_unknown none = Ty.unknown
or_unknown (some ty) = ty
