-- ===== src/TypeCheck/Context.antt =====
-- stage0/src/frontend/typecheck/context.rs: the definitions that the checker has collected. The
-- search for a variant goes over a `HashMap` of unions, in an order that the source leaves open; here
-- it is that of the list.
use kore_lang.Base.{true, false, Option, none, some, String, List, [], ◌∷◌, if◌then◌else◌}
use kore_lang.Base.Dict.{Dict, get, put, is_some, name_eq}
use kore_lang.Ast.{TypeExpr}
use kore_lang.TypeCheck.Types.{Ty, i32, i64, u32, u64, f64}

abbrev pub Fields : Type 0
Fields = List (String × Ty)

pub record TypeContext : Type 0 where
  pub structs : Dict Fields
  pub unions : Dict Fields
  pub funcs : Dict Ty

abbrev pub new : TypeContext
new = record { structs = []; unions = []; funcs = [] }

unfoldable pub define_struct : String → Fields → TypeContext → TypeContext
unfolding put
define_struct name fields c = record c { structs = put c.structs name fields }

unfoldable pub define_union : String → Fields → TypeContext → TypeContext
unfolding put
define_union name variants c = record c { unions = put c.unions name variants }

unfoldable pub define_func : String → Ty → TypeContext → TypeContext
unfolding put
define_func name func_ty c = record c { funcs = put c.funcs name func_ty }

unfoldable pub get_struct : TypeContext → String → Option Fields
unfolding get
get_struct c name = get c.structs name

unfoldable pub get_union : TypeContext → String → Option Fields
unfolding get
get_union c name = get c.unions name

unfoldable pub get_func : TypeContext → String → Option Ty
unfolding get
get_func c name = get c.funcs name

-- `iter().find(…)` on the fields, and the type of the field.
unfoldable pub find_field : Fields → String → Option Ty
find_field [] name = none
find_field ((n, ty) ∷ fields) name = if name_eq n name then some ty else find_field fields name

unfoldable pub get_struct_field : TypeContext → String → String → Option Ty
unfolding get_struct find_field
get_struct_field c struct_name field_name = elim (get_struct c struct_name) [
  | none ↦ none
  | some fields ↦ find_field fields field_name
]

unfoldable pub find_in_unions : Dict Fields → String → Option (String × Ty)
unfolding find_field
find_in_unions [] name = none
find_in_unions ((union_name, variants) ∷ unions) name =
    let rest = find_in_unions unions name in
    elim (find_field variants name) [ none ↦ rest | some ty ↦ some (union_name, ty) ]

unfoldable pub find_variant_union : TypeContext → String → Option (String × Ty)
unfolding find_in_unions
find_variant_union c name = find_in_unions c.unions name

-- A name that is not built in: a struct stands for one that is not known.
unfoldable pub resolve_name : TypeContext → String → Ty
unfolding get
resolve_name c name =
    if is_some (get c.structs name)
    then Ty.struct name
    else if is_some (get c.unions name)
    then Ty.union name
    else Ty.struct name

-- The `match` on the name: the built-in types.
abbrev pub builtin_types : Dict Ty
builtin_types =
    ("i8", Ty.int true 8)
    ∷ ("i16", Ty.int true 16)
    ∷ ("i32", i32)
    ∷ ("i64", i64)
    ∷ ("u8", Ty.int false 8)
    ∷ ("u16", Ty.int false 16)
    ∷ ("u32", u32)
    ∷ ("u64", u64)
    ∷ ("f32", Ty.float 32)
    ∷ ("f64", f64)
    ∷ ("bool", Ty.bool)
    ∷ ("str", Ty.str)
    ∷ ("void", Ty.void)
    ∷ []

-- The sink that the source passes is not used.
unfoldable pub resolve_type_expr : TypeContext → TypeExpr → Ty
unfolding resolve_name get
resolve_type_expr c (TypeExpr.named name span) = elim (get builtin_types name) [
  | some ty ↦ ty
  | none ↦ resolve_name c name
]
resolve_type_expr c (TypeExpr.borrow inner span) = Ty.borrow (resolve_type_expr c inner)
resolve_type_expr c (TypeExpr.own inner span) = Ty.own (resolve_type_expr c inner)
resolve_type_expr c (TypeExpr.array elem len span) = Ty.array (resolve_type_expr c elem) len
resolve_type_expr c (TypeExpr.slice elem span) = Ty.slice (resolve_type_expr c elem)
resolve_type_expr c (TypeExpr.err_union ok err span) =
    Ty.err_union (resolve_type_expr c ok) (resolve_type_expr c err)
