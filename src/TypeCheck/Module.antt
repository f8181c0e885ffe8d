-- ===== src/TypeCheck/Module.antt =====
-- stage0/src/frontend/typecheck/checker.rs: the check of a module, in two passes: the definitions, then
-- the bodies of functions.
pub mod Funcs
pub mod Whole
pub mod Errors
use kore_lang.Base.{Bool, true, false, ◌||◌, Option, none, some, String, List, [], ◌∷◌}
use kore_lang.Diag.Sink.{DiagSink}
use kore_lang.Ast.{
  TypeExpr, Param, Func, Field, StructDef, Variant, UnionDef, Item, Module, span_of,
}
use kore_lang.TypeCheck.Types.{Ty, Tys, MaybeTy, eqb, i32, is_never}
use kore_lang.TypeCheck.Context.{
  Fields, TypeContext, define_struct, define_union, define_func, resolve_type_expr,
}
use kore_lang.TypeCheck.Monad.{
  TypeChecker, Check, pure, ◌>>=◌, ◌>>◌, skip, look, new, push_scope, pop_scope, define_var,
  internal_compiler_error, demand, is_unknown,
}
use kore_lang.TypeCheck.Checker.{check_expr}

-- A function's type without an error type.
abbrev signature : Tys → Ty → Ty
signature params ret = Ty.func params ret MaybeTy.no_ty

abbrev one : Ty → Tys
one t = Tys.more_tys t Tys.no_tys

unfoldable pub register_builtins : TypeContext → TypeContext
unfolding define_func
register_builtins c = define_func "exit" (signature (one i32) Ty.void) (
    define_func "write_file" (signature (Tys.more_tys Ty.str (one Ty.str)) i32) (
      define_func "read_file" (signature (one Ty.str) Ty.str) (
        define_func "eprintln" (signature (one Ty.str) Ty.void) (
          define_func "eprint" (signature (one Ty.str) Ty.void) (
            define_func "println" (signature (one Ty.str) Ty.void)
              (define_func "print" (signature (one Ty.str) Ty.void) c))))))

unfoldable pub field_types : TypeContext → List Field → Fields
unfolding resolve_type_expr
field_types c [] = []
field_types c (f ∷ fs) = (f.name, resolve_type_expr c f.ty) ∷ field_types c fs

-- A payload of several types has no type of its own.
unfoldable pub payload_type : TypeContext → List TypeExpr → Ty
unfolding resolve_type_expr
payload_type c [] = Ty.void
payload_type c (ty ∷ []) = resolve_type_expr c ty
payload_type c (ty ∷ ty' ∷ tys) = Ty.unknown

unfoldable pub variant_types : TypeContext → List Variant → Fields
unfolding payload_type
variant_types c [] = []
variant_types c (v ∷ vs) = (v.name, payload_type c v.payload) ∷ variant_types c vs

unfoldable pub param_types : TypeContext → List Param → Tys
unfolding resolve_type_expr
param_types c [] = Tys.no_tys
param_types c (p ∷ ps) = Tys.more_tys (resolve_type_expr c p.ty) (param_types c ps)

unfoldable pub ret_type : TypeContext → Option TypeExpr → Ty
unfolding resolve_type_expr
ret_type c none = Ty.void
ret_type c (some ty) = resolve_type_expr c ty

unfoldable pub err_type : TypeContext → Option TypeExpr → MaybeTy
unfolding resolve_type_expr
err_type c none = MaybeTy.no_ty
err_type c (some ty) = MaybeTy.a_ty (resolve_type_expr c ty)

unfoldable pub collect_item : Item → TypeContext → TypeContext
unfolding define_struct define_union define_func field_types variant_types param_types ret_type
    err_type
collect_item (Item.struct d) c = define_struct d.name (field_types c d.fields) c
collect_item (Item.union d) c = define_union d.name (variant_types c d.variants) c
collect_item (Item.func f) c =
    define_func f.name (Ty.func (param_types c f.params) (ret_type c f.ret) (err_type c f.err)) c
collect_item (Item.use_path p) c = c

unfoldable pub collect_items : List Item → TypeContext → TypeContext
unfolding collect_item
collect_items [] c = c
collect_items (item ∷ items) c = collect_items items (collect_item item c)

unfoldable pub define_params : List Param → Check (Unit {0})
unfolding define_var resolve_type_expr
define_params [] = skip
define_params (p ∷ ps) = do
  c ← look λ s. s.type_ctx
  define_var p.name (resolve_type_expr c p.ty)
  define_params ps

abbrev pub set_return : Option Ty → Check (Unit {0})
set_return ret s = (tt, record s { current_return_type = ret })

-- What `.Ok` and `.Err` are checked against in the body.
abbrev pub return_type : Ty → MaybeTy → Ty
return_type ret MaybeTy.no_ty = ret
return_type ret (MaybeTy.a_ty err) = Ty.err_union ret err

unfoldable pub fits_return : Ty → Ty → Bool
unfolding is_never is_unknown eqb
fits_return body_ty ret_ty =
    is_never body_ty || (is_unknown body_ty || (is_unknown ret_ty || eqb body_ty ret_ty))

-- `check_func`, after the parameters.
unfoldable pub check_body : Func → Check (Unit {0})
unfolding pop_scope ret_type err_type fits_return demand check_expr span_of
check_body f = do
  c ← look λ s. s.type_ctx
  set_return (some (return_type (ret_type c f.ret) (err_type c f.err)))
  body_ty ← check_expr f.body
  set_return none
  demand (fits_return body_ty (ret_type c f.ret)) internal_compiler_error (span_of f.body)
  pop_scope

unfoldable pub check_func : Func → Check (Unit {0})
unfolding push_scope define_params check_body
check_func f = do push_scope; define_params f.params; check_body f

unfoldable pub check_funcs : List Item → Check (Unit {0})
unfolding check_func
check_funcs [] = skip
check_funcs (Item.func f ∷ items) = do check_func f; check_funcs items
check_funcs (_ ∷ items) = check_funcs items

abbrev pub in_context : (TypeContext → TypeContext) → Check (Unit {0})
in_context f s = (tt, record s { type_ctx = f s.type_ctx })

unfoldable pub check_module : Module → Check (Unit {0})
unfolding register_builtins collect_items check_funcs
check_module m = do
  in_context register_builtins
  in_context (collect_items m.items)
  check_funcs m.items
