-- ===== src/TypeCheck/Tests.antt =====
-- Runs of the type checker, and theorems at concrete inputs.
use kore_lang.Base.{◌<◌, ◌≤◌, ◌≡◌, ◌↔◌, refl, true, false, none, some, any, List, [], ◌∷◌}
use kore_lang.Diag.{Span}
use kore_lang.Diag.Sink as Sink
use kore_lang.Ast.{TypeExpr, Expr, MaybeExpr, Arms, Pattern, Stmts, Stmt, Func, Item, Module}
use kore_lang.TypeCheck.Types.{Ty, i32}
use kore_lang.TypeCheck.Context as Context
use kore_lang.TypeCheck.Context.{find_variant_union, get_struct_field}
use kore_lang.TypeCheck.Monad.{TypeChecker, new}
use kore_lang.TypeCheck.Monad.Keeps.{errors, calm, Kept, id_scopes}
use kore_lang.TypeCheck.Checker.{check_expr}
use kore_lang.TypeCheck.Checker.Keeps.{check_expr-Kept}
use kore_lang.TypeCheck.Typing.{Typed}
use kore_lang.TypeCheck.Complete.{check_expr_iff}
use kore_lang.TypeCheck.Module.{collect_items, check_func, check_module}
use kore_lang.TypeCheck.Module.Funcs.{FuncsTyped, rest}
use kore_lang.TypeCheck.Module.Whole.{collected, check_module_iff}
use kore_lang.TypeCheck.Module.Errors.{variant_body-reported}

abbrev pub s0 : Span
s0 = record { file = 0; lo = 0; hi = 1 }

abbrev pub started : TypeChecker
started = record {
  type_ctx = Context.new;
  sink = Sink.new;
  var_scopes = [] ∷ [];
  current_return_type = none;
  branch_in_stmt_pos = false;
}

-- `{ x := 1; y := x + 2; y * 3 }`.
abbrev pub good_block : Expr
good_block =
    Expr.block
      (Stmts.more_stmts (Stmt.let_stmt "x" false none (Expr.int "1" s0) s0) (
        Stmts.more_stmts
          (Stmt.let_stmt "y" false none
            (Expr.binary "+" (Expr.path ("x" ∷ []) s0) (Expr.int "2" s0) s0) s0)
          (Stmts.more_stmts
            (Stmt.expr_stmt (Expr.binary "*" (Expr.path ("y" ∷ []) s0) (Expr.int "3" s0) s0))
            Stmts.no_stmts)))
      s0

good_block-runs : check_expr good_block started ≡ (i32, started)
unfolding check_expr
good_block-runs = refl

-- `? is { 1 => 1, _ => { } }`: a fault where the value is used.
abbrev pub mixed_branch : Expr
mixed_branch =
    Expr.branch MaybeExpr.no_expr
      (Arms.more_arms (Pattern.wildcard s0) (Expr.int "1" s0) s0
        (Arms.more_arms (Pattern.wildcard s0) (Expr.block Stmts.no_stmts s0) s0 Arms.no_arms))
      s0

mixed-reported : (check_expr mixed_branch started).1.sink.err_count ≡ 1
unfolding check_expr
mixed-reported = refl

mixed-dropped :
    (check_expr mixed_branch (record started { branch_in_stmt_pos = true })) ≡ (Ty.unknown, started)
unfolding check_expr
mixed-dropped = refl

-- `and` between numbers passes: the checker knows `&&` only.
and_run :
    check_expr (Expr.binary "and" (Expr.int "1" s0) (Expr.int "2" s0) s0) started
    ≡ (Ty.unknown, started)
unfolding check_expr any
and_run = refl

-- A struct before a union that it names takes the union for a struct.
abbrev forward_items : List Item
forward_items =
    Item.struct (record {
      name = "S";
      fields = record { name = "u"; ty = TypeExpr.named "U" s0; span = s0 } ∷ [];
      span = s0;
      is_public = false;
    })
    ∷ Item.union (record { name = "U"; variants = []; span = s0; is_public = false })
    ∷ []

forward_run :
    get_struct_field (collect_items forward_items Context.new) "S" "u" ≡ some (Ty.struct "U")
unfolding collect_items get_struct_field
forward_run = refl

-- `f :: () i32 ! str { .Ok(1) }`.
abbrev ok_func : Func
ok_func = record {
  name = "f";
  params = [];
  ret = some (TypeExpr.named "i32" s0);
  err = some (TypeExpr.named "str" s0);
  body = Expr.variant_constructor "Ok" (MaybeExpr.an_expr (Expr.int "1" s0)) s0;
  span = s0;
  is_public = false;
}

-- `g :: (x i32) i32 { y := x + 2; y * 3 }`, with the block of above.
abbrev good_module : Module
good_module = record {
  items =
      Item.func (record {
        name = "g";
        params =
            record { name = "x"; ty = TypeExpr.named "i32" s0; is_mut = false; span = s0 } ∷ [];
        ret = some (TypeExpr.named "i32" s0);
        err = none;
        body = good_block;
        span = s0;
        is_public = false;
      })
      ∷ [];
  span = s0;
}

good_module-runs : errors (check_module good_module (new Sink.new)).1 ≡ 0
unfolding check_module new any
good_module-runs = refl

check_expr_iff_example :
    (check_expr good_block started ≡ (i32, calm started))
    ↔ Typed started.type_ctx started.current_return_type started.var_scopes
        started.branch_in_stmt_pos good_block i32
check_expr_iff_example = check_expr_iff started good_block i32

check_module_iff_example :
    ((errors (check_module good_module (new Sink.new)).1 ≡ Sink.new.err_count)
      ↔ FuncsTyped (collected good_module) [] good_module.items)
    × ((check_module good_module (new Sink.new)).1
        ≡ record (new (check_module good_module (new Sink.new)).1.sink) {
          type_ctx = collected good_module;
        })
    × (Sink.new.err_count ≤ errors (check_module good_module (new Sink.new)).1)
check_module_iff_example = check_module_iff good_module Sink.new

check_expr-Kept_example : Kept id_scopes started (check_expr mixed_branch started).1
check_expr-Kept_example = check_expr-Kept mixed_branch started

variant_body-reported_example : errors started < errors (check_func ok_func (rest started)).1
unfolding find_variant_union
variant_body-reported_example =
    variant_body-reported ok_func started (TypeExpr.named "str" s0) "Ok"
      (MaybeExpr.an_expr (Expr.int "1" s0)) s0 refl refl no_union
  where
    no_union : find_variant_union started.type_ctx "Ok" ≡ none
    no_union = refl
