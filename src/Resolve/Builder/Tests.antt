-- ===== src/Resolve/Builder/Tests.antt =====
-- Runs of the resolution of a module.
use kore_lang.Base.{◌≤◌, ◌≡◌, refl, false, none, some, Option, [], ◌∷◌, ℕ, String}
use kore_lang.Diag.{Span}
use kore_lang.Diag.Sink as Sink
use kore_lang.Ast.{Expr, MaybeExpr, Arms, Pattern, Item, Module}
use kore_lang.Resolve.Builder.{Resolver, resolve}
use kore_lang.Resolve.Builder.Level.{errors, local_scopes}
use kore_lang.Resolve.Builder.Total.{resolve_total}

abbrev s0 : Span
s0 = record { file = 0; lo = 0; hi = 1 }

abbrev main_with : Expr → Module
main_with body = record {
  items =
      Item.func (record {
        name = "main";
        params = [];
        ret = none;
        err = none;
        body = body;
        span = s0;
        is_public = false;
      })
      ∷ [];
  span = s0;
}

abbrev errors_of : Option Resolver → Option ℕ
errors_of none = none
errors_of (some r) = some r.sink.err_count

abbrev arm : String → Arms → Arms
arm name arms =
    Arms.more_arms (Pattern.variant name ("v" ∷ []) s0) (Expr.path ("v" ∷ []) s0) s0 arms

-- `? { .A(v) => v, .B(v) => v }`: the names of all arms share the scope around the branch.
two_arms :
    errors_of (
      resolve
        (main_with (Expr.branch MaybeExpr.no_expr (arm "A" (arm "B" Arms.no_arms)) s0))
        Sink.new)
    ≡ some 1
unfolding resolve
two_arms = refl

one_arm :
    errors_of
      (resolve (main_with (Expr.branch MaybeExpr.no_expr (arm "A" Arms.no_arms) s0)) Sink.new)
    ≡ some 0
unfolding resolve
one_arm = refl

-- `? { v => nil }` with an undefined `v`: the expression of a condition is not visited.
condition_unseen :
    errors_of (
      resolve
        (main_with (
          Expr.branch MaybeExpr.no_expr
            (Arms.more_arms (Pattern.cond (Expr.path ("v" ∷ []) s0)) (Expr.nil s0) s0 Arms.no_arms)
            s0))
        Sink.new)
    ≡ some 0
unfolding resolve
condition_unseen = refl

resolve_total_example :
    (r : Resolver) × (resolve
        (main_with (Expr.branch MaybeExpr.no_expr (arm "A" (arm "B" Arms.no_arms)) s0))
        Sink.new
      ≡ some r)
    × (local_scopes r ≡ [])
    × (Sink.new.err_count ≤ errors r)
resolve_total_example =
    resolve_total (main_with (Expr.branch MaybeExpr.no_expr (arm "A" (arm "B" Arms.no_arms)) s0))
      Sink.new
