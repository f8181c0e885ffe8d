-- ===== src/Eval/Evaluator/Tests.antt =====
-- The evaluator at concrete inputs.
use kore_lang.Base.{
  ℕ, ◌+◌, ◌≤◌, ltb, ◌-◌, ◌^◌, ◌≡◌, refl, true, false, ◌||◌, Option, none, some, [], ◌∷◌, String,
  length, if◌then◌else◌,
}
use kore_lang.Base.Int.{ℤ, pos}
use kore_lang.Base.Dict.{name_eq}
use kore_lang.Diag.{Span}
use kore_lang.Diag.Sink.{DiagSink}
use kore_lang.Diag.Sink
use kore_lang.Ast.{Expr, MaybeExpr, Arms, Pattern, Stmts, Stmt, Module}
use kore_lang.Eval.Value.{Value}
use kore_lang.Eval.Evaluator.{Evaluator, eval_expr, eval_module, new, int_value}
use kore_lang.Eval.Evaluator.Steps.{expr_steps}
use kore_lang.Eval.Evaluator.Errors.{is_error, env_errs}
use kore_lang.Eval.Evaluator.Sound.{eval_expr-bounds, eval_expr-reported}

abbrev site : ℕ → Span
site i = record { file = 0; lo = i; hi = i }

-- Stands for the library's parser of numbers: two numerals are enough here.
abbrev digits : String → Option ℤ
digits s = if name_eq s "1" then some (pos 1) else if name_eq s "9" then some (pos 9) else none

abbrev no_floats : String → Option ℕ
no_floats s = none

abbrev one : Expr
one = Expr.int "1" (site 1)

abbrev nine : Expr
nine = Expr.int "9" (site 2)

-- `{ x := 9; x = x + 1; ? { false => 1, _ => x } }`.
abbrev program : Expr
program =
    Expr.block
      (Stmts.more_stmts (Stmt.let_stmt "x" true none nine (site 1)) (
        Stmts.more_stmts
          (Stmt.assign (Expr.path ("x" ∷ []) (site 2))
            (Expr.binary "+" (Expr.path ("x" ∷ []) (site 3)) one (site 3)) (site 2))
          (Stmts.more_stmts
            (Stmt.expr_stmt (
              Expr.branch MaybeExpr.no_expr
                (Arms.more_arms (Pattern.lit (Expr.path ("false" ∷ []) (site 4))) one (site 4) (
                  Arms.more_arms (Pattern.wildcard (site 5)) (Expr.path ("x" ∷ []) (site 6))
                    (site 5) Arms.no_arms))
                (site 4)))
            Stmts.no_stmts)))
      (site 0)

abbrev empty_module : Module
empty_module = record { items = []; span = site 0 }

abbrev start : Evaluator
start = eval_module empty_module (new Sink.new)

abbrev end : Evaluator
end = record start { step_count = 8 }

program_run : eval_expr digits no_floats program start ≡ some (Value.int (pos 10), end)
unfolding eval_expr eval_module
program_run = refl

one_scope : ltb 0 (length start.env.scopes) ≡ true
unfolding eval_module
one_scope = refl

-- The least number has no negation: the evaluator panics.
negation_run :
    (int_value (pos (2 ^ 63)) start ≡ none)
    × (int_value (pos (2 ^ 63 - 1)) start ≡ some (Value.int (pos (2 ^ 63 - 1)), start))
unfolding int_value eval_module
negation_run = (refl, refl)

eval_expr-bounds_example :
    (length end.env.scopes ≡ length start.env.scopes)
    × (start.step_count ≤ end.step_count)
    × (end.step_count ≤ start.step_count + expr_steps program)
    × (start.sink.err_count ≤ end.sink.err_count)
eval_expr-bounds_example =
    eval_expr-bounds digits no_floats program start end (Value.int (pos 10)) one_scope program_run

eval_expr-reported_example : (is_error (Value.int (pos 10)) || env_errs end.env) ≡ false
unfolding eval_module
eval_expr-reported_example =
    eval_expr-reported digits no_floats empty_module Sink.new program end (Value.int (pos 10))
      program_run refl
