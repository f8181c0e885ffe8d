-- ===== src/Eval/Evaluator.antt =====
-- stage0/src/frontend/eval/evaluator.rs: the evaluation of compile-time expressions. `none` is a panic:
-- a result out of the range of i64, as a build that checks for overflow has it. The parsing of numbers
-- is the standard library's, and a parameter.
pub mod Steps
pub mod Keeps
pub mod Errors
pub mod Ops
pub mod Sound
mod Tests
use kore_lang.Base.{
  ℕ, suc, ◌+◌, ◌-◌, ◌^◌, ltb, Bool, true, false, not, ◌&&◌, ◌||◌, Option, none, some, List, [], ◌∷◌,
  String, if◌then◌else◌,
}
use kore_lang.Base.Int.{ℤ, pos, negsuc, ◌+ℤ◌, ◌-ℤ◌, ◌*ℤ◌, neg_ℤ, quot_ℤ, rem_ℤ, ltb_ℤ, leb_ℤ, eqb_ℤ}
use kore_lang.Base.Dict.{name_eq}
use kore_lang.Diag.{Span, at, error_diagnostic}
use kore_lang.Diag.Sink.{DiagSink, emit}
use kore_lang.Ast.{TypeExpr, Expr, MaybeExpr, Arms, Pattern, Stmts, Stmt, Item, Module, span_of}
use kore_lang.Eval.Value.{Value, is_truthy, unit, error}
use kore_lang.Eval.Env.{EvalEnv, push_scope, pop_scope, define, lookup, update}
use kore_lang.Eval.Env

abbrev pub eval_step_limit : ℕ
eval_step_limit = 1_000_000

pub record Evaluator : Type 0 where
  pub env : EvalEnv Value
  pub sink : DiagSink
  pub step_count : ℕ

-- What an operation on the evaluator does: a panic, or a result and the evaluator after it.
abbrev pub M : Type 0 → Type 0
M A = Evaluator → Option (A × Evaluator)

infixl 5 ◌>>=◌ ◌>>◌
abbrev pub ◌>>=◌ : {A B : Type 0} → M A → (A → M B) → M B
◌>>=◌ m f s = elim (m s) [ none ↦ none | some (a, s') ↦ f a s' ]

abbrev pub ◌>>◌ : {A B : Type 0} → M A → M B → M B
m >> k = m >>= λ _. k

abbrev pub pure : {A : Type 0} → A → M A
pure a s = some (a, s)

-- `self.error(…)`, and the value that the code returns after it.
unfoldable pub fail : Span → M Value
unfolding emit
fail span s = some (error, record s { sink = emit (error_diagnostic 6001 (at span)) s.sink })

-- The same, where the code goes on.
unfoldable pub report : Bool → Span → M (Unit {0})
unfolding emit
report true span s = some (tt, s)
report false span s = some (tt, record s { sink = emit (error_diagnostic 6001 (at span)) s.sink })

abbrev pub in_i64 : ℤ → Bool
in_i64 v = leb_ℤ (negsuc (2 ^ 63 - 1)) v && leb_ℤ v (pos (2 ^ 63 - 1))

unfoldable pub int_value : ℤ → M Value
int_value v = if in_i64 v then pure (Value.int v) else λ s. none

abbrev pub bool_value : Bool → M Value
bool_value b = pure (Value.bool b)

-- The division by zero is an error; that of the least number by -1 is out of range.
abbrev pub unless_zero : ℤ → Span → M Value → M Value
unless_zero b span m = if eqb_ℤ b (pos 0) then fail span else m

-- `%` panics where `/` does.
abbrev pub rem_value : ℤ → ℤ → M Value
rem_value a b = if in_i64 (quot_ℤ a b) then pure (Value.int (rem_ℤ a b)) else λ s. none

-- The `match` on the operator's text.
unfoldable pub dispatch : String → List (String × M Value) → M Value → M Value
dispatch op [] other = other
dispatch op ((name, m) ∷ rest) other = if name_eq op name then m else dispatch op rest other

abbrev pub int_ops : ℤ → ℤ → Span → List (String × M Value)
int_ops a b span =
    ("+", int_value (a +ℤ b))
    ∷ ("-", int_value (a -ℤ b))
    ∷ ("*", int_value (a *ℤ b))
    ∷ ("/", unless_zero b span (int_value (quot_ℤ a b)))
    ∷ ("%", unless_zero b span (rem_value a b))
    ∷ ("==", bool_value (eqb_ℤ a b))
    ∷ ("!=", bool_value (not (eqb_ℤ a b)))
    ∷ ("<", bool_value (ltb_ℤ a b))
    ∷ ("<=", bool_value (leb_ℤ a b))
    ∷ (">", bool_value (ltb_ℤ b a))
    ∷ (">=", bool_value (leb_ℤ b a))
    ∷ []

abbrev pub bool_ops : Bool → Bool → List (String × M Value)
bool_ops a b =
    ("and", bool_value (a && b))
    ∷ ("or", bool_value (a || b))
    ∷ ("&&", bool_value (a && b))
    ∷ ("||", bool_value (a || b))
    ∷ []

unfoldable pub eval_binary : String → Value → Value → Span → M Value
unfolding dispatch int_value fail ◌+ℤ◌ ◌-ℤ◌ ◌*ℤ◌ quot_ℤ rem_ℤ
eval_binary op (Value.int a) (Value.int b) span = dispatch op (int_ops a b span) (fail span)
eval_binary op (Value.bool a) (Value.bool b) span = dispatch op (bool_ops a b) (fail span)
eval_binary op lhs rhs span = fail span

unfoldable pub eval_unary : String → Value → Span → M Value
unfolding int_value fail
eval_unary op (Value.int n) span = if name_eq op "-" then int_value (neg_ℤ n) else fail span
eval_unary op (Value.bool b) span =
    if name_eq op "!" || name_eq op "not" then bool_value (not b) else fail span
eval_unary op operand span = fail span

-- The steps are counted on entry; past the limit an expression is not evaluated.
unfoldable pub step : Span → M Value → M Value
unfolding emit
step span m s =
    let s' = record s { step_count = suc s.step_count } in
    elim (ltb eval_step_limit s'.step_count) [
      | true ↦ some (error, record s' { sink = emit (error_diagnostic 6002 (at span)) s'.sink })
      | false ↦ m s'
    ]

abbrev pub parsed_int : Option ℤ → Span → M Value
parsed_int none span = fail span
parsed_int (some n) span = pure (Value.int n)

abbrev pub parsed_float : Option ℕ → Span → M Value
parsed_float none span = fail span
parsed_float (some f) span = pure (Value.float f)

abbrev pub found_value : Option Value → Span → M Value
found_value none span = fail span
found_value (some v) span = pure v

-- A path of one segment is looked up.
unfoldable pub eval_path : List String → Span → M Value
unfolding fail lookup
eval_path (name ∷ []) span s = found_value (lookup s.env name) span s
eval_path segments span s = fail span s

abbrev pub in_scope : M Value → M Value
in_scope m s = elim (m (record s { env = push_scope s.env })) [
  | none ↦ none
  | some (v, s') ↦ some (v, record s' { env = pop_scope s'.env })
]

unfoldable pub define_value : String → Value → M Value
unfolding define
define_value name v s = some (unit, record s { env = define s.env name v })

abbrev pub simple_name : Expr → Option String
simple_name (Expr.path (name ∷ []) span) = some name
simple_name _ = none

-- The assignment of a value: the update, or an error where the target is no name.
unfoldable pub assign_value : Option String → Value → Span → M Value
unfolding update report
assign_value none v span s = ◌>>◌ (report false span) (pure unit) s
assign_value (some name) v span s =
    let (env', found) = update s.env name v in
    ◌>>◌ (report found span) (pure unit) (record s { env = env' })

module _ (parse_int : String → Option ℤ) (parse_float : String → Option ℕ) where
  unfoldable mutual
    unfolding step eval_path eval_binary eval_unary define_value assign_value fail push_scope
        pop_scope is_truthy

    pub eval_expr : Expr → M Value
    eval_expr (Expr.int t span) = step span (parsed_int (parse_int t) span)
    eval_expr (Expr.float t span) = step span (parsed_float (parse_float t) span)
    eval_expr (Expr.bool b span) = step span (pure (Value.bool b))
    eval_expr (Expr.str t span) = step span (pure (Value.str t))
    eval_expr (Expr.path segments span) = step span (eval_path segments span)
    eval_expr (Expr.binary op lhs rhs span) =
        step span do l ← eval_expr lhs; r ← eval_expr rhs; eval_binary op l r span
    eval_expr (Expr.unary op operand span) =
        step span do v ← eval_expr operand; eval_unary op v span
    eval_expr (Expr.block stmts span) = step span (in_scope (eval_block stmts unit))
    eval_expr (Expr.branch scrutinee arms span) =
        step span (eval_maybe scrutinee >> eval_arms arms span)
    eval_expr e = step (span_of e) (fail (span_of e))

    pub eval_maybe : MaybeExpr → M Value
    eval_maybe MaybeExpr.no_expr = pure unit
    eval_maybe (MaybeExpr.an_expr e) = eval_expr e

    -- The first arm whose pattern is true or matches everything.
    pub eval_arms : Arms → Span → M Value
    eval_arms Arms.no_arms span = pure unit
    eval_arms (Arms.more_arms (Pattern.lit e) body at_arm arms) span = do
      v ← eval_expr e
      elim (is_truthy v) [ true ↦ eval_expr body | false ↦ eval_arms arms span ]
    eval_arms (Arms.more_arms (Pattern.cond e) body at_arm arms) span = do
      v ← eval_expr e
      elim (is_truthy v) [ true ↦ eval_expr body | false ↦ eval_arms arms span ]
    eval_arms (Arms.more_arms (Pattern.wildcard at_pattern) body at_arm arms) span = eval_expr body
    eval_arms (Arms.more_arms (Pattern.bind name at_pattern) body at_arm arms) span =
        elim (name_eq name "_") [ true ↦ eval_expr body | false ↦ fail span ]
    eval_arms (Arms.more_arms (Pattern.variant name bindings at_pattern) body at_arm arms) span =
        fail span

    -- The statements, with the value of the last one.
    pub eval_block : Stmts → Value → M Value
    eval_block Stmts.no_stmts last = pure last
    eval_block (Stmts.more_stmts st sts) last = do v ← eval_stmt st; eval_block sts v

    pub eval_stmt : Stmt → M Value
    eval_stmt (Stmt.expr_stmt e) = eval_expr e
    eval_stmt (Stmt.let_stmt name is_mut ty init span) = do v ← eval_expr init; define_value name v
    eval_stmt (Stmt.assign target value span) = do
      v ← eval_expr value
      assign_value (simple_name target) v span
    eval_stmt (Stmt.defer e span) = fail span

-- `Evaluator::new`, with the two constants.
abbrev pub new : DiagSink → Evaluator
new sink = record {
  env = define (define Env.new "true" (Value.bool true)) "false" (Value.bool false);
  sink = sink;
  step_count = 0;
}

unfoldable pub eval_item : Item → Evaluator → Evaluator
unfolding define
eval_item (Item.func f) s = record s { env = define s.env f.name (Value.func f.name f.span) }
eval_item (Item.struct d) s = record s {
  env = define s.env d.name (Value.type (TypeExpr.named d.name d.span));
}
eval_item (Item.union d) s = record s {
  env = define s.env d.name (Value.type (TypeExpr.named d.name d.span));
}
eval_item (Item.use_path p) s = s

unfoldable pub eval_items : List Item → Evaluator → Evaluator
unfolding eval_item
eval_items [] s = s
eval_items (item ∷ items) s = eval_items items (eval_item item s)

unfoldable pub eval_module : Module → Evaluator → Evaluator
unfolding eval_items
eval_module m s = eval_items m.items s
