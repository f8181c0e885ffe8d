-- ===== src/Eval/Evaluator/Sound.antt =====
-- Evaluation as a whole: scopes, steps and reports.
use kore_lang.Base.{
  ℕ, ◌+◌, ◌≤◌, ltb, ◌≡◌, refl, subst, Bool, true, false, ◌||◌, Option, some, List, [], ◌∷◌, String,
  length, arith, Bool-cases, inl, inr,
}
use kore_lang.Base.Int.{ℤ}
use kore_lang.Base.Dict.{name_eq}
use kore_lang.Base.Dict
use kore_lang.Diag.{Span}
use kore_lang.Diag.Sink.{DiagSink}
use kore_lang.Ast.{Expr, MaybeExpr, Arms, Pattern, Stmts, Stmt, Item, Module, span_of}
use kore_lang.Eval.Value.{Value, unit}
use kore_lang.Eval.Env.{define, define_in}
use kore_lang.Eval.Evaluator.{
  Evaluator, pure, fail, bool_value, parsed_int, parsed_float, eval_path, simple_name, eval_expr,
  eval_maybe, eval_arms, eval_block, eval_stmt, new, eval_item, eval_items, eval_module,
}
use kore_lang.Eval.Evaluator.Steps.{
  expr_steps, maybe_steps, arms_steps, pattern_steps, block_steps, stmt_steps,
}
use kore_lang.Eval.Evaluator.Errors.{
  is_error, scopes_err, dict_errs, env_errs, env_errs-define, length-define,
}
use kore_lang.Eval.Evaluator.Keeps.{
  Kept, Ends, Keeps, then-Keeps, weaken-Keeps, pure-Keeps, fail-Keeps, step-Keeps, in_scope-Keeps,
}
use kore_lang.Eval.Evaluator.Ops.{
  bool_value-Keeps, str_value-Keeps, eval_binary-Keeps, eval_unary-Keeps, parsed_int-Keeps,
  parsed_float-Keeps, eval_path-Keeps, unit_fine, define_value-Keeps, assign_value-Keeps, arm-Keeps,
  from_unit-Keeps, tested-Keeps,
}

-- An evaluator with a scope and no error value.
abbrev Fine : Evaluator → Type 0
Fine s = (ltb 0 (length s.env.scopes) ≡ true) × (env_errs s.env ≡ false)

defined-Fine :
    (s : Evaluator) (name : String) (v : Value)
    → is_error v ≡ false
    → Fine s
    → Fine (record s { env = define s.env name v })
defined-Fine s name v fine (scopes, errs) = (
  ground (arith, length-define s.env name v),
  elim (Bool-cases (env_errs (define s.env name v))) [
    | inl bad ↦ absurd (ground (arith, env_errs-define s.env name v bad))
    | inr clean ↦ clean
  ],
)

items-Fine : (items : List Item) (s : Evaluator) → Fine s → Fine (eval_items items s)
unfolding eval_items eval_item is_error
items-Fine [] s h = h
items-Fine (Item.func f ∷ items) s h = items-Fine items _ (defined-Fine s f.name _ refl h)
items-Fine (Item.struct d ∷ items) s h = items-Fine items _ (defined-Fine s d.name _ refl h)
items-Fine (Item.union d ∷ items) s h = items-Fine items _ (defined-Fine s d.name _ refl h)
items-Fine (Item.use_path p ∷ items) s h = items-Fine items s h

module-Fine : (m : Module) (sink : DiagSink) → Fine (eval_module m (new sink))
unfolding eval_module env_errs scopes_err dict_errs define define_in Dict.put is_error
module-Fine m sink = items-Fine m.items (new sink) (refl, refl)

module _ (parse_int : String → Option ℤ) (parse_float : String → Option ℕ) where
  mutual
    unfolding eval_expr eval_maybe eval_arms eval_block eval_stmt span_of expr_steps maybe_steps
        arms_steps pattern_steps block_steps stmt_steps

    eval_expr-Keeps :
        (e : Expr) (before : Bool)
        → Keeps (expr_steps e) before (eval_expr parse_int parse_float e) is_error
    eval_expr-Keeps (Expr.int t span) before =
        step-Keeps 0 before span (parsed_int (parse_int t) span)
          (parsed_int-Keeps before (parse_int t) span)
    eval_expr-Keeps (Expr.float t span) before =
        step-Keeps 0 before span (parsed_float (parse_float t) span)
          (parsed_float-Keeps before (parse_float t) span)
    eval_expr-Keeps (Expr.bool b span) before =
        step-Keeps 0 before span (bool_value b) (bool_value-Keeps before b)
    eval_expr-Keeps (Expr.str t span) before =
        step-Keeps 0 before span (pure (Value.str t)) (str_value-Keeps before t)
    eval_expr-Keeps (Expr.path segments span) before =
        step-Keeps 0 before span (eval_path segments span) (eval_path-Keeps before segments span)
    eval_expr-Keeps (Expr.binary op lhs rhs span) before =
        step-Keeps (expr_steps lhs + expr_steps rhs) before span _ (
          then-Keeps (expr_steps lhs) (expr_steps rhs) _ before _ _ (omega arith)
            (eval_expr-Keeps lhs before)
            (λ l.
              then-Keeps (expr_steps rhs) 0 _ (is_error l) _ _ (omega arith)
                (eval_expr-Keeps rhs (is_error l))
                (λ r. eval_binary-Keeps (is_error r) op l r span)))
    eval_expr-Keeps (Expr.unary op operand span) before = step-Keeps _ before span _ (
        then-Keeps (expr_steps operand) 0 _ before _ _ (omega arith)
          (eval_expr-Keeps operand before) (λ v. eval_unary-Keeps (is_error v) op v span))
    eval_expr-Keeps (Expr.block stmts span) before =
        step-Keeps (block_steps stmts) before span _
          (in_scope-Keeps _ before _ (from_unit-Keeps _ before _ (eval_block-Keeps stmts unit)))
    eval_expr-Keeps (Expr.branch scrutinee arms span) before = step-Keeps _ before span _ (
        then-Keeps (maybe_steps scrutinee) (arms_steps arms) _ before _ _ (omega arith)
          (eval_maybe-Keeps scrutinee before) (λ v. eval_arms-Keeps arms span (is_error v)))
    eval_expr-Keeps (Expr.nil span) before =
        step-Keeps 0 before span (fail span) (fail-Keeps 0 before span)
    eval_expr-Keeps (Expr.loop label cond body span) before =
        step-Keeps 0 before span (fail span) (fail-Keeps 0 before span)
    eval_expr-Keeps (Expr.call callee args span) before =
        step-Keeps 0 before span (fail span) (fail-Keeps 0 before span)
    eval_expr-Keeps (Expr.field base name span) before =
        step-Keeps 0 before span (fail span) (fail-Keeps 0 before span)
    eval_expr-Keeps (Expr.index base at_index span) before =
        step-Keeps 0 before span (fail span) (fail-Keeps 0 before span)
    eval_expr-Keeps (Expr.deref e span) before =
        step-Keeps 0 before span (fail span) (fail-Keeps 0 before span)
    eval_expr-Keeps (Expr.propagate e span) before =
        step-Keeps 0 before span (fail span) (fail-Keeps 0 before span)
    eval_expr-Keeps (Expr.ret e span) before =
        step-Keeps 0 before span (fail span) (fail-Keeps 0 before span)
    eval_expr-Keeps (Expr.stop label span) before =
        step-Keeps 0 before span (fail span) (fail-Keeps 0 before span)
    eval_expr-Keeps (Expr.skip label span) before =
        step-Keeps 0 before span (fail span) (fail-Keeps 0 before span)
    eval_expr-Keeps (Expr.jmp e label span) before =
        step-Keeps 0 before span (fail span) (fail-Keeps 0 before span)
    eval_expr-Keeps (Expr.struct_lit name inits span) before =
        step-Keeps 0 before span (fail span) (fail-Keeps 0 before span)
    eval_expr-Keeps (Expr.array_lit es span) before =
        step-Keeps 0 before span (fail span) (fail-Keeps 0 before span)
    eval_expr-Keeps (Expr.variant_constructor name e span) before =
        step-Keeps 0 before span (fail span) (fail-Keeps 0 before span)

    eval_maybe-Keeps :
        (m : MaybeExpr) (before : Bool)
        → Keeps (maybe_steps m) before (eval_maybe parse_int parse_float m) is_error
    eval_maybe-Keeps MaybeExpr.no_expr before =
        pure-Keeps before unit (λ k. ground (arith, unit_fine))
    eval_maybe-Keeps (MaybeExpr.an_expr e) before = eval_expr-Keeps e before

    eval_arms-Keeps :
        (arms : Arms) (span : Span) (before : Bool)
        → Keeps (arms_steps arms) before (eval_arms parse_int parse_float arms span) is_error
    eval_arms-Keeps Arms.no_arms span before =
        pure-Keeps before unit (λ k. ground (arith, unit_fine))
    eval_arms-Keeps (Arms.more_arms (Pattern.lit e) body at_arm arms) span before =
        tested-Keeps (expr_steps e) (expr_steps body) (arms_steps arms) before _ _ _
          (eval_expr-Keeps e before) (eval_expr-Keeps body) (eval_arms-Keeps arms span)
    eval_arms-Keeps (Arms.more_arms (Pattern.cond e) body at_arm arms) span before =
        tested-Keeps (expr_steps e) (expr_steps body) (arms_steps arms) before _ _ _
          (eval_expr-Keeps e before) (eval_expr-Keeps body) (eval_arms-Keeps arms span)
    eval_arms-Keeps (Arms.more_arms (Pattern.wildcard at_pattern) body at_arm arms) span before =
        weaken-Keeps (expr_steps body) _ before before _ is_error (omega arith) (λ e. e)
          (eval_expr-Keeps body before)
    eval_arms-Keeps (Arms.more_arms (Pattern.bind name at_pattern) body at_arm arms) span before =
        weaken-Keeps (expr_steps body + 0) _ before before _ is_error (omega arith) (λ e. e)
          (arm-Keeps (expr_steps body) 0 before (name_eq name "_") _ _ (eval_expr-Keeps body before)
            (fail-Keeps 0 before span))
    eval_arms-Keeps (Arms.more_arms (Pattern.variant name bindings at_pattern) body at_arm arms)
          span before =
        fail-Keeps _ before span

    eval_block-Keeps :
        (sts : Stmts) (last : Value)
        → Keeps
            (block_steps sts)
            (is_error last)
            (eval_block parse_int parse_float sts last)
            is_error
    eval_block-Keeps Stmts.no_stmts last = pure-Keeps (is_error last) last (λ k. k)
    eval_block-Keeps (Stmts.more_stmts st sts) last =
        then-Keeps (stmt_steps st) (block_steps sts) _ (is_error last) _ _ (omega arith)
          (eval_stmt-Keeps st (is_error last)) (λ v. eval_block-Keeps sts v)

    eval_stmt-Keeps :
        (st : Stmt) (before : Bool)
        → Keeps (stmt_steps st) before (eval_stmt parse_int parse_float st) is_error
    eval_stmt-Keeps (Stmt.expr_stmt e) before = eval_expr-Keeps e before
    eval_stmt-Keeps (Stmt.let_stmt name is_mut ty init span) before =
        then-Keeps (expr_steps init) 0 _ before _ _ (omega arith) (eval_expr-Keeps init before)
          (λ v. define_value-Keeps name v)
    eval_stmt-Keeps (Stmt.assign target value span) before =
        then-Keeps (expr_steps value) 0 _ before _ _ (omega arith) (eval_expr-Keeps value before)
          (λ v. assign_value-Keeps (simple_name target) v span)
    eval_stmt-Keeps (Stmt.defer e span) before = fail-Keeps 0 before span

  evaluated :
      (e : Expr) (s t : Evaluator) (v : Value)
      → ltb 0 (length s.env.scopes) ≡ true
      → eval_expr parse_int parse_float e s ≡ some (v, t)
      → Kept (expr_steps e) false (is_error v) s t
  evaluated e s t v n run =
      subst (Ends (expr_steps e) false is_error s) run (eval_expr-Keeps e false s n)

  -- An evaluation that does not panic leaves as many scopes as it found, where there is at least one, counts
  -- at most one step for each expression of the syntax tree that it may enter, and takes no report back.
  pub eval_expr-bounds :
      (e : Expr) (s t : Evaluator) (v : Value)
      → ltb 0 (length s.env.scopes) ≡ true
      → eval_expr parse_int parse_float e s ≡ some (v, t)
      → (length t.env.scopes ≡ length s.env.scopes)
        × (s.step_count ≤ t.step_count)
        × (t.step_count ≤ s.step_count + expr_steps e)
        × (s.sink.err_count ≤ t.sink.err_count)
  eval_expr-bounds e s t v n run =
      let k = evaluated e s t v n run in (k.scopes, k.first, k.last, k.errors)

  -- An evaluation after the items of a module, in a new evaluator, that does not panic and leaves no error
  -- in the sink yields no error value, and no name stands for one.
  pub eval_expr-reported :
      (m : Module) (sink : DiagSink) (e : Expr) (t : Evaluator) (v : Value)
      → eval_expr parse_int parse_float e (eval_module m (new sink)) ≡ some (v, t)
      → t.sink.err_count ≡ 0
      → (is_error v || env_errs t.env) ≡ false
  eval_expr-reported m sink e t v run clean =
      let start = module-Fine m sink in
      let k = evaluated e (eval_module m (new sink)) t v start.0 run in
      ground (arith, k.sound (ground (arith, start.1)))
