-- ===== src/Eval/Evaluator/Ops.antt =====
-- The operations of the evaluator below expressions, and the errors they yield.
use kore_lang.Base.{
  ℕ, ◌+◌, ◌≡◌, refl, Bool, true, false, not, ◌||◌, Option, none, some, List, [], ◌∷◌, String,
  length, All, arith, Bool-cases, inl, inr,
}
use kore_lang.Base.Int.{ℤ, pos, ◌+ℤ◌, ◌-ℤ◌, ◌*ℤ◌, neg_ℤ, quot_ℤ, rem_ℤ, eqb_ℤ}
use kore_lang.Base.Dict.{name_eq}
use kore_lang.Diag.{Span, at, error_diagnostic}
use kore_lang.Diag.Sink.Counts.{err_count-emit}
use kore_lang.Eval.Value.{Value, unit, is_truthy}
use kore_lang.Eval.Env.{EvalEnv, lookup, define, update}
use kore_lang.Eval.Env.Laws.{length-update}
use kore_lang.Eval.Evaluator.{
  Evaluator, M, ◌>>=◌, ◌>>◌, pure, fail, report, in_i64, int_value, bool_value, unless_zero,
  rem_value, dispatch, int_ops, bool_ops, eval_binary, eval_unary, parsed_int, parsed_float,
  found_value, eval_path, define_value, assign_value,
}
use kore_lang.Eval.Evaluator.Errors.{
  is_error, env_errs, env_errs-lookup, env_errs-define, env_errs-update, length-define,
}
use kore_lang.Eval.Evaluator.Keeps.{
  Ends, Keeps, then-Keeps, weaken-Keeps, pure-Keeps, panic-Keeps, fail-Keeps, if-Keeps,
}

-- A value that is written out is no error.
value-Keeps : (before : Bool) (v : Value) → is_error v ≡ false → Keeps 0 before (pure v) is_error
value-Keeps before v h = pure-Keeps before v (λ k. ground arith)

module _ (before : Bool) where
  int_value-Keeps : (v : ℤ) → Keeps 0 before (int_value v) is_error
  unfolding int_value is_error
  int_value-Keeps v =
      if-Keeps 0 before (in_i64 v) (pure (Value.int v)) (λ s. none)
        (value-Keeps before (Value.int v) refl) (panic-Keeps 0 before)

  pub bool_value-Keeps : (b : Bool) → Keeps 0 before (bool_value b) is_error
  unfolding is_error
  bool_value-Keeps b = value-Keeps before (Value.bool b) refl

  pub str_value-Keeps : (t : String) → Keeps 0 before (pure (Value.str t)) is_error
  unfolding is_error
  str_value-Keeps t = value-Keeps before (Value.str t) refl

  unless_zero-Keeps :
      (b : ℤ) (span : Span) (m : M Value)
      → Keeps 0 before m is_error
      → Keeps 0 before (unless_zero b span m) is_error
  unless_zero-Keeps b span m k =
      if-Keeps 0 before (eqb_ℤ b (pos 0)) (fail span) m (fail-Keeps 0 before span) k

  rem_value-Keeps : (a b : ℤ) → Keeps 0 before (rem_value a b) is_error
  unfolding is_error
  rem_value-Keeps a b =
      if-Keeps 0 before (in_i64 (quot_ℤ a b)) (pure (Value.int (rem_ℤ a b))) (λ s. none)
        (value-Keeps before (Value.int (rem_ℤ a b)) refl) (panic-Keeps 0 before)

  dispatch-Keeps :
      (op : String) (ops : List (String × M Value)) (other : M Value)
      → All (λ e. Keeps 0 before e.1 is_error) ops
      → Keeps 0 before other is_error
      → Keeps 0 before (dispatch op ops other) is_error
  unfolding dispatch
  dispatch-Keeps op [] other k k' = k'
  dispatch-Keeps op ((name, m) ∷ rest) other k k' =
      if-Keeps 0 before (name_eq op name) m (dispatch op rest other) k.0
        (dispatch-Keeps op rest other k.1 k')

  int_ops-Keep : (a b : ℤ) (span : Span) → All (λ e. Keeps 0 before e.1 is_error) (int_ops a b span)
  int_ops-Keep a b span = (
    int_value-Keeps (a +ℤ b),
    (
      int_value-Keeps (a -ℤ b),
      (
        int_value-Keeps (a *ℤ b),
        (
          unless_zero-Keeps b span (int_value (quot_ℤ a b)) (int_value-Keeps (quot_ℤ a b)),
          (
            unless_zero-Keeps b span (rem_value a b) (rem_value-Keeps a b),
            (
              bool_value-Keeps _,
              (
                bool_value-Keeps _,
                (
                  bool_value-Keeps _,
                  (bool_value-Keeps _, (bool_value-Keeps _, (bool_value-Keeps _, tt))),
                ),
              ),
            ),
          ),
        ),
      ),
    ),
  )

  bool_ops-Keep : (a b : Bool) → All (λ e. Keeps 0 before e.1 is_error) (bool_ops a b)
  bool_ops-Keep a b =
      (bool_value-Keeps _, (bool_value-Keeps _, (bool_value-Keeps _, (bool_value-Keeps _, tt))))

  pub eval_binary-Keeps :
      (op : String) (l r : Value) (span : Span) → Keeps 0 before (eval_binary op l r span) is_error
  unfolding eval_binary
  eval_binary-Keeps op (Value.int a) (Value.int b) span =
      dispatch-Keeps op (int_ops a b span) (fail span) (int_ops-Keep a b span)
        (fail-Keeps 0 before span)
  eval_binary-Keeps op (Value.bool a) (Value.bool b) span =
      dispatch-Keeps op (bool_ops a b) (fail span) (bool_ops-Keep a b) (fail-Keeps 0 before span)
  eval_binary-Keeps op l r span = fail-Keeps 0 before span

  pub eval_unary-Keeps :
      (op : String) (v : Value) (span : Span) → Keeps 0 before (eval_unary op v span) is_error
  unfolding eval_unary
  eval_unary-Keeps op (Value.int n) span =
      if-Keeps 0 before (name_eq op "-") (int_value (neg_ℤ n)) (fail span)
        (int_value-Keeps (neg_ℤ n)) (fail-Keeps 0 before span)
  eval_unary-Keeps op (Value.bool b) span =
      if-Keeps 0 before (name_eq op "!" || name_eq op "not") (bool_value (not b)) (fail span)
        (bool_value-Keeps (not b)) (fail-Keeps 0 before span)
  eval_unary-Keeps op v span = fail-Keeps 0 before span

  pub parsed_int-Keeps : (o : Option ℤ) (span : Span) → Keeps 0 before (parsed_int o span) is_error
  unfolding is_error
  parsed_int-Keeps none span = fail-Keeps 0 before span
  parsed_int-Keeps (some n) span = value-Keeps before (Value.int n) refl

  pub parsed_float-Keeps :
      (o : Option ℕ) (span : Span) → Keeps 0 before (parsed_float o span) is_error
  unfolding is_error
  parsed_float-Keeps none span = fail-Keeps 0 before span
  parsed_float-Keeps (some n) span = value-Keeps before (Value.float n) refl

  -- A name that stands for an error value: the environment has one, so an error was reported.
  pub eval_path-Keeps :
      (segments : List String) (span : Span) → Keeps 0 before (eval_path segments span) is_error
  unfolding eval_path
  eval_path-Keeps [] span s n = fail-Keeps 0 before span s n
  eval_path-Keeps (name ∷ []) span s n = go (lookup s.env name) refl
    where
      go :
          (o : Option Value)
          → lookup s.env name ≡ o
          → Ends 0 before is_error s (found_value o span s)
      go none e = fail-Keeps 0 before span s n
      go (some v) e = record {
        scopes = refl;
        first = omega arith;
        last = omega arith;
        errors = omega arith;
        sound = λ g. elim (Bool-cases (is_error v)) [
          | inl bad ↦ ground (arith, env_errs-lookup s.env name v e bad)
          | inr fine ↦ ground arith
        ];
      }
  eval_path-Keeps (name ∷ next ∷ segments) span s n = fail-Keeps 0 before span s n

pub unit_fine : is_error unit ≡ false
unfolding is_error
unit_fine = refl

-- The value in hand goes to the environment.
pub define_value-Keeps :
    (name : String) (v : Value) → Keeps 0 (is_error v) (define_value name v) is_error
unfolding define_value
define_value-Keeps name v s n = record {
  scopes = length-define s.env name v;
  first = omega arith;
  last = omega arith;
  errors = omega arith;
  sound = λ g. elim (Bool-cases (env_errs (define s.env name v))) [
    | inl bad ↦ ground (arith, env_errs-define s.env name v bad, unit_fine)
    | inr fine ↦ ground (arith, unit_fine)
  ];
}

-- The value in hand replaces another, and an error is reported where the name was not found.
replaced :
    (found : Bool) (span : Span) (v : Value) (e : EvalEnv Value) (s : Evaluator)
    → length e.scopes ≡ length s.env.scopes
    → (env_errs e ≡ true → (is_error v || env_errs s.env) ≡ true)
    → Ends 0 (is_error v) is_error s ((report found span >> pure unit) (record s { env = e }))
unfolding report
replaced true span v e s same errs = record {
  scopes = same;
  first = omega arith;
  last = omega arith;
  errors = omega arith;
  sound = λ g. elim (Bool-cases (env_errs e)) [
    | inl bad ↦ ground (arith, errs bad, unit_fine)
    | inr fine ↦ ground (arith, unit_fine)
  ];
}
replaced false span v e s same errs =
    let count = err_count-emit (error_diagnostic 6001 (at span)) s.sink in
    record {
      scopes = same;
      first = omega arith;
      last = omega arith;
      errors = omega (arith, count);
      sound = λ g. ground (arith, count);
    }

pub assign_value-Keeps :
    (target : Option String) (v : Value) (span : Span)
    → Keeps 0 (is_error v) (assign_value target v span) is_error
unfolding assign_value
assign_value-Keeps none v span s n = replaced false span v s.env s refl (λ h. ground arith)
assign_value-Keeps (some name) v span s n =
    replaced (update s.env name v).1 span v (update s.env name v).0 s (length-update s.env name v)
      (env_errs-update s.env name v)

-- The arm that is taken, or those after it.
pub arm-Keeps :
    (k l : ℕ) (before b : Bool) (m m' : M Value)
    → Keeps k before m is_error
    → Keeps l before m' is_error
    → Keeps (k + l) before (elim b [ true ↦ m | false ↦ m' ]) is_error
arm-Keeps k l before true m m' h h' =
    weaken-Keeps k (k + l) before before m is_error (omega arith) (λ e. e) h
arm-Keeps k l before false m m' h h' =
    weaken-Keeps l (k + l) before before m' is_error (omega arith) (λ e. e) h'

pub from_unit-Keeps :
    (k : ℕ) (before : Bool) (m : M Value)
    → Keeps k (is_error unit) m is_error
    → Keeps k before m is_error
unfolding is_error
from_unit-Keeps k before m h =
    weaken-Keeps k k false before m is_error (omega arith) (λ e. ground arith) h

-- The test of an arm, then the arm that is taken.
pub tested-Keeps :
    (k l n : ℕ) (before : Bool) (test body rest : M Value)
    → Keeps k before test is_error
    → ((before : Bool) → Keeps l before body is_error)
    → ((before : Bool) → Keeps n before rest is_error)
    → Keeps
        (k + (l + n))
        before
        (test >>= λ v. elim (is_truthy v) [ true ↦ body | false ↦ rest ])
        is_error
tested-Keeps k l n before test body rest ht hb hr =
    then-Keeps k (l + n) _ before test _ (omega arith) ht
      (λ v. arm-Keeps l n (is_error v) (is_truthy v) body rest (hb (is_error v)) (hr (is_error v)))
