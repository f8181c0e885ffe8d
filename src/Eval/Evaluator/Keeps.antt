-- ===== src/Eval/Evaluator/Keeps.antt =====
-- What every step of an evaluation keeps, and the rules by which it composes.
use kore_lang.Base.{
  ℕ, suc, ◌+◌, ◌≤◌, ltb, ◌≡◌, refl, Bool, true, false, not, ◌||◌, Option, none, some, length, arith,
  if◌then◌else◌, Bool-cases, List-cases, inl, inr,
}
use kore_lang.Diag.{Span, at, error_diagnostic}
use kore_lang.Diag.Sink.{emit}
use kore_lang.Diag.Sink.Counts.{err_count-emit}
use kore_lang.Eval.Value.{Value, error}
use kore_lang.Eval.Env.{EvalEnv, push_scope, pop_scope}
use kore_lang.Eval.Evaluator.{Evaluator, M, ◌>>=◌, pure, step, in_scope, eval_step_limit, fail}
use kore_lang.Eval.Evaluator.Errors.{is_error, env_errs, env_errs-push, env_errs-pop}

-- An error was reported, or there is no error value: neither in hand nor in the environment.
abbrev pub good : Bool → Evaluator → Bool
good held s = ltb 0 s.sink.err_count || not (held || env_errs s.env)

-- At most `k` steps are counted and at most one more for each; the scopes stay, reports stay, and error
-- values are reported.
pub record Kept (k : ℕ) (before after : Bool) (s t : Evaluator) : Type 0 where
  pub scopes : length t.env.scopes ≡ length s.env.scopes
  pub first : s.step_count ≤ t.step_count
  pub last : t.step_count ≤ s.step_count + k
  pub errors : s.sink.err_count ≤ t.sink.err_count
  pub sound : good before s ≡ true → good after t ≡ true

abbrev pub Ends : {A : Type 0} → ℕ → Bool → (A → Bool) → Evaluator → Option (A × Evaluator) → Type 0
Ends k before bad s none = Unit
Ends k before bad s (some (a, t)) = Kept k before (bad a) s t

-- `before` tells whether an error value is in hand before, and `bad` whether the result is one.
abbrev pub Keeps : {A : Type 0} → ℕ → Bool → M A → (A → Bool) → Type 0
Keeps k before m bad =
    (s : Evaluator) → ltb 0 (length s.env.scopes) ≡ true → Ends k before bad s (m s)

Kept-trans :
    (k l : ℕ) (a b c : Bool) (s t u : Evaluator)
    → Kept k a b s t
    → Kept l b c t u
    → Kept (k + l) a c s u
Kept-trans k l a b c s t u p q = record {
  scopes = omega (arith, p.scopes, q.scopes);
  first = omega (arith, p.first, q.first);
  last = omega (arith, p.last, q.last);
  errors = omega (arith, p.errors, q.errors);
  sound = λ h. q.sound (p.sound h);
}

Ends-then :
    {B : Type 0} (k l : ℕ) (a b : Bool) (bad : B → Bool) (s t : Evaluator)
    (r : Option (B × Evaluator))
    → Kept k a b s t
    → Ends l b bad t r
    → Ends (k + l) a bad s r
Ends-then k l a b bad s t none p q = tt
Ends-then k l a b bad s t (some (x, u)) p q = Kept-trans k l a b (bad x) s t u p q

pub bind-Keeps :
    {A B : Type 0} (k l : ℕ) (before : Bool) (m : M A) (bad : A → Bool) (f : A → M B)
    (bad' : B → Bool)
    → Keeps k before m bad
    → ((a : A) → Keeps l (bad a) (f a) bad')
    → Keeps (k + l) before (m >>= f) bad'
bind-Keeps {A} {B} k l before m bad f bad' km kf s n = go (m s) (km s n)
  where
    go :
        (r : Option (A × Evaluator))
        → Ends k before bad s r
        → Ends (k + l) before bad' s (elim r [ none ↦ none | some (a, s') ↦ f a s' ])
    go none e = tt
    go (some (a, t)) e = Ends-then k l before (bad a) bad' s t (f a t) e (kf a t (rw e.scopes n))

-- A bound on more steps, with an error value in hand where there was one.
pub weaken-Keeps :
    {A : Type 0} (k l : ℕ) (a b : Bool) (m : M A) (bad : A → Bool)
    → k ≤ l
    → (a ≡ true → b ≡ true)
    → Keeps k a m bad
    → Keeps l b m bad
weaken-Keeps {A} k l a b m bad le ab km s n = go (m s) (km s n)
  where
    go : (r : Option (A × Evaluator)) → Ends k a bad s r → Ends l b bad s r
    go none e = tt
    go (some (x, t)) e = record {
      scopes = e.scopes;
      first = e.first;
      last = omega (arith, e.last, le);
      errors = e.errors;
      sound = λ h. e.sound (ground (arith, ab));
    }

pub then-Keeps :
    (k l n : ℕ) (before : Bool) (m : M Value) (f : Value → M Value)
    → k + l ≤ n
    → Keeps k before m is_error
    → ((v : Value) → Keeps l (is_error v) (f v) is_error)
    → Keeps n before (m >>= f) is_error
then-Keeps k l n before m f le hm hf =
    weaken-Keeps (k + l) n before before (m >>= f) is_error le (λ h. h)
      (bind-Keeps k l before m is_error f is_error hm hf)

-- A result that is no error value, or the one in hand.
pub pure-Keeps :
    (before : Bool) (v : Value)
    → (is_error v ≡ true → before ≡ true)
    → Keeps 0 before (pure v) is_error
pure-Keeps before v h s n = record {
  scopes = refl;
  first = omega arith;
  last = omega arith;
  errors = omega arith;
  sound = λ g. ground (arith, h);
}

pub panic-Keeps : (k : ℕ) (before : Bool) → Keeps {A = Value} k before (λ s. none) is_error
panic-Keeps k before s n = tt

pub fail-Keeps : (k : ℕ) (before : Bool) (span : Span) → Keeps k before (fail span) is_error
unfolding fail
fail-Keeps k before span s n =
    let count = err_count-emit (error_diagnostic 6001 (at span)) s.sink in
    record {
      scopes = refl;
      first = omega arith;
      last = omega arith;
      errors = omega (arith, count);
      sound = λ g. ground (arith, count);
    }

pub if-Keeps :
    (k : ℕ) (before b : Bool) (m m' : M Value)
    → Keeps k before m is_error
    → Keeps k before m' is_error
    → Keeps k before (if b then m else m') is_error
if-Keeps k before true m m' h h' = h
if-Keeps k before false m m' h h' = h'

pub step-Keeps :
    (k : ℕ) (before : Bool) (span : Span) (m : M Value)
    → Keeps k before m is_error
    → Keeps (suc k) before (step span m) is_error
unfolding step
step-Keeps k before span m km s n =
    let s' = record s { step_count = suc s.step_count } in
    let count = err_count-emit (error_diagnostic 6002 (at span)) s'.sink in
    go (ltb eval_step_limit s'.step_count) (m s') (km s' n) count
  where
    go :
        (b : Bool) (r : Option (Value × Evaluator))
        → Ends k before is_error (record s { step_count = suc s.step_count }) r
        → (emit (error_diagnostic 6002 (at span)) s.sink).err_count ≡ suc s.sink.err_count
        → Ends (suc k) before is_error s (elim b [
          | true ↦ some (
            error,
            record s {
              step_count = suc s.step_count;
              sink = emit (error_diagnostic 6002 (at span)) s.sink;
            },
          )
          | false ↦ r
        ])
    go true r e count = record {
      scopes = refl;
      first = omega arith;
      last = omega arith;
      errors = omega (arith, count);
      sound = λ g. ground (arith, count);
    }
    go false none e count = tt
    go false (some (v, t)) e count = record {
      scopes = e.scopes;
      first = omega (arith, e.first);
      last = omega (arith, e.last);
      errors = e.errors;
      sound = λ g. e.sound g;
    }

length-push : (e : EvalEnv Value) → length (push_scope e).scopes ≡ suc (length e.scopes)
unfolding push_scope
length-push e = refl

length-pop :
    (e : EvalEnv Value) (n : ℕ)
    → ltb 0 n ≡ true
    → length e.scopes ≡ suc n
    → length (pop_scope e).scopes ≡ n
unfolding pop_scope
length-pop e n pos h = elim (List-cases e.scopes) [
  | inl empty ↦ absurd (ground arith)
  | inr (d, ds, eq) ↦ ground arith
]

popped :
    (k : ℕ) (before after : Bool) (s t : Evaluator)
    → ltb 0 (length s.env.scopes) ≡ true
    → Kept k before after (record s { env = push_scope s.env }) t
    → Kept k before after s (record t { env = pop_scope t.env })
popped k before after s t n e = record {
  scopes = length-pop t.env (length s.env.scopes) n (omega (arith, e.scopes, length-push s.env));
  first = e.first;
  last = e.last;
  errors = e.errors;
  sound = λ g.
      let inner : good after t ≡ true = e.sound (rw (env_errs-push s.env) g) in
      elim (Bool-cases (env_errs (pop_scope t.env))) [
        | inl still ↦ ground (arith, env_errs-pop t.env still)
        | inr gone ↦ ground arith
      ];
}

pub in_scope-Keeps :
    (k : ℕ) (before : Bool) (m : M Value)
    → Keeps k before m is_error
    → Keeps k before (in_scope m) is_error
in_scope-Keeps k before m km s n = go (m inner) (km inner (ground (arith, length-push s.env)))
  where
    inner : Evaluator
    inner = record s { env = push_scope s.env }

    go :
        (r : Option (Value × Evaluator))
        → Ends k before is_error inner r
        → Ends k before is_error s
            (elim r [ none ↦ none | some (v, t) ↦ some (v, record t { env = pop_scope t.env }) ])
    go none e = tt
    go (some (v, t)) e = popped k before (is_error v) s t n e
