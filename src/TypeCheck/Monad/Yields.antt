-- ===== src/TypeCheck/Monad/Yields.antt =====
-- What a step of the checker has found out where it reports nothing, with a rule for each way to put
-- steps together.
use kore_lang.Base.{
  ℕ, ◌≡◌, refl, sym, subst, ap, Bool, true, false, Option, none, some, [], ◌∷◌, arith,
}
use kore_lang.Diag.{Span, at, error_diagnostic}
use kore_lang.Diag.Sink.Counts.{err_count-emit}
use kore_lang.TypeCheck.Types.{Ty}
use kore_lang.TypeCheck.Monad.{
  TypeChecker, Check, pure, ◌>>=◌, ◌>>◌, look, push_scope, pop_scope, outer, emit_error, demand,
  expect, enter, with_pos,
}
use kore_lang.TypeCheck.Monad.Keeps.{Scopes, errors, Keeps, after-Keeps, id_scopes}

-- A state with given scopes and its flag taken.
abbrev pub with_scopes : TypeChecker → Scopes → TypeChecker
with_scopes s sc = record s { var_scopes = sc; branch_in_stmt_pos = false }

-- A run from the scopes `sc` that adds no error changes at most the scopes, and `R` holds of its value
-- and the new scopes.
abbrev Result : {A : Type 0} → TypeChecker → (A → Scopes → Type 0) → A × TypeChecker → Type 0
Result s R r = errors r.1 ≡ errors s → (r.1 ≡ with_scopes s r.1.var_scopes) × R r.0 r.1.var_scopes

pub record Yields (s : TypeChecker) (sc : Scopes) {A : Type 0} (m : Check A)
    (R : A → Scopes → Type 0) : Type 0 where
  pub run : Result s R (m (with_scopes s sc))

module _ {s : TypeChecker} {sc : Scopes} {A : Type 0} where
  pub pure-Yields : {R : A → Scopes → Type 0} (a : A) → R a sc → Yields s sc (pure a) R
  pure-Yields a h = record { run = λ quiet. (refl, h) }

  pub look-Yields :
      {R : A → Scopes → Type 0} (g : TypeChecker → A)
      → R (g (with_scopes s sc)) sc
      → Yields s sc (look g) R
  look-Yields g h = record { run = λ quiet. (refl, h) }

  pub bind-Yields :
      {B : Type 0} {m : Check B} {k : B → Check A} {R : B → Scopes → Type 0}
      {Q : A → Scopes → Type 0}
      → Keeps outer m
      → ((b : B) → Keeps outer (k b))
      → Yields s sc m R
      → ((b : B) (sc' : Scopes) → R b sc' → Yields s sc' (k b) Q)
      → Yields s sc (m >>= k) Q
  bind-Yields {m = m} {k} {R} {Q} hm hk ym yk = record {
    run = λ quiet.
        let (b, t) = m (with_scopes s sc) in
        let first = hm.run (with_scopes s sc) in
        let second = after-Keeps t (hk b) first.taken in
        let (e, r) = ym.run (omega (arith, first.grows, second.grows, quiet)) in
        subst (λ u. Result s Q (k b u)) (sym e) (yk b t.var_scopes r).run quiet;
  }

  -- After a step that keeps all scopes.
  pub over-Yields :
      {B : Type 0} {m : Check B} {k : B → Check A} {R : B → Type 0} {Q : A → Scopes → Type 0}
      (g : Scopes → Scopes)
      → Keeps id_scopes m
      → ((b : B) → Keeps g (k b))
      → Yields s sc m (λ b _. R b)
      → ((b : B) → R b → Yields s sc (k b) Q)
      → Yields s sc (m >>= k) Q
  over-Yields {m = m} {k} {R} {Q} g hm hk ym yk = record {
    run = λ quiet.
        let (b, t) = m (with_scopes s sc) in
        let first = hm.run (with_scopes s sc) in
        let second = after-Keeps t (hk b) first.taken in
        let (e, r) = ym.run (omega (arith, first.grows, second.grows, quiet)) in
        let same = subst (λ scopes. t ≡ with_scopes s scopes) first.scopes e in
        subst (λ u. Result s Q (k b u)) (sym same) (yk b r).run quiet;
  }

  pub then-Yields :
      {B : Type 0} {m : Check B} {k : B → Check A} {R : B → Type 0} {Q : A → Scopes → Type 0}
      → Keeps id_scopes m
      → ((b : B) → Keeps id_scopes (k b))
      → Yields s sc m (λ b _. R b)
      → ((b : B) → R b → Yields s sc (k b) Q)
      → Yields s sc (m >>= k) Q
  then-Yields = over-Yields id_scopes

  pub map-Yields :
      {m : Check A} {R Q : A → Scopes → Type 0}
      → ((a : A) (sc' : Scopes) → R a sc' → Q a sc')
      → Yields s sc m R
      → Yields s sc m Q
  map-Yields {m} {R} {Q} f y = record {
    run = λ quiet.
        let (e, r) = y.run quiet in let (a, t) = m (with_scopes s sc) in (e, f a t.var_scopes r);
  }

  -- The flag that was set for a step is the one that it takes; else it takes none.
  module _ {body : Bool → Check A} {R : Bool → A → Scopes → Type 0}
      (h : (pos : Bool) → Yields s sc (body pos) (R pos)) where
    pub enter-Yields : Yields s sc (enter body) (R false)
    unfolding enter
    enter-Yields = record { run = (h false).run }

    pub with_pos-Yields : (pos : Bool) → Yields s sc (with_pos pos (enter body)) (R pos)
    unfolding enter with_pos
    with_pos-Yields pos = record { run = (h pos).run }

  pub in_scope-Yields :
      {body : Check A} {R : A → Type 0}
      → Keeps outer body
      → Yields s ([] ∷ sc) body (λ a _. R a)
      → Yields s sc (do push_scope; a ← body; pop_scope; pure a) (λ a _. R a)
  unfolding push_scope pop_scope outer
  in_scope-Yields {body} h y = record {
    run = λ quiet.
        let (a, t) = body (with_scopes s ([] ∷ sc)) in
        let (e, r) = y.run quiet in
        (ap {A = TypeChecker} (λ u. record u { var_scopes = outer t.var_scopes }) e, r);
  }

loud : (s : TypeChecker) (code : ℕ) (span : Span) → errors (emit_error code span s).1 ≡ errors s → ⊥
unfolding emit_error
loud s code span e =
    let one = err_count-emit (error_diagnostic code (at span)) s.sink in omega (arith, one, e)

module _ {s : TypeChecker} {sc : Scopes} where
  -- A report is never quiet.
  pub reported : (code : ℕ) (span : Span) → Yields s sc (emit_error code span) (λ _ _. true ≡ false)
  reported code span = record { run = λ quiet. absurd (loud (with_scopes s sc) code span quiet) }

  pub demand-Yields :
      (ok : Bool) (code : ℕ) (span : Span) → Yields s sc (demand ok code span) (λ _ _. ok ≡ true)
  unfolding demand emit_error
  demand-Yields true code span = pure-Yields tt refl
  demand-Yields false code span = record {
    run = λ quiet. absurd (loud (with_scopes s sc) code span quiet);
  }

  pub expect-Yields :
      (ty : Option Ty) (code : ℕ) (span : Span)
      → Yields s sc (expect ty code span) (λ t _. ty ≡ some t)
  unfolding expect emit_error
  expect-Yields none code span = record {
    run = λ quiet. absurd (loud (with_scopes s sc) code span quiet);
  }
  expect-Yields (some ty) code span = pure-Yields ty refl
