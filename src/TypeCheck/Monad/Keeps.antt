-- ===== src/TypeCheck/Monad/Keeps.antt =====
-- What no step of the checker changes, with a rule for each way to put steps together.
use kore_lang.Base.{
  ℕ, ◌≤◌, ◌≡◌, ◌∙◌, refl, sym, ap, subst, Bool, true, false, Option, none, some, String, List, [],
  ◌∷◌, arith,
}
use kore_lang.Base.Dict.{Dict}
use kore_lang.Diag.{Span, at, error_diagnostic}
use kore_lang.Diag.Sink.Counts.{err_count-emit}
use kore_lang.TypeCheck.Types.{Ty}
use kore_lang.TypeCheck.Monad.{
  TypeChecker, Check, pure, ◌>>=◌, ◌>>◌, look, push_scope, pop_scope, outer, define_in, define_var,
  emit_error, demand, expect, enter, with_pos,
}

abbrev pub Scopes : Type 0
Scopes = List (Dict Ty)

abbrev pub errors : TypeChecker → ℕ
errors s = s.sink.err_count

-- The state with the flag taken.
abbrev pub calm : TypeChecker → TypeChecker
calm s = record s { branch_in_stmt_pos = false }

-- Between two states: what is seen of the scopes, the definitions and the return type are the same,
-- no report is taken back, and the flag is not set.
pub record Kept (f : Scopes → Scopes) (s t : TypeChecker) : Type 0 where
  pub scopes : f t.var_scopes ≡ f s.var_scopes
  pub context : t.type_ctx ≡ s.type_ctx
  pub ret : t.current_return_type ≡ s.current_return_type
  pub grows : errors s ≤ errors t
  pub taken : t.branch_in_stmt_pos ≡ false

abbrev pub id_scopes : Scopes → Scopes
id_scopes scopes = scopes

pub record Keeps {A : Type 0} (f : Scopes → Scopes) (m : Check A) : Type 0 where
  pub run : (s : TypeChecker) → Kept f s (m (calm s)).1

-- The same whatever the flag is.
pub record Takes {A : Type 0} (m : Check A) : Type 0 where
  pub for : (pos : Bool) → Keeps id_scopes (with_pos pos m)

pub calm_self : (s : TypeChecker) → s.branch_in_stmt_pos ≡ false → calm s ≡ s
calm_self s h = ap (λ b. record s { branch_in_stmt_pos = b }) (sym h)

pub Kept-trans : {f : Scopes → Scopes} {s t u : TypeChecker} → Kept f s t → Kept f t u → Kept f s u
Kept-trans h k = record {
  scopes = k.scopes ∙ h.scopes;
  context = k.context ∙ h.context;
  ret = k.ret ∙ h.ret;
  grows = omega (arith, h.grows, k.grows);
  taken = k.taken;
}

module _ {f : Scopes → Scopes} {A : Type 0} where
  -- From a state whose flag is taken.
  pub after-Keeps :
      {m : Check A} (s : TypeChecker) → Keeps f m → s.branch_in_stmt_pos ≡ false → Kept f s (m s).1
  after-Keeps {m} s h e = subst (λ t. Kept f s (m t).1) (calm_self s e) (h.run s)

  pub pure-Keeps : (a : A) → Keeps f (pure a)
  pure-Keeps a = record {
    run = λ s. record {
      scopes = refl;
      context = refl;
      ret = refl;
      grows = omega arith;
      taken = refl;
    };
  }

  pub look-Keeps : (g : TypeChecker → A) → Keeps f (look g)
  look-Keeps g = record { run = λ s. (pure-Keeps (g (calm s))).run s }

  infixl 1 ◌⟫◌ ◌▹◌
  pub ◌⟫◌ :
      {B : Type 0} {m : Check B} {k : B → Check A}
      → Keeps f m
      → ((a : B) → Keeps f (k a))
      → Keeps f (m >>= k)
  ◌⟫◌ {m} {k} hm hk = record {
    run = λ s.
        let (a, t) = m (calm s) in Kept-trans (hm.run s) (after-Keeps t (hk a) (hm.run s).taken);
  }

  pub ◌▹◌ : {B : Type 0} {m : Check B} {n : Check A} → Keeps f m → Keeps f n → Keeps f (m >> n)
  hm ▹ hn = hm ⟫ λ _. hn

  -- A step that keeps all scopes keeps what is seen of them.
  pub weaken : {m : Check A} → Keeps id_scopes m → Keeps f m
  weaken h = record {
    run = λ s.
        let k = h.run s in
        record {
          scopes = ap f k.scopes;
          context = k.context;
          ret = k.ret;
          grows = k.grows;
          taken = k.taken;
        };
  }

module _ {f : Scopes → Scopes} where
  pub emit_error-Keeps : (code : ℕ) (span : Span) → Keeps f (emit_error code span)
  unfolding emit_error
  emit_error-Keeps code span = record {
    run = λ s.
        let one = err_count-emit (error_diagnostic code (at span)) s.sink in
        record {
          scopes = refl;
          context = refl;
          ret = refl;
          grows = omega (arith, one);
          taken = refl;
        };
  }

  pub demand-Keeps : (ok : Bool) (code : ℕ) (span : Span) → Keeps f (demand ok code span)
  unfolding demand
  demand-Keeps true code span = pure-Keeps tt
  demand-Keeps false code span = emit_error-Keeps code span

  pub expect-Keeps : (ty : Option Ty) (code : ℕ) (span : Span) → Keeps f (expect ty code span)
  unfolding expect
  expect-Keeps none code span = emit_error-Keeps code span ▹ pure-Keeps Ty.unknown
  expect-Keeps (some ty) code span = pure-Keeps ty

module _ {A : Type 0} where
  pub Takes-Keeps : {m : Check A} → Takes m → Keeps id_scopes m
  unfolding with_pos
  Takes-Keeps h = record { run = λ s. (h.for false).run s }

  pub enter-Takes :
      {body : Bool → Check A} → ((pos : Bool) → Keeps id_scopes (body pos)) → Takes (enter body)
  unfolding enter with_pos
  enter-Takes h = record { for = λ pos. record { run = λ s. (h pos).run s } }

  -- A scope of its own.
  pub in_scope-Keeps :
      {body : Check A}
      → Keeps outer body
      → Keeps id_scopes (do push_scope; a ← body; pop_scope; pure a)
  unfolding push_scope pop_scope outer
  in_scope-Keeps h = record {
    run = λ s.
        let k = h.run (record s { var_scopes = [] ∷ s.var_scopes }) in
        record {
          scopes = k.scopes;
          context = k.context;
          ret = k.ret;
          grows = k.grows;
          taken = k.taken;
        };
  }

pub define_var-Keeps : (name : String) (ty : Ty) → Keeps outer (define_var name ty)
unfolding define_var outer define_in
define_var-Keeps name ty = record {
  run = λ s. record {
    scopes = same s.var_scopes;
    context = refl;
    ret = refl;
    grows = omega arith;
    taken = refl;
  };
}
  where
    same : (scopes : Scopes) → outer (define_in name ty scopes) ≡ outer scopes
    same [] = refl
    same (scope ∷ scopes) = refl
