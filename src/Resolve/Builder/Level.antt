-- ===== src/Resolve/Builder/Level.antt =====
-- Steps of the resolver that do not panic and keep the scopes around their own, and how they compose.
use kore_lang.Base.{ℕ, ◌≤◌, ◌≡◌, ◌∙◌, refl, ap, Option, none, some, List, [], ◌∷◌, arith}
use kore_lang.Diag.{Span, at, error_diagnostic}
use kore_lang.Diag.Sink.Counts.{err_count-emit}
use kore_lang.Resolve.Scope.{Scope, push_scope, pop_scope}
use kore_lang.Resolve.Builder.{
  Resolver, Step, ◌⨾◌, done, report, enter_scope, leave_scope, in_scope,
}

abbrev pub errors : Resolver → ℕ
errors r = r.sink.err_count

-- The scopes of a state.
abbrev pub local_scopes : Resolver → List Scope
local_scopes r = r.scopes.scopes

-- Only the innermost of the scopes `s ∷ ss` may have changed, and no report is taken back.
pub record Kept (ss : List Scope) (r r' : Resolver) : Type 0 where
  pub inner : Scope
  pub below : local_scopes r' ≡ inner ∷ ss
  pub grows : errors r ≤ errors r'

-- A step that does not panic where there is a scope.
pub record Safe (m : Step) : Type 0 where
  pub run :
      (r : Resolver) (s : Scope) (ss : List Scope)
      → local_scopes r ≡ s ∷ ss
      → (r' : Resolver) × (m r ≡ some r') × Kept ss r r'

-- A step that does not panic and keeps all scopes.
pub record Level (m : Step) : Type 0 where
  pub run :
      (r : Resolver)
      → (r' : Resolver) × (m r ≡ some r')
        × (local_scopes r' ≡ local_scopes r)
        × (errors r ≤ errors r')

pub Level-Safe : {m : Step} → Level m → Safe m
Level-Safe h = record {
  run = λ r s ss e.
      let (r', run, same, grows) = h.run r in
      (r', run, record { inner = s; below = same ∙ e; grows = grows });
}

pub done-Level : Level done
done-Level = record { run = λ r. (r, refl, refl, omega arith) }

infixl 1 ◌⟫◌
pub ◌⟫◌ : {f g : Step} → Safe f → Safe g → Safe (f ⨾ g)
◌⟫◌ {f} {g} hf hg = record {
  run = λ r s ss e.
      let (r', run, k) = hf.run r s ss e in
      let (r'', run', k') = hg.run r' k.inner ss k.below in
      (
        r'',
        ap (λ o. elim o as (λ _. Option Resolver) [ none ↦ none | some u ↦ g u ]) run ∙ run',
        record { inner = k'.inner; below = k'.below; grows = omega (arith, k.grows, k'.grows) },
      );
}

pub then-Level : {f g : Step} → Level f → Level g → Level (f ⨾ g)
then-Level {f} {g} hf hg = record {
  run = λ r.
      let (r', run, same, grows) = hf.run r in
      let (r'', run', same', grows') = hg.run r' in
      (
        r'',
        ap (λ o. elim o as (λ _. Option Resolver) [ none ↦ none | some u ↦ g u ]) run ∙ run',
        same' ∙ same,
        omega (arith, grows, grows'),
      );
}

leave-run :
    (r : Resolver) (s : Scope) (ss : List Scope)
    → local_scopes r ≡ s ∷ ss
    → leave_scope r ≡ some (record r { scopes = record r.scopes { scopes = ss } })
unfolding leave_scope pop_scope
leave-run r s ss e =
    ap (λ xs. leave_scope (record r { scopes = record r.scopes { scopes = xs } })) e

pub in_scope-Level : {body : Step} → Safe body → Level (in_scope body)
unfolding enter_scope push_scope
in_scope-Level {body} h = record {
  run = λ r.
      let (r', run, k) =
        h.run (record r { scopes = record r.scopes { scopes = [] ∷ local_scopes r } }) []
          (local_scopes r) refl in
      (
        record r' { scopes = record r'.scopes { scopes = local_scopes r } },
        ap (λ o. elim o as (λ _. Option Resolver) [ none ↦ none | some u ↦ leave_scope u ]) run
            ∙ leave-run r' k.inner (local_scopes r) k.below,
        refl,
        k.grows,
      );
}

pub report-grows : (code : ℕ) (span : Span) (r : Resolver) → errors r ≤ errors (report code span r)
unfolding report
report-grows code span r =
    let one = err_count-emit (error_diagnostic code (at span)) r.sink in omega (arith, one)
