-- ===== src/Resolve/Builder/Safe.antt =====
-- The walk of the resolver never panics, and leaves the scopes around its own as they were.
use kore_lang.Base.{
  ◌≤◌, ◌≡◌, ◌∙◌, refl, sym, subst, Bool, true, false, Option, none, some, String, List, [], ◌∷◌,
  arith, inl, inr, Bool-cases, if◌then◌else◌,
}
use kore_lang.Base.Dict.{name_eq}
use kore_lang.Diag.{Span}
use kore_lang.Ast.{Expr, MaybeExpr, Exprs, FieldInits, Arms, Pattern, Stmts, Stmt}
use kore_lang.Resolve.Symbols.{Symbol, SymbolId, SymbolKind}
use kore_lang.Resolve.Symbols
use kore_lang.Resolve.Scope.{Scope, Defined, define_local}
use kore_lang.Resolve.Scope
use kore_lang.Resolve.Builder.{
  Resolver, Step, report, report_older, after_definition, insert_symbol, define_local_symbol,
  lookup_name, visit_path, is_qualified, unless_qualified, define_bindings, visit_pattern,
  visit_expr, visit_maybe, visit_exprs, visit_inits, visit_arms, visit_stmts, visit_stmt,
}
use kore_lang.Resolve.Builder.Level.{
  errors, local_scopes, Kept, Safe, Level, Level-Safe, done-Level, ◌⟫◌, in_scope-Level,
  report-grows,
}

-- A report, or none.
reported-grows :
    (o : Option Symbol) (span : Span) (r : Resolver)
    → (errors r ≤ errors (elim o [ some symbol ↦ report 4003 span r | none ↦ r ]))
      × (local_scopes (elim o [ some symbol ↦ report 4003 span r | none ↦ r ]) ≡ local_scopes r)
unfolding report
reported-grows none span r = (omega arith, refl)
reported-grows (some symbol) span r = (report-grows 4003 span r, refl)

pub report_older-grows :
    (old : SymbolId) (span : Span) (r : Resolver)
    → (errors r ≤ errors (report_older old span r))
      × (local_scopes (report_older old span r) ≡ local_scopes r)
unfolding report_older
report_older-grows old span r = reported-grows (Symbols.get r.table old) span r

after_definition-Kept :
    (defined : Defined) (span : Span) (r u : Resolver) (s : Scope) (ss : List Scope)
    → local_scopes u ≡ s ∷ ss
    → errors r ≤ errors u
    → Kept ss r (after_definition defined span u)
after_definition-Kept Defined.ok span r u s ss e grows = record {
  inner = s;
  below = e;
  grows = grows;
}
after_definition-Kept (Defined.err old) span r u s ss e grows = record {
  inner = s;
  below = (report_older-grows old span u).1 ∙ e;
  grows = omega (arith, grows, (report_older-grows old span u).0);
}

-- A state with given scopes.
abbrev with_scopes : Resolver → List Scope → Resolver
with_scopes r xs = record r { scopes = record r.scopes { scopes = xs } }

define_inner :
    (name : String) (kind : SymbolKind) (span : Span) (is_mut : Bool) (r : Resolver) (s : Scope)
    (ss : List Scope)
    → (r' : Resolver) × (define_local_symbol name kind span is_mut (with_scopes r (s ∷ ss))
        ≡ some r')
      × Kept ss (with_scopes r (s ∷ ss)) r'
unfolding define_local_symbol define_local insert_symbol Symbols.insert Scope.insert
define_inner name kind span is_mut r s ss =
    let symbol : Symbol = record {
      name = name;
      kind = kind;
      span = span;
      is_mut = is_mut;
      is_public = false;
    } in
    let (s', old) = Scope.insert s name (Symbols.insert r.table symbol).1 in
    let start : Resolver = with_scopes r (s ∷ ss) in
    let next : Resolver = with_scopes (insert_symbol symbol r) (s' ∷ ss) in
    let same : errors start ≤ errors next = omega arith in
    (
      after_definition (Scope.as_result old) span next,
      refl,
      after_definition-Kept (Scope.as_result old) span start next s' ss refl same,
    )

pub define_local_symbol-Safe :
    (name : String) (kind : SymbolKind) (span : Span) (is_mut : Bool)
    → Safe (define_local_symbol name kind span is_mut)
define_local_symbol-Safe name kind span is_mut = record {
  run = λ r s ss e.
      subst
        (λ xs.
          (r' : Resolver) × (define_local_symbol name kind span is_mut (with_scopes r xs) ≡ some r')
          × Kept ss (with_scopes r xs) r')
        (sym e) (define_inner name kind span is_mut r s ss);
}

pub if-Safe : (b : Bool) {m n : Step} → Safe m → Safe n → Safe (if b then m else n)
if-Safe true hm hn = hm
if-Safe false hm hn = hn

define_bindings-Safe : (names : List String) (span : Span) → Safe (define_bindings names span)
unfolding define_bindings
define_bindings-Safe [] span = Level-Safe done-Level
define_bindings-Safe (name ∷ names) span =
    if-Safe (name_eq name "_") (Level-Safe done-Level)
      (define_local_symbol-Safe name SymbolKind.local span false)
    ⟫ define_bindings-Safe names span

visit_pattern-Safe : (p : Pattern) → Safe (visit_pattern p)
unfolding visit_pattern
visit_pattern-Safe (Pattern.variant name bindings span) = define_bindings-Safe bindings span
visit_pattern-Safe (Pattern.bind name span) = define_bindings-Safe (name ∷ []) span
visit_pattern-Safe (Pattern.lit e) = Level-Safe done-Level
visit_pattern-Safe (Pattern.wildcard span) = Level-Safe done-Level
visit_pattern-Safe (Pattern.cond e) = Level-Safe done-Level

-- A name that is found, or a report.
found :
    (o : Option SymbolId) (span : Span) (r : Resolver)
    → (r' : Resolver) × ((elim o as (λ _. Option Resolver) [
      | some id ↦ some r
      | none ↦ some (report 4002 span r)
    ])
        ≡ some r')
      × (local_scopes r' ≡ local_scopes r)
      × (errors r ≤ errors r')
unfolding report
found none span r = (report 4002 span r, refl, refl, report-grows 4002 span r)
found (some id) span r = (r, refl, refl, omega arith)

visit_path-Level : (segments : List String) (span : Span) → Level (visit_path segments span)
unfolding visit_path report
visit_path-Level (name ∷ []) span = record { run = λ r. found (lookup_name r name) span r }
visit_path-Level [] span = record {
  run = λ r. (report 4002 span r, refl, refl, report-grows 4002 span r);
}
visit_path-Level (name ∷ name' ∷ segments) span = record {
  run = λ r. (report 4002 span r, refl, refl, report-grows 4002 span r);
}

unless_qualified-Safe : (base : Expr) {m : Step} → Safe m → Safe (unless_qualified base m)
unless_qualified-Safe base {m} h = record {
  run = λ r s ss e. elim (Bool-cases (is_qualified base r)) [
    | inl qualified ↦ (r, rw qualified refl, record { inner = s; below = e; grows = omega arith })
    | inr plain ↦ rw plain (h.run r s ss e)
  ];
}

mutual
  unfolding visit_expr

  pub visit_expr-Safe : (e : Expr) → Safe (visit_expr e)
  visit_expr-Safe (Expr.path segments span) = Level-Safe (visit_path-Level segments span)
  visit_expr-Safe (Expr.field base name span) = unless_qualified-Safe base (visit_expr-Safe base)
  visit_expr-Safe (Expr.block stmts span) = Level-Safe (in_scope-Level (visit_stmts-Safe stmts))
  visit_expr-Safe (Expr.branch scrutinee arms span) =
      visit_maybe-Safe scrutinee ⟫ visit_arms-Safe arms
  visit_expr-Safe (Expr.loop label subject body span) =
      visit_maybe-Safe subject ⟫ visit_expr-Safe body
  visit_expr-Safe (Expr.call callee args span) = visit_expr-Safe callee ⟫ visit_exprs-Safe args
  visit_expr-Safe (Expr.index base i span) = visit_expr-Safe base ⟫ visit_expr-Safe i
  visit_expr-Safe (Expr.deref inner span) = visit_expr-Safe inner
  visit_expr-Safe (Expr.propagate inner span) = visit_expr-Safe inner
  visit_expr-Safe (Expr.jmp target label span) = visit_maybe-Safe target
  visit_expr-Safe (Expr.ret value span) = visit_maybe-Safe value
  visit_expr-Safe (Expr.unary op operand span) = visit_expr-Safe operand
  visit_expr-Safe (Expr.binary op lhs rhs span) = visit_expr-Safe lhs ⟫ visit_expr-Safe rhs
  visit_expr-Safe (Expr.struct_lit name inits span) = visit_inits-Safe inits
  visit_expr-Safe (Expr.array_lit elements span) = visit_exprs-Safe elements
  visit_expr-Safe (Expr.variant_constructor name payload span) = visit_maybe-Safe payload
  visit_expr-Safe _ = Level-Safe done-Level

  visit_maybe-Safe : (m : MaybeExpr) → Safe (visit_maybe m)
  visit_maybe-Safe MaybeExpr.no_expr = Level-Safe done-Level
  visit_maybe-Safe (MaybeExpr.an_expr e) = visit_expr-Safe e

  visit_exprs-Safe : (es : Exprs) → Safe (visit_exprs es)
  visit_exprs-Safe Exprs.no_exprs = Level-Safe done-Level
  visit_exprs-Safe (Exprs.more_exprs e es) = visit_expr-Safe e ⟫ visit_exprs-Safe es

  visit_inits-Safe : (inits : FieldInits) → Safe (visit_inits inits)
  visit_inits-Safe FieldInits.no_inits = Level-Safe done-Level
  visit_inits-Safe (FieldInits.more_inits name e inits) = visit_expr-Safe e ⟫ visit_inits-Safe inits

  visit_arms-Safe : (arms : Arms) → Safe (visit_arms arms)
  visit_arms-Safe Arms.no_arms = Level-Safe done-Level
  visit_arms-Safe (Arms.more_arms pattern body span arms) =
      visit_pattern-Safe pattern ⟫ visit_expr-Safe body ⟫ visit_arms-Safe arms

  visit_stmts-Safe : (sts : Stmts) → Safe (visit_stmts sts)
  visit_stmts-Safe Stmts.no_stmts = Level-Safe done-Level
  visit_stmts-Safe (Stmts.more_stmts st sts) = visit_stmt-Safe st ⟫ visit_stmts-Safe sts

  visit_stmt-Safe : (st : Stmt) → Safe (visit_stmt st)
  visit_stmt-Safe (Stmt.let_stmt name is_mut ty init span) =
      visit_expr-Safe init ⟫ define_local_symbol-Safe name SymbolKind.local span is_mut
  visit_stmt-Safe (Stmt.assign target value span) = visit_expr-Safe target ⟫ visit_expr-Safe value
  visit_stmt-Safe (Stmt.defer e span) = visit_expr-Safe e
  visit_stmt-Safe (Stmt.expr_stmt e) = visit_expr-Safe e
