-- ===== src/Resolve/Builder/Total.antt =====
-- The resolution of a module from the start.
use kore_lang.Base.{
  ◌≤◌, ◌≡◌, ◌∙◌, refl, ap, Option, none, some, List, [], ◌∷◌, arith, String, Bool, false,
}
use kore_lang.Base.Dict.{get, put}
use kore_lang.Diag.{Span}
use kore_lang.Diag.Sink.{DiagSink}
use kore_lang.Ast.{Param, Item, Module}
use kore_lang.Resolve.Symbols.{Symbol, SymbolKind}
use kore_lang.Resolve.Symbols
use kore_lang.Resolve.Scope.{Defined, define_module}
use kore_lang.Resolve.Builder.{
  Resolver, report, insert_symbol, define_module_symbol, after_definition, collect_item,
  collect_items, define_params, resolve_items, new, resolve,
}
use kore_lang.Resolve.Builder.Level.{
  errors, local_scopes, Safe, Level, Level-Safe, done-Level, ◌⟫◌, then-Level, in_scope-Level,
  report-grows,
}
use kore_lang.Resolve.Builder.Safe.{define_local_symbol-Safe, visit_expr-Safe, report_older-grows}

define_params-Safe : (ps : List Param) → Safe (define_params ps)
unfolding define_params
define_params-Safe [] = Level-Safe done-Level
define_params-Safe (p ∷ ps) =
    define_local_symbol-Safe p.name SymbolKind.param p.span p.is_mut ⟫ define_params-Safe ps

resolve_items-Level : (items : List Item) → Level (resolve_items items)
unfolding resolve_items
resolve_items-Level [] = done-Level
resolve_items-Level (Item.func f ∷ items) =
    then-Level (in_scope-Level (define_params-Safe f.params ⟫ visit_expr-Safe f.body))
      (resolve_items-Level items)
resolve_items-Level (Item.struct d ∷ items) = resolve_items-Level items
resolve_items-Level (Item.union d ∷ items) = resolve_items-Level items
resolve_items-Level (Item.use_path p ∷ items) = resolve_items-Level items

-- Between two states: the local scopes are the same and no report is taken back.
abbrev Grows : Resolver → Resolver → Type 0
Grows r r' = (local_scopes r' ≡ local_scopes r) × (errors r ≤ errors r')

after_definition-Grows :
    (defined : Defined) (span : Span) (r : Resolver) → Grows r (after_definition defined span r)
after_definition-Grows Defined.ok span r = (refl, omega arith)
after_definition-Grows (Defined.err old) span r =
    ((report_older-grows old span r).1, (report_older-grows old span r).0)

either-Grows :
    (o : Option Span) (span : Span) (defined : Defined) (r next : Resolver)
    → Grows r next
    → Grows r
        (elim o [ some old_span ↦ report 4003 span r | none ↦ after_definition defined span next ])
unfolding report
either-Grows none span defined r next h =
    let later = after_definition-Grows defined span next in
    (later.0 ∙ h.0, omega (arith, h.1, later.1))
either-Grows (some old_span) span defined r next h = (refl, report-grows 4003 span r)

define_module_symbol-Grows :
    (name : String) (kind : SymbolKind) (span : Span) (is_public : Bool) (r : Resolver)
    → Grows r (define_module_symbol name kind span is_public r)
unfolding define_module_symbol define_module insert_symbol
define_module_symbol-Grows name kind span is_public r =
    let symbol : Symbol = record {
      name = name;
      kind = kind;
      span = span;
      is_mut = false;
      is_public = is_public;
    } in
    let (scopes, defined) = define_module r.scopes name (Symbols.insert r.table symbol).1 in
    let next : Resolver = record (insert_symbol symbol r) {
      scopes = scopes;
      module_spans = put r.module_spans name span;
    } in
    let same : errors r ≤ errors next = omega arith in
    either-Grows (get r.module_spans name) span defined r next (refl, same)

collect_items-Grows : (items : List Item) (r : Resolver) → Grows r (collect_items items r)
unfolding collect_items collect_item
collect_items-Grows [] r = (refl, omega arith)
collect_items-Grows (Item.func f ∷ items) r =
    let first = define_module_symbol-Grows f.name SymbolKind.func f.span f.is_public r in
    let later =
      collect_items-Grows items
        (define_module_symbol f.name SymbolKind.func f.span f.is_public r) in
    (later.0 ∙ first.0, omega (arith, first.1, later.1))
collect_items-Grows (Item.struct d ∷ items) r =
    let first = define_module_symbol-Grows d.name SymbolKind.struct d.span d.is_public r in
    let later =
      collect_items-Grows items
        (define_module_symbol d.name SymbolKind.struct d.span d.is_public r) in
    (later.0 ∙ first.0, omega (arith, first.1, later.1))
collect_items-Grows (Item.union d ∷ items) r =
    let first = define_module_symbol-Grows d.name SymbolKind.union d.span d.is_public r in
    let later =
      collect_items-Grows items
        (define_module_symbol d.name SymbolKind.union d.span d.is_public r) in
    (later.0 ∙ first.0, omega (arith, first.1, later.1))
collect_items-Grows (Item.use_path p ∷ items) r = collect_items-Grows items r

-- The names of the built-in functions do not clash.
new-some :
    (sink : DiagSink)
    → (r : Resolver) × (new sink ≡ some r) × (local_scopes r ≡ []) × (errors r ≡ sink.err_count)
unfolding new define_module insert_symbol
new-some sink = (_, refl, refl, refl)

-- The resolution of the names of a module never panics, ends in no local scope, and takes no report
-- back.
pub resolve_total :
    (m : Module) (sink : DiagSink)
    → (r : Resolver) × (resolve m sink ≡ some r)
      × (local_scopes r ≡ [])
      × (sink.err_count ≤ errors r)
unfolding resolve
resolve_total m sink =
    let (r, made, empty, start) = new-some sink in
    let (kept, grows) = collect_items-Grows m.items r in
    let (r', run, same, later) = (resolve_items-Level m.items).run (collect_items m.items r) in
    (
      r',
      ap
            (λ o. elim o as (λ _. Option Resolver) [
              | none ↦ none
              | some u ↦ resolve_items m.items (collect_items m.items u)
            ])
            made
          ∙ run,
      same ∙ kept ∙ empty,
      omega (arith, start, grows, later),
    )
