-- ===== src/Resolve/Builder.antt =====
-- stage0/src/frontend/resolve/builder.rs: the resolution of names in one file, that is without a registry
-- of modules; and the order in which stage0/src/frontend/ast/visitor.rs walks what a method does not
-- override. A panic is `none`. The ids that the definitions return, which no caller reads, are left out.
pub mod Level
pub mod Safe
pub mod Total
mod Tests
use kore_lang.Base.{ℕ, Bool, true, false, Option, none, some, String, List, [], ◌∷◌, if◌then◌else◌}
use kore_lang.Base.Dict.{Dict, get, put, name_eq}
use kore_lang.Diag.{Span, at, error_diagnostic}
use kore_lang.Diag.Sink.{DiagSink, emit}
use kore_lang.Ast.{
  Expr, MaybeExpr, Exprs, FieldInits, Arms, Pattern, Stmts, Stmt, Param, Func, Item, Module,
}
use kore_lang.Resolve.Symbols.{Symbol, SymbolId, SymbolKind, SymbolTable}
use kore_lang.Resolve.Symbols
use kore_lang.Resolve.Scope.{
  ScopeStack, Defined, push_scope, pop_scope, define_local, define_module, lookup,
}
use kore_lang.Resolve.Scope

pub record Resolver : Type 0 where
  pub table : SymbolTable
  pub scopes : ScopeStack
  pub sink : DiagSink
  pub module_spans : Dict Span

abbrev pub Step : Type 0
Step = Resolver → Option Resolver

infixl 1 ◌⨾◌
abbrev pub ◌⨾◌ : Step → Step → Step
(f ⨾ g) r = elim (f r) [ none ↦ none | some r' ↦ g r' ]

abbrev pub done : Step
done r = some r

unfoldable pub report : ℕ → Span → Resolver → Resolver
unfolding emit
report code span r = record r { sink = emit (error_diagnostic code (at span)) r.sink }

-- `emit_redefinition_error`, if the table has the older symbol.
unfoldable pub report_older : SymbolId → Span → Resolver → Resolver
unfolding report Symbols.get
report_older old span r = elim (Symbols.get r.table old) [
  | some symbol ↦ report 4003 span r
  | none ↦ r
]

abbrev pub after_definition : Defined → Span → Resolver → Resolver
after_definition Defined.ok span r = r
after_definition (Defined.err old) span r = report_older old span r

unfoldable pub insert_symbol : Symbol → Resolver → Resolver
unfolding Symbols.insert
insert_symbol symbol r = record r { table = (Symbols.insert r.table symbol).0 }

unfoldable pub define_module_symbol : String → SymbolKind → Span → Bool → Resolver → Resolver
unfolding report report_older define_module insert_symbol get put Symbols.insert
define_module_symbol name kind span is_public r =
    let symbol : Symbol = record {
      name = name;
      kind = kind;
      span = span;
      is_mut = false;
      is_public = is_public;
    } in
    let (scopes, defined) = define_module r.scopes name (Symbols.insert r.table symbol).1 in
    elim (get r.module_spans name) [
      | some old_span ↦ report 4003 span r
      | none ↦ after_definition defined span (record (insert_symbol symbol r) {
        scopes = scopes;
        module_spans = put r.module_spans name span;
      })
    ]

unfoldable pub define_local_symbol : String → SymbolKind → Span → Bool → Step
unfolding report_older define_local insert_symbol Symbols.insert
define_local_symbol name kind span is_mut r =
    let symbol : Symbol = record {
      name = name;
      kind = kind;
      span = span;
      is_mut = is_mut;
      is_public = false;
    } in
    elim (define_local r.scopes name (Symbols.insert r.table symbol).1) [
      | none ↦ none
      | some (scopes, defined) ↦
          some (after_definition defined span (record (insert_symbol symbol r) { scopes = scopes }))
    ]

-- `lookup`: the local scopes, then the module's, which `ScopeStack::lookup` asks already.
unfoldable pub lookup_name : Resolver → String → Option SymbolId
unfolding lookup Scope.lookup_module
lookup_name r name = elim (lookup r.scopes name) [
  | some id ↦ some id
  | none ↦ Scope.lookup_module r.scopes name
]

abbrev pub builtins : List String
builtins = "print" ∷ "println" ∷ "eprint" ∷ "eprintln" ∷ "read_file" ∷ "write_file" ∷ []

abbrev no_span : Span
no_span = record { file = 0; lo = 0; hi = 0 }

unfoldable pub register_builtins : List String → Step
unfolding define_module insert_symbol put Symbols.insert
register_builtins [] r = some r
register_builtins (name ∷ names) r =
    let symbol : Symbol = record {
      name = name;
      kind = SymbolKind.func;
      span = no_span;
      is_mut = false;
      is_public = false;
    } in
    let (scopes, defined) = define_module r.scopes name (Symbols.insert r.table symbol).1 in
    let rest = register_builtins names (record (insert_symbol symbol r) {
      scopes = scopes;
      module_spans = put r.module_spans name no_span;
    }) in
    elim defined [ Defined.ok ↦ rest | Defined.err old ↦ none ]

-- The first pass: the names of functions and types. `use` counts only with a registry.
unfoldable pub collect_item : Item → Resolver → Resolver
unfolding define_module_symbol
collect_item (Item.func f) r = define_module_symbol f.name SymbolKind.func f.span f.is_public r
collect_item (Item.struct d) r = define_module_symbol d.name SymbolKind.struct d.span d.is_public r
collect_item (Item.union d) r = define_module_symbol d.name SymbolKind.union d.span d.is_public r
collect_item (Item.use_path p) r = r

unfoldable pub collect_items : List Item → Resolver → Resolver
unfolding collect_item
collect_items [] r = r
collect_items (item ∷ items) r = collect_items items (collect_item item r)

unfoldable pub enter_scope : Step
unfolding push_scope
enter_scope r = some (record r { scopes = push_scope r.scopes })

unfoldable pub leave_scope : Step
unfolding pop_scope
leave_scope r = elim (pop_scope r.scopes) [
  | none ↦ none
  | some scopes ↦ some (record r { scopes = scopes })
]

abbrev pub in_scope : Step → Step
in_scope body = enter_scope ⨾ body ⨾ leave_scope

-- A path of one segment must be defined; others are refused.
unfoldable pub visit_path : List String → Span → Step
unfolding report lookup_name
visit_path (name ∷ []) span r = elim (lookup_name r name) [
  | some id ↦ some r
  | none ↦ some (report 4002 span r)
]
visit_path _ span r = some (report 4002 span r)

abbrev is_module_kind : Option Symbol → Bool
is_module_kind none = false
is_module_kind (some symbol) = elim symbol.kind [ SymbolKind.module_of id ↦ true | _ ↦ false ]

abbrev names_module : Option SymbolId → Resolver → Bool
names_module none r = false
names_module (some id) r = is_module_kind (Symbols.get r.table id)

-- A name that stands for a module, before a dot.
unfoldable pub is_qualified : Expr → Resolver → Bool
unfolding lookup_name Symbols.get
is_qualified (Expr.path (name ∷ []) span) r = names_module (lookup_name r name) r
is_qualified _ r = false

abbrev unless_qualified : Expr → Step → Step
unless_qualified base visit r = if is_qualified base r then some r else visit r

unfoldable pub define_bindings : List String → Span → Step
unfolding define_local_symbol
define_bindings [] span = done
define_bindings (name ∷ names) span =
    (if name_eq name "_" then done else define_local_symbol name SymbolKind.local span false)
    ⨾ define_bindings names span

-- The names of a pattern are defined in the scope around the branch.
unfoldable pub visit_pattern : Pattern → Step
unfolding define_bindings
visit_pattern (Pattern.variant name bindings span) = define_bindings bindings span
visit_pattern (Pattern.bind name span) = define_bindings (name ∷ []) span
visit_pattern _ = done

unfoldable mutual
  unfolding enter_scope leave_scope visit_path is_qualified visit_pattern define_local_symbol

  pub visit_expr : Expr → Step
  visit_expr (Expr.path segments span) = visit_path segments span
  visit_expr (Expr.field base name span) = unless_qualified base (visit_expr base)
  visit_expr (Expr.block stmts span) = in_scope (visit_stmts stmts)
  visit_expr (Expr.branch scrutinee arms span) = visit_maybe scrutinee ⨾ visit_arms arms
  visit_expr (Expr.loop label subject body span) = visit_maybe subject ⨾ visit_expr body
  visit_expr (Expr.call callee args span) = visit_expr callee ⨾ visit_exprs args
  visit_expr (Expr.index base i span) = visit_expr base ⨾ visit_expr i
  visit_expr (Expr.deref inner span) = visit_expr inner
  visit_expr (Expr.propagate inner span) = visit_expr inner
  visit_expr (Expr.jmp target label span) = visit_maybe target
  visit_expr (Expr.ret value span) = visit_maybe value
  visit_expr (Expr.unary op operand span) = visit_expr operand
  visit_expr (Expr.binary op lhs rhs span) = visit_expr lhs ⨾ visit_expr rhs
  visit_expr (Expr.struct_lit name inits span) = visit_inits inits
  visit_expr (Expr.array_lit elements span) = visit_exprs elements
  visit_expr (Expr.variant_constructor name payload span) = visit_maybe payload
  visit_expr _ = done

  pub visit_maybe : MaybeExpr → Step
  visit_maybe MaybeExpr.no_expr = done
  visit_maybe (MaybeExpr.an_expr e) = visit_expr e

  pub visit_exprs : Exprs → Step
  visit_exprs Exprs.no_exprs = done
  visit_exprs (Exprs.more_exprs e es) = visit_expr e ⨾ visit_exprs es

  pub visit_inits : FieldInits → Step
  visit_inits FieldInits.no_inits = done
  visit_inits (FieldInits.more_inits name e inits) = visit_expr e ⨾ visit_inits inits

  pub visit_arms : Arms → Step
  visit_arms Arms.no_arms = done
  visit_arms (Arms.more_arms pattern body span arms) =
      visit_pattern pattern ⨾ visit_expr body ⨾ visit_arms arms

  pub visit_stmts : Stmts → Step
  visit_stmts Stmts.no_stmts = done
  visit_stmts (Stmts.more_stmts st sts) = visit_stmt st ⨾ visit_stmts sts

  pub visit_stmt : Stmt → Step
  visit_stmt (Stmt.let_stmt name is_mut ty init span) =
      visit_expr init ⨾ define_local_symbol name SymbolKind.local span is_mut
  visit_stmt (Stmt.assign target value span) = visit_expr target ⨾ visit_expr value
  visit_stmt (Stmt.defer e span) = visit_expr e
  visit_stmt (Stmt.expr_stmt e) = visit_expr e

unfoldable pub define_params : List Param → Step
unfolding define_local_symbol
define_params [] = done
define_params (p ∷ ps) =
    define_local_symbol p.name SymbolKind.param p.span p.is_mut ⨾ define_params ps

-- The second pass: the bodies of functions.
unfoldable pub resolve_items : List Item → Step
unfolding enter_scope leave_scope define_params visit_expr
resolve_items [] = done
resolve_items (Item.func f ∷ items) =
    in_scope (define_params f.params ⨾ visit_expr f.body) ⨾ resolve_items items
resolve_items (_ ∷ items) = resolve_items items

unfoldable pub new : DiagSink → Option Resolver
unfolding register_builtins
new sink =
    register_builtins builtins
      (record { table = Symbols.new; scopes = Scope.new; sink = sink; module_spans = [] })

-- `Resolver::new`, then `resolve`. The source keeps the table and the sink.
unfoldable pub resolve : Module → DiagSink → Option Resolver
unfolding new collect_items resolve_items
resolve m sink = elim (new sink) [
  | none ↦ none
  | some r ↦ resolve_items m.items (collect_items m.items r)
]
