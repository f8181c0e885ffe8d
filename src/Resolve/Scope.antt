-- ===== src/Resolve/Scope.antt =====
-- stage0/src/frontend/resolve/scope.rs: the stack of local scopes over the module's scope.
pub mod Laws
mod Tests
use kore_lang.Base.{
  ℕ, ltb, Bool, true, false, not, Option, none, some, List, [], ◌∷◌, ◌++◌, String, length,
  if◌then◌else◌,
}
use kore_lang.Base.Dict.{Dict, is_some}
use kore_lang.Base.Dict
use kore_lang.Resolve.Symbols.{SymbolId}

abbrev pub Scope : Type 0
Scope = Dict SymbolId

-- `Scope::insert`: the scope, and the id that the name had.
unfoldable pub insert : Scope → String → SymbolId → Scope × Option SymbolId
unfolding Dict.put Dict.get
insert s name id = (Dict.put s name id, Dict.get s name)

unfoldable pub contains : Scope → String → Bool
unfolding Dict.get
contains s name = is_some (Dict.get s name)

-- The innermost scope stands first; the source's `Vec` has it last.
pub record ScopeStack : Type 0 where
  pub scopes : List Scope
  pub module_scope : Scope

abbrev pub new : ScopeStack
new = record { scopes = []; module_scope = [] }

unfoldable pub push_scope : ScopeStack → ScopeStack
push_scope s = record s { scopes = [] ∷ s.scopes }

-- `none` is the panic on an empty stack.
abbrev pop : List Scope → Option (List Scope)
pop [] = none
pop (s ∷ ss) = some ss

unfoldable pub pop_scope : ScopeStack → Option ScopeStack
pop_scope s = elim (pop s.scopes) [ none ↦ none | some ss ↦ some (record s { scopes = ss }) ]

pub data Defined : Type 0 where
  ok : Defined
  err : SymbolId → Defined

abbrev pub as_result : Option SymbolId → Defined
as_result none = ok
as_result (some old) = err old

abbrev define_in : List Scope → String → SymbolId → Option (List Scope × Defined)
define_in [] name id = none
define_in (s ∷ ss) name id = let (s', old) = insert s name id in some (s' ∷ ss, as_result old)

-- `none` is the panic where there is no scope.
unfoldable pub define_local : ScopeStack → String → SymbolId → Option (ScopeStack × Defined)
unfolding insert
define_local s name id = elim (define_in s.scopes name id) [
  | none ↦ none
  | some (ss, r) ↦ some (record s { scopes = ss }, r)
]

unfoldable pub define_module : ScopeStack → String → SymbolId → ScopeStack × Defined
unfolding insert
define_module s name id =
    let (scope, old) = insert s.module_scope name id in
    (record s { module_scope = scope }, as_result old)

-- The loop over the local scopes, from the innermost.
unfoldable pub lookup_in : List Scope → String → Option SymbolId
unfolding Dict.get
lookup_in [] name = none
lookup_in (s ∷ ss) name =
    let outer = lookup_in ss name in elim (Dict.get s name) [ some id ↦ some id | none ↦ outer ]

unfoldable pub lookup : ScopeStack → String → Option SymbolId
unfolding lookup_in Dict.get
lookup s name = elim (lookup_in s.scopes name) [
  | some id ↦ some id
  | none ↦ Dict.get s.module_scope name
]

unfoldable pub lookup_module : ScopeStack → String → Option SymbolId
unfolding Dict.get
lookup_module s name = Dict.get s.module_scope name

unfoldable pub depth : ScopeStack → ℕ
depth s = length s.scopes

unfoldable pub in_local_scope : ScopeStack → Bool
in_local_scope s = ltb 0 (length s.scopes)
