-- ===== src/Resolve/Scope/Laws.antt =====
-- Definition, shadowing and leaving a scope.
use kore_lang.Base.{
  ◌≡◌, refl, Option, none, some, List, [], ◌∷◌, String, arith, if◌then◌else◌, Option-cases,
  List-cases, inl, inr,
}
use kore_lang.Base.Dict
use kore_lang.Base.Dict.{name_eq, get-put, is_some}
use kore_lang.Resolve.Symbols.{SymbolId}
use kore_lang.Resolve.Scope.{
  Scope, ScopeStack, push_scope, pop_scope, Defined, as_result, define_local, define_module, lookup,
  lookup_in, lookup_module, depth,
}

-- What `define_local` finds of a name: the innermost scope only.
abbrev pub innermost : List Scope → String → Option SymbolId
innermost [] name = none
innermost (s ∷ ss) name = Dict.get s name

-- A definition in some scope is what the name means afterwards; no other name changes its meaning;
-- the result is the older id that the innermost scope had for the name, if any; the depth and the
-- module's scope stay.
pub define_local_lem :
    (s t : ScopeStack) (name j : String) (id : SymbolId) (r : Defined)
    → define_local s name id ≡ some (t, r)
    → (lookup t j ≡ (if name_eq name j then some id else lookup s j))
      × (r ≡ as_result (innermost s.scopes name))
      × (depth t ≡ depth s)
      × (lookup_module t j ≡ lookup_module s j)
unfolding define_local lookup depth lookup_module
define_local_lem s t name j id r h = elim (List-cases s.scopes) [
  | inl empty ↦ absurd (ground arith)
  | inr (scope, rest, e) ↦
      (ground (arith, get-put scope name j id), ground arith, ground arith, ground arith)
]

-- A definition at module level is what the name means where no local scope defines it; no other name
-- changes its meaning; the result is the older id that the module had for the name, if any.
pub define_module_lem :
    (s : ScopeStack) (name j : String) (id : SymbolId)
    → (lookup (define_module s name id).0 j ≡ (elim (lookup_in s.scopes j) [
      | some local ↦ some local
      | none ↦ if name_eq name j then some id else lookup_module s j
    ]))
      × ((define_module s name id).1 ≡ as_result (lookup_module s name))
      × (lookup_module (define_module s name id).0 j
          ≡ (if name_eq name j then some id else lookup_module s j))
unfolding define_module lookup lookup_module
define_module_lem s name j id = elim (Option-cases (lookup_in s.scopes j)) [
  | inl outer ↦ (
    ground (arith, get-put s.module_scope name j id),
    ground arith,
    get-put s.module_scope name j id,
  )
  | inr (local, found) ↦ (ground arith, ground arith, get-put s.module_scope name j id)
]

-- Definitions in turn, as a block's statements make them; what each returns is dropped.
unfoldable pub define_all : ScopeStack → List (String × SymbolId) → Option ScopeStack
define_all s [] = some s
define_all s ((name, id) ∷ rest) = elim (define_local s name id) [
  | none ↦ none
  | some (t, r) ↦ define_all t rest
]

define_local_inner :
    (scope : Scope) (s : ScopeStack) (name : String) (id : SymbolId)
    → define_local (record s { scopes = scope ∷ s.scopes }) name id
      ≡ some
          (record s { scopes = Dict.put scope name id ∷ s.scopes }, as_result (Dict.get scope name))
unfolding define_local
define_local_inner scope s name id = refl

pop-define_all :
    (scope : Scope) (s : ScopeStack) (defs : List (String × SymbolId))
    → (t : ScopeStack) × (define_all (record s { scopes = scope ∷ s.scopes }) defs ≡ some t)
      × (pop_scope t ≡ some s)
unfolding define_all pop_scope
pop-define_all scope s [] = (record s { scopes = scope ∷ s.scopes }, refl, refl)
pop-define_all scope s ((name, id) ∷ rest) =
    let (t, defined, popped) = pop-define_all (Dict.put scope name id) s rest in
    (t, ground (arith, define_local_inner scope s name id), popped)

-- Entering a scope changes no name's meaning, and however many names are then defined in it, each
-- definition finds its scope and leaving the scope restores the stack as it was.
pub pop-define_all-push :
    (s : ScopeStack) (defs : List (String × SymbolId))
    → ((j : String) → lookup (push_scope s) j ≡ lookup s j)
      × ((t : ScopeStack) × (define_all (push_scope s) defs ≡ some t) × (pop_scope t ≡ some s))
unfolding push_scope lookup
pop-define_all-push s defs = ((λ j. ground arith), pop-define_all [] s defs)
