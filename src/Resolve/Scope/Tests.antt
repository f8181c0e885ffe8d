-- ===== src/Resolve/Scope/Tests.antt =====
-- A stack with a shadowed name, and the theorems at it.
use kore_lang.Base.{◌≡◌, refl, none, some, [], ◌∷◌, String, if◌then◌else◌}
use kore_lang.Base.Dict.{name_eq}
use kore_lang.Resolve.Scope.{
  ScopeStack, push_scope, pop_scope, err, as_result, define_local, define_module, lookup, lookup_in,
  lookup_module, depth,
}
use kore_lang.Resolve.Scope.Laws.{
  innermost, define_local_lem, define_module_lem, define_all, pop-define_all-push,
}

-- `x` is 1 in the function and 2 in its block; the module has `f`.
abbrev nested : ScopeStack
nested = record { scopes = (("x", 2) ∷ []) ∷ (("x", 1) ∷ []) ∷ []; module_scope = ("f", 0) ∷ [] }

abbrev redefined : ScopeStack
redefined = record nested { scopes = (("x", 7) ∷ []) ∷ (("x", 1) ∷ []) ∷ [] }

redefine : define_local nested "x" 7 ≡ some (redefined, err 2)
unfolding define_local
redefine = refl

define_local_lem_example :
    (lookup redefined "f" ≡ (if name_eq "x" "f" then some 7 else lookup nested "f"))
    × (err 2 ≡ as_result (innermost nested.scopes "x"))
    × (depth redefined ≡ depth nested)
    × (lookup_module redefined "f" ≡ lookup_module nested "f")
define_local_lem_example = define_local_lem nested redefined "x" "f" 7 (err 2) redefine

define_module_lem_example :
    (lookup (define_module nested "x" 9).0 "x" ≡ (elim (lookup_in nested.scopes "x") [
      | some local ↦ some local
      | none ↦ if name_eq "x" "x" then some 9 else lookup_module nested "x"
    ]))
    × ((define_module nested "x" 9).1 ≡ as_result (lookup_module nested "x"))
    × (lookup_module (define_module nested "x" 9).0 "x"
        ≡ (if name_eq "x" "x" then some 9 else lookup_module nested "x"))
define_module_lem_example = define_module_lem nested "x" "x" 9

pop-define_all-push_example :
    ((j : String) → lookup (push_scope nested) j ≡ lookup nested j)
    × ((t : ScopeStack) × (define_all (push_scope nested) (("y", 3) ∷ ("x", 4) ∷ []) ≡ some t)
        × (pop_scope t ≡ some nested))
pop-define_all-push_example = pop-define_all-push nested (("y", 3) ∷ ("x", 4) ∷ [])
