-- ===== src/Eval/Env.antt =====
-- stage0/src/frontend/eval/env.rs: the stack of scopes of compile-time evaluation, over any values.
pub mod Laws
mod Tests
use kore_lang.Base.{
  ℕ, ltb, Bool, true, false, Option, none, some, List, [], ◌∷◌, String, length, if◌then◌else◌,
}
use kore_lang.Base.Dict.{Dict, is_some}
use kore_lang.Base.Dict

-- The innermost scope stands first; the source's `Vec` has it last.
pub record EvalEnv (V : Type 0) : Type 0 where
  pub scopes : List (Dict V)

module _ {V : Type 0} where
  abbrev pub new : EvalEnv V
  new = record { scopes = [] ∷ [] }

  unfoldable pub push_scope : EvalEnv V → EvalEnv V
  push_scope e = record { scopes = [] ∷ e.scopes }

  abbrev pub tail : List (Dict V) → List (Dict V)
  tail [] = []
  tail (s ∷ ss) = ss

  -- The last scope stays.
  unfoldable pub pop_scope : EvalEnv V → EvalEnv V
  pop_scope e = if ltb 1 (length e.scopes) then record { scopes = tail e.scopes } else e

  unfoldable pub define_in : List (Dict V) → String → V → List (Dict V)
  unfolding Dict.put
  define_in [] name v = []
  define_in (s ∷ ss) name v = Dict.put s name v ∷ ss

  unfoldable pub define : EvalEnv V → String → V → EvalEnv V
  unfolding define_in
  define e name v = record { scopes = define_in e.scopes name v }

  unfoldable pub lookup_in : List (Dict V) → String → Option V
  unfolding Dict.get
  lookup_in [] name = none
  lookup_in (s ∷ ss) name =
      let outer = lookup_in ss name in elim (Dict.get s name) [ some v ↦ some v | none ↦ outer ]

  unfoldable pub lookup : EvalEnv V → String → Option V
  unfolding lookup_in
  lookup e name = lookup_in e.scopes name

  -- The innermost scope that has the name gets the value.
  unfoldable pub update_in : List (Dict V) → String → V → List (Dict V) × Bool
  unfolding Dict.put Dict.get
  update_in [] name v = ([], false)
  update_in (s ∷ ss) name v =
      let (ss', found) = update_in ss name v in
      if is_some (Dict.get s name) then (Dict.put s name v ∷ ss, true) else (s ∷ ss', found)

  unfoldable pub update : EvalEnv V → String → V → EvalEnv V × Bool
  unfolding update_in
  update e name v = let (ss, found) = update_in e.scopes name v in (record { scopes = ss }, found)
