-- ===== src/Eval/Env/Laws.antt =====
-- Definitions, updates and scopes.
use kore_lang.Base.{
  ltb, ◌≡◌, refl, true, none, some, List, [], ◌∷◌, String, length, if◌then◌else◌, arith, List-cases,
  Option-cases, Bool-cases, inl, inr,
}
use kore_lang.Base.Dict.{Dict, is_some, name_eq, name_eq_iff, get-put}
use kore_lang.Base.Dict
use kore_lang.Eval.Env.{
  EvalEnv, new, push_scope, pop_scope, define, define_in, lookup, lookup_in, update, update_in,
}

-- The operations that change an environment.
pub data Op (V : Type 0) : Type 0 where
  push pop : Op V
  def upd : String → V → Op V

module _ {V : Type 0} where
  abbrev pub apply : Op V → EvalEnv V → EvalEnv V
  apply Op.push e = push_scope e
  apply Op.pop e = pop_scope e
  apply (Op.def name v) e = define e name v
  apply (Op.upd name v) e = (update e name v).0

  abbrev pub apply_all : List (Op V) → EvalEnv V → EvalEnv V
  apply_all [] e = e
  apply_all (op ∷ ops) e = apply_all ops (apply op e)

  update_in-length :
      (ss : List (Dict V)) (name : String) (v : V) → length (update_in ss name v).0 ≡ length ss
  unfolding update_in
  update_in-length [] name v = refl
  update_in-length (s ∷ ss) name v = ground (arith, update_in-length ss name v)

  apply-nonempty :
      (op : Op V) (e : EvalEnv V)
      → ltb 0 (length e.scopes) ≡ true
      → ltb 0 (length (apply op e).scopes) ≡ true
  unfolding push_scope pop_scope define define_in update
  apply-nonempty Op.push e h = ground arith
  apply-nonempty Op.pop e h = elim (List-cases e.scopes) [
    | inl none_left ↦ absurd (ground arith)
    | inr (s, ss, eq) ↦ ground arith
  ]
  apply-nonempty (Op.def name v) e h = elim (List-cases e.scopes) [
    | inl none_left ↦ ground arith
    | inr (s, ss, eq) ↦ ground arith
  ]
  apply-nonempty (Op.upd name v) e h = ground (arith, update_in-length e.scopes name v)

  apply_all-nonempty :
      (ops : List (Op V)) (e : EvalEnv V)
      → ltb 0 (length e.scopes) ≡ true
      → ltb 0 (length (apply_all ops e).scopes) ≡ true
  apply_all-nonempty [] e h = h
  apply_all-nonempty (op ∷ ops) e h = apply_all-nonempty ops (apply op e) (apply-nonempty op e h)

  define_in-lookup :
      (ss : List (Dict V)) (name j : String) (v : V)
      → ltb 0 (length ss) ≡ true
      → lookup_in (define_in ss name v) j ≡ (if name_eq name j then some v else lookup_in ss j)
  unfolding lookup_in define_in
  define_in-lookup [] name j v h = absurd (ground arith)
  define_in-lookup (s ∷ ss) name j v h = ground (arith, get-put s name j v)

  -- After any operations, a definition is what the name means and no other name changes its meaning.
  pub define-lookup :
      (ops : List (Op V)) (name j : String) (v : V)
      → lookup (define (apply_all ops new) name v) j
        ≡ (if name_eq name j then some v else lookup (apply_all ops new) j)
  unfolding define lookup
  define-lookup ops name j v =
      define_in-lookup (apply_all ops new).scopes name j v (apply_all-nonempty ops new refl)

  update_in-lookup :
      (ss : List (Dict V)) (name j : String) (v : V)
      → ((update_in ss name v).1 ≡ is_some (lookup_in ss name))
        × (lookup_in (update_in ss name v).0 j ≡ (
            if is_some (lookup_in ss name)
            then (if name_eq name j then some v else lookup_in ss j)
            else lookup_in ss j))
  unfolding update_in lookup_in
  update_in-lookup [] name j v = (refl, refl)
  update_in-lookup (s ∷ ss) name j v =
      let (found, later) = update_in-lookup ss name j v in
      elim (Option-cases (Dict.get s name)) [
        | inl outer ↦ (
          ground (arith, found),
          elim (Bool-cases (name_eq name j)) [
            | inl same ↦
                let e : name ≡ j = (name_eq_iff name j).0 same in
                let outer' : Dict.get s j ≡ none = rw (← e) outer in ground (arith, later, outer')
            | inr other ↦ ground (arith, later)
          ],
        )
        | inr (w, here) ↦ (ground arith, ground (arith, get-put s name j v))
      ]

  -- An update finds the name exactly if it means something, and then the value is what it means and no
  -- other name changes its meaning; else nothing changes for any name.
  pub update-lookup :
      (e : EvalEnv V) (name j : String) (v : V)
      → ((update e name v).1 ≡ is_some (lookup e name))
        × (lookup (update e name v).0 j ≡ (
            if is_some (lookup e name)
            then (if name_eq name j then some v else lookup e j)
            else lookup e j))
  unfolding update lookup
  update-lookup e name j v = update_in-lookup e.scopes name j v

  pub length-update :
      (e : EvalEnv V) (name : String) (v : V) → length (update e name v).0.scopes ≡ length e.scopes
  unfolding update
  length-update e name v = update_in-length e.scopes name v
