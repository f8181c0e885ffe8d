-- ===== src/Eval/Evaluator/Errors.antt =====
-- Error values in an environment.
use kore_lang.Base.{
  ◌≡◌, refl, ap, Bool, true, false, ◌||◌, some, List, [], ◌∷◌, String, length, arith, Bool-cases,
  Option-cases, List-cases, inl, inr,
}
use kore_lang.Base.Dict.{Dict, name_eq, is_some}
use kore_lang.Base.Dict
use kore_lang.Eval.Value.{Value}
use kore_lang.Eval.Env.{
  EvalEnv, push_scope, pop_scope, define, define_in, lookup, lookup_in, update, update_in,
}

unfoldable pub is_error : Value → Bool
is_error Value.error = true
is_error _ = false

unfoldable pub dict_errs : Dict Value → Bool
dict_errs [] = false
dict_errs ((name, v) ∷ d) = is_error v || dict_errs d

unfoldable pub scopes_err : List (Dict Value) → Bool
unfolding dict_errs
scopes_err [] = false
scopes_err (d ∷ ds) = dict_errs d || scopes_err ds

-- Some name stands for an error value.
unfoldable pub env_errs : EvalEnv Value → Bool
unfolding scopes_err
env_errs e = scopes_err e.scopes

dict_errs-put :
    (d : Dict Value) (name : String) (v : Value)
    → dict_errs (Dict.put d name v) ≡ true
    → (is_error v || dict_errs d) ≡ true
unfolding dict_errs Dict.put
dict_errs-put [] name v h = h
dict_errs-put ((n, w) ∷ d) name v h = elim (Bool-cases (name_eq n name)) [
  | inl same ↦ ground arith
  | inr other ↦ ground (arith, dict_errs-put d name v)
]

dict_errs-get :
    (d : Dict Value) (name : String) (v : Value)
    → Dict.get d name ≡ some v
    → is_error v ≡ true
    → dict_errs d ≡ true
unfolding dict_errs Dict.get
dict_errs-get [] name v h k = absurd (ground arith)
dict_errs-get ((n, w) ∷ d) name v h k = elim (Bool-cases (name_eq n name)) [
  | inl same ↦ let e : w ≡ v = ground arith in ground (arith, ap is_error e)
  | inr other ↦ ground (arith, dict_errs-get d name v (ground arith) k)
]

scopes_err-lookup :
    (ss : List (Dict Value)) (name : String) (v : Value)
    → lookup_in ss name ≡ some v
    → is_error v ≡ true
    → scopes_err ss ≡ true
unfolding scopes_err lookup_in
scopes_err-lookup [] name v h k = absurd (ground arith)
scopes_err-lookup (s ∷ ss) name v h k = elim (Option-cases (Dict.get s name)) [
  | inl outer ↦ ground (arith, scopes_err-lookup ss name v (ground arith) k)
  | inr (w, here) ↦ ground (arith, dict_errs-get s name v (ground arith) k)
]

scopes_err-update :
    (ss : List (Dict Value)) (name : String) (v : Value)
    → scopes_err (update_in ss name v).0 ≡ true
    → (is_error v || scopes_err ss) ≡ true
unfolding scopes_err update_in
scopes_err-update [] name v h = absurd (ground arith)
scopes_err-update (s ∷ ss) name v h =
    ground (arith, dict_errs-put s name v, scopes_err-update ss name v)

module _ (e : EvalEnv Value) where
  pub env_errs-lookup :
      (name : String) (v : Value) → lookup e name ≡ some v → is_error v ≡ true → env_errs e ≡ true
  unfolding env_errs lookup
  env_errs-lookup name v h k = scopes_err-lookup e.scopes name v h k

  pub env_errs-define :
      (name : String) (v : Value)
      → env_errs (define e name v) ≡ true
      → (is_error v || env_errs e) ≡ true
  unfolding env_errs define define_in scopes_err
  env_errs-define name v h = elim (List-cases e.scopes) [
    | inl empty ↦ ground arith
    | inr (s, ss, eq) ↦ ground (arith, dict_errs-put s name v)
  ]

  pub env_errs-update :
      (name : String) (v : Value)
      → env_errs (update e name v).0 ≡ true
      → (is_error v || env_errs e) ≡ true
  unfolding env_errs update
  env_errs-update name v h = scopes_err-update e.scopes name v h

  pub env_errs-push : env_errs (push_scope e) ≡ env_errs e
  unfolding env_errs push_scope
  env_errs-push = refl

  pub env_errs-pop : env_errs (pop_scope e) ≡ true → env_errs e ≡ true
  unfolding env_errs pop_scope
  env_errs-pop h = elim (List-cases e.scopes) [
    | inl empty ↦ ground arith
    | inr (s, ss, eq) ↦ ground arith
  ]

  pub length-define :
      (name : String) (v : Value) → length (define e name v).scopes ≡ length e.scopes
  unfolding define define_in
  length-define name v = elim (List-cases e.scopes) [
    | inl empty ↦ ground arith
    | inr (s, ss, eq) ↦ ground arith
  ]
