-- ===== src/Eval/Env/Tests.antt =====
-- A shadowed name, and the theorems at it.
use kore_lang.Base.{ℕ, ◌≡◌, refl, some, List, [], ◌∷◌, if◌then◌else◌}
use kore_lang.Base.Dict.{name_eq}
use kore_lang.Eval.Env.{EvalEnv, new, push_scope, pop_scope, define, lookup, update}
use kore_lang.Eval.Env.Laws.{Op, apply_all, define-lookup}

-- `x` is 10 outside and 20 inside; then the inner scope is left.
abbrev ops : List (Op ℕ)
ops = Op.def "x" 10 ∷ Op.push ∷ Op.def "x" 20 ∷ Op.upd "x" 30 ∷ Op.pop ∷ Op.pop ∷ []

abbrev env : EvalEnv ℕ
env = apply_all ops new

env_run : lookup env "x" ≡ some 10
unfolding lookup pop_scope update define push_scope
env_run = refl

define-lookup_example :
    lookup (define env "y" 7) "x" ≡ (if name_eq "y" "x" then some 7 else lookup env "x")
define-lookup_example = define-lookup ops "y" "x" 7
