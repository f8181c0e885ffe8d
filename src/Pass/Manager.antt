-- ===== src/Pass/Manager.antt =====
-- stage0/src/middleend/pass/mod.rs: the pass manager and the default pipeline.
pub mod Rule
pub mod Rounds
mod Tests
use kore_lang.Base.{
  ℕ, zero, suc, Bool, true, false, ◌||◌, Option, none, some, List, [], ◌∷◌, ◌++◌, map,
}
use kore_lang.Hir.{HirBody, HirFunction, HirModule}
use kore_lang.Pass.DeadCode
use kore_lang.Pass.ConstFold
use kore_lang.Pass.DeadStore

-- `Pass::run_on_body`: the new body, and whether it changed. (The passes have no state.)
abbrev pub Pass : Type 0
Pass = HirBody → HirBody × Bool

pub record PassManager : Type 0 where
  pub passes : List Pass
  pub max_iterations : ℕ

abbrev pub new : PassManager
new = record { passes = []; max_iterations = 3 }

unfoldable pub add_pass : PassManager → Pass → PassManager
add_pass pm p = record pm { passes = pm.passes ++ p ∷ [] }

-- The inner loop: every pass in turn.
unfoldable pub run_passes : List Pass → HirBody → HirBody × Bool
run_passes [] body = (body, false)
run_passes (p ∷ ps) body =
    let (body', changed) = p body in
    let (body'', changed') = run_passes ps body' in (body'', changed || changed')

-- The outer loop, with the rounds that are left.
unfoldable pub run_rounds : ℕ → List Pass → HirBody → HirBody
unfolding run_passes
run_rounds zero ps body = body
run_rounds (suc n) ps body =
    let (body', changed) = run_passes ps body in
    elim changed [ true ↦ run_rounds n ps body' | false ↦ body' ]

unfoldable pub run_on_body : PassManager → HirBody → HirBody
unfolding run_rounds
run_on_body pm body = run_rounds pm.max_iterations pm.passes body

unfoldable pub run_on_function : PassManager → HirFunction → HirFunction
unfolding run_on_body
run_on_function pm f = record f {
  body = elim f.body [ none ↦ none | some body ↦ some (run_on_body pm body) ];
}

unfoldable pub run_on_module : PassManager → HirModule → HirModule
unfolding run_on_function
run_on_module pm m = record m { functions = map (run_on_function pm) m.functions }

unfoldable pub default_pipeline : PassManager
unfolding add_pass DeadCode.run_on_body ConstFold.run_on_body DeadStore.run_on_body
default_pipeline =
    add_pass (add_pass (add_pass new DeadCode.run_on_body) ConstFold.run_on_body)
      DeadStore.run_on_body
