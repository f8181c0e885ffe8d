-- ===== src/Pass/Manager/Rounds.antt =====
-- Which rounds the manager runs.
use kore_lang.Base.{
  ℕ, zero, suc, ◌≤◌, ◌<◌, ◌≡◌, ◌⊎◌, inl, inr, refl, true, Option, none, some, List, [], ◌∷◌, map,
  arith, Bool-cases, ap, subst,
}
use kore_lang.Hir.{HirBody, HirFunction, HirModule}
use kore_lang.Pass.Manager.{
  Pass, PassManager, run_passes, run_rounds, run_on_body, run_on_function, run_on_module,
}

-- One round: every pass once, in the order of the manager.
unfoldable pub one_round : List Pass → HirBody → HirBody
one_round [] body = body
one_round (p ∷ ps) body = one_round ps (p body).0

unfoldable pub rounds : ℕ → List Pass → HirBody → HirBody
unfolding one_round
rounds zero ps body = body
rounds (suc n) ps body = rounds n ps (one_round ps body)

-- Some pass of the round says that it changed the body that it was given.
abbrev pub Changes : List Pass → HirBody → Type 0
Changes [] body = ⊥
Changes (p ∷ ps) body = ((p body).1 ≡ true) ⊎ Changes ps (p body).0

-- The result is that of `size` rounds. Every round but the last had a change; and the limit is reached,
-- or the last round had none.
pub record Runs (ps : List Pass) (limit : ℕ) (body result : HirBody) : Type 0 where
  pub size : ℕ
  pub within : size ≤ limit
  pub same : result ≡ rounds size ps body
  pub goes_on : (i : ℕ) → suc i < size → Changes ps (rounds i ps body)
  pub ends : (size ≡ limit) ⊎ ((i : ℕ) × (size ≡ suc i) × ¬ Changes ps (rounds i ps body))

abbrev pub BodyRuns : PassManager → Option HirBody → Option HirBody → Type 0
BodyRuns pm none none = Unit
BodyRuns pm (some body) (some result) = Runs pm.passes pm.max_iterations body result
BodyRuns pm _ _ = ⊥

-- Function for function: all but the body is as before, and the body is run.
abbrev pub FunctionsRun : PassManager → List HirFunction → List HirFunction → Type 0
FunctionsRun pm [] [] = Unit
FunctionsRun pm (f ∷ fs) (g ∷ gs) =
    (g ≡ record f { body = g.body }) × BodyRuns pm f.body g.body × FunctionsRun pm fs gs
FunctionsRun pm _ _ = ⊥

run_passes-one_round :
    (ps : List Pass) (body : HirBody) → (run_passes ps body).0 ≡ one_round ps body
unfolding run_passes one_round
run_passes-one_round [] body = refl
run_passes-one_round (p ∷ ps) body = run_passes-one_round ps (p body).0

run_passes-Changes :
    (ps : List Pass) (body : HirBody) → (run_passes ps body).1 ≡ true → Changes ps body
unfolding run_passes
run_passes-Changes [] body h = cc
run_passes-Changes (p ∷ ps) body h = elim (Bool-cases (p body).1) [
  | inl changed ↦ inl changed
  | inr same ↦ inr (run_passes-Changes ps (p body).0 (ground arith))
]

Changes-run_passes :
    (ps : List Pass) (body : HirBody) → Changes ps body → (run_passes ps body).1 ≡ true
unfolding run_passes
Changes-run_passes [] body h = absurd h
Changes-run_passes (p ∷ ps) body (inl changed) = ground arith
Changes-run_passes (p ∷ ps) body (inr later) =
    let rest = Changes-run_passes ps (p body).0 later in ground arith

-- One round more, before the others.
more_rounds :
    (ps : List Pass) (limit : ℕ) (body result : HirBody)
    → Changes ps body
    → Runs ps limit (one_round ps body) result
    → Runs ps (suc limit) body result
unfolding rounds
more_rounds ps limit body result changed h = record {
  size = suc h.size;
  within = omega (arith, h.within);
  same = h.same;
  goes_on = go;
  ends = elim h.ends [
    | inl full ↦ inl (ap suc full)
    | inr (i, last, silent) ↦ inr (suc i, ap suc last, silent)
  ];
}
  where
    go : (i : ℕ) → suc i < suc h.size → Changes ps (rounds i ps body)
    go zero lt = changed
    go (suc i) lt = h.goes_on i (omega arith)

run_rounds-Runs : (n : ℕ) (ps : List Pass) (body : HirBody) → Runs ps n body (run_rounds n ps body)
unfolding run_rounds rounds
run_rounds-Runs zero ps body = record {
  size = 0;
  within = omega arith;
  same = refl;
  goes_on = λ i lt. absurd (omega arith);
  ends = inl refl;
}
run_rounds-Runs (suc n) ps body = elim (Bool-cases (run_passes ps body).1) [
  | inl changed ↦
      rw (changed, run_rounds)
        (more_rounds ps n body (run_rounds n ps (run_passes ps body).0)
          (run_passes-Changes ps body changed)
          (subst (λ b. Runs ps n b (run_rounds n ps (run_passes ps body).0))
            (run_passes-one_round ps body) (run_rounds-Runs n ps (run_passes ps body).0)))
  | inr same ↦
      rw (same, run_rounds)
        (record {
          size = 1;
          within = omega arith;
          same = run_passes-one_round ps body;
          goes_on = λ i lt. absurd (omega arith);
          ends = inr (0, refl, λ h. let yes_changed = Changes-run_passes ps body h in cc);
        })
]

functions-Run :
    (pm : PassManager) (fs : List HirFunction) → FunctionsRun pm fs (map (run_on_function pm) fs)
unfolding run_on_function run_on_body
functions-Run pm [] = tt
functions-Run pm (f ∷ fs) = (refl, run f.body, functions-Run pm fs)
  where
    run :
        (o : Option HirBody)
        → BodyRuns pm o (elim o [ none ↦ none | some body ↦ some (run_on_body pm body) ])
    run none = tt
    run (some body) = run_rounds-Runs pm.max_iterations pm.passes body

-- The manager changes nothing of a module but the bodies of its functions. Each body becomes what a
-- number of rounds of all passes, in the manager's order, makes of it: at most `max_iterations`; every
-- round before the last had a pass that reported a change; and `max_iterations` rounds ran, or no pass
-- of the last round reported a change.
pub run_on_module-FunctionsRun :
    (pm : PassManager) (m : HirModule)
    → (run_on_module pm m ≡ record m { functions = (run_on_module pm m).functions })
      × FunctionsRun pm m.functions (run_on_module pm m).functions
unfolding run_on_module
run_on_module-FunctionsRun pm m = (refl, functions-Run pm m.functions)
