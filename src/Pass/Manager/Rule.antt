-- ===== src/Pass/Manager/Rule.antt =====
-- What every pass keeps, the manager keeps.
use kore_lang.Base.{ℕ, zero, suc, Option, none, some, List, [], ◌∷◌, map, All, Bool-cases, inl, inr}
use kore_lang.Hir.{HirBody, HirFunction, HirModule}
use kore_lang.Pass.Manager.{
  Pass, PassManager, run_passes, run_rounds, run_on_body, run_on_function, run_on_module,
}

-- A property of bodies that each pass keeps.
abbrev pub Keeps : (HirBody → Type 0) → Pass → Type 0
Keeps P p = (body : HirBody) → P body → P (p body).0

abbrev pub BodyHas : (HirBody → Type 0) → Option HirBody → Type 0
BodyHas P none = Unit
BodyHas P (some body) = P body

module _ (P : HirBody → Type 0) where
  run_passes-Keeps : (ps : List Pass) → All (Keeps P) ps → Keeps P (run_passes ps)
  unfolding run_passes
  run_passes-Keeps [] k body h = h
  run_passes-Keeps (p ∷ ps) k body h = run_passes-Keeps ps k.1 (p body).0 (k.0 body h)

  run_rounds-Keeps :
      (n : ℕ) (ps : List Pass)
      → All (Keeps P) ps
      → (body : HirBody) → P body
      → P (run_rounds n ps body)
  unfolding run_rounds
  run_rounds-Keeps zero ps k body h = h
  run_rounds-Keeps (suc n) ps k body h =
      let h' = run_passes-Keeps ps k body h in
      elim (Bool-cases (run_passes ps body).1) [
        | inl changed ↦ rw (changed, run_rounds) (run_rounds-Keeps n ps k (run_passes ps body).0 h')
        | inr same ↦ rw (same, run_rounds) h'
      ]

  functions-Keep :
      (pm : PassManager) (fs : List HirFunction)
      → All (Keeps P) pm.passes
      → All (λ f. BodyHas P f.body) fs
      → All (λ f. BodyHas P f.body) (map (run_on_function pm) fs)
  unfolding run_on_function run_on_body
  functions-Keep pm [] k h = tt
  functions-Keep pm (f ∷ fs) k h = (keep f.body h.0, functions-Keep pm fs k h.1)
    where
      keep :
          (o : Option HirBody)
          → BodyHas P o
          → BodyHas P (elim o [ none ↦ none | some body ↦ some (run_on_body pm body) ])
      keep none q = tt
      keep (some body) q = run_rounds-Keeps pm.max_iterations pm.passes k body q

-- A property of bodies that every pass of the manager keeps holds of all bodies of a module after the
-- manager has run, if it held before.
pub run_on_module-Keeps :
    (P : HirBody → Type 0) (pm : PassManager) (m : HirModule)
    → All (Keeps P) pm.passes
    → All (λ f. BodyHas P f.body) m.functions
    → All (λ f. BodyHas P f.body) (run_on_module pm m).functions
unfolding run_on_module
run_on_module-Keeps P pm m k h = functions-Keep P pm m.functions k h
