-- ===== src/Validate/Cfg/Pipeline.antt =====
-- The passes of the default pipeline keep a body that passes the check valid.
use kore_lang.Base.{◌≡◌, refl, ap₂, true, List, [], ◌∷◌, All}
use kore_lang.Diag.Sink.{DiagSink, new}
use kore_lang.Hir.{BlockId, HirBlock, HirBody, HirModule}
use kore_lang.Pass.DeadCode
use kore_lang.Pass.ConstFold
use kore_lang.Pass.ConstFold.{fold_blocks}
use kore_lang.Pass.DeadStore
use kore_lang.Pass.DeadStore.{LiveSets, compute_liveness, sweep_block, sweep_blocks}
use kore_lang.Pass.Manager.{default_pipeline, run_on_module}
use kore_lang.Pass.Manager.Rule.{Keeps, BodyHas, run_on_module-Keeps}
use kore_lang.Validate.Cfg.{ids, validate_cfg}
use kore_lang.Validate.Cfg.Valid.{Closed, IsWellFormed, validate_cfg_iff}
use kore_lang.Validate.Cfg.DeadCode.{IsWellFormed-new}

-- The same ids and terminators.
abbrev SameShape : List HirBlock → List HirBlock → Type 0
SameShape [] [] = Unit
SameShape (a ∷ cs) (b ∷ bs) = (a.id ≡ b.id) × ((a.terminator ≡ b.terminator) × SameShape cs bs)
SameShape _ _ = ⊥

same_ids : (cs bs : List HirBlock) → SameShape cs bs → ids cs ≡ ids bs
same_ids [] [] h = refl
same_ids [] (b ∷ bs) h = absurd h
same_ids (a ∷ cs) [] h = absurd h
same_ids (a ∷ cs) (b ∷ bs) h = ap₂ (λ x xs. x ∷ xs) h.0 (same_ids cs bs h.1.1)

Closed-SameShape :
    (known : List BlockId) (cs bs : List HirBlock)
    → SameShape cs bs
    → Closed known bs
    → Closed known cs
Closed-SameShape known [] [] h c = tt
Closed-SameShape known [] (b ∷ bs) h c = absurd h
Closed-SameShape known (a ∷ cs) [] h c = absurd h
Closed-SameShape known (a ∷ cs) (b ∷ bs) h c =
    (rw h.1.0 c.0, Closed-SameShape known cs bs h.1.1 c.1)

IsWellFormed-SameShape :
    (body : HirBody) (cs : List HirBlock)
    → SameShape cs body.blocks
    → IsWellFormed body
    → IsWellFormed (record body { blocks = cs })
IsWellFormed-SameShape body cs h w =
    let e = same_ids cs body.blocks h in
    record {
      entry = rw e w.entry;
      unique = rw e w.unique;
      closed = rw e (Closed-SameShape (ids body.blocks) cs body.blocks h w.closed);
    }

fold_blocks-SameShape : (bs : List HirBlock) → SameShape (fold_blocks bs).0 bs
unfolding fold_blocks
fold_blocks-SameShape [] = tt
fold_blocks-SameShape (b ∷ bs) = (refl, (refl, fold_blocks-SameShape bs))

sweep_blocks-SameShape :
    (sets : LiveSets) (bs : List HirBlock) → SameShape (sweep_blocks sets bs).0 bs
unfolding sweep_blocks sweep_block
sweep_blocks-SameShape sets [] = tt
sweep_blocks-SameShape sets (b ∷ bs) = (refl, (refl, sweep_blocks-SameShape sets bs))

-- The check answers `true`, whatever the sink.
abbrev pub IsValid : HirBody → Type 0
IsValid body = (sink : DiagSink) → (validate_cfg body sink).1 ≡ true

IsWellFormed-IsValid : (body : HirBody) → IsWellFormed body → IsValid body
IsWellFormed-IsValid body w = λ sink. (validate_cfg_iff body sink).1 w

IsValid-IsWellFormed : (body : HirBody) → IsValid body → IsWellFormed body
IsValid-IsWellFormed body v = (validate_cfg_iff body new).0 (v new)

dead_code-IsValid : Keeps IsValid DeadCode.run_on_body
dead_code-IsValid body v =
    IsWellFormed-IsValid (DeadCode.run_on_body body).0
      (IsWellFormed-new body (IsValid-IsWellFormed body v))

const_fold-IsValid : Keeps IsValid ConstFold.run_on_body
unfolding ConstFold.run_on_body
const_fold-IsValid body v = IsWellFormed-IsValid (ConstFold.run_on_body body).0 (
    IsWellFormed-SameShape body (fold_blocks body.blocks).0 (fold_blocks-SameShape body.blocks)
      (IsValid-IsWellFormed body v))

dead_store-IsValid : Keeps IsValid DeadStore.run_on_body
unfolding DeadStore.run_on_body
dead_store-IsValid body v = IsWellFormed-IsValid (DeadStore.run_on_body body).0 (
    IsWellFormed-SameShape body (sweep_blocks (compute_liveness body) body.blocks).0
      (sweep_blocks-SameShape (compute_liveness body) body.blocks) (IsValid-IsWellFormed body v))

-- A module whose bodies pass the check of the graph has such bodies after the default pipeline, too,
-- whatever the passes change.
pub run_on_module-IsValid :
    (m : HirModule)
    → All (λ f. BodyHas IsValid f.body) m.functions
    → All (λ f. BodyHas IsValid f.body) (run_on_module default_pipeline m).functions
unfolding default_pipeline
run_on_module-IsValid m h =
    run_on_module-Keeps IsValid default_pipeline m
      (dead_code-IsValid, (const_fold-IsValid, (dead_store-IsValid, tt))) h
