-- ===== src/Validate/Cfg/Tests.antt =====
-- Bodies with and without a missing block, and the theorems at them.
use kore_lang.Base.{◌≡◌, ◌↔◌, refl, true, false, none, some, List, [], ◌∷◌, All}
use kore_lang.Diag.Sink.{new}
use kore_lang.Hir.{BlockId, HirTerminator, HirBlock, HirBody, HirModule}
use kore_lang.Hir.Ty.{HirType}
use kore_lang.Pass.DeadCode.{run_on_body}
use kore_lang.Validate.Cfg.{compute_reachable, warn_unreachable, validate_cfg}
use kore_lang.Validate.Cfg.Valid.{IsWellFormed, validate_cfg_iff}
use kore_lang.Validate.Cfg.Errors.{Agrees, validate_cfg-Agrees}
use kore_lang.Pass.Manager.{default_pipeline, run_on_module}
use kore_lang.Pass.Manager.Rule.{BodyHas}
use kore_lang.Validate.Cfg.Pipeline.{IsValid, run_on_module-IsValid}
use kore_lang.Validate.Cfg.DeadCode.{validate_cfg-run_on_body}

abbrev block : BlockId → HirTerminator → HirBlock
block i t = record {
  id = i;
  stmts = [];
  terminator = t;
  span = record { file = 0; lo = i; hi = i };
}

abbrev body_of : List HirBlock → HirBody
body_of blocks = record { blocks = blocks; locals = []; entry_block = 0 }

abbrev sound : HirBody
sound = body_of (
    block 0 (HirTerminator.goto 1)
    ∷ block 1 (HirTerminator.return none)
    ∷ block 2 HirTerminator.unreachable
    ∷ [])

abbrev dangling : HirBody
dangling = body_of (block 0 (HirTerminator.goto 7) ∷ [])

sound_valid : (validate_cfg sound new).1 ≡ true
unfolding validate_cfg
sound_valid = refl

-- One warning: block 2 is not reached.
sound_warnings : (validate_cfg sound new).0.warn_count ≡ 1
unfolding validate_cfg
sound_warnings = refl

dangling_valid : (validate_cfg dangling new).1 ≡ false
unfolding validate_cfg
dangling_valid = refl

validate_cfg_iff_example : ((validate_cfg dangling new).1 ≡ true) ↔ IsWellFormed dangling
validate_cfg_iff_example = validate_cfg_iff dangling new

validate_cfg-Agrees_example : Agrees new (validate_cfg dangling new)
validate_cfg-Agrees_example = validate_cfg-Agrees dangling new

validate_cfg-run_on_body_example :
    ((validate_cfg (run_on_body sound).0 new).1 ≡ true)
    × (warn_unreachable (compute_reachable (run_on_body sound).0) (run_on_body sound).0.blocks new
        ≡ new)
validate_cfg-run_on_body_example = validate_cfg-run_on_body sound new new sound_valid

abbrev module_of : HirBody → HirModule
module_of b = record {
  functions =
      record {
        name = "main";
        params = [];
        ret_type = HirType.void;
        body = some b;
        span = record { file = 0; lo = 0; hi = 0 };
      }
      ∷ [];
  structs = [];
  unions = [];
  globals = [];
}

sound_IsValid : IsValid sound
sound_IsValid = λ sink. (validate_cfg_iff sound sink).1 ((validate_cfg_iff sound new).0 sound_valid)

run_on_module-IsValid_example :
    All (λ f. BodyHas IsValid f.body) (run_on_module default_pipeline (module_of sound)).functions
run_on_module-IsValid_example = run_on_module-IsValid (module_of sound) (sound_IsValid, tt)
