-- ===== src/Validate/Body.antt =====
-- stage0/src/middleend/validate/mod.rs: `Validator::validate_body`, the three checks in turn.
mod Tests
use kore_lang.Base.{ℕ, ◌≡◌, ◌↔◌, refl, Bool, true, false, ◌&&◌, List, All, length, arith}
use kore_lang.Diag.Sink.{DiagSink}
use kore_lang.Hir.{HirBody, HirUnion}
use kore_lang.Validate.Cfg.{validate_cfg}
use kore_lang.Validate.Cfg.Valid.{IsWellFormed, validate_cfg_iff}
use kore_lang.Validate.Local.{validate_locals}
use kore_lang.Validate.Local.InRange.{BlockInRange}
use kore_lang.Validate.Local.Laws.{validate_locals_iff}
use kore_lang.Validate.Types.{validate_types}
use kore_lang.Validate.Types.Valid.{StmtFits, validate_types_iff}

-- All three checks run, whatever the ones before answer.
unfoldable pub validate_body : List HirUnion → HirBody → DiagSink → DiagSink × Bool
unfolding validate_cfg validate_locals validate_types
validate_body unions body sink =
    let (after_cfg, cfg_ok) = validate_cfg body sink in
    let (after_locals, locals_ok) = validate_locals body after_cfg in
    let (after_types, types_ok) = validate_types body unions after_locals in
    (after_types, cfg_ok && locals_ok && types_ok)

all_three : (a b c : Bool) → ((a && b && c) ≡ true) ↔ ((a ≡ true) × (b ≡ true) × (c ≡ true))
all_three a b c = ground arith

-- A body is valid exactly if its graph is well formed, each local that it mentions exists, and every
-- assignment whose two types are known has compatible types.
pub validate_body_iff :
    (unions : List HirUnion) (body : HirBody) (sink : DiagSink)
    → ((validate_body unions body sink).1 ≡ true) ↔ (
        IsWellFormed body
        × All (BlockInRange (length body.locals)) body.blocks
        × All (λ b. All (StmtFits body.locals unions) b.stmts) body.blocks)
unfolding validate_body
validate_body_iff unions body sink =
    let after_cfg = (validate_cfg body sink).0 in
    let after_locals = (validate_locals body after_cfg).0 in
    let (g, g') = validate_cfg_iff body sink in
    let (l, l') = (validate_locals_iff body after_cfg).0 in
    let (t, t') = (validate_types_iff body unions after_locals).0 in
    let split =
      all_three (validate_cfg body sink).1 (validate_locals body after_cfg).1
        (validate_types body unions after_locals).1 in
    ((λ h. let (a, b, c) = split.0 h in (g a, l b, t c)), (λ (a, b, c). split.1 (g' a, l' b, t' c)))
