-- ===== src/Pass/DeadCode.antt =====
-- stage0/src/middleend/pass/dead_code.rs: the removal of unreachable blocks.
pub mod Graph
pub mod Meaning
mod Tests
use kore_lang.Base.{Bool, ltb, length, retain}
use kore_lang.Base.Sets.{contains}
use kore_lang.Hir.{BlockId, HirBody}
use kore_lang.Base.{List}
use kore_lang.Hir.Cfg.{reachable_blocks}

unfoldable pub compute_reachable_blocks : HirBody → List BlockId
unfolding reachable_blocks
compute_reachable_blocks body = reachable_blocks body

-- The new body, and whether a block was removed.
unfoldable pub run_on_body : HirBody → HirBody × Bool
unfolding retain contains
run_on_body body =
    let reachable = compute_reachable_blocks body in
    let blocks = retain (λ block. contains reachable block.id) body.blocks in
    (record body { blocks = blocks }, ltb (length blocks) (length body.blocks))
