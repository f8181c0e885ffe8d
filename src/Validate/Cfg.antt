-- ===== src/Validate/Cfg.antt =====
-- stage0/src/middleend/validate/cfg.rs: the checks on the control-flow graph.
pub mod Valid
pub mod Errors
pub mod DeadCode
pub mod Pipeline
mod Tests
use kore_lang.Base.{
  ℕ, zero, suc, ◌+◌, Bool, true, false, not, ◌&&◌, Option, none, some, List, [], ◌∷◌, ◌++◌, map,
  length, retain, any, ◌==◌, if◌then◌else◌,
}
use kore_lang.Base.Sets.{contains, insert, extend}
use kore_lang.Diag.{Span, nowhere, at, error_diagnostic, warning_diagnostic}
use kore_lang.Diag.Sink.{DiagSink, emit}
use kore_lang.Hir.{BlockId, HirTerminator, HirBlock, HirBody}
use kore_lang.Hir.Cfg.{successors, reachable_blocks}

-- The same text as in dead_code.rs.
unfoldable pub compute_reachable : HirBody → List BlockId
unfolding reachable_blocks
compute_reachable body = reachable_blocks body

abbrev pub ids : List HirBlock → List BlockId
ids = map (λ b. b.id)

-- `preds.entry(succ).or_default().push(block.id)`.
unfoldable pub add_pred :
    List (BlockId × List BlockId) → BlockId → BlockId → List (BlockId × List BlockId)
add_pred [] succ i = (succ, i ∷ []) ∷ []
add_pred ((k, ps) ∷ rest) succ i =
    if k == succ then (k, ps ++ i ∷ []) ∷ rest else (k, ps) ∷ add_pred rest succ i

add_preds : List (BlockId × List BlockId) → List BlockId → BlockId → List (BlockId × List BlockId)
unfolding add_pred
add_preds preds [] i = preds
add_preds preds (s ∷ ss) i = add_preds (add_pred preds s i) ss i

preds_from : List (BlockId × List BlockId) → List HirBlock → List (BlockId × List BlockId)
unfolding add_preds successors
preds_from preds [] = preds
preds_from preds (b ∷ bs) = preds_from (add_preds preds (successors b.terminator) b.id) bs

unfoldable pub compute_predecessors : HirBody → List (BlockId × List BlockId)
unfolding preds_from
compute_predecessors body = preds_from [] body.blocks

unfoldable pub preds_of : List (BlockId × List BlockId) → BlockId → List BlockId
preds_of [] i = []
preds_of ((k, ps) ∷ rest) i = if k == i then ps else preds_of rest i

-- `for &pred in preds { if can_reach.insert(pred) { worklist.push(pred) } }`.
unfoldable pub push_new : List BlockId → List BlockId → List BlockId → List BlockId × List BlockId
unfolding contains
push_new [] can_reach worklist = (can_reach, worklist)
push_new (p ∷ ps) can_reach worklist =
    if contains can_reach p
    then push_new ps can_reach worklist
    else push_new ps (p ∷ can_reach) (p ∷ worklist)

unfoldable pub spread :
    List (BlockId × List BlockId) → ℕ → List BlockId → List BlockId → List BlockId
unfolding push_new preds_of
spread preds zero worklist can_reach = can_reach
spread preds (suc fuel) [] can_reach = can_reach
spread preds (suc fuel) (i ∷ worklist) can_reach =
    let (reached, work) = push_new (preds_of preds i) can_reach worklist in
    spread preds fuel work reached

-- Each round takes one block from the worklist, and a block is put there at most once.
unfoldable pub compute_can_reach :
    List (BlockId × List BlockId) → List BlockId → HirBody → List BlockId
unfolding spread
compute_can_reach preds targets body =
    spread preds (length targets + length body.blocks) targets targets

abbrev pub is_return : HirTerminator → Bool
is_return (HirTerminator.return _) = true
is_return _ = false

abbrev pub is_unreachable : HirTerminator → Bool
is_unreachable HirTerminator.unreachable = true
is_unreachable _ = false

unfoldable pub return_blocks : HirBody → List BlockId
unfolding retain extend
return_blocks body = extend [] (ids (retain (λ b. is_return b.terminator) body.blocks))

warn_loops : List HirBlock → List BlockId → List BlockId → DiagSink → DiagSink
unfolding contains emit
warn_loops [] reachable can_reach sink = sink
warn_loops (b ∷ bs) reachable can_reach sink = warn_loops bs reachable can_reach (
    if contains reachable b.id && not (contains can_reach b.id) && not (is_unreachable b.terminator)
    then emit (warning_diagnostic 9005 (at b.span)) sink
    else sink)

abbrev is_empty : List BlockId → Bool
is_empty [] = true
is_empty (_ ∷ _) = false

-- The result is always `true`: what it finds are warnings.
unfoldable pub validate_returns : HirBody → List BlockId → DiagSink → DiagSink × Bool
unfolding warn_loops compute_can_reach compute_predecessors return_blocks
validate_returns body reachable sink =
    let returns = return_blocks body in
    (
      (if is_empty returns
          then sink
          else warn_loops body.blocks reachable
              (compute_can_reach (compute_predecessors body) returns body) sink),
      true,
    )

-- The targets of one block that are no blocks.
unfoldable pub check_targets : List BlockId → Span → List BlockId → DiagSink → DiagSink × Bool
unfolding contains emit
check_targets block_ids span [] sink = (sink, true)
check_targets block_ids span (t ∷ ts) sink =
    let present = contains block_ids t in
    let (sink', valid) =
      check_targets block_ids span ts
        (if present then sink else emit (error_diagnostic 9003 (at span)) sink) in
    (sink', present && valid)

unfoldable pub check_blocks : List BlockId → List HirBlock → DiagSink → DiagSink × Bool
unfolding check_targets successors
check_blocks block_ids [] sink = (sink, true)
check_blocks block_ids (b ∷ bs) sink =
    let (sink', valid) = check_targets block_ids b.span (successors b.terminator) sink in
    let (sink'', valid') = check_blocks block_ids bs sink' in (sink'', valid && valid')

unfoldable pub warn_unreachable : List BlockId → List HirBlock → DiagSink → DiagSink
unfolding contains emit
warn_unreachable reachable [] sink = sink
warn_unreachable reachable (b ∷ bs) sink =
    warn_unreachable reachable bs
      (if contains reachable b.id then sink else emit (warning_diagnostic 9004 (at b.span)) sink)

-- The checks after that of the entry block.
unfoldable pub check_rest : HirBody → DiagSink → DiagSink × Bool
unfolding extend check_blocks warn_unreachable compute_reachable validate_returns emit
check_rest body sink =
    let block_ids = extend [] (ids body.blocks) in
    let unique = length block_ids == length body.blocks in
    let sink1 = if unique then sink else emit (error_diagnostic 9002 nowhere) sink in
    let (sink2, targets) = check_blocks block_ids body.blocks sink1 in
    let reachable = compute_reachable body in
    let sink3 = warn_unreachable reachable body.blocks sink2 in
    let (sink4, returns) = validate_returns body reachable sink3 in
    (sink4, (unique && targets) && returns)

unfoldable pub validate_cfg : HirBody → DiagSink → DiagSink × Bool
unfolding any check_rest emit
validate_cfg body sink =
    if any (λ b. b.id == body.entry_block) body.blocks
    then check_rest body sink
    else (emit (error_diagnostic 9001 nowhere) sink, false)
