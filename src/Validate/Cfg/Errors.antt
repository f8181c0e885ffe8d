-- ===== src/Validate/Cfg/Errors.antt =====
-- The answer of the check and the sink agree.
use kore_lang.Base.{
  ℕ, suc, ◌≤◌, ◌≡◌, refl, Bool, true, List, [], ◌∷◌, length, arith, ltb, ◌==◌, Bool-cases, inl, inr,
  if◌then◌else◌,
}
use kore_lang.Base.Sets.{contains, extend}
use kore_lang.Diag.{Span, DiagLoc, nowhere, at, error_diagnostic, warning_diagnostic}
use kore_lang.Diag.Sink.{DiagSink, emit}
use kore_lang.Diag.Sink.Counts.{err_count-emit}
use kore_lang.Hir.{BlockId, HirBlock, HirBody}
use kore_lang.Hir.Cfg.{successors}
use kore_lang.Validate.Cfg.{
  ids, check_targets, check_blocks, warn_unreachable, warn_loops, validate_returns, check_rest,
  validate_cfg, compute_reachable, compute_can_reach, compute_predecessors, return_blocks,
}

-- The errors that a step adds to the sink: none if it answers `true`, some if it answers `false`.
abbrev pub Agrees : DiagSink → DiagSink × Bool → Type 0
Agrees sink (sink', valid) =
    (sink.err_count ≤ sink'.err_count) × (valid ≡ ltb sink'.err_count (suc sink.err_count))

emit_error :
    (c : ℕ) (l : DiagLoc) (s : DiagSink)
    → (emit (error_diagnostic c l) s).err_count ≡ suc s.err_count
emit_error c l s = err_count-emit (error_diagnostic c l) s

emit_warning :
    (c : ℕ) (l : DiagLoc) (s : DiagSink) → (emit (warning_diagnostic c l) s).err_count ≡ s.err_count
emit_warning c l s = err_count-emit (warning_diagnostic c l) s

check_targets-Agrees :
    (known : List BlockId) (span : Span) (ts : List BlockId) (sink : DiagSink)
    → Agrees sink (check_targets known span ts sink)
unfolding check_targets
check_targets-Agrees known span [] sink = ground arith
check_targets-Agrees known span (t ∷ ts) sink = elim (Bool-cases (contains known t)) [
  | inl present ↦ ground (arith, check_targets-Agrees known span ts sink)
  | inr absent ↦
      let sink' = emit (error_diagnostic 9003 (at span)) sink in
      ground (arith, check_targets-Agrees known span ts sink', emit_error 9003 (at span) sink)
]

check_blocks-Agrees :
    (known : List BlockId) (bs : List HirBlock) (sink : DiagSink)
    → Agrees sink (check_blocks known bs sink)
unfolding check_blocks
check_blocks-Agrees known [] sink = ground arith
check_blocks-Agrees known (b ∷ bs) sink = ground (
  arith,
  check_targets-Agrees known b.span (successors b.terminator) sink,
  check_blocks-Agrees known bs (check_targets known b.span (successors b.terminator) sink).0,
)

warn_unreachable-err_count :
    (reachable : List BlockId) (bs : List HirBlock) (sink : DiagSink)
    → (warn_unreachable reachable bs sink).err_count ≡ sink.err_count
unfolding warn_unreachable
warn_unreachable-err_count reachable [] sink = refl
warn_unreachable-err_count reachable (b ∷ bs) sink = ground (
  arith,
  warn_unreachable-err_count reachable bs sink,
  warn_unreachable-err_count reachable bs (emit (warning_diagnostic 9004 (at b.span)) sink),
  emit_warning 9004 (at b.span) sink,
)

warn_loops-err_count :
    (bs : List HirBlock) (reachable can_reach : List BlockId) (sink : DiagSink)
    → (warn_loops bs reachable can_reach sink).err_count ≡ sink.err_count
unfolding warn_loops
warn_loops-err_count [] reachable can_reach sink = refl
warn_loops-err_count (b ∷ bs) reachable can_reach sink = ground (
  arith,
  warn_loops-err_count bs reachable can_reach sink,
  warn_loops-err_count bs reachable can_reach (emit (warning_diagnostic 9005 (at b.span)) sink),
  emit_warning 9005 (at b.span) sink,
)

validate_returns-err_count :
    (body : HirBody) (reachable : List BlockId) (sink : DiagSink)
    → (validate_returns body reachable sink).0.err_count ≡ sink.err_count
unfolding validate_returns
validate_returns-err_count body reachable sink = ground (
  arith,
  warn_loops-err_count body.blocks reachable
      (compute_can_reach (compute_predecessors body) (return_blocks body) body) sink,
)

check_rest-Agrees : (body : HirBody) (sink : DiagSink) → Agrees sink (check_rest body sink)
unfolding check_rest
check_rest-Agrees body sink =
    let known = extend [] (ids body.blocks) in
    let unique = length known == length body.blocks in
    let sink1 = if unique then sink else emit (error_diagnostic 9002 nowhere) sink in
    let sink2 = (check_blocks known body.blocks sink1).0 in
    let reachable = compute_reachable body in
    let sink3 = warn_unreachable reachable body.blocks sink2 in
    let same_answer : (validate_returns body reachable sink3).1 ≡ true =
      unfold validate_returns in refl in
    ground (
      arith,
      emit_error 9002 nowhere sink,
      check_blocks-Agrees known body.blocks sink1,
      warn_unreachable-err_count reachable body.blocks sink2,
      validate_returns-err_count body reachable sink3,
      same_answer,
    )

-- The check never takes an error back, and it answers `false` exactly if it has reported an error:
-- warnings leave the answer alone.
pub validate_cfg-Agrees : (body : HirBody) (sink : DiagSink) → Agrees sink (validate_cfg body sink)
unfolding validate_cfg
validate_cfg-Agrees body sink =
    ground (arith, check_rest-Agrees body sink, emit_error 9001 nowhere sink)
