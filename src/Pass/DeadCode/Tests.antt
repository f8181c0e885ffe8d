-- ===== src/Pass/DeadCode/Tests.antt =====
-- Test bodies, and the theorems of the pass at them.
use kore_lang.Base.{ℕ, ◌≡◌, ◌↔◌, refl, true, false, not, none, some, [], ◌∷◌, any}
use kore_lang.Base.Sets.{contains}
use kore_lang.Diag.{Span}
use kore_lang.Hir.{BlockId, HirTerminator, HirBlock, HirBody}
use kore_lang.Hir.Cfg.{find_block, Reach, reachable_blocks}
use kore_lang.Hir.Cfg.Reachable.{reachable_blocks_iff}
use kore_lang.Hir.Run.{Machine, run}
use kore_lang.Pass.DeadCode.{compute_reachable_blocks, run_on_body}
use kore_lang.Pass.DeadCode.Graph.{new_blocks, run_on_body-Reach, run_on_body_idem}
use kore_lang.Pass.DeadCode.Meaning.{run_on_body-run}

abbrev origin : Span
origin = record { file = 0; lo = 0; hi = 0 }

abbrev block : BlockId → HirTerminator → HirBlock
block i t = record { id = i; stmts = []; terminator = t; span = origin }

-- Block 0 goes to 1, which returns; no walk leads to 2.
abbrev sample : HirBody
sample = record {
  blocks =
      block 0 (HirTerminator.goto 1)
      ∷ block 1 (HirTerminator.return none)
      ∷ block 2 HirTerminator.unreachable
      ∷ [];
  locals = [];
  entry_block = 0;
}

sample_run : run_on_body sample ≡ (
  record sample {
    blocks = block 0 (HirTerminator.goto 1) ∷ block 1 (HirTerminator.return none) ∷ [];
  },
  true,
)
unfolding run_on_body compute_reachable_blocks
sample_run = refl

abbrev idle : Machine
idle = record { State = ℕ; exec = λ st s. some s; discr = λ o s. some s }

reachable_blocks_iff_example :
    (contains (reachable_blocks sample) 1 ≡ true) ↔ Reach sample.blocks 0 1
reachable_blocks_iff_example = reachable_blocks_iff sample 1

run_on_body-Reach_example :
    (Reach (new_blocks sample) 0 1 ↔ Reach sample.blocks 0 1)
    × (Reach sample.blocks 0 1 → find_block (new_blocks sample) 1 ≡ find_block sample.blocks 1)
run_on_body-Reach_example = run_on_body-Reach sample 1

run_on_body_idem_example :
    ((run_on_body sample).1
      ≡ any (λ b. not (contains (compute_reachable_blocks sample) b.id)) sample.blocks)
    × (run_on_body (run_on_body sample).0 ≡ ((run_on_body sample).0, false))
run_on_body_idem_example = run_on_body_idem sample

run_on_body-run_example :
    run idle (run_on_body sample).0.blocks 5 0 3 ≡ run idle sample.blocks 5 0 3
run_on_body-run_example = run_on_body-run idle sample 5 3
