-- ===== src/Pass/DeadCode/Meaning.antt =====
-- The pass keeps what the body does.
use kore_lang.Base.{
  ℕ, ◌≡◌, ap, inl, inr, true, Option, none, some, List, [], ◌∷◌, map, arith, ==_refl, Option-cases,
}
use kore_lang.Base.Sets.{contains}
use kore_lang.Hir.{BlockId, HirTerminator, HirBlock, HirBody}
use kore_lang.Hir.Cfg.{successors, find_block, found_successors, successors_of, Reach, here, step}
use kore_lang.Hir.Run.{Machine, select, exec_all, jump, next, after_stmts, enter, run, run_congr}
use kore_lang.Pass.DeadCode.{run_on_body}
use kore_lang.Pass.DeadCode.Graph.{new_blocks, run_on_body-Reach}

-- A switch jumps to one of its targets or to `otherwise`.
select-mem :
    (v : ℕ) (targets : List (ℕ × BlockId)) (otherwise : BlockId)
    → contains (otherwise ∷ map (λ t. t.1) targets) (select v targets otherwise) ≡ true
unfolding contains select
select-mem v [] otherwise = ground (arith, ==_refl otherwise)
select-mem v ((w, t) ∷ rest) otherwise = ground (arith, select-mem v rest otherwise, ==_refl t)

module _ (m : Machine) where
  open m use {State, exec, discr}

  next-successors :
      (t : HirTerminator) (s s' : State) (j : BlockId)
      → next m t s ≡ jump j s'
      → contains (successors t) j ≡ true
  unfolding next successors contains
  next-successors (HirTerminator.goto target) s s' j h = ground (arith, ==_refl target)
  next-successors (HirTerminator.return value) s s' j h = cc
  next-successors (HirTerminator.switch operand targets otherwise) s s' j h =
      elim (Option-cases (discr operand s)) [
        | inl bad ↦ absurd (ground arith)
        | inr (v, good) ↦ ground (arith, select-mem v targets otherwise)
      ]
  next-successors HirTerminator.unreachable s s' j h = cc

  enter-successors :
      (o : Option HirBlock) (i j : BlockId) (s s' : State)
      → enter m o i s ≡ jump j s'
      → contains (found_successors o) j ≡ true
  unfolding enter after_stmts found_successors
  enter-successors none i j s s' h = cc
  enter-successors (some b) i j s s' h = elim (Option-cases (exec_all m b.stmts s)) [
    | inl trap ↦ absurd (ground arith)
    | inr (t, done) ↦ next-successors b.terminator t s' j (ground arith)
  ]

  enter-Reach :
      (body : HirBody) (i j : BlockId) (s s' : State)
      → Reach body.blocks body.entry_block i
      → enter m (find_block body.blocks i) i s ≡ jump j s'
      → Reach body.blocks body.entry_block j
  unfolding successors_of
  enter-Reach body i j s s' w leads =
      step w (enter-successors (find_block body.blocks i) i j s s' leads)

-- Whatever statements and operands mean, the new body run from its entry has the old body's outcome
-- in every state and for every bound on the blocks entered: result, trap, missing block and all.
pub run_on_body-run :
    (m : Machine) (body : HirBody) (fuel : ℕ) (s : m.State)
    → run m (run_on_body body).0.blocks fuel body.entry_block s
      ≡ run m body.blocks fuel body.entry_block s
run_on_body-run m body fuel s =
    run_congr m (Reach body.blocks body.entry_block) (new_blocks body) body.blocks
      (λ i t w. ap (λ o. enter m o i t) ((run_on_body-Reach body i).1 w)) (enter-Reach m body) fuel
      body.entry_block s here
