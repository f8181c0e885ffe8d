-- ===== src/Pass/DeadStore/Tests.antt =====
-- Test bodies for the removal of dead stores, and what the removal changes.
use kore_lang.Base.{ℕ, ◌≡◌, refl, true, false, none, some, [], ◌∷◌}
use kore_lang.Base.Int.{pos}
use kore_lang.Diag.{Span}
use kore_lang.Hir.{
  HirPlace, HirOperand, HirRvalue, HirStmt, HirTerminator, HirBlock, HirBody, Const, assign,
}
use kore_lang.Base.Sets.{contains}
use kore_lang.Hir.Cfg.{successors}
use kore_lang.Hir.Run.{Machine, Outcome, run}
use kore_lang.Pass.DeadStore.{collect_uses_from_terminator, run_on_body}
use kore_lang.Pass.DeadStore.Lost.{run_on_body_loses}

abbrev origin : Span
origin = record { file = 0; lo = 0; hi = 0 }

abbrev seven : HirRvalue
seven = HirRvalue.use_operand (HirOperand.const (Const.int (pos 7)))

abbrev print_it : HirStmt
print_it =
    HirStmt.call none (HirOperand.func_ref 0) (HirOperand.place (HirPlace.local 0) ∷ []) origin

-- Local 0 is set to seven and handed to a function.
abbrev shown : HirBlock
shown = record {
  id = 0;
  stmts = assign (HirPlace.local 0) seven origin ∷ print_it ∷ [];
  terminator = HirTerminator.return none;
  span = origin;
}

abbrev sample : HirBody
sample = record { blocks = shown ∷ []; locals = []; entry_block = 0 }

run_on_body_loses_example :
    run_on_body sample
    ≡ (record sample { blocks = record shown { stmts = print_it ∷ [] } ∷ [] }, true)
unfolding successors contains collect_uses_from_terminator
run_on_body_loses_example =
    run_on_body_loses sample shown 0 seven origin (print_it ∷ []) refl refl refl (tt, tt) refl

-- A store is not lost if the terminator uses the local.
abbrev returned_local : HirBody
returned_local = record sample {
  blocks =
      record shown {
        terminator = HirTerminator.return (some (HirOperand.place (HirPlace.local 0)));
      }
      ∷ [];
}

kept_run : run_on_body returned_local ≡ (returned_local, false)
unfolding run_on_body
kept_run = refl

-- A machine whose state is the local and what was printed.
abbrev printer : Machine
printer = record {
  State = ℕ × ℕ;
  exec = λ st s. elim st [
    | assign p r sp ↦ some (7, s.1)
    | HirStmt.call dest func args sp ↦ some (s.0, s.0)
    | HirStmt.drop p sp ↦ some s
  ];
  discr = λ o s. none;
}

before_run : run printer sample.blocks 2 0 (0, 0) ≡ Outcome.returned none (7, 7)
unfolding run
before_run = refl

after_run : run printer (run_on_body sample).0.blocks 2 0 (0, 0) ≡ Outcome.returned none (0, 0)
unfolding run run_on_body
after_run = refl
