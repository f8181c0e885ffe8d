-- ===== src/Pass/Manager/Tests.antt =====
-- The default pipeline on a module of one function, and the rounds of the manager at it.
use kore_lang.Base.{ℕ, ◌≡◌, none, some, [], ◌∷◌}
use kore_lang.Diag.{Span}
use kore_lang.Hir.{HirTerminator, HirBlock, HirBody, HirModule}
use kore_lang.Hir.Ty.{HirType}
use kore_lang.Pass.Manager.{default_pipeline, run_on_module}
use kore_lang.Pass.Manager.Rounds.{FunctionsRun, run_on_module-FunctionsRun}

abbrev origin : Span
origin = record { file = 0; lo = 0; hi = 0 }

abbrev block : ℕ → HirTerminator → HirBlock
block i t = record { id = i; stmts = []; terminator = t; span = origin }

abbrev body : HirBody
body = record {
  blocks = block 0 (HirTerminator.return none) ∷ block 1 HirTerminator.unreachable ∷ [];
  locals = [];
  entry_block = 0;
}

abbrev sample : HirModule
sample = record {
  functions =
      record {
        name = "main";
        params = [];
        ret_type = HirType.void;
        body = some body;
        span = origin;
      }
      ∷ [];
  structs = [];
  unions = [];
  globals = [];
}

run_on_module-FunctionsRun_example :
    (run_on_module default_pipeline sample
      ≡ record sample { functions = (run_on_module default_pipeline sample).functions })
    × FunctionsRun default_pipeline sample.functions
        (run_on_module default_pipeline sample).functions
run_on_module-FunctionsRun_example = run_on_module-FunctionsRun default_pipeline sample
