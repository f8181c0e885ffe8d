-- ===== src/Validate/Body/Tests.antt =====
-- One body, checked as a whole.
use kore_lang.Base.{◌≡◌, ◌↔◌, refl, true, none, [], ◌∷◌, length, All}
use kore_lang.Diag.{Span}
use kore_lang.Diag.Sink.{new}
use kore_lang.Hir.{HirTerminator, HirBody, HirPlace, HirRvalue, HirOperand, Const, assign}
use kore_lang.Hir.Ty.{HirType}
use kore_lang.Validate.Cfg.Valid.{IsWellFormed}
use kore_lang.Validate.Local.InRange.{BlockInRange}
use kore_lang.Validate.Types.Valid.{StmtFits}
use kore_lang.Validate.Body.{validate_body, validate_body_iff}

abbrev origin : Span
origin = record { file = 0; lo = 0; hi = 0 }

abbrev sample : HirBody
sample = record {
  blocks =
      record {
        id = 0;
        stmts =
            assign (HirPlace.local 0) (HirRvalue.use_operand (HirOperand.const (Const.bool true)))
              origin
            ∷ [];
        terminator = HirTerminator.return none;
        span = origin;
      }
      ∷ [];
  locals = record { name = none; ty = HirType.bool; span = origin } ∷ [];
  entry_block = 0;
}

sample_run : (validate_body [] sample new).1 ≡ true
unfolding validate_body
sample_run = refl

validate_body_iff_example : ((validate_body [] sample new).1 ≡ true) ↔ (
    IsWellFormed sample
    × All (BlockInRange (length sample.locals)) sample.blocks
    × All (λ b. All (StmtFits sample.locals []) b.stmts) sample.blocks)
validate_body_iff_example = validate_body_iff [] sample new
