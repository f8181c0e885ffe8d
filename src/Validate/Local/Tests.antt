-- ===== src/Validate/Local/Tests.antt =====
-- A body that uses a local before it is set, and one that mentions a local it does not have.
use kore_lang.Base.{◌≡◌, ◌↔◌, refl, true, false, none, [], ◌∷◌, length, All, if◌then◌else◌}
use kore_lang.Diag.{Span}
use kore_lang.Diag.Sink.{new}
use kore_lang.Hir.{HirPlace, HirOperand, HirRvalue, HirTerminator, HirLocal, HirBody, assign}
use kore_lang.Hir.Ty.{HirType}
use kore_lang.Validate.Local.{validate_locals}
use kore_lang.Validate.Local.InRange.{BlockInRange}
use kore_lang.Validate.Local.Laws.{validate_locals_iff}

abbrev origin : Span
origin = record { file = 0; lo = 0; hi = 0 }

abbrev a_local : HirLocal
a_local = record { name = none; ty = HirType.bool; span = origin }

-- Local 0 is set to local 1, which nothing sets.
abbrev sample : HirBody
sample = record {
  blocks =
      record {
        id = 0;
        stmts =
            assign (HirPlace.local 0) (HirRvalue.use_operand (HirOperand.place (HirPlace.local 1)))
              origin
            ∷ [];
        terminator = HirTerminator.return none;
        span = origin;
      }
      ∷ [];
  locals = a_local ∷ a_local ∷ [];
  entry_block = 0;
}

sample_run : validate_locals sample new ≡ (new, true)
unfolding validate_locals
sample_run = refl

one_local_run : (validate_locals (record sample { locals = a_local ∷ [] }) new).1 ≡ false
unfolding validate_locals
one_local_run = refl

validate_locals_iff_example :
    (((validate_locals sample new).1 ≡ true)
      ↔ All (BlockInRange (length sample.locals)) sample.blocks)
    × ((if (validate_locals sample new).1 then (validate_locals sample new).0 else new) ≡ new)
validate_locals_iff_example = validate_locals_iff sample new
