-- ===== src/Escape/Use/Tests.antt =====
-- A use after a branch that moves.
use kore_lang.Base.{◌≡◌, ◌&&◌, refl, List, [], ◌∷◌, if◌then◌else◌}
use kore_lang.Diag.{Span, at, error_diagnostic}
use kore_lang.Diag.Sink.{new, emit}
use kore_lang.Escape.Context.{EscapeContext, own_info, lookup, snapshot_moves}
use kore_lang.Escape.Context.Arm.{ArmStep, arm_steps, arm_steps-KeepsBindings}
use kore_lang.Escape.Branch.{ArmCheck, check_arms, check_branch}
use kore_lang.Escape.Branch.Join.{moved_in_any}
use kore_lang.Escape.Use.{check_use}
use kore_lang.Escape.Use.Moves.{is_owner, check_use-check_branch}

abbrev site : Span
site = record { file = 0; lo = 7; hi = 8 }

abbrev sample : EscapeContext
sample = record { scopes = (("x", own_info 0) ∷ []) ∷ [] }

abbrev arms : List ArmCheck
arms = (λ (c, sink). (arm_steps (ArmStep.mark "x" site ∷ []) c, sink)) ∷ []

check_use-check_branch_example : check_use (check_branch arms site (sample, new)).0 "x" site new ≡ (
    if moved_in_any (check_arms (snapshot_moves sample) arms (sample, new)).1 "x"
      && is_owner (lookup sample "x")
    then emit (error_diagnostic 5001 (at site)) new
    else check_use sample "x" site new)
check_use-check_branch_example =
    check_use-check_branch arms site site (sample, new) "x" new refl
      (λ c sink. arm_steps-KeepsBindings (ArmStep.mark "x" site ∷ []) c, tt)
