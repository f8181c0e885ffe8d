-- ===== src/Escape/Branch/Tests.antt =====
-- A branch with an arm that moves an owner, and one over a shadowed owner.
use kore_lang.Base.{◌≡◌, refl, some, List, [], ◌∷◌, All}
use kore_lang.Diag.{Span}
use kore_lang.Diag.Sink
use kore_lang.Escape.Context.{EscapeContext, moved, own_info, lookup}
use kore_lang.Escape.Context.Arm.{ArmStep, arm_steps, arm_steps-KeepsBindings}
use kore_lang.Escape.Branch.{ArmCheck, check_branch}
use kore_lang.Escape.Branch.Join.{KeepsBindings}

abbrev site : Span
site = record { file = 0; lo = 7; hi = 8 }

abbrev here : Span
here = record { file = 0; lo = 1; hi = 9 }

abbrev sample : EscapeContext
sample = record { scopes = (("x", own_info 0) ∷ []) ∷ [] }

-- The first arm moves `x`, the second does nothing.
-- The check of an arm that does such steps.
abbrev steps_check : List ArmStep → ArmCheck
steps_check steps (c, sink) = (arm_steps steps c, sink)

abbrev arms : List ArmCheck
arms = steps_check (ArmStep.mark "x" site ∷ []) ∷ steps_check [] ∷ []

arms-KeepsBindings : All KeepsBindings arms
arms-KeepsBindings = (
  λ c sink. arm_steps-KeepsBindings (ArmStep.mark "x" site ∷ []) c,
  (λ c sink. arm_steps-KeepsBindings [] c, tt),
)

branch_run :
    lookup (check_branch arms here (sample, Sink.new)).0 "x"
    ≡ some (record (own_info 0) { state = moved here })
unfolding lookup check_branch
branch_run = refl

-- The outer `x` was moved, the inner one is live: an arm that moves nothing leaves the inner one moved.
abbrev shadowed : EscapeContext
shadowed = record {
  scopes = (("x", own_info 1) ∷ []) ∷ (("x", record (own_info 0) { state = moved site }) ∷ []) ∷ [];
}

shadowed_run :
    lookup (check_branch (steps_check [] ∷ []) here (shadowed, Sink.new)).0 "x"
    ≡ some (record (own_info 1) { state = moved here })
unfolding lookup check_branch
shadowed_run = refl
