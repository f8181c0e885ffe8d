-- ===== src/Escape/Context/Tests.antt =====
-- A moved owner, a shadowed name, and an arm over them.
use kore_lang.Base.{◌≡◌, refl, some, List, [], ◌∷◌}
use kore_lang.Diag.{Span}
use kore_lang.Escape.Context.{
  EscapeContext, moved, own_info, borrow_info, lookup, mark_moved, push_scope, pop_scope, define,
}
use kore_lang.Escape.Context.Arm.{ArmStep, arm}

abbrev site : Span
site = record { file = 0; lo = 7; hi = 8 }

-- `x` owns, and so does `y` of the outer scope, which the inner `y` shadows.
abbrev sample : EscapeContext
sample = record {
  scopes = (("y", borrow_info 1) ∷ []) ∷ (("y", own_info 0) ∷ ("x", own_info 0) ∷ []) ∷ [];
}

abbrev steps : List ArmStep
steps = ArmStep.def "z" (own_info 2) ∷ ArmStep.mark "x" site ∷ ArmStep.mark "z" site ∷ []

moved_run : lookup (arm steps sample) "x" ≡ some (record (own_info 0) { state = moved site })
unfolding lookup push_scope pop_scope define mark_moved
moved_run = refl
