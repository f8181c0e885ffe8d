-- ===== src/Escape/Use/Moves.antt =====
-- Uses after moves.
use kore_lang.Base.{
  ℕ, ltb, ◌≡◌, ◌∙◌, ◌&&◌, refl, ap, Bool, true, false, Option, none, some, List, String, length,
  All, arith, if◌then◌else◌, Bool-cases, inl, inr,
}
use kore_lang.Diag.{Span, at, error_diagnostic}
use kore_lang.Diag.Sink.{DiagSink, emit}
use kore_lang.Escape.Context.{
  OwnershipState, BindingKind, BindingInfo, is_own, lookup, snapshot_moves,
}
use kore_lang.Escape.Context.Restore.{seen_of}
use kore_lang.Escape.Branch.{Checked, ArmCheck, check_arms, check_branch}
use kore_lang.Escape.Branch.Join.{KeepsBindings, moved_if, moved_in_any, check_branch_lem}
use kore_lang.Escape.Use.{moved_at, site_of, report_use, check_use}

-- The check of a use depends on what is seen of the binding only.
abbrev from_seen : Option (BindingKind × (ℕ × Option OwnershipState)) → Option Span
from_seen none = none
from_seen (some (kind, (depth, none))) = none
from_seen (some (kind, (depth, some state))) = site_of state

moved_at-seen : (o : Option BindingInfo) → moved_at o ≡ from_seen (seen_of o)
moved_at-seen none = refl
moved_at-seen (some info) = elim (Bool-cases (is_own info.kind)) [
  | inl owns ↦ ground arith
  | inr other ↦ ground arith
]

abbrev pub is_owner : Option BindingInfo → Bool
is_owner none = false
is_owner (some info) = is_own info.kind

moved_at-moved_if :
    (b : Bool) (here : Span) (o : Option BindingInfo)
    → moved_at (moved_if b here o) ≡ (if b && is_owner o then some here else moved_at o)
moved_at-moved_if false here o = refl
moved_at-moved_if true here none = refl
moved_at-moved_if true here (some info) = ground arith

report-if :
    (b : Bool) (here span : Span) (o : Option Span) (sink : DiagSink)
    → report_use (if b then some here else o) span sink
      ≡ (if b then emit (error_diagnostic 5001 (at span)) sink else report_use o span sink)
report-if true here span o sink = refl
report-if false here span o sink = refl

-- A use of a name after a branch is reported as an error if the snapshot after some arm has a moved
-- owner of the name and the name means an owner; else it is reported exactly as before the branch.
pub check_use-check_branch :
    (checks : List ArmCheck) (here span : Span) (w : Checked) (j : String) (sink : DiagSink)
    → ltb 0 (length w.0.scopes) ≡ true
    → All KeepsBindings checks
    → check_use (check_branch checks here w).0 j span sink ≡ (
        if moved_in_any (check_arms (snapshot_moves w.0) checks w).1 j && is_owner (lookup w.0 j)
        then emit (error_diagnostic 5001 (at span)) sink
        else check_use w.0 j span sink)
unfolding check_use
check_use-check_branch checks here span w j sink n k =
    let after = lookup (check_branch checks here w).0 j in
    let any = moved_in_any (check_arms (snapshot_moves w.0) checks w).1 j in
    let same : moved_at after ≡ moved_at (moved_if any here (lookup w.0 j)) =
      rw (moved_at-seen after, moved_at-seen (moved_if any here (lookup w.0 j)))
        (ap from_seen (check_branch_lem checks here w j n k)) in
    ap (λ o. report_use o span sink) (same ∙ moved_at-moved_if any here (lookup w.0 j))
    ∙ report-if (any && is_owner (lookup w.0 j)) here span (moved_at (lookup w.0 j)) sink
