-- ===== src/Escape/Branch.antt =====
-- stage0/src/frontend/escape/checker.rs: the join of the arms of a branch. What the check of an arm's
-- pattern and body does is an argument; Escape/Checker.antt gives it.
pub mod Join
mod Tests
use kore_lang.Base.{List, [], ◌∷◌, String}
use kore_lang.Diag.{Span}
use kore_lang.Diag.Sink.{DiagSink}
use kore_lang.Escape.Context.{
  OwnershipState, live, moved, EscapeContext, push_scope, pop_scope, mark_moved, Snapshot,
  snapshot_moves, restore_snapshot,
}

-- The checker's `ctx` and `sink`.
abbrev pub Checked : Type 0
Checked = EscapeContext × DiagSink

-- `inject_arm_bindings` and `check_expr` of one arm.
abbrev pub ArmCheck : Type 0
ArmCheck = Checked → Checked

-- One arm, from the context that the arm before has left.
unfoldable pub check_arm : Snapshot → ArmCheck → Checked → Checked
unfolding push_scope pop_scope restore_snapshot
check_arm base check (c, sink) =
    let (c', sink') = check (push_scope (restore_snapshot c base), sink) in (pop_scope c', sink')

unfoldable pub check_arms : Snapshot → List ArmCheck → Checked → Checked × List Snapshot
unfolding check_arm snapshot_moves
check_arms base [] w = (w, [])
check_arms base (check ∷ checks) w =
    let after = check_arm base check w in
    let (last, snaps) = check_arms base checks after in (last, snapshot_moves after.0 ∷ snaps)

abbrev pub mark_if_moved : OwnershipState → String → Span → EscapeContext → EscapeContext
mark_if_moved live name span c = c
mark_if_moved (moved site) name span c = mark_moved c name span

unfoldable pub mark_entries : Snapshot → Span → EscapeContext → EscapeContext
unfolding mark_moved
mark_entries [] span c = c
mark_entries ((name, state) ∷ snap) span c =
    mark_entries snap span (mark_if_moved state name span c)

unfoldable pub mark_snaps : List Snapshot → Span → EscapeContext → EscapeContext
unfolding mark_entries
mark_snaps [] span c = c
mark_snaps (snap ∷ snaps) span c = mark_snaps snaps span (mark_entries snap span c)

unfoldable pub check_branch : List ArmCheck → Span → Checked → Checked
unfolding check_arms mark_snaps restore_snapshot snapshot_moves
check_branch checks span w =
    let base = snapshot_moves w.0 in
    let (last, snaps) = check_arms base checks w in
    (mark_snaps snaps span (restore_snapshot last.0 base), last.1)
