-- ===== src/Escape/Branch/Join.antt =====
-- What a branch leaves of each name.
use kore_lang.Base.{
  ltb, ◌≡◌, ◌∙◌, refl, ap, Bool, true, false, ◌&&◌, ◌||◌, Option, none, some, List, [], ◌∷◌, String,
  length, All, arith,
}
use kore_lang.Base.Dict.{name_eq}
use kore_lang.Diag.{Span}
use kore_lang.Escape.Context.{
  OwnershipState, live, moved, BindingInfo, EscapeContext, push_scope, pop_scope, lookup, set_moved,
  Snapshot, snapshot_moves, restore_snapshot,
}
use kore_lang.Escape.Context.Lookup.{changed, mark_moved-lookup}
use kore_lang.Escape.Context.Restore.{seen_of, shape, restore_seen, restore_snapshot-shape}
use kore_lang.Diag.Sink.{DiagSink}
use kore_lang.Escape.Branch.{
  Checked, ArmCheck, check_arm, check_arms, mark_if_moved, mark_entries, mark_snaps, check_branch,
}

abbrev pub is_moved_state : OwnershipState → Bool
is_moved_state live = false
is_moved_state (moved site) = true

-- A snapshot has an entry for the name that is moved.
unfoldable pub moved_in : Snapshot → String → Bool
moved_in [] j = false
moved_in ((n, state) ∷ snap) j = (name_eq n j && is_moved_state state) || moved_in snap j

unfoldable pub moved_in_any : List Snapshot → String → Bool
unfolding moved_in
moved_in_any [] j = false
moved_in_any (snap ∷ snaps) j = moved_in snap j || moved_in_any snaps j

abbrev pub moved_if : Bool → Span → Option BindingInfo → Option BindingInfo
moved_if false span o = o
moved_if true span o = changed (set_moved span) o

moved_twice :
    (a b : Bool) (span : Span) (o : Option BindingInfo)
    → moved_if b span (moved_if a span o) ≡ moved_if (a || b) span o
moved_twice a b span none = ground arith
moved_twice a b span (some info) = ground arith

mark_if_moved-lookup :
    (state : OwnershipState) (name j : String) (span : Span) (c : EscapeContext)
    → lookup (mark_if_moved state name span c) j
      ≡ moved_if (name_eq name j && is_moved_state state) span (lookup c j)
mark_if_moved-lookup live name j span c = ground arith
mark_if_moved-lookup (moved site) name j span c = ground (arith, mark_moved-lookup c name j span)

mark_entries-lookup :
    (snap : Snapshot) (j : String) (span : Span) (c : EscapeContext)
    → lookup (mark_entries snap span c) j ≡ moved_if (moved_in snap j) span (lookup c j)
unfolding mark_entries moved_in
mark_entries-lookup [] j span c = refl
mark_entries-lookup ((name, state) ∷ snap) j span c =
    let first = name_eq name j && is_moved_state state in
    mark_entries-lookup snap j span (mark_if_moved state name span c)
    ∙ (ap (moved_if (moved_in snap j) span) (mark_if_moved-lookup state name j span c)
        ∙ moved_twice first (moved_in snap j) span (lookup c j))

mark_snaps-lookup :
    (snaps : List Snapshot) (j : String) (span : Span) (c : EscapeContext)
    → lookup (mark_snaps snaps span c) j ≡ moved_if (moved_in_any snaps j) span (lookup c j)
unfolding mark_snaps moved_in_any
mark_snaps-lookup [] j span c = refl
mark_snaps-lookup (snap ∷ snaps) j span c =
    mark_snaps-lookup snaps j span (mark_entries snap span c)
    ∙ (ap (moved_if (moved_in_any snaps j) span) (mark_entries-lookup snap j span c)
        ∙ moved_twice (moved_in snap j) (moved_in_any snaps j) span (lookup c j))

moved_if-seen :
    (b : Bool) (span : Span) (o p : Option BindingInfo)
    → seen_of o ≡ seen_of p
    → seen_of (moved_if b span o) ≡ seen_of (moved_if b span p)
moved_if-seen false span o p h = h
moved_if-seen true span none none h = refl
moved_if-seen true span none (some q) h = absurd (ground arith)
moved_if-seen true span (some i) none h = absurd (ground arith)
moved_if-seen true span (some i) (some q) h = ground arith

-- The check of an arm, within a scope of its own, leaves the bindings but for ownership states.
abbrev pub KeepsBindings : ArmCheck → Type 0
KeepsBindings check =
    (c : EscapeContext) (sink : DiagSink)
    → ltb 0 (length c.scopes) ≡ true
    → (ltb 0 (length (pop_scope (check (push_scope c, sink)).0).scopes) ≡ true)
      × ((j : String)
          → shape (lookup (pop_scope (check (push_scope c, sink)).0) j) ≡ shape (lookup c j))

module _ (base : Snapshot) where
  check_arms-shape :
      (checks : List ArmCheck) (w : Checked) (j : String)
      → All KeepsBindings checks
      → ltb 0 (length w.0.scopes) ≡ true
      → shape (lookup (check_arms base checks w).0.0 j) ≡ shape (lookup w.0 j)
  unfolding check_arms check_arm
  check_arms-shape [] w j k n = refl
  check_arms-shape (check ∷ checks) (c, sink) j k n =
      let (n', same) = restore_snapshot-shape base c j in
      let (n'', same') = k.0 (restore_snapshot c base) sink (rw n' n) in
      check_arms-shape checks (check_arm base check (c, sink)) j k.1 n'' ∙ (same' j ∙ same)

-- After a branch every name has the binding it had, and the check sees an owner's state as before the
-- branch, but moved at the branch where the snapshot after some arm has a moved owner of that name.
pub check_branch_lem :
    (checks : List ArmCheck) (span : Span) (w : Checked) (j : String)
    → ltb 0 (length w.0.scopes) ≡ true
    → All KeepsBindings checks
    → seen_of (lookup (check_branch checks span w).0 j)
      ≡ seen_of (
          moved_if
            (moved_in_any (check_arms (snapshot_moves w.0) checks w).1 j)
            span
            (lookup w.0 j))
unfolding check_branch
check_branch_lem checks span w j n k =
    let base = snapshot_moves w.0 in
    let (last, snaps) = check_arms base checks w in
    ap seen_of (mark_snaps-lookup snaps j span (restore_snapshot last.0 base))
    ∙ moved_if-seen (moved_in_any snaps j) span (lookup (restore_snapshot last.0 base) j)
        (lookup w.0 j) (restore_seen w.0 last.0 j (check_arms-shape base checks w j k n))
