-- ===== src/Escape/Checker/Shapes.antt =====
-- What no operation on the context takes away: the scopes, and the kind and depth of each binding.
use kore_lang.Base.{
  suc, ◌≡◌, ◌∙◌, refl, ap, some, List, [], ◌∷◌, String, length, arith, Bool-cases, Option-cases,
  inl, inr,
}
use kore_lang.Base.Dict.{name_eq}
use kore_lang.Diag.{Span}
use kore_lang.Escape.Context.{
  OwnershipState, live, moved, BindingInfo, Bindings, EscapeContext, lookup_scope, lookup_in,
  change_scope, change_in, lookup_mut, set_moved, set_state, mark_moved, Snapshot, restore_snapshot,
}
use kore_lang.Escape.Context.Restore.{shape}
use kore_lang.Escape.Branch.{mark_if_moved, mark_entries, mark_snaps}

-- Scope by scope, every name has the same kind and depth.
abbrev pub SameShapes : List Bindings → List Bindings → Type 0
SameShapes [] [] = Unit
SameShapes [] (t ∷ ts) = ⊥
SameShapes (s ∷ ss) [] = ⊥
SameShapes (s ∷ ss) (t ∷ ts) =
    ((j : String) → shape (lookup_scope t j) ≡ shape (lookup_scope s j)) × SameShapes ss ts

-- The same, but for the innermost scope.
abbrev pub SameBelow : List Bindings → List Bindings → Type 0
SameBelow (s ∷ ss) (t ∷ ts) = SameShapes ss ts
SameBelow _ _ = ⊥

pub SameShapes-refl : (ss : List Bindings) → SameShapes ss ss
SameShapes-refl [] = tt
SameShapes-refl (s ∷ ss) = ((λ j. refl), SameShapes-refl ss)

pub SameShapes-trans :
    (xs bs cs : List Bindings) → SameShapes xs bs → SameShapes bs cs → SameShapes xs cs
SameShapes-trans [] [] cs h k = k
SameShapes-trans [] (b ∷ bs) cs h k = absurd h
SameShapes-trans (a ∷ xs) [] cs h k = absurd h
SameShapes-trans (a ∷ xs) (b ∷ bs) [] h k = absurd k
SameShapes-trans (a ∷ xs) (b ∷ bs) (c ∷ cs) h k =
    ((λ j. k.0 j ∙ h.0 j), SameShapes-trans xs bs cs h.1 k.1)

pub SameShapes-length : (xs bs : List Bindings) → SameShapes xs bs → length bs ≡ length xs
SameShapes-length [] [] h = refl
SameShapes-length [] (b ∷ bs) h = absurd h
SameShapes-length (a ∷ xs) [] h = absurd h
SameShapes-length (a ∷ xs) (b ∷ bs) h = ap suc (SameShapes-length xs bs h.1)

pub SameShapes-lookup :
    (xs bs : List Bindings) (j : String)
    → SameShapes xs bs
    → shape (lookup_in bs j) ≡ shape (lookup_in xs j)
unfolding lookup_in
SameShapes-lookup [] [] j h = refl
SameShapes-lookup [] (b ∷ bs) j h = absurd h
SameShapes-lookup (a ∷ xs) [] j h = absurd h
SameShapes-lookup (a ∷ xs) (b ∷ bs) j h =
    let rest = SameShapes-lookup xs bs j h.1 in
    let here = h.0 j in
    elim (Option-cases (lookup_scope a j)) [
      | inl e ↦ elim (Option-cases (lookup_scope b j)) [
        | inl e' ↦ ground arith
        | inr (i', e') ↦ absurd (ground arith)
      ]
      | inr (i, e) ↦ elim (Option-cases (lookup_scope b j)) [
        | inl e' ↦ absurd (ground arith)
        | inr (i', e') ↦ ground arith
      ]
    ]

module _ (f : BindingInfo → BindingInfo)
    (keeps : (i : BindingInfo) → shape (some (f i)) ≡ shape (some i)) where
  change_scope-shape :
      (s : Bindings) (name : String) (t : Bindings) (j : String)
      → change_scope f s name ≡ some t
      → shape (lookup_scope t j) ≡ shape (lookup_scope s j)
  unfolding change_scope lookup_scope
  change_scope-shape [] name t j h = absurd (ground arith)
  change_scope-shape ((n, info) ∷ s) name t j h = elim (Bool-cases (name_eq n name)) [
    | inl same ↦ let e : (n, f info) ∷ s ≡ t = ground arith in rw (← e) (ground (arith, keeps info))
    | inr other ↦ elim (Option-cases (change_scope f s name)) [
      | inl none_later ↦ absurd (ground arith)
      | inr (t', later) ↦
          let e : (n, info) ∷ t' ≡ t = ground arith in
          rw (← e) (ground (arith, change_scope-shape s name t' j later))
    ]
  ]

  change_in-SameShapes : (ss : List Bindings) (name : String) → SameShapes ss (change_in f ss name)
  unfolding change_in
  change_in-SameShapes [] name = tt
  change_in-SameShapes (s ∷ ss) name = elim (Option-cases (change_scope f s name)) [
    | inl absent ↦ rw (absent, SameShapes) ((λ j. refl), change_in-SameShapes ss name)
    | inr (t, present) ↦
        rw (present, SameShapes) ((λ j. change_scope-shape s name t j present), SameShapes-refl ss)
  ]

pub mark_moved-SameShapes :
    (c : EscapeContext) (name : String) (site : Span)
    → SameShapes c.scopes (mark_moved c name site).scopes
unfolding mark_moved lookup_mut
mark_moved-SameShapes c name site =
    change_in-SameShapes (set_moved site) (λ i. ground arith) c.scopes name

pub restore_snapshot-SameShapes :
    (c : EscapeContext) (snap : Snapshot) → SameShapes c.scopes (restore_snapshot c snap).scopes
unfolding restore_snapshot lookup_mut
restore_snapshot-SameShapes c [] = SameShapes-refl c.scopes
restore_snapshot-SameShapes c ((name, state) ∷ snap) =
    let d = lookup_mut (set_state state) c name in
    SameShapes-trans c.scopes d.scopes (restore_snapshot d snap).scopes
      (change_in-SameShapes (set_state state) (λ i. refl) c.scopes name)
      (restore_snapshot-SameShapes d snap)

mark_if_moved-SameShapes :
    (state : OwnershipState) (name : String) (span : Span) (c : EscapeContext)
    → SameShapes c.scopes (mark_if_moved state name span c).scopes
mark_if_moved-SameShapes live name span c = SameShapes-refl c.scopes
mark_if_moved-SameShapes (moved site) name span c = mark_moved-SameShapes c name span

mark_entries-SameShapes :
    (snap : Snapshot) (span : Span) (c : EscapeContext)
    → SameShapes c.scopes (mark_entries snap span c).scopes
unfolding mark_entries
mark_entries-SameShapes [] span c = SameShapes-refl c.scopes
mark_entries-SameShapes ((name, state) ∷ snap) span c =
    let d = mark_if_moved state name span c in
    SameShapes-trans c.scopes d.scopes (mark_entries snap span d).scopes
      (mark_if_moved-SameShapes state name span c) (mark_entries-SameShapes snap span d)

pub mark_snaps-SameShapes :
    (snaps : List Snapshot) (span : Span) (c : EscapeContext)
    → SameShapes c.scopes (mark_snaps snaps span c).scopes
unfolding mark_snaps
mark_snaps-SameShapes [] span c = SameShapes-refl c.scopes
mark_snaps-SameShapes (snap ∷ snaps) span c =
    let d = mark_entries snap span c in
    SameShapes-trans c.scopes d.scopes (mark_snaps snaps span d).scopes
      (mark_entries-SameShapes snap span c) (mark_snaps-SameShapes snaps span d)
