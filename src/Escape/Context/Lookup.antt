-- ===== src/Escape/Context/Lookup.antt =====
-- What a change of one binding does to every name.
use kore_lang.Base.{
  ◌≡◌, refl, ap, Option, none, some, List, [], ◌∷◌, String, arith, if◌then◌else◌, Bool-cases,
  Option-cases, inl, inr,
}
use kore_lang.Base.Dict.{name_eq, name_eq_iff}
use kore_lang.Diag.{Span}
use kore_lang.Escape.Context.{
  BindingInfo, Bindings, EscapeContext, lookup_scope, lookup_in, lookup, change_scope, change_in,
  lookup_mut, set_moved, mark_moved,
}

abbrev pub changed : (BindingInfo → BindingInfo) → Option BindingInfo → Option BindingInfo
changed f none = none
changed f (some info) = some (f info)

module _ (f : BindingInfo → BindingInfo) where
  change_scope-none :
      (s : Bindings) (name : String) → lookup_scope s name ≡ none → change_scope f s name ≡ none
  unfolding change_scope lookup_scope
  change_scope-none [] name h = refl
  change_scope-none ((n, info) ∷ s) name h = elim (Bool-cases (name_eq n name)) [
    | inl same ↦ absurd (ground arith)
    | inr other ↦ ground (arith, change_scope-none s name (ground arith))
  ]

  change_scope-some :
      (s : Bindings) (name : String) (info : BindingInfo)
      → lookup_scope s name ≡ some info
      → (t : Bindings) × (change_scope f s name ≡ some t)
        × ((j : String)
            → lookup_scope t j ≡ (if name_eq name j then some (f info) else lookup_scope s j))
  unfolding change_scope lookup_scope
  change_scope-some [] name info h = absurd (ground arith)
  change_scope-some ((n, old) ∷ s) name info h = elim (Bool-cases (name_eq n name)) [
    | inl same ↦
        let e : old ≡ info = ground arith in
        (
          (n, f old) ∷ s,
          ground arith,
          λ j. ground (arith, ap f e, name_eq_iff n name, name_eq_iff n j, name_eq_iff name j),
        )
    | inr other ↦
        let (t, e, found) = change_scope-some s name info (ground arith) in
        (
          (n, old) ∷ t,
          ground arith,
          λ j. ground (arith, found j, name_eq_iff n name, name_eq_iff n j, name_eq_iff name j),
        )
  ]

  pub change_in-lookup :
      (ss : List Bindings) (name j : String)
      → lookup_in (change_in f ss name) j
        ≡ (if name_eq name j then changed f (lookup_in ss j) else lookup_in ss j)
  unfolding change_in lookup_in
  change_in-lookup [] name j = ground arith
  change_in-lookup (s ∷ ss) name j = elim (Option-cases (lookup_scope s name)) [
    | inl absent ↦
        let skip = change_scope-none s name absent in
        elim (Bool-cases (name_eq name j)) [
          | inl same ↦
              let absent' : lookup_scope s j ≡ none = rw (← (name_eq_iff name j).0 same) absent in
              ground (arith, skip, absent', change_in-lookup ss name j)
          | inr other ↦ ground (arith, skip, change_in-lookup ss name j)
        ]
    | inr (info, present) ↦
        let (t, e, found) = change_scope-some s name info present in
        elim (Bool-cases (name_eq name j)) [
          | inl same ↦
              let present' : lookup_scope s j ≡ some info =
                rw (← (name_eq_iff name j).0 same) present in
              ground (arith, e, found j, present')
          | inr other ↦ ground (arith, e, found j)
        ]
  ]

-- The binding that a name means is changed, and no other name's.
pub lookup_mut-lookup :
    (f : BindingInfo → BindingInfo) (c : EscapeContext) (name j : String)
    → lookup (lookup_mut f c name) j
      ≡ (if name_eq name j then changed f (lookup c j) else lookup c j)
unfolding lookup_mut lookup
lookup_mut-lookup f c name j = change_in-lookup f c.scopes name j

-- A move marks the binding that the name means, if it owns, and no other binding; no name's binding
-- appears or disappears.
pub mark_moved-lookup :
    (c : EscapeContext) (name j : String) (site : Span)
    → lookup (mark_moved c name site) j
      ≡ (if name_eq name j then changed (set_moved site) (lookup c j) else lookup c j)
unfolding mark_moved
mark_moved-lookup c name j site = lookup_mut-lookup (set_moved site) c name j
