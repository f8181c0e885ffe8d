-- ===== src/Escape/Context/Arm.antt =====
-- Flat arms, of definitions and moves only: test data for the check of branches.
use kore_lang.Base.{
  suc, ltb, ◌≡◌, ◌∙◌, refl, ap, true, Option, none, some, List, [], ◌∷◌, String, length, arith,
  Bool-cases, Option-cases, inl, inr,
}
use kore_lang.Base.Dict.{name_eq}
use kore_lang.Diag.{Span}
use kore_lang.Escape.Context.{
  BindingInfo, Bindings, EscapeContext, push_scope, pop_scope, define, lookup_in, lookup,
  change_scope, change_in, lookup_mut, set_moved, mark_moved,
}
use kore_lang.Escape.Context.Lookup.{changed, change_in-lookup}
use kore_lang.Escape.Context.Restore.{shape}

-- A definition or a move.
pub data ArmStep : Type 0 where
  def : String → BindingInfo → ArmStep
  mark : String → Span → ArmStep

abbrev pub arm_step : ArmStep → EscapeContext → EscapeContext
arm_step (def name info) c = define c name info
arm_step (mark name site) c = mark_moved c name site

abbrev pub arm_steps : List ArmStep → EscapeContext → EscapeContext
arm_steps [] c = c
arm_steps (st ∷ sts) c = arm_steps sts (arm_step st c)

abbrev pub arm : List ArmStep → EscapeContext → EscapeContext
arm steps c = pop_scope (arm_steps steps (push_scope c))

-- Beneath a scope of its own, an arm leaves what it found but for ownership states.
abbrev Above : List Bindings → List Bindings → Type 0
Above under [] = ⊥
Above under (s ∷ ss) =
    (length ss ≡ length under) × ((j : String) → shape (lookup_in ss j) ≡ shape (lookup_in under j))

change_in-length :
    (f : BindingInfo → BindingInfo) (ss : List Bindings) (name : String)
    → length (change_in f ss name) ≡ length ss
unfolding change_in
change_in-length f [] name = refl
change_in-length f (s ∷ ss) name = elim (Option-cases (change_scope f s name)) [
  | inl absent ↦ ground (arith, change_in-length f ss name)
  | inr (t, present) ↦ ground arith
]

shape-set_moved :
    (site : Span) (o : Option BindingInfo) → shape (changed (set_moved site) o) ≡ shape o
shape-set_moved site none = refl
shape-set_moved site (some info) = ground arith

change_in-shape :
    (site : Span) (ss : List Bindings) (name j : String)
    → shape (lookup_in (change_in (set_moved site) ss name) j) ≡ shape (lookup_in ss j)
change_in-shape site ss name j =
    let moved_lookup = change_in-lookup (set_moved site) ss name j in
    elim (Bool-cases (name_eq name j)) [
      | inl same ↦ ap shape (moved_lookup ∙ rw same refl) ∙ shape-set_moved site (lookup_in ss j)
      | inr other ↦ ap shape (moved_lookup ∙ rw other refl)
    ]

Above-arm_step :
    (under : List Bindings) (st : ArmStep) (scopes : List Bindings)
    → Above under scopes
    → Above under (arm_step st (record { scopes = scopes })).scopes
unfolding define mark_moved lookup_mut change_in
Above-arm_step under (def name info) [] h = absurd h
Above-arm_step under (def name info) (s ∷ ss) h = h
Above-arm_step under (mark name site) [] h = absurd h
Above-arm_step under (mark name site) (s ∷ ss) h =
    elim (Option-cases (change_scope (set_moved site) s name)) [
      | inl absent ↦
          rw (absent, Above)
            (
              change_in-length (set_moved site) ss name ∙ h.0,
              λ j. change_in-shape site ss name j ∙ h.1 j,
            )
      | inr (t, present) ↦ rw (present, Above) h
    ]

Above-arm_steps :
    (under : List Bindings) (sts : List ArmStep) (c : EscapeContext)
    → Above under c.scopes
    → Above under (arm_steps sts c).scopes
Above-arm_steps under [] c h = h
Above-arm_steps under (st ∷ sts) c h =
    Above-arm_steps under sts (arm_step st c) (Above-arm_step under st c.scopes h)

pop-Above :
    (under scopes : List Bindings) (j : String)
    → ltb 0 (length under) ≡ true
    → Above under scopes
    → shape (lookup (pop_scope (record { scopes = scopes })) j) ≡ shape (lookup_in under j)
unfolding pop_scope lookup
pop-Above under [] j n h = absurd h
pop-Above under (s ∷ ss) j n h =
    let more : ltb 1 (suc (length ss)) ≡ true = ground (arith, h.0) in rw more (h.1 j)

pop-nonempty :
    (under scopes : List Bindings)
    → ltb 0 (length under) ≡ true
    → Above under scopes
    → ltb 0 (length (pop_scope (record { scopes = scopes })).scopes) ≡ true
unfolding pop_scope
pop-nonempty under [] n h = absurd h
pop-nonempty under (s ∷ ss) n h = ground (arith, h.0)

-- An arm of such steps leaves the bindings but for ownership states.
pub arm_steps-KeepsBindings :
    (steps : List ArmStep) (c : EscapeContext)
    → ltb 0 (length c.scopes) ≡ true
    → (ltb 0 (length (arm steps c).scopes) ≡ true)
      × ((j : String) → shape (lookup (arm steps c) j) ≡ shape (lookup c j))
unfolding push_scope lookup
arm_steps-KeepsBindings steps c n =
    let above = Above-arm_steps c.scopes steps (push_scope c) (refl, λ i. refl) in
    (
      pop-nonempty c.scopes (arm_steps steps (push_scope c)).scopes n above,
      λ j. pop-Above c.scopes (arm_steps steps (push_scope c)).scopes j n above,
    )
