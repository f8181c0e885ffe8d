-- ===== src/TypeCheck/Checker/Noted.antt =====
-- What the loop over the arms of a branch has found out after arms of given types.
use kore_lang.Base.{
  ◌≡◌, ◌∙◌, refl, ap, Bool, true, false, not, ◌&&◌, ◌||◌, Option, none, some, List, [], ◌∷◌, any,
  retain, arith, inl, inr, Bool-cases, Option-cases, if◌then◌else◌,
}
use kore_lang.Base.Dict.{is_some}
use kore_lang.Diag.{Span}
use kore_lang.TypeCheck.Types.{Ty, eqb}
use kore_lang.TypeCheck.Rules.{
  ArmTypes, no_arm_types, is_void, is_skipped, note_arm, mixed_arm, or_unknown,
}
use kore_lang.TypeCheck.Forms.{known, common, branch_ty, is_mixed}

pub data Noted : ArmTypes → List Ty → ArmTypes → Type 0 where
  noted : {seen : ArmTypes} → Noted seen [] seen
  note :
      {seen last : ArmTypes} {t : Ty} {tys : List Ty} (span : Span)
      → Noted (note_arm t span seen) tys last
      → Noted seen (t ∷ tys) last

-- The type of all arms so far, and of more of them.
abbrev with_more : Option Ty → List Ty → Option Ty
with_more none [] = none
with_more none (t ∷ tys) = some (common (t ∷ tys))
with_more (some u) tys = some (common (u ∷ tys))

either_unknown : (b : Bool) → (if b then Ty.unknown else Ty.unknown) ≡ Ty.unknown
either_unknown true = refl
either_unknown false = refl

module _ (seen : ArmTypes) (t : Ty) (span : Span) (tys : List Ty) where
  unified_step :
      with_more (note_arm t span seen).unified (known tys)
      ≡ with_more seen.unified (known (t ∷ tys))
  unfolding note_arm retain any
  unified_step = elim (Bool-cases (is_skipped t)) [
    | inl skipped ↦ rw skipped refl
    | inr kept ↦ elim (Option-cases seen.unified) [
      | inl fresh ↦ rw (kept, fresh) refl
      | inr (u, older) ↦ elim (Bool-cases (eqb u t)) [
        | inl same ↦ rw (kept, older, same) refl
        | inr other ↦
            rw (kept, older, other)
              (ap some (either_unknown (any (λ v. not (eqb Ty.unknown v)) (known tys))))
      ]
    ]
  ]

  void_step :
      (is_some (note_arm t span seen).void_arm || any is_void (known tys))
      ≡ (is_some seen.void_arm || any is_void (known (t ∷ tys)))
  unfolding note_arm retain any
  void_step = elim (Bool-cases (is_skipped t)) [
    | inl skipped ↦ rw skipped refl
    | inr kept ↦ elim (Option-cases seen.void_arm) [
      | inl fresh ↦ ground (arith, kept, fresh)
      | inr (u, older) ↦ ground (arith, kept, older)
    ]
  ]

  value_step :
      (is_some (note_arm t span seen).value_arm || any (λ u. not (is_void u)) (known tys))
      ≡ (is_some seen.value_arm || any (λ u. not (is_void u)) (known (t ∷ tys)))
  unfolding note_arm retain any
  value_step = elim (Bool-cases (is_skipped t)) [
    | inl skipped ↦ rw skipped refl
    | inr kept ↦ elim (Option-cases seen.value_arm) [
      | inl fresh ↦ ground (arith, kept, fresh)
      | inr (u, older) ↦ ground (arith, kept, older)
    ]
  ]

record Summary (seen : ArmTypes) (tys : List Ty) (last : ArmTypes) : Type 0 where
  unified : last.unified ≡ with_more seen.unified (known tys)
  void_arm : is_some last.void_arm ≡ (is_some seen.void_arm || any is_void (known tys))
  value_arm :
      is_some last.value_arm ≡ (is_some seen.value_arm || any (λ t. not (is_void t)) (known tys))

summary : {seen last : ArmTypes} {tys : List Ty} → Noted seen tys last → Summary seen tys last
unfolding retain any
summary {seen} noted = record {
  unified = no_more seen.unified;
  void_arm = or_false (is_some seen.void_arm);
  value_arm = or_false (is_some seen.value_arm);
}
  where
    or_false : (b : Bool) → b ≡ (b || false)
    or_false true = refl
    or_false false = refl

    no_more : (o : Option Ty) → o ≡ with_more o []
    no_more none = refl
    no_more (some t) = refl
summary {seen} (note {t = t} {tys} span rest) =
    let ih = summary rest in
    record {
      unified = ih.unified ∙ unified_step seen t span tys;
      void_arm = ih.void_arm ∙ void_step seen t span tys;
      value_arm = ih.value_arm ∙ value_step seen t span tys;
    }

-- The branch has the type of its arms.
pub unified-Noted :
    {last : ArmTypes} {tys : List Ty}
    → Noted no_arm_types tys last
    → or_unknown last.unified ≡ branch_ty tys
unfolding branch_ty
unified-Noted {tys = tys} h = ap or_unknown (summary h).unified ∙ go (known tys)
  where
    go : (ts : List Ty) → or_unknown (with_more none ts) ≡ common ts
    go [] = refl
    go (t ∷ ts) = refl

mixed_parts :
    (pos : Bool) (last : ArmTypes)
    → (pos || not (is_some last.void_arm && is_some last.value_arm))
      ≡ not (is_some (mixed_arm pos last))
unfolding mixed_arm
mixed_parts true last = refl
mixed_parts false last = elim (Option-cases last.void_arm) [
  | inl no_void ↦ rw no_void refl
  | inr (at_void, void) ↦ elim (Option-cases last.value_arm) [
    | inl no_value ↦ rw (void, no_value) refl
    | inr (at_value, value) ↦ rw (void, value) refl
  ]
]

-- A fault is found exactly if the value is used and the arms are mixed.
pub mixed-Noted :
    (pos : Bool) {last : ArmTypes} {tys : List Ty}
    → Noted no_arm_types tys last
    → (pos || not (is_mixed tys)) ≡ not (is_some (mixed_arm pos last))
unfolding is_mixed
mixed-Noted pos {last} h =
    let parts = summary h in rw (← parts.void_arm, ← parts.value_arm) (mixed_parts pos last)
