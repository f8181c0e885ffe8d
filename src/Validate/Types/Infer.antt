-- ===== src/Validate/Types/Infer.antt =====
-- The places that have a type.
use kore_lang.Base.{ℕ, Bool, ◌≡◌, ◌↔◌, refl, subst, Option, none, some, List, get_elem?, arith}
use kore_lang.Hir.{HirPlace, HirOperand, HirLocal, HirUnion}
use kore_lang.Hir.Ty.{HirType}
use kore_lang.Validate.Types.{infer_place_type, ty_of, element, target}

-- A local has its declared type, an element that of its array or pointer, and a dereference that behind
-- the pointer.
pub data PlaceHas (locals : List HirLocal) : HirPlace → HirType → Type 0 where
  of_local :
      (id : ℕ) (l : HirLocal)
      → get_elem? locals id ≡ some l
      → PlaceHas locals (HirPlace.local id) l.ty
  of_array :
      (base : HirPlace) (i : HirOperand) (elem : HirType) (len : ℕ)
      → PlaceHas locals base (HirType.array elem len)
      → PlaceHas locals (HirPlace.index base i) elem
  of_pointer :
      (base : HirPlace) (i : HirOperand) (to : HirType) (owned : Bool)
      → PlaceHas locals base (HirType.ptr to owned)
      → PlaceHas locals (HirPlace.index base i) to
  of_deref :
      (base : HirPlace) (to : HirType) (owned : Bool)
      → PlaceHas locals base (HirType.ptr to owned)
      → PlaceHas locals (HirPlace.deref base) to

module _ (locals : List HirLocal) (unions : List HirUnion) where
  local_has :
      (id : ℕ) (o : Option HirLocal) (t : HirType)
      → get_elem? locals id ≡ o
      → ty_of o ≡ some t
      → PlaceHas locals (HirPlace.local id) t
  local_has id none t e h = absurd (ground arith)
  local_has id (some l) t e h =
      let eq : l.ty ≡ t = ground arith in
      subst (PlaceHas locals (HirPlace.local id)) eq (of_local id l e)

  element_has :
      (base : HirPlace) (i : HirOperand) (o : Option HirType) (t : HirType)
      → ((u : HirType) → o ≡ some u → PlaceHas locals base u)
      → element o ≡ some t
      → PlaceHas locals (HirPlace.index base i) t
  element_has base i (some (HirType.array elem len)) t k h =
      let e : elem ≡ t = ground arith in
      subst (PlaceHas locals (HirPlace.index base i)) e (of_array base i elem len (k _ refl))
  element_has base i (some (HirType.ptr to owned)) t k h =
      let e : to ≡ t = ground arith in
      subst (PlaceHas locals (HirPlace.index base i)) e (of_pointer base i to owned (k _ refl))
  element_has base i o t k h = absurd (ground arith)

  target_has :
      (base : HirPlace) (o : Option HirType) (t : HirType)
      → ((u : HirType) → o ≡ some u → PlaceHas locals base u)
      → target o ≡ some t
      → PlaceHas locals (HirPlace.deref base) t
  target_has base (some (HirType.ptr to owned)) t k h =
      let e : to ≡ t = ground arith in
      subst (PlaceHas locals (HirPlace.deref base)) e (of_deref base to owned (k _ refl))
  target_has base o t k h = absurd (ground arith)

  infer-PlaceHas :
      (p : HirPlace) (t : HirType) → infer_place_type locals unions p ≡ some t → PlaceHas locals p t
  unfolding infer_place_type
  infer-PlaceHas (HirPlace.local id) t h = local_has id (get_elem? locals id) t refl h
  infer-PlaceHas (HirPlace.field base i) t h = absurd (ground arith)
  infer-PlaceHas (HirPlace.index base i) t h =
      element_has base i (infer_place_type locals unions base) t (infer-PlaceHas base) h
  infer-PlaceHas (HirPlace.deref base) t h =
      target_has base (infer_place_type locals unions base) t (infer-PlaceHas base) h

  PlaceHas-infer :
      (p : HirPlace) (t : HirType) → PlaceHas locals p t → infer_place_type locals unions p ≡ some t
  unfolding infer_place_type
  PlaceHas-infer p t (of_local id l e) = rw e refl
  PlaceHas-infer p t (of_array base i elem len b) = rw (PlaceHas-infer base _ b) refl
  PlaceHas-infer p t (of_pointer base i to owned b) = rw (PlaceHas-infer base _ b) refl
  PlaceHas-infer p t (of_deref base to owned b) = rw (PlaceHas-infer base _ b) refl

  -- The type that is inferred for a place is the one that its declaration gives it, and none is inferred
  -- where it gives none, as for the fields of structs.
  pub infer_place_type_iff :
      (p : HirPlace) (t : HirType)
      → (infer_place_type locals unions p ≡ some t) ↔ PlaceHas locals p t
  infer_place_type_iff p t = (infer-PlaceHas p t, PlaceHas-infer p t)
