-- ===== src/Validate/Types/Equal.antt =====
-- The derived test on types is equality, and which types are compatible.
use kore_lang.Base.{
  ℕ, ◌==◌, ==_iff, ==_refl, ◌≡◌, ◌↔◌, refl, subst, ap, ap₂, Bool, true, false, ◌&&◌, arith, inl,
  inr, Bool-cases,
}
use kore_lang.Hir.Ty.{HirType, HirTypes}
use kore_lang.Validate.Types.{eqb_ty, eqb_tys, eqb_bool, convertible, types_compatible}

eqb_bool_sound : (a b : Bool) → eqb_bool a b ≡ true → a ≡ b
eqb_bool_sound true b h = ground arith
eqb_bool_sound false b h = ground arith

mutual
  unfolding eqb_ty eqb_tys

  eqb_ty_refl : (t : HirType) → eqb_ty t t ≡ true
  eqb_ty_refl HirType.void = refl
  eqb_ty_refl HirType.never = refl
  eqb_ty_refl HirType.bool = refl
  eqb_ty_refl HirType.str = refl
  eqb_ty_refl (HirType.int w true) = ground (arith, ==_refl w)
  eqb_ty_refl (HirType.int w false) = ground (arith, ==_refl w)
  eqb_ty_refl (HirType.float w) = ==_refl w
  eqb_ty_refl (HirType.ptr t true) = ground (arith, eqb_ty_refl t)
  eqb_ty_refl (HirType.ptr t false) = ground (arith, eqb_ty_refl t)
  eqb_ty_refl (HirType.array t n) = ground (arith, eqb_ty_refl t, ==_refl n)
  eqb_ty_refl (HirType.slice t) = eqb_ty_refl t
  eqb_ty_refl (HirType.struct i) = ==_refl i
  eqb_ty_refl (HirType.union i) = ==_refl i
  eqb_ty_refl (HirType.err_union t e) = ground (arith, eqb_ty_refl t, eqb_ty_refl e)
  eqb_ty_refl (HirType.fn_ptr ts t) = ground (arith, eqb_tys_refl ts, eqb_ty_refl t)

  eqb_tys_refl : (ts : HirTypes) → eqb_tys ts ts ≡ true
  eqb_tys_refl HirTypes.nil = refl
  eqb_tys_refl (HirTypes.cons t ts) = ground (arith, eqb_ty_refl t, eqb_tys_refl ts)

both : (a b : Bool) → (a && b) ≡ true → (a ≡ true) × (b ≡ true)
both a b h = ground arith

-- Of two equal types, one constructor with equal parts.
mutual
  unfolding eqb_ty eqb_tys

  eqb_ty_sound : (t u : HirType) → eqb_ty t u ≡ true → t ≡ u
  eqb_ty_sound HirType.void HirType.void h = refl
  eqb_ty_sound HirType.never HirType.never h = refl
  eqb_ty_sound HirType.bool HirType.bool h = refl
  eqb_ty_sound HirType.str HirType.str h = refl
  eqb_ty_sound (HirType.int w s) (HirType.int w' s') h =
      let (a, b) = both (w == w') (eqb_bool s s') h in
      ap₂ HirType.int ((==_iff w w').0 a) (eqb_bool_sound s s' b)
  eqb_ty_sound (HirType.float w) (HirType.float w') h = ap HirType.float ((==_iff w w').0 h)
  eqb_ty_sound (HirType.ptr t o) (HirType.ptr t' o') h =
      let (a, b) = both (eqb_ty t t') (eqb_bool o o') h in
      ap₂ HirType.ptr (eqb_ty_sound t t' a) (eqb_bool_sound o o' b)
  eqb_ty_sound (HirType.array t n) (HirType.array t' n') h =
      let (a, b) = both (eqb_ty t t') (n == n') h in
      ap₂ HirType.array (eqb_ty_sound t t' a) ((==_iff n n').0 b)
  eqb_ty_sound (HirType.slice t) (HirType.slice t') h = ap HirType.slice (eqb_ty_sound t t' h)
  eqb_ty_sound (HirType.struct i) (HirType.struct j) h = ap HirType.struct ((==_iff i j).0 h)
  eqb_ty_sound (HirType.union i) (HirType.union j) h = ap HirType.union ((==_iff i j).0 h)
  eqb_ty_sound (HirType.err_union t e) (HirType.err_union t' e') h =
      let (a, b) = both (eqb_ty t t') (eqb_ty e e') h in
      ap₂ HirType.err_union (eqb_ty_sound t t' a) (eqb_ty_sound e e' b)
  eqb_ty_sound (HirType.fn_ptr ts t) (HirType.fn_ptr ts' t') h =
      let (a, b) = both (eqb_tys ts ts') (eqb_ty t t') h in
      ap₂ HirType.fn_ptr (eqb_tys_sound ts ts' a) (eqb_ty_sound t t' b)
  eqb_ty_sound t u h = absurd (ground arith)

  eqb_tys_sound : (ts us : HirTypes) → eqb_tys ts us ≡ true → ts ≡ us
  eqb_tys_sound HirTypes.nil HirTypes.nil h = refl
  eqb_tys_sound (HirTypes.cons t ts) (HirTypes.cons u us) h =
      let (a, b) = both (eqb_ty t u) (eqb_tys ts us) h in
      ap₂ HirTypes.cons (eqb_ty_sound t u a) (eqb_tys_sound ts us b)
  eqb_tys_sound HirTypes.nil (HirTypes.cons u us) h = absurd (ground arith)
  eqb_tys_sound (HirTypes.cons t ts) HirTypes.nil h = absurd (ground arith)

-- The pairs of types that an assignment may have.
pub data Compatible : HirType → HirType → Type 0 where
  same : (t : HirType) → Compatible t t
  ints : (w w' : ℕ) (s s' : Bool) → Compatible (HirType.int w s) (HirType.int w' s')
  floats : (w w' : ℕ) → Compatible (HirType.float w) (HirType.float w')
  from_never : (t : HirType) → Compatible t HirType.never

convertible-Compatible : (t u : HirType) → convertible t u ≡ true → Compatible t u
convertible-Compatible (HirType.int w s) (HirType.int w' s') h = ints w w' s s'
convertible-Compatible (HirType.float w) (HirType.float w') h = floats w w'
convertible-Compatible t HirType.never h = from_never t
convertible-Compatible t u h = absurd (ground arith)

never_converts : (t : HirType) → convertible t HirType.never ≡ true
never_converts HirType.void = refl
never_converts t = refl

from_never_test : (t : HirType) → types_compatible t HirType.never ≡ true
unfolding types_compatible
from_never_test t = elim (Bool-cases (eqb_ty t HirType.never)) [
  | inl equal ↦ ground arith
  | inr other ↦ ground (arith, never_converts t)
]

Compatible-types_compatible : (t u : HirType) → Compatible t u → types_compatible t u ≡ true
unfolding types_compatible
Compatible-types_compatible t u (same v) = ground (arith, eqb_ty_refl v)
Compatible-types_compatible t u (ints w w' s s') = ground arith
Compatible-types_compatible t u (floats w w') = ground arith
Compatible-types_compatible t u (from_never v) = from_never_test v

-- The test accepts equal types, two integer types, two float types and `never` as a value's type, and
-- no others.
pub types_compatible_iff : (t u : HirType) → (types_compatible t u ≡ true) ↔ Compatible t u
unfolding types_compatible
types_compatible_iff t u = (
  (λ h. elim (Bool-cases (eqb_ty t u)) [
    | inl equal ↦ subst (Compatible t) (eqb_ty_sound t u equal) (same t)
    | inr other ↦ convertible-Compatible t u (ground arith)
  ]),
  Compatible-types_compatible t u,
)
