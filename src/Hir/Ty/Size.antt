-- ===== src/Hir/Ty/Size.antt =====
-- For which types the size is known without the module.
use kore_lang.Base.{ℕ, ◌≡◌, ◌↔◌, refl, Option, none, some, arith, Option-cases, inl, inr}
use kore_lang.Hir.Ty.{HirType, array_size, union_size, size_hint}

-- A struct or a union stands in the type by value: not behind a pointer, a slice or a function.
pub data ByValue : HirType → Type 0 where
  a_struct : (i : ℕ) → ByValue (HirType.struct i)
  a_union : (i : ℕ) → ByValue (HirType.union i)
  in_array : (t : HirType) (len : ℕ) → ByValue t → ByValue (HirType.array t len)
  in_ok : (t e : HirType) → ByValue t → ByValue (HirType.err_union t e)
  in_err : (t e : HirType) → ByValue e → ByValue (HirType.err_union t e)

array-none : (o : Option ℕ) (len : ℕ) → array_size o len ≡ none → o ≡ none
array-none none len h = refl
array-none (some s) len h = absurd (ground arith)

union-none-right : (o : Option ℕ) → union_size o none ≡ none
union-none-right none = refl
union-none-right (some s) = refl

size_hint-ByValue : (t : HirType) → ByValue t → size_hint t ≡ none
unfolding size_hint
size_hint-ByValue t (a_struct i) = refl
size_hint-ByValue t (a_union i) = refl
size_hint-ByValue t (in_array u len b) = rw (size_hint-ByValue u b) refl
size_hint-ByValue t (in_ok u e b) = rw (size_hint-ByValue u b) refl
size_hint-ByValue t (in_err u e b) = rw (size_hint-ByValue e b) (union-none-right (size_hint u))

ByValue-size_hint : (t : HirType) → size_hint t ≡ none → ByValue t
unfolding size_hint
ByValue-size_hint HirType.void h = absurd (ground arith)
ByValue-size_hint HirType.never h = absurd (ground arith)
ByValue-size_hint HirType.bool h = absurd (ground arith)
ByValue-size_hint HirType.str h = absurd (ground arith)
ByValue-size_hint (HirType.int width signed) h = absurd (ground arith)
ByValue-size_hint (HirType.float width) h = absurd (ground arith)
ByValue-size_hint (HirType.ptr to owned) h = absurd (ground arith)
ByValue-size_hint (HirType.array elem len) h =
    in_array elem len (ByValue-size_hint elem (array-none (size_hint elem) len h))
ByValue-size_hint (HirType.slice elem) h = absurd (ground arith)
ByValue-size_hint (HirType.err_union t e) h = elim (Option-cases (size_hint t)) [
  | inl absent ↦ in_ok t e (ByValue-size_hint t absent)
  | inr (s, known) ↦ elim (Option-cases (size_hint e)) [
    | inl absent' ↦ in_err t e (ByValue-size_hint e absent')
    | inr (s', known') ↦ absurd (ground arith)
  ]
]
ByValue-size_hint (HirType.struct i) h = a_struct i
ByValue-size_hint (HirType.union i) h = a_union i
ByValue-size_hint (HirType.fn_ptr params ret) h = absurd (ground arith)

-- The size of a type is unknown without the module exactly if a struct or a union stands in it by
-- value.
pub size_hint_iff : (t : HirType) → (size_hint t ≡ none) ↔ ByValue t
size_hint_iff t = (ByValue-size_hint t, size_hint-ByValue t)
