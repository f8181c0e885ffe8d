-- ===== src/Hir/Ty.antt =====
-- stage0/src/middleend/hir/ty.rs: the types of the HIR.
pub mod Size
mod Tests
use kore_lang.Base.{
  ℕ, ◌+◌, ◌*◌, ◌/◌, ◌%◌, ◌^◌, leb, Bool, true, false, Option, none, some, if◌then◌else◌,
}

mutual
  -- Widths are in bits; structs and unions are named by their index in the module.
  pub data HirType : Type 0 where
    void never bool str : HirType
    int : ℕ → Bool → HirType
    float : ℕ → HirType
    ptr : HirType → Bool → HirType
    array : HirType → ℕ → HirType
    slice : HirType → HirType
    struct union : ℕ → HirType
    err_union : HirType → HirType → HirType
    fn_ptr : HirTypes → HirType → HirType

  pub data HirTypes : Type 0 where
    nil : HirTypes
    cons : HirType → HirTypes → HirTypes

unfoldable pub is_void : HirType → Bool
is_void HirType.void = true
is_void _ = false

unfoldable pub is_never : HirType → Bool
is_never HirType.never = true
is_never _ = false

unfoldable pub is_signed_int : HirType → Bool
is_signed_int (HirType.int width signed) = signed
is_signed_int _ = false

unfoldable pub is_ptr : HirType → Bool
is_ptr (HirType.ptr to owned) = true
is_ptr _ = false

unfoldable pub int_width : HirType → Option ℕ
int_width (HirType.int width signed) = some width
int_width _ = none

unfoldable pub pointee : HirType → Option HirType
pointee (HirType.ptr to owned) = some to
pointee _ = none

abbrev pub larger : ℕ → ℕ → ℕ
larger a b = if leb a b then b else a

abbrev pub array_size : Option ℕ → ℕ → Option ℕ
array_size none len = none
array_size (some s) len = some (s * len % 2 ^ 64)

abbrev pub union_size : Option ℕ → Option ℕ → Option ℕ
union_size (some s) (some e) = some ((1 + larger s e) % 2 ^ 64)
union_size _ _ = none

-- Sizes are in bytes, a `usize` of 64 bits; `none` asks the module.
unfoldable pub size_hint : HirType → Option ℕ
size_hint HirType.void = some 0
size_hint HirType.never = some 0
size_hint HirType.bool = some 1
size_hint HirType.str = some 16
size_hint (HirType.int width signed) = some (width / 8)
size_hint (HirType.float width) = some (width / 8)
size_hint (HirType.ptr to owned) = some 8
size_hint (HirType.array elem len) = array_size (size_hint elem) len
size_hint (HirType.slice elem) = some 16
size_hint (HirType.err_union t e) = union_size (size_hint t) (size_hint e)
size_hint (HirType.struct i) = none
size_hint (HirType.union i) = none
size_hint (HirType.fn_ptr params ret) = some 8
