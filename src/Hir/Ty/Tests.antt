-- ===== src/Hir/Ty/Tests.antt =====
-- Sizes of an error union and of an array of structs.
use kore_lang.Base.{◌≡◌, ◌↔◌, refl, true, none, some}
use kore_lang.Hir.Ty.{HirType, size_hint}
use kore_lang.Hir.Ty.Size.{ByValue, size_hint_iff}

fallible_size : size_hint (HirType.err_union (HirType.int 32 true) HirType.str) ≡ some 17
unfolding size_hint
fallible_size = refl

size_hint_iff_example :
    (size_hint (HirType.err_union (HirType.array (HirType.struct 0) 3) HirType.str) ≡ none)
    ↔ ByValue (HirType.err_union (HirType.array (HirType.struct 0) 3) HirType.str)
size_hint_iff_example =
    size_hint_iff (HirType.err_union (HirType.array (HirType.struct 0) 3) HirType.str)
