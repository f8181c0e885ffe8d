-- ===== src/Validate/Types/Tests.antt =====
-- Bodies whose assignments mix types.
use kore_lang.Base.{
  suc, ltb, ◌≡◌, ◌↔◌, refl, true, false, none, some, List, [], ◌∷◌, All, if◌then◌else◌,
}
use kore_lang.Base.Int.{pos}
use kore_lang.Diag.{Span}
use kore_lang.Diag.Sink.{new}
use kore_lang.Hir.{Const, HirPlace, HirOperand, HirRvalue, HirTerminator, HirLocal, HirBody, assign}
use kore_lang.Hir.Ty.{HirType}
use kore_lang.Validate.Types.{validate_types, infer_place_type, infer_rvalue_type}
use kore_lang.Validate.Types.Infer.{PlaceHas, infer_place_type_iff}
use kore_lang.Validate.Types.Valid.{StmtFits, validate_types_iff}

abbrev origin : Span
origin = record { file = 0; lo = 0; hi = 0 }

abbrev local_of : HirType → HirLocal
local_of t = record { name = none; ty = t; span = origin }

-- An array of pointers to bytes, a byte and a truth value.
abbrev locals : List HirLocal
locals =
    local_of (HirType.array (HirType.ptr (HirType.int 8 false) false) 4)
    ∷ local_of (HirType.int 8 false)
    ∷ local_of HirType.bool
    ∷ []

-- `*(a[7])`.
abbrev element_place : HirPlace
element_place =
    HirPlace.deref (HirPlace.index (HirPlace.local 0) (HirOperand.const (Const.int (pos 7))))

abbrev body_of : HirPlace → HirRvalue → HirBody
body_of lhs rhs = record {
  blocks =
      record {
        id = 0;
        stmts = assign lhs rhs origin ∷ [];
        terminator = HirTerminator.return none;
        span = origin;
      }
      ∷ [];
  locals = locals;
  entry_block = 0;
}

-- A byte takes a constant, which is inferred as 32 bits wide.
abbrev fitting : HirBody
fitting = body_of element_place (HirRvalue.use_operand (HirOperand.const (Const.int (pos 300))))

abbrev mismatched : HirBody
mismatched = body_of (HirPlace.local 2) (HirRvalue.use_operand (HirOperand.place element_place))

fitting_run : validate_types fitting [] new ≡ (new, true)
unfolding validate_types
fitting_run = refl

mismatched_run : (validate_types mismatched [] new).1 ≡ false
unfolding validate_types
mismatched_run = refl

-- The address of the byte, whether it owns or not, is inferred as a pointer that does not own.
ref_run :
    infer_rvalue_type locals [] (HirRvalue.ref (HirPlace.local 1) true)
    ≡ some (HirType.ptr (HirType.int 8 false) false)
unfolding infer_rvalue_type
ref_run = refl

infer_place_type_iff_example :
    (infer_place_type locals [] element_place ≡ some (HirType.int 8 false))
    ↔ PlaceHas locals element_place (HirType.int 8 false)
infer_place_type_iff_example = infer_place_type_iff locals [] element_place (HirType.int 8 false)

validate_types_iff_example :
    (((validate_types mismatched [] new).1 ≡ true)
      ↔ All (λ b. All (StmtFits locals []) b.stmts) mismatched.blocks)
    × ((if (validate_types mismatched [] new).1 then (validate_types mismatched [] new).0 else new)
        ≡ new)
    × ((validate_types mismatched [] new).1
        ≡ ltb (validate_types mismatched [] new).0.err_count (suc new.err_count))
validate_types_iff_example = validate_types_iff mismatched [] new
