-- ===== src/Validate/Types.antt =====
-- stage0/src/middleend/validate/typecheck.rs: the types of places, operands and right-hand sides, and
-- the check of the assignments.
pub mod Equal
pub mod Infer
pub mod Valid
mod Tests
use kore_lang.Base.{
  ℕ, ◌==◌, Bool, true, false, not, ◌&&◌, ◌||◌, Option, none, some, List, [], ◌∷◌, get_elem?,
  if◌then◌else◌,
}
use kore_lang.Diag.{nowhere, error_diagnostic}
use kore_lang.Diag.Sink.{DiagSink, emit}
use kore_lang.Hir.{
  BinOp, Const, HirPlace, HirOperand, HirRvalue, HirStmt, HirTerminator, HirBlock, HirBody,
  HirLocal, HirUnion, HirVariant, assign,
}
use kore_lang.Hir.Ty.{HirType, HirTypes}

abbrev eqb_bool : Bool → Bool → Bool
eqb_bool true b = b
eqb_bool false b = not b

-- The derived `PartialEq` of `HirType`.
unfoldable mutual
  pub eqb_ty : HirType → HirType → Bool
  eqb_ty HirType.void HirType.void = true
  eqb_ty HirType.never HirType.never = true
  eqb_ty HirType.bool HirType.bool = true
  eqb_ty HirType.str HirType.str = true
  eqb_ty (HirType.int w s) (HirType.int w' s') = w == w' && eqb_bool s s'
  eqb_ty (HirType.float w) (HirType.float w') = w == w'
  eqb_ty (HirType.ptr t o) (HirType.ptr t' o') = eqb_ty t t' && eqb_bool o o'
  eqb_ty (HirType.array t n) (HirType.array t' n') = eqb_ty t t' && n == n'
  eqb_ty (HirType.slice t) (HirType.slice t') = eqb_ty t t'
  eqb_ty (HirType.struct i) (HirType.struct j) = i == j
  eqb_ty (HirType.union i) (HirType.union j) = i == j
  eqb_ty (HirType.err_union t e) (HirType.err_union t' e') = eqb_ty t t' && eqb_ty e e'
  eqb_ty (HirType.fn_ptr ts t) (HirType.fn_ptr ts' t') = eqb_tys ts ts' && eqb_ty t t'
  eqb_ty _ _ = false

  pub eqb_tys : HirTypes → HirTypes → Bool
  eqb_tys HirTypes.nil HirTypes.nil = true
  eqb_tys (HirTypes.cons t ts) (HirTypes.cons t' ts') = eqb_ty t t' && eqb_tys ts ts'
  eqb_tys _ _ = false

-- The arms of `types_compatible` after the first.
abbrev pub convertible : HirType → HirType → Bool
convertible (HirType.int w s) (HirType.int w' s') = true
convertible (HirType.float w) (HirType.float w') = true
convertible expected HirType.never = true
convertible expected actual = false

unfoldable pub types_compatible : HirType → HirType → Bool
unfolding eqb_ty
types_compatible expected actual = eqb_ty expected actual || convertible expected actual

abbrev pub ty_of : Option HirLocal → Option HirType
ty_of none = none
ty_of (some l) = some l.ty

-- The type of an element, and that behind a pointer.
abbrev pub element : Option HirType → Option HirType
element (some (HirType.array elem len)) = some elem
element (some (HirType.ptr to owned)) = some to
element _ = none

abbrev pub target : Option HirType → Option HirType
target (some (HirType.ptr to owned)) = some to
target _ = none

abbrev pub const_type : Const → HirType
const_type Const.void = HirType.void
const_type (Const.bool b) = HirType.bool
const_type (Const.int i) = HirType.int 32 true
const_type (Const.float f) = HirType.float 64
const_type (Const.str s) = HirType.ptr (HirType.int 8 false) false
const_type Const.nil = HirType.ptr HirType.void false

abbrev pub is_comparison : BinOp → Bool
is_comparison BinOp.eq = true
is_comparison BinOp.ne = true
is_comparison BinOp.lt = true
is_comparison BinOp.le = true
is_comparison BinOp.gt = true
is_comparison BinOp.ge = true
is_comparison _ = false

unfoldable pub binop_type : BinOp → Option HirType → Option HirType → Option HirType
unfolding types_compatible
binop_type op none r = none
binop_type op (some l) none = none
binop_type op (some l) (some r) =
    if types_compatible l r then some (if is_comparison op then HirType.bool else l) else none

abbrev pub to_ptr : Option HirType → Option HirType
to_ptr none = none
to_ptr (some t) = some (HirType.ptr t false)

abbrev pub payload_or_void : HirVariant → HirType
payload_or_void v = elim v.payload [ some t ↦ t | none ↦ HirType.void ]

-- The payload of a variant, or the union's own type where it is not found.
abbrev pub payload_of : Option HirVariant → HirType → HirType
payload_of none t = t
payload_of (some v) t = payload_or_void v

abbrev pub variant_of : Option HirUnion → ℕ → Option HirVariant
variant_of none i = none
variant_of (some u) i = get_elem? u.variants i

abbrev pub payload_type : List HirUnion → Option HirType → ℕ → Option HirType
payload_type unions none i = none
payload_type unions (some (HirType.union u)) i =
    some (payload_of (variant_of (get_elem? unions u) i) (HirType.union u))
payload_type unions (some t) i = some t

-- The fields of the checker that its operations read: the locals and the unions.
module _ (locals : List HirLocal) (unions : List HirUnion) where
  -- The type of a field is not looked up.
  unfoldable pub infer_place_type : HirPlace → Option HirType
  infer_place_type (HirPlace.local id) = ty_of (get_elem? locals id)
  infer_place_type (HirPlace.field base i) = none
  infer_place_type (HirPlace.index base i) = element (infer_place_type base)
  infer_place_type (HirPlace.deref base) = target (infer_place_type base)

  unfoldable pub infer_operand_type : HirOperand → Option HirType
  unfolding infer_place_type
  infer_operand_type (HirOperand.place p) = infer_place_type p
  infer_operand_type (HirOperand.const k) = some (const_type k)
  infer_operand_type (HirOperand.func_ref f) = none

  unfoldable pub infer_rvalue_type : HirRvalue → Option HirType
  unfolding infer_operand_type infer_place_type binop_type
  infer_rvalue_type (HirRvalue.use_operand o) = infer_operand_type o
  infer_rvalue_type (HirRvalue.binary_op op lhs rhs) =
      binop_type op (infer_operand_type lhs) (infer_operand_type rhs)
  infer_rvalue_type (HirRvalue.unary_op op o) = infer_operand_type o
  infer_rvalue_type (HirRvalue.ref p owned) = to_ptr (infer_place_type p)
  infer_rvalue_type (HirRvalue.aggregate kind []) = some HirType.void
  infer_rvalue_type (HirRvalue.aggregate kind (o ∷ os)) = infer_operand_type o
  infer_rvalue_type (HirRvalue.deref o) = target (infer_operand_type o)
  infer_rvalue_type (HirRvalue.discriminant p) = some (HirType.int 32 false)
  infer_rvalue_type (HirRvalue.extract_payload p i) = payload_type unions (infer_place_type p) i
  infer_rvalue_type (HirRvalue.array_to_slice o ty len) = some (HirType.slice ty)

  -- Where one of the types is unknown there is no check.
  unfoldable pub fits : Option HirType → Option HirType → Bool
  unfolding types_compatible
  fits none r = true
  fits (some l) none = true
  fits (some l) (some r) = types_compatible l r

  unfoldable pub check_stmt_types : HirStmt → DiagSink × Bool → DiagSink × Bool
  unfolding emit infer_place_type infer_rvalue_type fits
  check_stmt_types (assign lhs rhs span) (sink, ok) =
      if fits (infer_place_type lhs) (infer_rvalue_type rhs)
      then (sink, ok)
      else (emit (error_diagnostic 4004 nowhere) sink, false)
  check_stmt_types st c = c

  unfoldable pub check_stmts_types : List HirStmt → DiagSink × Bool → DiagSink × Bool
  unfolding check_stmt_types
  check_stmts_types [] c = c
  check_stmts_types (st ∷ sts) c = check_stmts_types sts (check_stmt_types st c)

  -- It infers types, and accepts all of them.
  unfoldable pub validate_terminator : HirTerminator → Bool
  validate_terminator t = true

  unfoldable pub check_blocks_types : List HirBlock → DiagSink × Bool → DiagSink × Bool
  unfolding check_stmts_types validate_terminator
  check_blocks_types [] c = c
  check_blocks_types (b ∷ bs) c =
      let (sink, ok) = check_stmts_types b.stmts c in
      check_blocks_types bs (sink, if validate_terminator b.terminator then ok else false)

unfoldable pub validate_types : HirBody → List HirUnion → DiagSink → DiagSink × Bool
unfolding check_blocks_types
validate_types body unions sink = check_blocks_types body.locals unions body.blocks (sink, true)
