-- ===== src/Pass/ConstFold/Use.antt =====
-- What folding leaves is not folded again.
use kore_lang.Base.{◌≡◌, inl, inr, Option, none, some, arith, Option-cases, Bool-cases}
use kore_lang.Base.Int.{ℤ, pos, eqb_ℤ}
use kore_lang.Hir.{BinOp, UnOp, HirRvalue, binary_op, unary_op, neg}
use kore_lang.Pass.ConstFold.{
  checked_add, checked_sub, checked_mul, checked_div, checked_rem, checked_neg, use_int, ◌>>=◌,
  extract_const_int, fold_ints, fold_int, try_fold_rvalue,
}

bind_use : (o : Option ℤ) (r : HirRvalue) → (o >>= use_int) ≡ some r → try_fold_rvalue r ≡ none
unfolding try_fold_rvalue
bind_use none r h = cc
bind_use (some v) r h = ground arith

-- Each rule leaves a plain use of a constant.
fold_ints-use :
    (op : BinOp) (a b : ℤ) (r : HirRvalue) → fold_ints op a b ≡ some r → try_fold_rvalue r ≡ none
unfolding fold_ints try_fold_rvalue
fold_ints-use BinOp.add a b r h = bind_use (checked_add a b) r h
fold_ints-use BinOp.sub a b r h = bind_use (checked_sub a b) r h
fold_ints-use BinOp.mul a b r h = bind_use (checked_mul a b) r h
fold_ints-use BinOp.div a b r h = elim (Bool-cases (eqb_ℤ b (pos 0))) [
  | inl zero ↦ absurd (ground arith)
  | inr nonzero ↦ bind_use (checked_div a b) r (ground arith)
]
fold_ints-use BinOp.rem a b r h = elim (Bool-cases (eqb_ℤ b (pos 0))) [
  | inl zero ↦ absurd (ground arith)
  | inr nonzero ↦ bind_use (checked_rem a b) r (ground arith)
]
fold_ints-use _ a b r h = ground arith

fold_int-use :
    (op : UnOp) (a : ℤ) (r : HirRvalue) → fold_int op a ≡ some r → try_fold_rvalue r ≡ none
unfolding fold_int try_fold_rvalue
fold_int-use neg a r h = bind_use (checked_neg a) r h
fold_int-use _ a r h = ground arith

pub try_fold_rvalue-use :
    (rhs r : HirRvalue) → try_fold_rvalue rhs ≡ some r → try_fold_rvalue r ≡ none
unfolding try_fold_rvalue
try_fold_rvalue-use (binary_op op x y) r h = elim (Option-cases (extract_const_int x)) [
  | inl absent ↦ absurd (ground arith)
  | inr (a, left) ↦ elim (Option-cases (extract_const_int y)) [
    | inl absent ↦ absurd (ground arith)
    | inr (b, right) ↦ fold_ints-use op a b r (ground arith)
  ]
]
try_fold_rvalue-use (unary_op op x) r h = elim (Option-cases (extract_const_int x)) [
  | inl absent ↦ absurd (ground arith)
  | inr (a, lit) ↦ fold_int-use op a r (ground arith)
]
try_fold_rvalue-use _ r h = absurd (ground arith)
