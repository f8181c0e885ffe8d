-- ===== src/Pass/ConstFold/Unary.antt =====
-- What a folded unary operation is replaced by.
use kore_lang.Base.{◌+◌, ◌≡◌, ◌≢◌, inl, inr, subst, some, arith, Option-cases, if◌then◌else◌}
use kore_lang.Base.Int.{ℤ, pos, negsuc, pos_part, neg_part, neg_ℤ, eqb_ℤ}
use kore_lang.Hir.{UnOp, neg, bit_not, Const, HirOperand, HirRvalue, use_operand}
use kore_lang.Pass.ConstFold.{checked, extract_const_int, fold_int, try_fold_unary_op}
use kore_lang.Pass.ConstFold.Values.{InI128, checked_range}
use kore_lang.Pass.ConstFold.Laws.{extract_const_int-some}

-- `-a`; 1 where `a` is 0 and 0 elsewhere; and the complement -a - 1.
abbrev pub IsUnaryValue : UnOp → ℤ → ℤ → Type 0
IsUnaryValue neg a v = InI128 v × (pos_part v + pos_part a ≡ neg_part v + neg_part a)
IsUnaryValue UnOp.not a v = (a ≡ pos 0 → v ≡ pos 1) × (a ≢ pos 0 → v ≡ pos 0)
IsUnaryValue bit_not a v = pos_part v + pos_part a + 1 ≡ neg_part v + neg_part a

fold_int-value :
    (op : UnOp) (a : ℤ) (r : HirRvalue)
    → fold_int op a ≡ some r
    → (v : ℤ) × (r ≡ use_operand (HirOperand.const (Const.int v))) × IsUnaryValue op a v
unfolding fold_int
fold_int-value neg a r h = elim (Option-cases (checked (neg_ℤ a))) [
  | inl out ↦ absurd (ground arith)
  | inr (v, good) ↦
      let (same, fits) = checked_range (neg_ℤ a) v good in
      (
        v,
        ground arith,
        (fits, subst (λ w. pos_part w + pos_part a ≡ neg_part w + neg_part a) same (neg_lem a)),
      )
]
  where
    neg_lem : (b : ℤ) → pos_part (neg_ℤ b) + pos_part b ≡ neg_part (neg_ℤ b) + neg_part b
    neg_lem b = ground arith
fold_int-value UnOp.not a r h = (
  (if eqb_ℤ a (pos 0) then pos 1 else pos 0),
  ground arith,
  ((λ e. ground arith), (λ e. ground arith)),
)
fold_int-value bit_not (pos n) r h = (negsuc n, ground arith, omega arith)
fold_int-value bit_not (negsuc n) r h = (pos n, ground arith, omega arith)

-- A unary operation is replaced only if its operand is an integer literal `a`, and then by the literal
-- that is its value: `-a` in the range of an i128, `!a` as 1 or 0, and `~a` as `-a - 1`.
pub try_fold_unary_op_lem :
    (op : UnOp) (operand : HirOperand) (r : HirRvalue)
    → try_fold_unary_op op operand ≡ some r
    → (a v : ℤ) × (operand ≡ HirOperand.const (Const.int a))
      × (r ≡ use_operand (HirOperand.const (Const.int v)))
      × IsUnaryValue op a v
unfolding try_fold_unary_op
try_fold_unary_op_lem op operand r h = elim (Option-cases (extract_const_int operand)) [
  | inl absent ↦ absurd (ground arith)
  | inr (a, lit) ↦
      let (v, same, value) = fold_int-value op a r (ground arith) in
      (a, v, extract_const_int-some operand a lit, same, value)
]
