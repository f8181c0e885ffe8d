-- ===== src/Pass/ConstFold.antt =====
-- stage0/src/middleend/pass/const_fold.rs: folding of operations on two integer literals.
pub mod Laws
pub mod Values
pub mod Unary
pub mod Exact
pub mod Meaning
pub mod Registers
pub mod Idem
mod Use
mod Tests
use kore_lang.Base.{
  ℕ, suc, ◌-◌, ◌^◌, Bool, true, false, not, ◌&&◌, ◌||◌, Option, none, some, List, [], ◌∷◌,
  if◌then◌else◌,
}
use kore_lang.Base.Int.{ℤ, pos, negsuc, ◌+ℤ◌, ◌-ℤ◌, ◌*ℤ◌, neg_ℤ, quot_ℤ, rem_ℤ, ltb_ℤ, leb_ℤ, eqb_ℤ}
use kore_lang.Hir.{
  BinOp, UnOp, Const, HirOperand, HirRvalue, HirStmt, HirBlock, HirBody, binary_op, unary_op,
  use_operand, assign, neg, bit_not,
}

-- `?` on `Option`.
infixl 1 ◌>>=◌
abbrev pub ◌>>=◌ {ℓ κ} : {A : Type ℓ} {B : Type κ} → Option A → (A → Option B) → Option B
none >>= f = none
some a >>= f = f a

abbrev pub i128_min : ℤ
i128_min = negsuc (2 ^ 127 - 1)

abbrev pub i128_max : ℤ
i128_max = pos (2 ^ 127 - 1)

abbrev pub in_i128 : ℤ → Bool
in_i128 v = leb_ℤ i128_min v && leb_ℤ v i128_max

-- The standard library's checked operations on i128, as documented: the exact result, or `none`
-- where it is out of range. (`checked_rem` fails where the division would.)
unfoldable pub checked : ℤ → Option ℤ
checked v = if in_i128 v then some v else none

unfoldable pub checked_add : ℤ → ℤ → Option ℤ
unfolding checked ◌+ℤ◌
checked_add a b = checked (a +ℤ b)

unfoldable pub checked_sub : ℤ → ℤ → Option ℤ
unfolding checked ◌-ℤ◌
checked_sub a b = checked (a -ℤ b)

unfoldable pub checked_mul : ℤ → ℤ → Option ℤ
unfolding checked ◌*ℤ◌
checked_mul a b = checked (a *ℤ b)

unfoldable pub checked_div : ℤ → ℤ → Option ℤ
unfolding checked quot_ℤ
checked_div a b = if eqb_ℤ b (pos 0) then none else checked (quot_ℤ a b)

unfoldable pub checked_rem : ℤ → ℤ → Option ℤ
unfolding checked quot_ℤ rem_ℤ
checked_rem a b = if eqb_ℤ b (pos 0) then none else (do q ← checked (quot_ℤ a b); some (rem_ℤ a b))

unfoldable pub checked_neg : ℤ → Option ℤ
unfolding checked
checked_neg a = checked (neg_ℤ a)

-- `!` on i128.
unfoldable pub complement : ℤ → ℤ
complement (pos n) = negsuc n
complement (negsuc n) = pos n

unfoldable pub extract_const_int : HirOperand → Option ℤ
extract_const_int (HirOperand.const (Const.int v)) = some v
extract_const_int _ = none

abbrev pub use_int : ℤ → Option HirRvalue
use_int v = some (use_operand (HirOperand.const (Const.int v)))

abbrev pub use_bool : Bool → Option HirRvalue
use_bool b = some (use_operand (HirOperand.const (Const.bool b)))

abbrev nonzero : ℤ → Bool
nonzero v = not (eqb_ℤ v (pos 0))

-- The `match` on the operator.
unfoldable pub fold_ints : BinOp → ℤ → ℤ → Option HirRvalue
unfolding checked_add checked_sub checked_mul checked_div checked_rem
fold_ints BinOp.add a b = do v ← checked_add a b; use_int v
fold_ints BinOp.sub a b = do v ← checked_sub a b; use_int v
fold_ints BinOp.mul a b = do v ← checked_mul a b; use_int v
fold_ints BinOp.div a b = if eqb_ℤ b (pos 0) then none else (do v ← checked_div a b; use_int v)
fold_ints BinOp.rem a b = if eqb_ℤ b (pos 0) then none else (do v ← checked_rem a b; use_int v)
fold_ints BinOp.eq a b = use_bool (eqb_ℤ a b)
fold_ints BinOp.ne a b = use_bool (not (eqb_ℤ a b))
fold_ints BinOp.lt a b = use_bool (ltb_ℤ a b)
fold_ints BinOp.le a b = use_bool (leb_ℤ a b)
fold_ints BinOp.gt a b = use_bool (ltb_ℤ b a)
fold_ints BinOp.ge a b = use_bool (leb_ℤ b a)
fold_ints BinOp.logic_and a b = use_bool (nonzero a && nonzero b)
fold_ints BinOp.logic_or a b = use_bool (nonzero a || nonzero b)
fold_ints _ a b = none

unfoldable pub try_fold_binary_op : BinOp → HirOperand → HirOperand → Option HirRvalue
unfolding extract_const_int fold_ints
try_fold_binary_op op lhs rhs = do
  a ← extract_const_int lhs
  b ← extract_const_int rhs
  fold_ints op a b

unfoldable pub fold_int : UnOp → ℤ → Option HirRvalue
unfolding checked_neg complement
fold_int neg a = do v ← checked_neg a; use_int v
fold_int UnOp.not a = use_int (if eqb_ℤ a (pos 0) then pos 1 else pos 0)
fold_int bit_not a = use_int (complement a)

unfoldable pub try_fold_unary_op : UnOp → HirOperand → Option HirRvalue
unfolding extract_const_int fold_int
try_fold_unary_op op operand = do a ← extract_const_int operand; fold_int op a

unfoldable pub try_fold_rvalue : HirRvalue → Option HirRvalue
unfolding try_fold_binary_op try_fold_unary_op
try_fold_rvalue (binary_op op lhs rhs) = try_fold_binary_op op lhs rhs
try_fold_rvalue (unary_op op operand) = try_fold_unary_op op operand
try_fold_rvalue _ = none

-- The body of the inner loop: the statement after it, and whether it changed.
abbrev replaced : HirStmt → Option HirRvalue → HirStmt × Bool
replaced (assign lhs rhs span) (some folded) = (assign lhs folded span, true)
replaced stmt _ = (stmt, false)

abbrev rhs_of : HirStmt → Option HirRvalue
rhs_of (assign lhs rhs span) = some rhs
rhs_of _ = none

unfoldable pub fold_stmt : HirStmt → HirStmt × Bool
unfolding try_fold_rvalue
fold_stmt stmt = replaced stmt (do rhs ← rhs_of stmt; try_fold_rvalue rhs)

unfoldable pub fold_stmts : List HirStmt → List HirStmt × Bool
unfolding fold_stmt
fold_stmts [] = ([], false)
fold_stmts (st ∷ sts) =
    let (st', c) = fold_stmt st in let (sts', c') = fold_stmts sts in (st' ∷ sts', c || c')

unfoldable pub fold_blocks : List HirBlock → List HirBlock × Bool
unfolding fold_stmts
fold_blocks [] = ([], false)
fold_blocks (b ∷ bs) =
    let (sts, c) = fold_stmts b.stmts in
    let (bs', c') = fold_blocks bs in (record b { stmts = sts } ∷ bs', c || c')

unfoldable pub run_on_body : HirBody → HirBody × Bool
unfolding fold_blocks
run_on_body body =
    let (bs, changed) = fold_blocks body.blocks in (record body { blocks = bs }, changed)
