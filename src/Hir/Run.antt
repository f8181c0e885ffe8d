-- ===== src/Hir/Run.antt =====
-- What a body does, over any meaning of its statements and operands: the reference by which the
-- passes are judged. (The meaning itself is the back end's, LLVM's.)
use kore_lang.Base.{
  ℕ, zero, suc, Option, none, some, List, [], ◌∷◌, ◌==◌, ◌≡◌, refl, ◌⊎◌, inl, inr, arith,
  if◌then◌else◌,
}
use kore_lang.Hir.{BlockId, HirOperand, HirStmt, HirTerminator, HirBlock}
use kore_lang.Hir.Cfg.{find_block}

-- `none` is a trap; `discr` is the value that a switch tests.
pub record Machine : Type 1 where
  pub State : Type 0
  pub exec : HirStmt → State → Option State
  pub discr : HirOperand → State → Option ℕ

pub data Outcome (S : Type 0) : Type 0 where
  returned : Option HirOperand → S → Outcome S
  trapped : Outcome S
  no_block : BlockId → S → Outcome S
  reached_unreachable : S → Outcome S
  out_of_fuel : S → Outcome S

-- The first target whose value fits.
unfoldable pub select : ℕ → List (ℕ × BlockId) → BlockId → BlockId
select v [] otherwise = otherwise
select v ((w, target) ∷ rest) otherwise = if w == v then target else select v rest otherwise

module _ (m : Machine) where
  open m use {State, exec, discr}

  unfoldable pub exec_all : List HirStmt → State → Option State
  exec_all [] s = some s
  exec_all (st ∷ sts) s = elim (exec st s) [ none ↦ none | some s' ↦ exec_all sts s' ]

  -- Where a terminator leads: to a block, or to an end.
  pub data Next : Type 0 where
    jump : BlockId → State → Next
    stop : Outcome State → Next

  unfoldable pub next : HirTerminator → State → Next
  next (HirTerminator.goto target) s = jump target s
  next (HirTerminator.return value) s = stop (returned value s)
  next (HirTerminator.switch operand targets otherwise) s = elim (discr operand s) [
    | none ↦ stop trapped
    | some v ↦ jump (select v targets otherwise) s
  ]
  next HirTerminator.unreachable s = stop (reached_unreachable s)

  unfoldable pub after_stmts : HirTerminator → Option State → Next
  unfolding next
  after_stmts t none = stop trapped
  after_stmts t (some s) = next t s

  unfoldable pub enter : Option HirBlock → BlockId → State → Next
  unfolding exec_all after_stmts
  enter none i s = stop (no_block i s)
  enter (some b) i s = after_stmts b.terminator (exec_all b.stmts s)

  -- `fuel` bounds the number of blocks that are entered.
  unfoldable pub run : List HirBlock → ℕ → BlockId → State → Outcome State
  unfolding enter select find_block
  run blocks zero i s = out_of_fuel s
  run blocks (suc fuel) i s = elim (enter (find_block blocks i) i s) [
    | jump j s' ↦ run blocks fuel j s'
    | stop end ↦ end
  ]

  pub Next-cases :
      (n : Next)
      → ((j : BlockId) × (s : State) × (n ≡ jump j s)) ⊎ ((o : Outcome State) × (n ≡ stop o))
  Next-cases (jump j s) = inl (j, s, refl)
  Next-cases (stop o) = inr (o, refl)

  -- Two bodies whose blocks lead from a state to the same place have the same outcomes. `P` holds of
  -- the blocks that are entered.
  pub run_congr :
      (P : BlockId → Type 0) (bs' bs : List HirBlock)
      → ((i : BlockId) (s : State)
          → P i
          → enter (find_block bs' i) i s ≡ enter (find_block bs i) i s)
      → ((i j : BlockId) (s s' : State) → P i → enter (find_block bs i) i s ≡ jump j s' → P j)
      → (fuel : ℕ) (i : BlockId) (s : State) → P i
      → run bs' fuel i s ≡ run bs fuel i s
  unfolding run
  run_congr P bs' bs same keeps zero i s p = refl
  run_congr P bs' bs same keeps (suc fuel) i s p =
      let e = same i s p in
      elim (Next-cases (enter (find_block bs i) i s)) [
        | inl (j, s', leads) ↦
            ground (arith, run_congr P bs' bs same keeps fuel j s' (keeps i j s s' p leads))
        | inr (o, ends) ↦ ground arith
      ]
