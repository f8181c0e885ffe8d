-- ===== src/Validate/Local/Laws.antt =====
-- The answer of the check of locals, and what its walk for uses before a definition can find.
use kore_lang.Base.{
  ℕ, zero, suc, ltb, ◌==◌, ==_iff, ◌≡◌, ◌↔◌, ◌∙◌, refl, ap, Bool, true, false, Option, none, some,
  List, [], ◌∷◌, length, All, arith, Bool-cases, if◌then◌else◌, inl, inr,
}
use kore_lang.Base.Sets.{contains, insert, contains-insert}
use kore_lang.Diag.{Span}
use kore_lang.Diag.Sink.{DiagSink}
use kore_lang.Hir.{
  BlockId, LocalId, HirPlace, HirOperand, HirRvalue, HirStmt, HirTerminator, HirBlock, HirBody,
  assign,
}
use kore_lang.Hir.Cfg.{find_block}
use kore_lang.Validate.Local.{validate_locals}
use kore_lang.Validate.Local.DefUse.{
  get_root_local, check_place_use, check_operand_use, check_operands_use, check_rvalue_use,
  check_stmt_use, check_stmts_use, check_terminator_use, next_blocks, Walk, check_each, check_found,
  check_block_def_use, define_root, define_dest, all_locals, check_def_before_use,
}
use kore_lang.Validate.Local.InRange.{
  PlaceInRange, OperandInRange, RvalueInRange, StmtInRange, TerminatorInRange, BlockInRange,
  blocks_decide,
}

-- Every local below `n` is taken for defined.
abbrev HasAll : ℕ → List LocalId → Type 0
HasAll n defined = (x : LocalId) → ltb x n ≡ true → contains defined x ≡ true

module _ (n : ℕ) where
  root_in_range :
      (p : HirPlace)
      → PlaceInRange n p
      → (x : LocalId) × (get_root_local p ≡ some x) × (ltb x n ≡ true)
  unfolding get_root_local PlaceInRange
  root_in_range (HirPlace.local id) h = (id, refl, h)
  root_in_range (HirPlace.field base i) h = root_in_range base h
  root_in_range (HirPlace.index base i) h = root_in_range base h.0
  root_in_range (HirPlace.deref base) h = root_in_range base h

  HasAll-define_root :
      (o : Option LocalId) (defined : List LocalId)
      → HasAll n defined
      → HasAll n (define_root o defined)
  HasAll-define_root none defined full = full
  HasAll-define_root (some y) defined full =
      λ x k. ground (arith, contains-insert y x defined, full x k)

  HasAll-define_dest :
      (o : Option HirPlace) (defined : List LocalId)
      → HasAll n defined
      → HasAll n (define_dest o defined)
  HasAll-define_dest none defined full = full
  HasAll-define_dest (some p) defined full = HasAll-define_root (get_root_local p) defined full

  module _ (span : Span) (defined : List LocalId) (full : HasAll n defined) where
    place_quiet :
        (p : HirPlace) (sink : DiagSink)
        → PlaceInRange n p
        → check_place_use p defined span sink ≡ sink
    unfolding check_place_use
    place_quiet p sink h = let (x, root, below) = root_in_range p h in ground (arith, full x below)

    operand_quiet :
        (o : HirOperand) (sink : DiagSink)
        → OperandInRange n o
        → check_operand_use o defined span sink ≡ sink
    unfolding check_operand_use PlaceInRange
    operand_quiet (HirOperand.const k) sink h = refl
    operand_quiet (HirOperand.place p) sink h = place_quiet p sink h
    operand_quiet (HirOperand.func_ref f) sink h = refl

    operands_quiet :
        (os : List HirOperand) (sink : DiagSink)
        → All (OperandInRange n) os
        → check_operands_use os defined span sink ≡ sink
    unfolding check_operands_use
    operands_quiet [] sink h = refl
    operands_quiet (o ∷ os) sink h = rw (operand_quiet o sink h.0) (operands_quiet os sink h.1)

    rvalue_quiet :
        (r : HirRvalue) (sink : DiagSink)
        → RvalueInRange n r
        → check_rvalue_use r defined span sink ≡ sink
    unfolding check_rvalue_use
    rvalue_quiet (HirRvalue.use_operand o) sink h = operand_quiet o sink h
    rvalue_quiet (HirRvalue.binary_op op lhs rhs) sink h =
        rw (operand_quiet lhs sink h.0) (operand_quiet rhs sink h.1)
    rvalue_quiet (HirRvalue.unary_op op o) sink h = operand_quiet o sink h
    rvalue_quiet (HirRvalue.ref p owned) sink h = place_quiet p sink h
    rvalue_quiet (HirRvalue.deref o) sink h = operand_quiet o sink h
    rvalue_quiet (HirRvalue.aggregate kind fields) sink h = operands_quiet fields sink h
    rvalue_quiet (HirRvalue.discriminant p) sink h = place_quiet p sink h
    rvalue_quiet (HirRvalue.extract_payload p variant) sink h = place_quiet p sink h
    rvalue_quiet (HirRvalue.array_to_slice o ty len) sink h = operand_quiet o sink h

    terminator_quiet :
        (t : HirTerminator) (sink : DiagSink)
        → TerminatorInRange n t
        → check_terminator_use t defined span sink ≡ sink
    terminator_quiet (HirTerminator.goto target) sink h = refl
    terminator_quiet (HirTerminator.return none) sink h = refl
    terminator_quiet (HirTerminator.return (some o)) sink h = operand_quiet o sink h
    terminator_quiet (HirTerminator.switch discr targets otherwise) sink h =
        operand_quiet discr sink h
    terminator_quiet HirTerminator.unreachable sink h = refl

  stmt_quiet :
      (st : HirStmt) (defined : List LocalId) (sink : DiagSink)
      → HasAll n defined
      → StmtInRange n st
      → HasAll n (check_stmt_use st (defined, sink)).0
        × ((check_stmt_use st (defined, sink)).1 ≡ sink)
  unfolding check_stmt_use
  stmt_quiet (assign lhs rhs span) defined sink full h = (
    HasAll-define_root (get_root_local lhs) defined full,
    rvalue_quiet span defined full rhs sink h.1,
  )
  stmt_quiet (HirStmt.call dest func args span) defined sink full h = (
    HasAll-define_dest dest defined full,
    rw (operand_quiet span defined full func sink h.1.0)
        (operands_quiet span defined full args sink h.1.1),
  )
  stmt_quiet (HirStmt.drop p span) defined sink full h =
      (full, place_quiet span defined full p sink h)

  stmts_quiet :
      (sts : List HirStmt) (acc : List LocalId × DiagSink)
      → HasAll n acc.0
      → All (StmtInRange n) sts
      → HasAll n (check_stmts_use sts acc).0 × ((check_stmts_use sts acc).1 ≡ acc.1)
  unfolding check_stmts_use
  stmts_quiet [] acc full h = (full, refl)
  stmts_quiet (st ∷ sts) acc full h =
      let (full', same) = stmt_quiet st acc.0 acc.1 full h.0 in
      let (full'', same') = stmts_quiet sts (check_stmt_use st acc) full' h.1 in
      (full'', same' ∙ same)

  each_quiet :
      (check : BlockId → Walk → Walk)
      → ((i : BlockId) (w : Walk) → (check i w).1 ≡ w.1)
      → (is : List BlockId) (w : Walk) → (check_each check is w).1 ≡ w.1
  unfolding check_each
  each_quiet check quiet [] w = refl
  each_quiet check quiet (i ∷ is) w = each_quiet check quiet is (check i w) ∙ quiet i w

  find_in_range :
      (bs : List HirBlock) (i : BlockId) (b : HirBlock)
      → All (BlockInRange n) bs
      → find_block bs i ≡ some b
      → BlockInRange n b
  unfolding find_block
  find_in_range [] i b h e = absurd (ground arith)
  find_in_range (a ∷ bs) i b h e = elim (Bool-cases (a.id == i)) [
    | inl same ↦ let eq : a ≡ b = ground arith in rw (← eq) h.0
    | inr other ↦ find_in_range bs i b h.1 (ground arith)
  ]

  found_quiet :
      (check : List LocalId → BlockId → Walk → Walk)
      → ((defined : List LocalId) (i : BlockId) (w : Walk)
          → HasAll n defined
          → (check defined i w).1 ≡ w.1)
      → (o : Option HirBlock) (defined : List LocalId) (visited : List BlockId) (sink : DiagSink)
      → ((b : HirBlock) → o ≡ some b → BlockInRange n b)
      → HasAll n defined
      → (check_found check o defined (visited, sink)).1 ≡ sink
  unfolding check_found
  found_quiet check quiet none defined visited sink h full = refl
  found_quiet check quiet (some b) defined visited sink h full =
      let (full', same) = stmts_quiet b.stmts (defined, sink) full (h b refl).0 in
      let local_defined = (check_stmts_use b.stmts (defined, sink)).0 in
      each_quiet (check local_defined) (λ i w. quiet local_defined i w full')
        (next_blocks b.terminator)
        (
          visited,
          check_terminator_use b.terminator local_defined b.span
              (check_stmts_use b.stmts (defined, sink)).1,
        )
      ∙ (terminator_quiet b.span local_defined full' b.terminator
            (check_stmts_use b.stmts (defined, sink)).1 (h b refl).1
          ∙ same)

  -- For every depth of the recursion: the walk says nothing on a body whose locals are in range.
  walk_quiet :
      (bs : List HirBlock)
      → All (BlockInRange n) bs
      → (fuel : ℕ) (defined : List LocalId) (i : BlockId) (w : Walk) → HasAll n defined
      → (check_block_def_use bs fuel defined i w).1 ≡ w.1
  unfolding check_block_def_use
  walk_quiet bs h zero defined i w full = refl
  walk_quiet bs h (suc fuel) defined i (visited, sink) full =
      let rest =
        found_quiet (check_block_def_use bs fuel) (walk_quiet bs h fuel) (find_block bs i) defined
          (insert i visited) sink (λ b e. find_in_range bs i b h e) full in
      elim (Bool-cases (contains visited i)) [
        | inl old ↦ ground arith
        | inr fresh ↦ rw (fresh, check_block_def_use) rest
      ]

all_locals-HasAll : (n : ℕ) → HasAll n (all_locals n)
unfolding all_locals
all_locals-HasAll zero x k = absurd (ground arith)
all_locals-HasAll (suc n) x k = elim (Bool-cases (n == x)) [
  | inl same ↦ ground (arith, contains-insert n x (all_locals n))
  | inr other ↦ ground (
    arith,
    contains-insert n x (all_locals n),
    all_locals-HasAll n x (ground (arith, ==_iff n x)),
  )
]

quiet-if :
    (r : DiagSink × Bool) (sink : DiagSink)
    → (r.1 ≡ true → r ≡ (sink, true))
    → (if r.1 then r.0 else sink) ≡ sink
quiet-if (s, true) sink h = ap (λ q. q.0) (h refl)
quiet-if (s, false) sink h = refl

-- The check answers `true` exactly if every local that the body mentions has an id below the number of
-- its locals, and then it has reported nothing at all, the walk for uses before a definition included.
pub validate_locals_iff :
    (body : HirBody) (sink : DiagSink)
    → (((validate_locals body sink).1 ≡ true) ↔ All (BlockInRange (length body.locals)) body.blocks)
      × ((if (validate_locals body sink).1 then (validate_locals body sink).0 else sink) ≡ sink)
unfolding validate_locals check_def_before_use
validate_locals_iff body sink =
    let n = length body.locals in
    let (sound, complete) = blocks_decide n body.blocks (sink, true) in
    let quiet : (h : All (BlockInRange n) body.blocks) → validate_locals body sink ≡ (sink, true) =
      λ h. rw (complete h) (
        ap (λ s. (s, true))
          (walk_quiet n body.blocks h (suc (length body.blocks)) (all_locals n) body.entry_block
            ([], sink) (all_locals-HasAll n))) in
    (
      ((λ h. (sound h).1), (λ h. rw (complete h) refl)),
      quiet-if (validate_locals body sink) sink (λ h. quiet (sound h).1),
    )
