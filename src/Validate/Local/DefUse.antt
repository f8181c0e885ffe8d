-- ===== src/Validate/Local/DefUse.antt =====
-- stage0/src/middleend/validate/local.rs: the walk that looks for uses before a definition.
use kore_lang.Base.{
  ℕ, zero, suc, true, false, Option, none, some, List, [], ◌∷◌, ◌++◌, map, length, if◌then◌else◌,
}
use kore_lang.Base.Sets.{contains, insert}
use kore_lang.Diag.{Span, at, warning_diagnostic}
use kore_lang.Diag.Sink.{DiagSink, emit}
use kore_lang.Hir.{
  BlockId, LocalId, HirPlace, HirOperand, HirRvalue, HirStmt, HirTerminator, HirBlock, HirBody,
  assign,
}
use kore_lang.Hir.Cfg.{find_block}

unfoldable pub get_root_local : HirPlace → Option LocalId
get_root_local (HirPlace.local id) = some id
get_root_local (HirPlace.field base i) = get_root_local base
get_root_local (HirPlace.index base i) = get_root_local base
get_root_local (HirPlace.deref base) = get_root_local base

abbrev pub check_root_use : Option LocalId → List LocalId → Span → DiagSink → DiagSink
check_root_use none defined span sink = sink
check_root_use (some x) defined span sink =
    if contains defined x then sink else emit (warning_diagnostic 9011 (at span)) sink

unfoldable pub check_place_use : HirPlace → List LocalId → Span → DiagSink → DiagSink
unfolding get_root_local contains emit
check_place_use p defined span sink = check_root_use (get_root_local p) defined span sink

unfoldable pub check_operand_use : HirOperand → List LocalId → Span → DiagSink → DiagSink
unfolding check_place_use
check_operand_use (HirOperand.place p) defined span sink = check_place_use p defined span sink
check_operand_use _ defined span sink = sink

unfoldable pub check_operands_use : List HirOperand → List LocalId → Span → DiagSink → DiagSink
unfolding check_operand_use
check_operands_use [] defined span sink = sink
check_operands_use (o ∷ os) defined span sink =
    check_operands_use os defined span (check_operand_use o defined span sink)

unfoldable pub check_rvalue_use : HirRvalue → List LocalId → Span → DiagSink → DiagSink
unfolding check_operand_use check_operands_use check_place_use
check_rvalue_use (HirRvalue.use_operand o) defined span sink = check_operand_use o defined span sink
check_rvalue_use (HirRvalue.binary_op op lhs rhs) defined span sink =
    check_operand_use rhs defined span (check_operand_use lhs defined span sink)
check_rvalue_use (HirRvalue.unary_op op o) defined span sink = check_operand_use o defined span sink
check_rvalue_use (HirRvalue.ref p owned) defined span sink = check_place_use p defined span sink
check_rvalue_use (HirRvalue.deref o) defined span sink = check_operand_use o defined span sink
check_rvalue_use (HirRvalue.aggregate kind fields) defined span sink =
    check_operands_use fields defined span sink
check_rvalue_use (HirRvalue.discriminant p) defined span sink = check_place_use p defined span sink
check_rvalue_use (HirRvalue.extract_payload p variant) defined span sink =
    check_place_use p defined span sink
check_rvalue_use (HirRvalue.array_to_slice o ty len) defined span sink =
    check_operand_use o defined span sink

abbrev pub define_root : Option LocalId → List LocalId → List LocalId
define_root none defined = defined
define_root (some x) defined = insert x defined

abbrev pub define_dest : Option HirPlace → List LocalId → List LocalId
define_dest none defined = defined
define_dest (some p) defined = define_root (get_root_local p) defined

-- One statement, on the locals that are defined and the sink.
unfoldable pub check_stmt_use : HirStmt → List LocalId × DiagSink → List LocalId × DiagSink
unfolding check_rvalue_use check_operand_use check_operands_use check_place_use get_root_local
    insert
check_stmt_use (assign lhs rhs span) (defined, sink) =
    (define_root (get_root_local lhs) defined, check_rvalue_use rhs defined span sink)
check_stmt_use (HirStmt.call dest func args span) (defined, sink) = (
  define_dest dest defined,
  check_operands_use args defined span (check_operand_use func defined span sink),
)
check_stmt_use (HirStmt.drop p span) (defined, sink) =
    (defined, check_place_use p defined span sink)

unfoldable pub check_stmts_use : List HirStmt → List LocalId × DiagSink → List LocalId × DiagSink
unfolding check_stmt_use
check_stmts_use [] acc = acc
check_stmts_use (st ∷ sts) acc = check_stmts_use sts (check_stmt_use st acc)

-- The operand that a terminator uses.
abbrev pub check_terminator_use : HirTerminator → List LocalId → Span → DiagSink → DiagSink
check_terminator_use (HirTerminator.return (some o)) defined span sink =
    check_operand_use o defined span sink
check_terminator_use (HirTerminator.switch discr targets otherwise) defined span sink =
    check_operand_use discr defined span sink
check_terminator_use _ defined span sink = sink

-- The blocks that the walk goes on to: the targets, then the default.
abbrev pub next_blocks : HirTerminator → List BlockId
next_blocks (HirTerminator.goto target) = target ∷ []
next_blocks (HirTerminator.switch discr targets otherwise) =
    map (λ t. t.1) targets ++ otherwise ∷ []
next_blocks _ = []

-- The visited blocks and the sink.
abbrev pub Walk : Type 0
Walk = List BlockId × DiagSink

-- The calls for the next blocks, in turn.
unfoldable pub check_each : (BlockId → Walk → Walk) → List BlockId → Walk → Walk
check_each check [] w = w
check_each check (i ∷ is) w = check_each check is (check i w)

-- A block that is found: its statements, its terminator, the next blocks.
unfoldable pub check_found :
    (List LocalId → BlockId → Walk → Walk) → Option HirBlock → List LocalId → Walk → Walk
unfolding check_each check_stmts_use check_operand_use
check_found check none defined w = w
check_found check (some b) defined (visited, sink) =
    let (local_defined, sink') = check_stmts_use b.stmts (defined, sink) in
    check_each (check local_defined) (next_blocks b.terminator)
      (visited, check_terminator_use b.terminator local_defined b.span sink')

-- The recursion on blocks, on fuel, which is its depth: each call but the innermost visits a new block.
unfoldable pub check_block_def_use : List HirBlock → ℕ → List LocalId → BlockId → Walk → Walk
unfolding check_found find_block contains insert
check_block_def_use blocks zero defined i w = w
check_block_def_use blocks (suc fuel) defined i (visited, sink) = elim (contains visited i) [
  | true ↦ (visited, sink)
  | false ↦
      check_found (check_block_def_use blocks fuel) (find_block blocks i) defined
        (insert i visited, sink)
]

-- The ids of the locals: all of them are taken for defined at the start.
unfoldable pub all_locals : ℕ → List LocalId
unfolding insert
all_locals zero = []
all_locals (suc n) = insert n (all_locals n)

unfoldable pub check_def_before_use : HirBody → DiagSink → DiagSink
unfolding check_block_def_use all_locals
check_def_before_use body sink =
    (check_block_def_use body.blocks (suc (length body.blocks)) (all_locals (length body.locals))
      body.entry_block ([], sink)).1
