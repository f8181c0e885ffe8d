-- ===== src/Pass/DeadStore.antt =====
-- stage0/src/middleend/pass/dead_store.rs: the removal of stores to locals that are not live.
pub mod Lost
mod Tests
use kore_lang.Base.{
  ℕ, zero, suc, ◌+◌, ◌*◌, Bool, true, false, not, ◌&&◌, ◌||◌, Option, none, some, List, [], ◌∷◌,
  ◌++◌, ltb, length, ◌==◌, if◌then◌else◌,
}
use kore_lang.Base.Sets.{contains, insert, remove, extend, set_eq}
use kore_lang.Hir.{
  BlockId, LocalId, HirPlace, HirOperand, HirRvalue, HirStmt, HirTerminator, HirBlock, HirBody,
  assign,
}
use kore_lang.Hir.Cfg.{successors}

-- Only a place that is a local counts: the base of a field, an index or a dereference does not.
unfoldable pub collect_uses_from_place : HirPlace → List LocalId → List LocalId
unfolding insert contains
collect_uses_from_place (HirPlace.local i) uses = insert i uses
collect_uses_from_place _ uses = uses

unfoldable pub collect_uses_from_operand : HirOperand → List LocalId → List LocalId
unfolding collect_uses_from_place
collect_uses_from_operand (HirOperand.place p) uses = collect_uses_from_place p uses
collect_uses_from_operand _ uses = uses

unfoldable pub collect_uses_from_operands : List HirOperand → List LocalId → List LocalId
unfolding collect_uses_from_operand
collect_uses_from_operands [] uses = uses
collect_uses_from_operands (o ∷ os) uses =
    collect_uses_from_operands os (collect_uses_from_operand o uses)

unfoldable pub collect_uses_from_rvalue : HirRvalue → List LocalId → List LocalId
unfolding collect_uses_from_operands
collect_uses_from_rvalue (HirRvalue.use_operand o) uses = collect_uses_from_operand o uses
collect_uses_from_rvalue (HirRvalue.binary_op op lhs rhs) uses =
    collect_uses_from_operand rhs (collect_uses_from_operand lhs uses)
collect_uses_from_rvalue (HirRvalue.unary_op op o) uses = collect_uses_from_operand o uses
collect_uses_from_rvalue (HirRvalue.ref p owned) uses = collect_uses_from_place p uses
collect_uses_from_rvalue (HirRvalue.deref o) uses = collect_uses_from_operand o uses
collect_uses_from_rvalue (HirRvalue.aggregate kind fields) uses =
    collect_uses_from_operands fields uses
collect_uses_from_rvalue (HirRvalue.discriminant p) uses = collect_uses_from_place p uses
collect_uses_from_rvalue (HirRvalue.extract_payload p variant) uses = collect_uses_from_place p uses
collect_uses_from_rvalue (HirRvalue.array_to_slice o ty len) uses = collect_uses_from_operand o uses

unfoldable pub collect_uses_from_terminator : HirTerminator → List LocalId → List LocalId
unfolding collect_uses_from_operand
collect_uses_from_terminator (HirTerminator.return (some o)) uses = collect_uses_from_operand o uses
collect_uses_from_terminator (HirTerminator.switch discr targets otherwise) uses =
    collect_uses_from_operand discr uses
collect_uses_from_terminator _ uses = uses

-- The loop over `rhs_uses`: a local that is not yet defined is used from outside.
unfoldable pub add_exposed : List LocalId → List LocalId → List LocalId → List LocalId
unfolding insert contains
add_exposed [] defs uses = uses
add_exposed (v ∷ vs) defs uses =
    add_exposed vs defs (if contains defs v then uses else insert v uses)

-- One step of the forward walk, on (uses, defs).
unfoldable pub gen_kill_stmt : HirStmt → List LocalId × List LocalId → List LocalId × List LocalId
unfolding collect_uses_from_rvalue add_exposed insert
gen_kill_stmt (assign (HirPlace.local x) rhs span) (uses, defs) =
    (add_exposed (collect_uses_from_rvalue rhs []) defs uses, insert x defs)
gen_kill_stmt (assign lhs rhs span) (uses, defs) =
    (add_exposed (collect_uses_from_rvalue rhs []) defs uses, defs)
gen_kill_stmt _ acc = acc

unfoldable pub gen_kill_stmts :
    List HirStmt → List LocalId × List LocalId → List LocalId × List LocalId
unfolding gen_kill_stmt
gen_kill_stmts [] acc = acc
gen_kill_stmts (st ∷ sts) acc = gen_kill_stmts sts (gen_kill_stmt st acc)

unfoldable pub compute_gen_kill : HirBlock → List LocalId × List LocalId
unfolding gen_kill_stmts collect_uses_from_terminator extend
compute_gen_kill b =
    let (uses, defs) = gen_kill_stmts b.stmts ([], []) in
    (extend uses (collect_uses_from_terminator b.terminator []), defs)

pub record LivenessInfo : Type 0 where
  pub live_in : List LocalId
  pub live_out : List LocalId

abbrev pub empty_info : LivenessInfo
empty_info = record { live_in = []; live_out = [] }

-- `HashMap<BlockId, LivenessInfo>`, one entry for each id.
abbrev pub LiveSets : Type 0
LiveSets = List (BlockId × LivenessInfo)

unfoldable pub get : LiveSets → BlockId → Option LivenessInfo
get [] i = none
get ((j, info) ∷ rest) i = if j == i then some info else get rest i

unfoldable pub put : LiveSets → BlockId → LivenessInfo → LiveSets
put [] i info = (i, info) ∷ []
put ((j, old) ∷ rest) i info = if j == i then (i, info) ∷ rest else (j, old) ∷ put rest i info

-- Every block starts with empty sets.
unfoldable pub initial : List HirBlock → LiveSets → LiveSets
unfolding put
initial [] sets = sets
initial (b ∷ bs) sets = initial bs (put sets b.id empty_info)

-- The union of the successors' `live_in`.
unfoldable pub union_in : LiveSets → List BlockId → List LocalId → List LocalId
unfolding get extend
union_in sets [] out = out
union_in sets (s ∷ ss) out =
    union_in sets ss (elim (get sets s) [ none ↦ out | some info ↦ extend out info.live_in ])

unfoldable pub remove_all : List LocalId → List LocalId → List LocalId
unfolding remove
remove_all [] s = s
remove_all (x ∷ xs) s = remove_all xs (remove x s)

-- The new sets of a block.
unfoldable pub transfer : LiveSets → HirBlock → LivenessInfo
unfolding union_in remove_all compute_gen_kill successors
transfer sets b =
    let out = union_in sets (successors b.terminator) [] in
    let (uses, defs) = compute_gen_kill b in
    record { live_in = extend (remove_all defs out) uses; live_out = out }

abbrev pub info_eq : LivenessInfo → LivenessInfo → Bool
info_eq a b = set_eq a.live_in b.live_in && set_eq a.live_out b.live_out

-- One block of a round; `get_mut(…).unwrap()` finds an entry, since every block has one.
unfoldable pub update : LiveSets → HirBlock → LiveSets × Bool
unfolding transfer get put set_eq
update sets b =
    let new = transfer sets b in
    elim (get sets b.id) [
      | none ↦ (sets, false)
      | some old ↦ if info_eq old new then (sets, false) else (put sets b.id new, true)
    ]

unfoldable pub round : List HirBlock → LiveSets → LiveSets × Bool
unfolding update
round [] sets = (sets, false)
round (b ∷ bs) sets =
    let (sets', changed) = update sets b in
    let (sets'', changed') = round bs sets' in (sets'', changed || changed')

-- `while changed`, on fuel: the sets, and whether the loop ended by its test.
unfoldable pub iterate : ℕ → List HirBlock → LiveSets → LiveSets × Bool
unfolding round
iterate zero bs sets = (sets, false)
iterate (suc fuel) bs sets =
    let (sets', changed) = round bs sets in
    elim changed [ false ↦ (sets', true) | true ↦ iterate fuel bs sets' ]

-- The reverse walk over the statements of a block: those kept, and the locals live before them.
unfoldable pub keep_stmt : HirStmt → List HirStmt × List LocalId → List HirStmt × List LocalId
unfolding collect_uses_from_rvalue remove contains
keep_stmt (assign (HirPlace.local x) rhs span) (kept, live) = (
  (if contains live x then assign (HirPlace.local x) rhs span ∷ kept else kept),
  collect_uses_from_rvalue rhs (remove x live),
)
keep_stmt st (kept, live) = (st ∷ kept, live)

unfoldable pub sweep : List HirStmt → List LocalId → List HirStmt × List LocalId
unfolding keep_stmt
sweep [] live = ([], live)
sweep (st ∷ sts) live = keep_stmt st (sweep sts live)

abbrev pub live_out_of : Option LivenessInfo → List LocalId
live_out_of none = []
live_out_of (some info) = info.live_out

unfoldable pub sweep_block : LiveSets → HirBlock → HirBlock
unfolding sweep get collect_uses_from_terminator
sweep_block sets b =
    let live = collect_uses_from_terminator b.terminator (live_out_of (get sets b.id)) in
    record b { stmts = (sweep b.stmts live).0 }

unfoldable pub sweep_blocks : LiveSets → List HirBlock → List HirBlock × Bool
unfolding sweep_block
sweep_blocks sets [] = ([], false)
sweep_blocks sets (b ∷ bs) =
    let b' = sweep_block sets b in
    let (bs', changed) = sweep_blocks sets bs in
    (b' ∷ bs', ltb (length b'.stmts) (length b.stmts) || changed)

-- All the locals that some block uses, as often as blocks use them.
unfoldable pub universe : List HirBlock → List LocalId
unfolding compute_gen_kill
universe [] = []
universe (b ∷ bs) = (compute_gen_kill b).0 ++ universe bs

-- Where block ids differ, each round but the last adds a local to one of the two sets of a block.
unfoldable pub liveness_fuel : List HirBlock → ℕ
unfolding universe
liveness_fuel bs = suc (length bs * (2 * length (universe bs)))

unfoldable pub compute_liveness : HirBody → LiveSets
unfolding iterate initial liveness_fuel
compute_liveness body = (iterate (liveness_fuel body.blocks) body.blocks (initial body.blocks [])).0

unfoldable pub run_on_body : HirBody → HirBody × Bool
unfolding compute_liveness sweep_blocks
run_on_body body =
    let (bs, changed) = sweep_blocks (compute_liveness body) body.blocks in
    (record body { blocks = bs }, changed)
