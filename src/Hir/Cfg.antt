-- ===== src/Hir/Cfg.antt =====
-- The control-flow graph of a body: `successors`, the look-up of a block and the worklist that finds
-- the reachable blocks. stage0/src/middleend/pass/dead_code.rs and validate/cfg.rs have the same text
-- of these functions, and pass/dead_store.rs that of `successors`.
pub mod Reachable
use kore_lang.Base.{
  ℕ, zero, suc, ◌+◌, ◌≡◌, Bool, true, false, Option, none, some, List, [], ◌∷◌, map, ◌==◌,
  if◌then◌else◌, length,
}
use kore_lang.Base.Sets.{contains, insert}
use kore_lang.Hir.{BlockId, HirBlock, HirBody, HirTerminator}

unfoldable pub successors : HirTerminator → List BlockId
successors (HirTerminator.goto target) = target ∷ []
successors (HirTerminator.return _) = []
successors (HirTerminator.switch _ targets otherwise) = otherwise ∷ map (λ t. t.1) targets
successors HirTerminator.unreachable = []

-- `blocks.iter().find(|b| b.id == block_id)`.
unfoldable pub find_block : List HirBlock → BlockId → Option HirBlock
find_block [] i = none
find_block (b ∷ bs) i = if b.id == i then some b else find_block bs i

unfoldable pub found_successors : Option HirBlock → List BlockId
unfolding successors
found_successors none = []
found_successors (some b) = successors b.terminator

unfoldable pub successors_of : List HirBlock → BlockId → List BlockId
unfolding found_successors find_block
successors_of blocks i = found_successors (find_block blocks i)

-- The worklist is a `Vec` used as a stack; its top stands first here.
unfoldable pub push_all : List BlockId → List BlockId → List BlockId
push_all [] worklist = worklist
push_all (s ∷ ss) worklist = push_all ss (s ∷ worklist)

-- The `while let Some(block_id) = worklist.pop()` loop, on fuel.
unfoldable pub visit : List HirBlock → ℕ → List BlockId → List BlockId → List BlockId
unfolding contains insert push_all successors_of
visit blocks zero worklist reachable = reachable
visit blocks (suc fuel) [] reachable = reachable
visit blocks (suc fuel) (i ∷ worklist) reachable = elim (contains reachable i) [
  | true ↦ visit blocks fuel worklist reachable
  | false ↦ visit blocks fuel (push_all (successors_of blocks i) worklist) (insert i reachable)
]

unfoldable pub edges : List HirBlock → ℕ
unfolding successors
edges [] = 0
edges (b ∷ bs) = length (successors b.terminator) + edges bs

-- Each round takes one entry from the worklist, and each edge puts one there at most once.
unfoldable pub reachable_blocks : HirBody → List BlockId
unfolding visit edges
reachable_blocks body = visit body.blocks (suc (edges body.blocks)) (body.entry_block ∷ []) []

-- The walks from `entry`.
pub data Reach (blocks : List HirBlock) (entry : BlockId) : BlockId → Type 0 where
  here : Reach blocks entry entry
  step :
      {u v : BlockId}
      → Reach blocks entry u
      → contains (successors_of blocks u) v ≡ true
      → Reach blocks entry v
