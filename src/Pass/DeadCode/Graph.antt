-- ===== src/Pass/DeadCode/Graph.antt =====
-- What the pass does to the graph of blocks.
use kore_lang.Base.{
  ℕ, ◌≡◌, ◌↔◌, ◌∙◌, refl, ap, inl, inr, Bool, true, false, List, [], ◌∷◌, arith, length, retain,
  retain-retain, ltb, ◌==◌, ==_iff, any, not, length-retain, retain_congr, Bool-cases, Bool_ext,
}
use kore_lang.Base.Sets.{contains}
use kore_lang.Hir.{BlockId, HirBlock, HirBody}
use kore_lang.Hir.Cfg.{find_block, found_successors, successors_of, Reach, here, step}
use kore_lang.Hir.Cfg.Reachable.{reachable_blocks_iff}
use kore_lang.Pass.DeadCode.{compute_reachable_blocks, run_on_body}

-- A block that is kept is found as before.
find_block-retain :
    (p : BlockId → Bool) (bs : List HirBlock) (i : BlockId)
    → p i ≡ true
    → find_block (retain (λ b. p b.id) bs) i ≡ find_block bs i
unfolding find_block retain
find_block-retain p [] i h = refl
find_block-retain p (b ∷ bs) i h = elim (Bool-cases (b.id == i)) [
  | inl same ↦ let kept : p b.id ≡ true = rw ((==_iff b.id i).0 same) h in ground arith
  | inr other ↦ ground (arith, find_block-retain p bs i h)
]

pub find_block-run_on_body :
    (body : HirBody) (i : BlockId)
    → contains (compute_reachable_blocks body) i ≡ true
    → find_block (run_on_body body).0.blocks i ≡ find_block body.blocks i
unfolding run_on_body
find_block-run_on_body body i h =
    find_block-retain (contains (compute_reachable_blocks body)) body.blocks i h

abbrev pub new_blocks : HirBody → List HirBlock
new_blocks body = (run_on_body body).0.blocks

Reach→contains :
    (body : HirBody) (v : BlockId)
    → Reach body.blocks body.entry_block v
    → contains (compute_reachable_blocks body) v ≡ true
unfolding compute_reachable_blocks
Reach→contains body v = (reachable_blocks_iff body v).1

pub successors-run_on_body :
    (body : HirBody) (u : BlockId)
    → Reach body.blocks body.entry_block u
    → successors_of (new_blocks body) u ≡ successors_of body.blocks u
unfolding successors_of
successors-run_on_body body u w =
    ap found_successors (find_block-run_on_body body u (Reach→contains body u w))

Reach-new :
    (body : HirBody) {v : BlockId}
    → Reach body.blocks body.entry_block v
    → Reach (new_blocks body) body.entry_block v
Reach-new body here = here
Reach-new body (step {u} {v} w edge) =
    step (Reach-new body w) (rw (successors-run_on_body body u w) edge)

Reach-old :
    (body : HirBody) {v : BlockId}
    → Reach (new_blocks body) body.entry_block v
    → Reach body.blocks body.entry_block v
Reach-old body here = here
Reach-old body (step {u} {v} w edge) =
    let w' = Reach-old body w in step w' (rw (successors-run_on_body body u w') at edge)

pub same_reachable :
    (body : HirBody) (v : BlockId)
    → contains (compute_reachable_blocks (run_on_body body).0) v
      ≡ contains (compute_reachable_blocks body) v
unfolding compute_reachable_blocks run_on_body
same_reachable body v =
    let new = reachable_blocks_iff (run_on_body body).0 v in
    let old = reachable_blocks_iff body v in
    Bool_ext _ _ (λ h. old.1 (Reach-old body (new.0 h))) (λ h. new.1 (Reach-new body (old.0 h)))

-- A block is reached in the new body exactly if it is reached in the old one, and it is found there
-- with the same statements and the same terminator.
pub run_on_body-Reach :
    (body : HirBody) (v : BlockId)
    → (Reach (new_blocks body) body.entry_block v ↔ Reach body.blocks body.entry_block v)
      × (Reach body.blocks body.entry_block v
          → find_block (new_blocks body) v ≡ find_block body.blocks v)
run_on_body-Reach body v =
    ((Reach-old body, Reach-new body), λ w. find_block-run_on_body body v (Reach→contains body v w))

new_blocks_twice : (body : HirBody) → new_blocks (run_on_body body).0 ≡ new_blocks body
unfolding run_on_body
new_blocks_twice body =
    retain_congr _ _ (new_blocks body) (λ b. same_reachable body b.id)
    ∙ retain-retain (λ b. contains (compute_reachable_blocks body) b.id) body.blocks

ltb_irrefl : (n : ℕ) → ltb n n ≡ false
ltb_irrefl n = ground arith

with_blocks : HirBody → List HirBlock → HirBody × Bool
with_blocks body bs = (record body { blocks = bs }, ltb (length bs) (length (new_blocks body)))

-- The pass says that it changed the body exactly if some block is reached by no walk, and a second
-- run changes nothing and says so.
pub run_on_body_idem :
    (body : HirBody)
    → ((run_on_body body).1
        ≡ any (λ b. not (contains (compute_reachable_blocks body) b.id)) body.blocks)
      × (run_on_body (run_on_body body).0 ≡ ((run_on_body body).0, false))
unfolding run_on_body with_blocks
run_on_body_idem body = (
  length-retain _ body.blocks,
  ap (with_blocks body) (new_blocks_twice body)
      ∙ ap (λ (b : Bool). ((run_on_body body).0, b)) (ltb_irrefl (length (new_blocks body))),
)
