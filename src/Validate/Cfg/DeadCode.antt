-- ===== src/Validate/Cfg/DeadCode.antt =====
-- Dead-code elimination keeps a body that passes the check valid, and leaves nothing to warn of.
use kore_lang.Base.{
  ◌≡◌, ◌∙◌, refl, ap, Bool, true, false, ◌&&◌, some, List, [], ◌∷◌, retain, All, arith, ◌==◌,
  ==_iff, ==_refl, Bool-cases, inl, inr,
}
use kore_lang.Base.Sets.{contains}
use kore_lang.Diag.Sink.{DiagSink}
use kore_lang.Hir.{BlockId, HirBlock, HirBody}
use kore_lang.Hir.Cfg.{successors, find_block, successors_of, here, step}
use kore_lang.Hir.Cfg.Reachable.{reachable_blocks_iff}
use kore_lang.Pass.DeadCode.{compute_reachable_blocks, run_on_body}
use kore_lang.Pass.DeadCode.Graph.{new_blocks, same_reachable}
use kore_lang.Validate.Cfg.{ids, compute_reachable, warn_unreachable, validate_cfg}
use kore_lang.Validate.Cfg.Valid.{Distinct, Closed, IsWellFormed, validate_cfg_iff}

contains-ids-retain :
    (p : BlockId → Bool) (bs : List HirBlock) (i : BlockId)
    → contains (ids (retain (λ b. p b.id) bs)) i ≡ (contains (ids bs) i && p i)
unfolding contains retain
contains-ids-retain p [] i = refl
contains-ids-retain p (b ∷ bs) i = elim (Bool-cases (b.id == i)) [
  | inl same ↦
      let e : b.id ≡ i = (==_iff b.id i).0 same in
      ground (arith, ap p e, contains-ids-retain p bs i)
  | inr other ↦ ground (arith, contains-ids-retain p bs i)
]

Distinct-retain :
    (p : BlockId → Bool) (bs : List HirBlock)
    → Distinct (ids bs)
    → Distinct (ids (retain (λ b. p b.id) bs))
unfolding retain
Distinct-retain p [] h = tt
Distinct-retain p (b ∷ bs) h = elim (Bool-cases (p b.id)) [
  | inl kept ↦
      rw kept (ground (arith, h.0, contains-ids-retain p bs b.id), Distinct-retain p bs h.1)
  | inr dropped ↦ rw dropped (Distinct-retain p bs h.1)
]

abbrev Found : List HirBlock → List HirBlock → Type 0
Found blocks bs = All (λ b. find_block blocks b.id ≡ some b) bs

Found-cons :
    (x : HirBlock) (blocks bs : List HirBlock)
    → contains (ids bs) x.id ≡ false
    → Found blocks bs
    → Found (x ∷ blocks) bs
unfolding find_block contains
Found-cons x blocks [] h f = tt
Found-cons x blocks (b ∷ bs) h f = (
  ground (arith, f.0, ==_iff x.id b.id, ==_iff b.id x.id),
  Found-cons x blocks bs (ground arith) f.1,
)

Found-all : (bs : List HirBlock) → Distinct (ids bs) → Found bs bs
unfolding find_block
Found-all [] d = tt
Found-all (b ∷ bs) d = (ground (arith, ==_refl b.id), Found-cons b bs bs d.0 (Found-all bs d.1))

module _ (body : HirBody) (h : IsWellFormed body) where
  abbrev reached : BlockId → Bool
  reached = contains (compute_reachable_blocks body)

  reached-successor :
      (b : HirBlock) (t : BlockId)
      → find_block body.blocks b.id ≡ some b
      → reached b.id ≡ true
      → contains (successors b.terminator) t ≡ true
      → reached t ≡ true
  unfolding compute_reachable_blocks successors_of
  reached-successor b t found r edge =
      let walk = (reachable_blocks_iff body b.id).0 r in
      (reachable_blocks_iff body t).1 (step walk (rw found edge))

  Closed-retain :
      (bs : List HirBlock)
      → Found body.blocks bs
      → Closed (ids body.blocks) bs
      → Closed (ids (new_blocks body)) (retain (λ b. reached b.id) bs)
  unfolding retain run_on_body
  Closed-retain [] f c = tt
  Closed-retain (b ∷ bs) f c = elim (Bool-cases (reached b.id)) [
    | inl kept ↦ rw kept (
      λ t edge. ground (
        arith,
        contains-ids-retain reached body.blocks t,
        c.0 t edge,
        reached-successor b t f.0 kept edge,
      ),
      Closed-retain bs f.1 c.1,
    )
    | inr dropped ↦ rw dropped (Closed-retain bs f.1 c.1)
  ]

  pub IsWellFormed-new : IsWellFormed (run_on_body body).0
  unfolding run_on_body compute_reachable_blocks
  IsWellFormed-new = record {
    entry = ground (
      arith,
      contains-ids-retain reached body.blocks body.entry_block,
      h.entry,
      (reachable_blocks_iff body body.entry_block).1 here,
    );
    unique = Distinct-retain reached body.blocks h.unique;
    closed = Closed-retain body.blocks (Found-all body.blocks h.unique) h.closed;
  }

warn-none :
    (reachable : List BlockId) (bs : List HirBlock) (sink : DiagSink)
    → All (λ b. contains reachable b.id ≡ true) bs
    → warn_unreachable reachable bs sink ≡ sink
unfolding warn_unreachable
warn-none reachable [] sink h = refl
warn-none reachable (b ∷ bs) sink h = ground (arith, h.0, warn-none reachable bs sink h.1)

All-reached-retain :
    (reachable reachable' : List BlockId) (bs : List HirBlock)
    → ((b : BlockId) → contains reachable' b ≡ contains reachable b)
    → All (λ b. contains reachable' b.id ≡ true) (retain (λ b. contains reachable b.id) bs)
unfolding retain
All-reached-retain reachable reachable' [] same = tt
All-reached-retain reachable reachable' (b ∷ bs) same =
    elim (Bool-cases (contains reachable b.id)) [
      | inl kept ↦ rw kept (same b.id ∙ kept, All-reached-retain reachable reachable' bs same)
      | inr dropped ↦ rw dropped (All-reached-retain reachable reachable' bs same)
    ]

-- After dead-code elimination a body that passed the check passes it again, and the check finds no
-- unreachable block to warn of.
pub validate_cfg-run_on_body :
    (body : HirBody) (sink sink' : DiagSink)
    → (validate_cfg body sink).1 ≡ true
    → ((validate_cfg (run_on_body body).0 sink').1 ≡ true)
      × (warn_unreachable (compute_reachable (run_on_body body).0) (run_on_body body).0.blocks sink'
          ≡ sink')
unfolding compute_reachable compute_reachable_blocks run_on_body
validate_cfg-run_on_body body sink sink' h = (
  (validate_cfg_iff (run_on_body body).0 sink').1
      (IsWellFormed-new body ((validate_cfg_iff body sink).0 h)),
  warn-none (compute_reachable_blocks (run_on_body body).0) (new_blocks body) sink' (
      All-reached-retain (compute_reachable_blocks body)
        (compute_reachable_blocks (run_on_body body).0) body.blocks (same_reachable body)),
)
