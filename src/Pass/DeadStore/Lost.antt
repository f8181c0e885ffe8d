-- ===== src/Pass/DeadStore/Lost.antt =====
-- A store that only a call, a drop or a store through a place reads is removed.
use kore_lang.Base.{
  ℕ, zero, suc, ltb, length, ==_refl, ◌≡◌, refl, true, false, List, [], ◌∷◌, All, arith, Bool-cases,
  inl, inr,
}
use kore_lang.Base.Sets.{contains}
use kore_lang.Diag.{Span}
use kore_lang.Hir.{LocalId, HirPlace, HirRvalue, HirStmt, HirBlock, HirBody, assign}
use kore_lang.Hir.Cfg.{successors}
use kore_lang.Pass.DeadStore.{
  collect_uses_from_terminator, LivenessInfo, empty_info, info_eq, get, put, initial, union_in,
  transfer, update, round, iterate, liveness_fuel, compute_liveness, live_out_of, keep_stmt, sweep,
  sweep_block, sweep_blocks, run_on_body,
}

-- No statement of the list stores to a local as a whole: calls, drops and stores through a place.
abbrev pub StoresNoLocal : HirStmt → Type 0
StoresNoLocal (assign (HirPlace.local x) rhs span) = ⊥
StoresNoLocal _ = Unit

-- Such statements are kept, and the walk takes no notice of what they read.
sweep-keeps :
    (sts : List HirStmt) (live : List LocalId)
    → All StoresNoLocal sts
    → sweep sts live ≡ (sts, live)
unfolding sweep
sweep-keeps [] live h = refl
sweep-keeps (assign (HirPlace.local x) rhs span ∷ sts) live h = absurd h.0
sweep-keeps (st ∷ sts) live h = ground (arith, sweep-keeps sts live h.1)

-- A block without successors has no live locals behind it, in every set of sets of a one-block body.
abbrev Ends : HirBlock → Type 0
Ends b = successors b.terminator ≡ []

one_update :
    (b : HirBlock) (info : LivenessInfo)
    → Ends b
    → info.live_out ≡ []
    → (new : LivenessInfo) × ((update ((b.id, info) ∷ []) b).0 ≡ (b.id, new) ∷ [])
      × (new.live_out ≡ [])
unfolding update transfer union_in get put
one_update b info e h = elim (Bool-cases (info_eq info (transfer ((b.id, info) ∷ []) b))) [
  | inl same ↦ (info, ground (arith, ==_refl b.id), h)
  | inr differs ↦ (transfer ((b.id, info) ∷ []) b, ground (arith, ==_refl b.id), ground arith)
]

one_iterate :
    (b : HirBlock)
    → Ends b
    → (fuel : ℕ) (info : LivenessInfo) → info.live_out ≡ []
    → live_out_of (get (iterate fuel (b ∷ []) ((b.id, info) ∷ [])).0 b.id) ≡ []
unfolding iterate round get
one_iterate b e zero info h = ground (arith, ==_refl b.id)
one_iterate b e (suc fuel) info h =
    let (new, step, h') = one_update b info e h in
    elim (Bool-cases (update ((b.id, info) ∷ []) b).1) [
      | inl changed ↦ ground (arith, one_iterate b e fuel new h')
      | inr same ↦ ground (arith, ==_refl b.id)
    ]

one_live_out :
    (body : HirBody) (b : HirBlock)
    → body.blocks ≡ b ∷ []
    → Ends b
    → live_out_of (get (compute_liveness body) b.id) ≡ []
unfolding compute_liveness initial put
one_live_out body b one e = rw one (one_iterate b e (liveness_fuel (b ∷ [])) empty_info refl)

suc-not-lt : (n : ℕ) → ltb n (suc n) ≡ true
suc-not-lt n = ground arith

-- In a body of one block without successors, a store to a local which the terminator does not use is
-- removed if only calls, drops and stores through places follow it, whatever those read.
pub run_on_body_loses :
    (body : HirBody) (b : HirBlock) (x : LocalId) (rhs : HirRvalue) (span : Span)
    (rest : List HirStmt)
    → body.blocks ≡ b ∷ []
    → successors b.terminator ≡ []
    → b.stmts ≡ assign (HirPlace.local x) rhs span ∷ rest
    → All StoresNoLocal rest
    → contains (collect_uses_from_terminator b.terminator []) x ≡ false
    → run_on_body body ≡ (record body { blocks = record b { stmts = rest } ∷ [] }, true)
unfolding run_on_body sweep_blocks sweep_block sweep keep_stmt
run_on_body_loses body b x rhs span rest one e code plain unused =
    let live = one_live_out body b one e in
    ground (
      arith,
      live,
      sweep-keeps rest (collect_uses_from_terminator b.terminator []) plain,
      suc-not-lt (length rest),
    )
