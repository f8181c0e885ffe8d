-- ===== src/Hir/Cfg/Reachable.antt =====
-- The worklist finds exactly the blocks that some walk from the entry leads to.
use kore_lang.Base.{
  ℕ, zero, suc, ◌+◌, ◌≤◌, ◌≡◌, subst, ◌↔◌, ◌⊎◌, inl, inr, refl, true, false, ◌||◌, List, [], ◌∷◌,
  arith, length, ==_iff, ==_refl, Bool-cases, if◌then◌else◌,
}
use kore_lang.Base.Sets.{contains, insert, contains-insert, insert-cases}
use kore_lang.Hir.{BlockId, HirBlock, HirBody}
use kore_lang.Hir.Cfg.{
  successors, successors_of, push_all, visit, edges, reachable_blocks, Reach, here, step,
}

contains-push_all :
    (ss wl : List BlockId) (v : BlockId)
    → contains (push_all ss wl) v ≡ (contains ss v || contains wl v)
unfolding contains push_all
contains-push_all [] wl v = refl
contains-push_all (s ∷ ss) wl v = ground (arith, contains-push_all ss (s ∷ wl) v)

length-push_all : (ss wl : List BlockId) → length (push_all ss wl) ≡ length ss + length wl
unfolding push_all
length-push_all [] wl = omega arith
length-push_all (s ∷ ss) wl = omega (arith, length-push_all ss (s ∷ wl))

-- The edges out of blocks that have not been visited.
weight : List HirBlock → List BlockId → ℕ
weight [] r = 0
weight (b ∷ bs) r = (if contains r b.id then 0 else length (successors b.terminator)) + weight bs r

weight-nil : (bs : List HirBlock) → weight bs [] ≡ edges bs
unfolding weight edges contains
weight-nil [] = refl
weight-nil (b ∷ bs) = omega (arith, weight-nil bs)

weight-insert-le :
    (bs : List HirBlock) (i : BlockId) (r : List BlockId) → weight bs (insert i r) ≤ weight bs r
unfolding weight
weight-insert-le [] i r = omega arith
weight-insert-le (b ∷ bs) i r = ground (arith, weight-insert-le bs i r, contains-insert i b.id r)

-- A first visit pays for the edges that it pushes.
weight-insert :
    (bs : List HirBlock) (i : BlockId) (r : List BlockId)
    → contains r i ≡ false
    → length (successors_of bs i) + weight bs (insert i r) ≤ weight bs r
unfolding weight successors_of
weight-insert [] i r h = omega arith
weight-insert (b ∷ bs) i r h =
    ground (
      arith,
      weight-insert bs i r,
      weight-insert-le bs i r,
      contains-insert i b.id r,
      ==_iff b.id i,
    )

module _ (blocks : List HirBlock) (entry : BlockId) where
  record Inv (wl r : List BlockId) : Type 0 where
    sound : (v : BlockId) → contains r v ≡ true → Reach blocks entry v
    waiting : (v : BlockId) → contains wl v ≡ true → Reach blocks entry v
    source : (contains r entry || contains wl entry) ≡ true
    closed :
        (u v : BlockId)
        → contains r u ≡ true
        → contains (successors_of blocks u) v ≡ true
        → (contains r v || contains wl v) ≡ true

  Inv-start : Inv (entry ∷ []) []
  unfolding contains
  Inv-start = record {
    sound = λ v h. absurd (ground arith);
    waiting = λ v h. only v (ground (arith, ==_iff entry v));
    source = ground arith;
    closed = λ u v h k. absurd (ground arith);
  }
    where
      only : (v : BlockId) → entry ≡ v → Reach blocks entry v
      only v e = subst (Reach blocks entry) e here

  Inv-skip : (i : BlockId) (wl r : List BlockId) → contains r i ≡ true → Inv (i ∷ wl) r → Inv wl r
  unfolding contains
  Inv-skip i wl r seen h = record {
    sound = h.sound;
    waiting = λ v k. h.waiting v (ground arith);
    source = ground (arith, h.source, ==_iff i entry);
    closed = λ u v k e. ground (arith, h.closed u v k e, ==_iff i v);
  }

  push-cases :
      (ss wl : List BlockId) (v : BlockId)
      → contains (push_all ss wl) v ≡ true
      → (contains ss v ≡ true) ⊎ (contains wl v ≡ true)
  push-cases ss wl v h = ground (arith, contains-push_all ss wl v)

  Inv-visit :
      (i : BlockId) (wl r : List BlockId)
      → Inv (i ∷ wl) r
      → Inv (push_all (successors_of blocks i) wl) (insert i r)
  unfolding contains
  Inv-visit i wl r h =
      let to_i = h.waiting i (ground (arith, ==_refl i)) in
      record {
        sound = λ v k. elim (insert-cases i v r k) [
          | inl e ↦ subst (Reach blocks entry) e to_i
          | inr old ↦ h.sound v old
        ];
        waiting = λ v k. elim (push-cases (successors_of blocks i) wl v k) [
          | inl edge ↦ step to_i edge
          | inr old ↦ h.waiting v (ground arith)
        ];
        source = ground (
          arith,
          h.source,
          contains-insert i entry r,
          contains-push_all (successors_of blocks i) wl entry,
          ==_iff i entry,
        );
        closed = λ u v k e.
            let new = contains-insert i v r in
            let pushed = contains-push_all (successors_of blocks i) wl v in
            elim (insert-cases i u r k) [
              | inl same ↦ ground (arith, rw (← same) at e, new, pushed)
              | inr old ↦ ground (arith, h.closed u v old e, new, pushed)
            ];
      }

  visit-Inv :
      (fuel : ℕ) (wl r : List BlockId)
      → length wl + weight blocks r ≤ fuel
      → Inv wl r
      → Inv [] (visit blocks fuel wl r)
  unfolding visit
  visit-Inv zero [] r m h = h
  visit-Inv zero (i ∷ wl) r m h = absurd (omega arith)
  visit-Inv (suc fuel) [] r m h = h
  visit-Inv (suc fuel) (i ∷ wl) r m h = elim (Bool-cases (contains r i)) [
    | inl seen ↦ rw (seen, visit) (visit-Inv fuel wl r (omega arith) (Inv-skip i wl r seen h))
    | inr fresh ↦
        rw (fresh, visit)
          (visit-Inv fuel (push_all (successors_of blocks i) wl) (insert i r)
            (omega
              (arith, weight-insert blocks i r fresh, length-push_all (successors_of blocks i) wl))
            (Inv-visit i wl r h))
  ]

  complete :
      (r : List BlockId) → Inv [] r → {v : BlockId} → Reach blocks entry v → contains r v ≡ true
  unfolding contains
  complete r h here = ground (arith, h.source)
  complete r h (step {u} {v} w edge) = ground (arith, h.closed u v (complete r h w) edge)

-- The computed set holds a block exactly if some walk along `successors` leads from the entry to it.
pub reachable_blocks_iff :
    (body : HirBody) (v : BlockId)
    → (contains (reachable_blocks body) v ≡ true) ↔ Reach body.blocks body.entry_block v
unfolding reachable_blocks
reachable_blocks_iff body v =
    let inv =
      visit-Inv body.blocks body.entry_block (suc (edges body.blocks)) (body.entry_block ∷ []) []
        (omega (arith, weight-nil body.blocks)) (Inv-start body.blocks body.entry_block) in
    (inv.sound v, complete body.blocks body.entry_block _ inv)
