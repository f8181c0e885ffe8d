-- ===== src/Diag/Sink/Sorted.antt =====
-- The order in which diagnostics leave the sink.
use mathlib.Core.List.{Perm}
use mathlib.Core.List.Perm
use kore_lang.Base.{◌≡◌, inl, inr, true, false, List, [], ◌∷◌, arith, All, Bool-cases}
use kore_lang.Diag.{Diagnostic}
use kore_lang.Diag.Sink.{DiagSink, key_leb, insert_sorted, sort_by_key, finish}

-- Ascending in (file, lo).
abbrev pub IsSorted : List Diagnostic → Type 0
IsSorted [] = Unit
IsSorted (d ∷ ds) = All (λ e. key_leb d e ≡ true) ds × IsSorted ds

key_leb_trans : (a b c : Diagnostic) → key_leb a b ≡ true → key_leb b c ≡ true → key_leb a c ≡ true
unfolding key_leb
key_leb_trans a b c h k = ground arith

key_leb_total : (a b : Diagnostic) → key_leb a b ≡ false → key_leb b a ≡ true
unfolding key_leb
key_leb_total a b h = ground arith

All-trans :
    (a b : Diagnostic) (ds : List Diagnostic)
    → key_leb a b ≡ true
    → All (λ e. key_leb b e ≡ true) ds
    → All (λ e. key_leb a e ≡ true) ds
All-trans a b [] h k = tt
All-trans a b (d ∷ ds) h k = (key_leb_trans a b d h k.0, All-trans a b ds h k.1)

All-insert_sorted :
    (a d : Diagnostic) (ds : List Diagnostic)
    → key_leb a d ≡ true
    → All (λ e. key_leb a e ≡ true) ds
    → All (λ e. key_leb a e ≡ true) (insert_sorted d ds)
unfolding insert_sorted
All-insert_sorted a d [] h k = (h, tt)
All-insert_sorted a d (e ∷ es) h k = elim (Bool-cases (key_leb d e)) [
  | inl before ↦ rw before (h, k)
  | inr after ↦ rw after (k.0, All-insert_sorted a d es h k.1)
]

insert_sorted-IsSorted :
    (d : Diagnostic) (ds : List Diagnostic) → IsSorted ds → IsSorted (insert_sorted d ds)
unfolding insert_sorted
insert_sorted-IsSorted d [] s = (tt, tt)
insert_sorted-IsSorted d (e ∷ es) s = elim (Bool-cases (key_leb d e)) [
  | inl before ↦ rw before ((before, All-trans d e es before s.0), s)
  | inr after ↦
      rw after
        (All-insert_sorted e d es (key_leb_total d e after) s.0, insert_sorted-IsSorted d es s.1)
]

sort_by_key-IsSorted : (ds : List Diagnostic) → IsSorted (sort_by_key ds)
unfolding sort_by_key
sort_by_key-IsSorted [] = tt
sort_by_key-IsSorted (d ∷ ds) = insert_sorted-IsSorted d (sort_by_key ds) (sort_by_key-IsSorted ds)

insert_sorted-perm : (d : Diagnostic) (ds : List Diagnostic) → Perm (insert_sorted d ds) (d ∷ ds)
unfolding insert_sorted
insert_sorted-perm d [] = Perm.refl (d ∷ [])
insert_sorted-perm d (e ∷ es) = elim (Bool-cases (key_leb d e)) [
  | inl before ↦ rw before (Perm.refl (d ∷ e ∷ es))
  | inr after ↦ rw after (Perm.trans (Perm.cons _ (insert_sorted-perm d es)) (Perm.swap d e es))
]

sort_by_key-perm : (ds : List Diagnostic) → Perm (sort_by_key ds) ds
unfolding sort_by_key
sort_by_key-perm [] = Perm.refl []
sort_by_key-perm (d ∷ ds) =
    Perm.trans (insert_sorted-perm d (sort_by_key ds)) (Perm.cons _ (sort_by_key-perm ds))

-- The diagnostics that `finish` hands out are those stored, each as often, in ascending order of
-- (file, start).
pub finish_lem : (s : DiagSink) → IsSorted (finish s) × Perm (finish s) s.diags
unfolding finish
finish_lem s = (sort_by_key-IsSorted s.diags, sort_by_key-perm s.diags)
