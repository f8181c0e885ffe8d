-- ===== src/Validate/Cfg/Valid.antt =====
-- What the answer of the check means.
use kore_lang.Base.{
  ℕ, suc, ◌+◌, ◌≤◌, ◌≡◌, ◌↔◌, refl, sym, ap, true, false, ◌&&◌, List, [], ◌∷◌, length, any, All,
  arith, ◌==◌, ==_iff, Bool-cases, inl, inr, if◌then◌else◌,
}
use kore_lang.Base.Sets.{contains, insert, extend, contains-extend, subset, subset-contains}
use kore_lang.Diag.{Span, nowhere, error_diagnostic}
use kore_lang.Diag.Sink.{DiagSink, emit}
use kore_lang.Hir.{BlockId, HirBlock, HirBody}
use kore_lang.Hir.Cfg.{successors}
use kore_lang.Validate.Cfg.{
  ids, check_targets, check_blocks, check_rest, validate_cfg, validate_returns,
}

-- No id stands twice.
abbrev pub Distinct : List ℕ → Type 0
Distinct [] = Unit
Distinct (x ∷ xs) = (contains xs x ≡ false) × Distinct xs

length-extend-le : (s xs : List ℕ) → length (extend s xs) ≤ length s + length xs
unfolding extend insert
length-extend-le s [] = omega arith
length-extend-le s (x ∷ xs) = ground (arith, length-extend-le (insert x s) xs)

-- The set of a list is as long as the list exactly if no element stands twice, and none is in the set
-- before.
abbrev Apart : List ℕ → List ℕ → Type 0
Apart s [] = Unit
Apart s (x ∷ xs) = (contains s x ≡ false) × Apart s xs

Apart-cons : (x : ℕ) (s xs : List ℕ) → Apart (x ∷ s) xs → Apart s xs × (contains xs x ≡ false)
unfolding contains
Apart-cons x s [] h = (tt, refl)
Apart-cons x s (y ∷ ys) h =
    let (rest, absent) = Apart-cons x s ys h.1 in
    ((ground (arith, h.0), rest), ground (arith, h.0, ==_iff x y, ==_iff y x))

cons-Apart : (x : ℕ) (s xs : List ℕ) → Apart s xs → contains xs x ≡ false → Apart (x ∷ s) xs
unfolding contains
cons-Apart x s [] h k = tt
cons-Apart x s (y ∷ ys) h k =
    (ground (arith, h.0, ==_iff x y, ==_iff y x), cons-Apart x s ys h.1 (ground arith))

extend-Distinct :
    (s xs : List ℕ) → length (extend s xs) ≡ length s + length xs → Apart s xs × Distinct xs
unfolding extend insert
extend-Distinct s [] h = (tt, tt)
extend-Distinct s (x ∷ xs) h = elim (Bool-cases (contains s x)) [
  | inl old ↦ absurd (ground (arith, length-extend-le s xs))
  | inr fresh ↦
      let (apart, distinct) = extend-Distinct (x ∷ s) xs (ground arith) in
      let (apart', absent) = Apart-cons x s xs apart in ((fresh, apart'), (absent, distinct))
]

Distinct-extend :
    (s xs : List ℕ) → Apart s xs → Distinct xs → length (extend s xs) ≡ length s + length xs
unfolding extend insert
Distinct-extend s [] a d = omega arith
Distinct-extend s (x ∷ xs) a d =
    ground (arith, a.0, Distinct-extend (x ∷ s) xs (cons-Apart x s xs a.1 d.0) d.1)

Apart-nil : (xs : List ℕ) → Apart [] xs
unfolding contains
Apart-nil [] = tt
Apart-nil (x ∷ xs) = (refl, Apart-nil xs)

-- Every target of a block in `bs` is an id in `known`.
abbrev pub Closed : List BlockId → List HirBlock → Type 0
Closed known bs =
    All (λ b. (t : BlockId) → contains (successors b.terminator) t ≡ true → contains known t ≡ true)
      bs

check_targets-subset :
    (known : List BlockId) (span : Span) (ts : List BlockId) (sink : DiagSink)
    → (check_targets known span ts sink).1 ≡ subset ts known
unfolding check_targets subset
check_targets-subset known span [] sink = refl
check_targets-subset known span (t ∷ ts) sink = elim (Bool-cases (contains known t)) [
  | inl present ↦ ground (arith, check_targets-subset known span ts sink)
  | inr absent ↦ ground arith
]

subset-of :
    (xs ys : List ℕ) → ((x : ℕ) → contains xs x ≡ true → contains ys x ≡ true) → subset xs ys ≡ true
unfolding contains subset
subset-of [] ys h = refl
subset-of (x ∷ xs) ys h =
    ground (arith, h x, ==_iff x x, subset-of xs ys (λ y k. h y (ground arith)))

check_blocks-Closed :
    (known : List BlockId) (bs : List HirBlock) (sink : DiagSink)
    → ((check_blocks known bs sink).1 ≡ true) ↔ Closed known bs
unfolding check_blocks
check_blocks-Closed known [] sink = ((λ h. tt), (λ h. refl))
check_blocks-Closed known (b ∷ bs) sink =
    let ts = successors b.terminator in
    let rest = check_blocks-Closed known bs (check_targets known b.span ts sink).0 in
    let here = check_targets-subset known b.span ts sink in
    (
      λ h. ((λ t. subset-contains ts known t (ground (arith, here))), rest.0 (ground arith)),
      λ h. ground (arith, here, subset-of ts known h.0, rest.1 h.1),
    )

-- The entry is a block, no two blocks have one id, and every target is a block.
pub record IsWellFormed (body : HirBody) : Type 0 where
  pub entry : contains (ids body.blocks) body.entry_block ≡ true
  pub unique : Distinct (ids body.blocks)
  pub closed : Closed (ids body.blocks) body.blocks

any-contains : (bs : List HirBlock) (i : BlockId) → any (λ b. b.id == i) bs ≡ contains (ids bs) i
unfolding any contains
any-contains [] i = refl
any-contains (b ∷ bs) i = ground (arith, any-contains bs i)

contains-set : (xs : List ℕ) (x : ℕ) → contains (extend [] xs) x ≡ contains xs x
unfolding contains
contains-set xs x = contains-extend [] xs x

Closed-congr :
    (known known' : List BlockId) (bs : List HirBlock)
    → ((x : BlockId) → contains known x ≡ contains known' x)
    → Closed known bs
    → Closed known' bs
Closed-congr known known' [] same h = tt
Closed-congr known known' (b ∷ bs) same h =
    ((λ t k. rw (← same t) (h.0 t k)), Closed-congr known known' bs same h.1)

length-ids : (bs : List HirBlock) → length (ids bs) ≡ length bs
length-ids [] = refl
length-ids (b ∷ bs) = ap suc (length-ids bs)

-- The sink after the check of uniqueness.
abbrev sink_after : HirBody → DiagSink → DiagSink
sink_after body sink =
    if length (extend [] (ids body.blocks)) == length body.blocks
    then sink
    else emit (error_diagnostic 9002 nowhere) sink

check_rest_lem :
    (body : HirBody) (sink : DiagSink)
    → (check_rest body sink).1 ≡ (
        (length (extend [] (ids body.blocks)) == length body.blocks)
        && (check_blocks (extend [] (ids body.blocks)) body.blocks (sink_after body sink)).1)
unfolding check_rest validate_returns
check_rest_lem body sink = ground arith

module _ (body : HirBody) (sink : DiagSink) where
  valid-IsWellFormed : (validate_cfg body sink).1 ≡ true → IsWellFormed body
  unfolding validate_cfg
  valid-IsWellFormed h =
      let set = extend [] (ids body.blocks) in
      let blocks = check_blocks-Closed set body.blocks (sink_after body sink) in
      let rest = check_rest_lem body sink in
      let entry = any-contains body.blocks body.entry_block in
      record {
        entry = ground (arith, entry);
        unique =
            (extend-Distinct [] (ids body.blocks) (
              ground
                (arith, rest, length-ids body.blocks, ==_iff (length set) (length body.blocks)))).1;
        closed =
            Closed-congr set (ids body.blocks) body.blocks (contains-set (ids body.blocks))
              (blocks.0 (ground (arith, rest)));
      }

  IsWellFormed-valid : IsWellFormed body → (validate_cfg body sink).1 ≡ true
  unfolding validate_cfg
  IsWellFormed-valid h =
      let set = extend [] (ids body.blocks) in
      let blocks = check_blocks-Closed set body.blocks (sink_after body sink) in
      let closed = blocks.1 (
        Closed-congr (ids body.blocks) set body.blocks (λ x. sym (contains-set (ids body.blocks) x))
          h.closed) in
      ground (
        arith,
        any-contains body.blocks body.entry_block,
        check_rest_lem body sink,
        closed,
        Distinct-extend [] (ids body.blocks) (Apart-nil (ids body.blocks)) h.unique,
        length-ids body.blocks,
        ==_iff (length set) (length body.blocks),
      )

-- The check answers `true` exactly if the entry is a block, no two blocks have one id, and every
-- target of a terminator is a block.
pub validate_cfg_iff :
    (body : HirBody) (sink : DiagSink) → ((validate_cfg body sink).1 ≡ true) ↔ IsWellFormed body
validate_cfg_iff body sink = (valid-IsWellFormed body sink, IsWellFormed-valid body sink)
