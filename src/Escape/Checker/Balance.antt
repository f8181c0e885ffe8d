-- ===== src/Escape/Checker/Balance.antt =====
-- The walk leaves the scopes and the bindings that it found, but for ownership states.
use kore_lang.Base.{ℕ, suc, ltb, ◌≡◌, true, List, [], ◌∷◌, String, length, All, arith}
use kore_lang.Diag.{Span}
use kore_lang.Ast.{Pattern}
use kore_lang.Escape.Context.{
  BindingInfo, Bindings, EscapeContext, push_scope, pop_scope, define, depth, plain_info, Snapshot,
  snapshot_moves, restore_snapshot,
}
use kore_lang.Escape.Branch.{Checked, ArmCheck, check_arm, check_arms, mark_snaps, check_branch}
use kore_lang.Escape.Checker.{define_plain, inject_arm_bindings, in_scope}
use kore_lang.Escape.Checker.Shapes.{
  SameShapes, SameBelow, SameShapes-refl, SameShapes-trans, SameShapes-length,
  restore_snapshot-SameShapes, mark_snaps-SameShapes,
}

abbrev pub scopes_of : Checked → List Bindings
scopes_of w = w.0.scopes

abbrev pub HasScope : Checked → Type 0
HasScope w = ltb 0 (length (scopes_of w)) ≡ true

-- A step of the walk that keeps all scopes, and one that may define names in the innermost.
abbrev pub Preserves : (Checked → Checked) → Type 0
Preserves f = (w : Checked) → HasScope w → SameShapes (scopes_of w) (scopes_of (f w))

abbrev pub PreservesBelow : (Checked → Checked) → Type 0
PreservesBelow f = (w : Checked) → HasScope w → SameBelow (scopes_of w) (scopes_of (f w))

pub SameShapes-Below :
    (xs ys : List Bindings) → ltb 0 (length xs) ≡ true → SameShapes xs ys → SameBelow xs ys
SameShapes-Below [] ys n h = absurd (ground arith)
SameShapes-Below (x ∷ xs) [] n h = absurd h
SameShapes-Below (x ∷ xs) (y ∷ ys) n h = h.1

pub SameBelow-trans :
    (xs ys zs : List Bindings) → SameBelow xs ys → SameBelow ys zs → SameBelow xs zs
SameBelow-trans [] ys zs h k = absurd h
SameBelow-trans (x ∷ xs) [] zs h k = absurd h
SameBelow-trans (x ∷ xs) (y ∷ ys) [] h k = absurd k
SameBelow-trans (x ∷ xs) (y ∷ ys) (z ∷ zs) h k = SameShapes-trans xs ys zs h k

SameBelow-nonempty : (xs ys : List Bindings) → SameBelow xs ys → ltb 0 (length ys) ≡ true
SameBelow-nonempty [] ys h = absurd h
SameBelow-nonempty (x ∷ xs) [] h = absurd h
SameBelow-nonempty (x ∷ xs) (y ∷ ys) h = ground arith

pub SameShapes-nonempty :
    (xs ys : List Bindings) → ltb 0 (length xs) ≡ true → SameShapes xs ys → ltb 0 (length ys) ≡ true
SameShapes-nonempty xs ys n h = SameBelow-nonempty xs ys (SameShapes-Below xs ys n h)

pub nothing-Preserves : Preserves (λ w. w)
nothing-Preserves w n = SameShapes-refl (scopes_of w)

pub then-Preserves :
    (f g : Checked → Checked) → Preserves f → Preserves g → Preserves (λ w. g (f w))
then-Preserves f g pf pg w n =
    SameShapes-trans (scopes_of w) (scopes_of (f w)) (scopes_of (g (f w))) (pf w n)
      (pg (f w) (SameShapes-nonempty (scopes_of w) (scopes_of (f w)) n (pf w n)))

pub Preserves-Below : (f : Checked → Checked) → Preserves f → PreservesBelow f
Preserves-Below f pf w n = SameShapes-Below (scopes_of w) (scopes_of (f w)) n (pf w n)

pub then-PreservesBelow :
    (f g : Checked → Checked) → PreservesBelow f → PreservesBelow g → PreservesBelow (λ w. g (f w))
then-PreservesBelow f g pf pg w n =
    SameBelow-trans (scopes_of w) (scopes_of (f w)) (scopes_of (g (f w))) (pf w n)
      (pg (f w) (SameBelow-nonempty (scopes_of w) (scopes_of (f w)) (pf w n)))

pub pop-SameShapes :
    (xs ys : List Bindings)
    → ltb 0 (length xs) ≡ true
    → SameBelow ([] ∷ xs) ys
    → SameShapes xs (pop_scope (record { scopes = ys })).scopes
unfolding pop_scope
pop-SameShapes xs [] n h = absurd h
pop-SameShapes xs (y ∷ ys) n h =
    let more : ltb 1 (suc (length ys)) ≡ true = ground (arith, SameShapes-length xs ys h) in
    rw (more, SameShapes) h

pub in_scope-Preserves :
    (body : Checked → Checked) → PreservesBelow body → Preserves (in_scope body)
unfolding push_scope
in_scope-Preserves body pb (c, sink) n =
    pop-SameShapes c.scopes (scopes_of (body (push_scope c, sink))) n
      (pb (push_scope c, sink) (ground arith))

pub define-Below :
    (c : EscapeContext) (name : String) (info : BindingInfo)
    → ltb 0 (length c.scopes) ≡ true
    → SameBelow c.scopes (define c name info).scopes
unfolding define
define-Below c name info n = go c.scopes n
  where
    go :
        (ss : List Bindings)
        → ltb 0 (length ss) ≡ true
        → SameBelow ss (define (record { scopes = ss }) name info).scopes
    go [] k = absurd (ground arith)
    go (s ∷ ss) k = SameShapes-refl ss

define_plain-Below :
    (names : List String) (d : ℕ) (c : EscapeContext)
    → ltb 0 (length c.scopes) ≡ true
    → SameBelow c.scopes (define_plain names d c).scopes
unfolding define_plain
define_plain-Below [] d c n = SameShapes-Below c.scopes c.scopes n (SameShapes-refl c.scopes)
define_plain-Below (name ∷ names) d c n =
    let c' = define c name (plain_info d) in
    let first = define-Below c name (plain_info d) n in
    SameBelow-trans c.scopes c'.scopes (define_plain names d c').scopes first
      (define_plain-Below names d c' (SameBelow-nonempty c.scopes c'.scopes first))

pub inject-PreservesBelow : (p : Pattern) → PreservesBelow (inject_arm_bindings p)
unfolding inject_arm_bindings
inject-PreservesBelow (Pattern.bind name span) (c, sink) n =
    define-Below c name (plain_info (depth c)) n
inject-PreservesBelow (Pattern.variant name bindings span) (c, sink) n =
    define_plain-Below bindings (depth c) c n
inject-PreservesBelow (Pattern.lit e) w n = Preserves-Below (λ v. v) nothing-Preserves w n
inject-PreservesBelow (Pattern.wildcard span) w n = Preserves-Below (λ v. v) nothing-Preserves w n
inject-PreservesBelow (Pattern.cond e) w n = Preserves-Below (λ v. v) nothing-Preserves w n

check_arms-Preserves :
    (base : Snapshot) (checks : List ArmCheck)
    → All PreservesBelow checks
    → Preserves (λ w. (check_arms base checks w).0)
unfolding check_arms check_arm
check_arms-Preserves base [] k = nothing-Preserves
check_arms-Preserves base (check ∷ checks) k =
    then-Preserves (check_arm base check) (λ w. (check_arms base checks w).0)
      (then-Preserves (λ w. (restore_snapshot w.0 base, w.1)) (in_scope check)
        (λ w n. restore_snapshot-SameShapes w.0 base) (in_scope-Preserves check k.0))
      (check_arms-Preserves base checks k.1)

pub check_branch-Preserves :
    (checks : List ArmCheck) (span : Span)
    → All PreservesBelow checks
    → Preserves (check_branch checks span)
unfolding check_branch
check_branch-Preserves checks span k w n =
    let base = snapshot_moves w.0 in
    let (last, snaps) = check_arms base checks w in
    let restored = restore_snapshot last.0 base in
    SameShapes-trans (scopes_of w) restored.scopes (mark_snaps snaps span restored).scopes
      (SameShapes-trans (scopes_of w) (scopes_of last) restored.scopes
        (check_arms-Preserves base checks k w n) (restore_snapshot-SameShapes last.0 base))
      (mark_snaps-SameShapes snaps span restored)
