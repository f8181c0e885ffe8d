-- ===== src/Base/Sets.antt =====
-- `HashSet` over ids, as a list without order: only `contains` and the size are ever read.
use Prim.Native.Nat.{ℕ}
use mathlib.Core.Path.{◌≡◌, refl}
use mathlib.Core.Logic.{◌⊎◌}
use mathlib.Core.Bool.{Bool, true, false, not, ◌&&◌, ◌||◌}
use mathlib.Core.List.{List, [], ◌∷◌, ◌++◌}
use native.Mathlib.Omega.{arith}
use kore_lang.Base.Tests.{◌==◌, ==_iff, if◌then◌else◌}

unfoldable pub contains : List ℕ → ℕ → Bool
contains [] a = false
contains (x ∷ xs) a = if x == a then true else contains xs a

unfoldable pub insert : ℕ → List ℕ → List ℕ
insert a xs = if contains xs a then xs else a ∷ xs

unfoldable pub remove : ℕ → List ℕ → List ℕ
remove a [] = []
remove a (x ∷ xs) = if x == a then remove a xs else x ∷ remove a xs

-- `set.extend(more)`.
unfoldable pub extend : List ℕ → List ℕ → List ℕ
extend s [] = s
extend s (x ∷ xs) = extend (insert x s) xs

unfoldable pub subset : List ℕ → List ℕ → Bool
subset [] ys = true
subset (x ∷ xs) ys = if contains ys x then subset xs ys else false

-- `==` on sets.
unfoldable pub set_eq : List ℕ → List ℕ → Bool
unfolding subset
set_eq xs ys = subset xs ys && subset ys xs

pub contains-insert :
    (a b : ℕ) (xs : List ℕ) → contains (insert a xs) b ≡ ((a == b) || contains xs b)
unfolding contains insert
contains-insert a b xs = ground arith

pub contains-remove :
    (a b : ℕ) (xs : List ℕ) → contains (remove a xs) b ≡ (not (a == b) && contains xs b)
unfolding contains remove
contains-remove a b [] = ground arith
contains-remove a b (x ∷ xs) = ground (arith, contains-remove a b xs)

pub contains-append :
    (xs ys : List ℕ) (b : ℕ) → contains (xs ++ ys) b ≡ (contains xs b || contains ys b)
unfolding contains
contains-append [] ys b = refl
contains-append (x ∷ xs) ys b = ground (arith, contains-append xs ys b)

pub contains-extend :
    (s xs : List ℕ) (b : ℕ) → contains (extend s xs) b ≡ (contains s b || contains xs b)
unfolding contains extend
contains-extend s [] b = ground arith
contains-extend s (x ∷ xs) b =
    ground (arith, contains-extend (insert x s) xs b, contains-insert x b s)

pub subset-contains :
    (xs ys : List ℕ) (b : ℕ) → subset xs ys ≡ true → contains xs b ≡ true → contains ys b ≡ true
unfolding contains subset
subset-contains [] ys b h k = ground arith
subset-contains (x ∷ xs) ys b h k = ground (arith, subset-contains xs ys b)

pub insert-cases :
    (a b : ℕ) (xs : List ℕ) → contains (insert a xs) b ≡ true → (a ≡ b) ⊎ (contains xs b ≡ true)
insert-cases a b xs h = ground (arith, contains-insert a b xs, ==_iff a b)
