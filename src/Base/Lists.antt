-- ===== src/Base/Lists.antt =====
-- Lists measured and indexed by native numbers, under the library's names.
use Prim.Native.Nat.{ℕ, zero, suc, ◌+◌, ◌≤◌}
use mathlib.Core.Path.{◌≡◌, refl}
use mathlib.Core.Logic.{◌⊎◌, inl, inr}
use mathlib.Core.Bool.{Bool, true, false, not}
use mathlib.Core.List.{List, [], ◌∷◌, ◌++◌}
use mathlib.Core.Option.{Option, none, some}
use native.Mathlib.Omega.{arith}
use kore_lang.Base.Tests.{ltb, if◌then◌else◌}

module _ {ℓ} {A : Type ℓ} where
  abbrev pub length : List A → ℕ
  length [] = 0
  length (x ∷ xs) = suc (length xs)

  abbrev pub get_elem? : List A → ℕ → Option A
  get_elem? [] i = none
  get_elem? (x ∷ xs) zero = some x
  get_elem? (x ∷ xs) (suc i) = get_elem? xs i

  -- `Vec::retain`, `Iterator::filter`: the elements that pass the test, in their order.
  unfoldable pub retain : (A → Bool) → List A → List A
  retain p [] = []
  retain p (x ∷ xs) = if p x then x ∷ retain p xs else retain p xs

  -- `Iterator::any`.
  unfoldable pub any : (A → Bool) → List A → Bool
  any p [] = false
  any p (x ∷ xs) = if p x then true else any p xs

  -- Every element has the property; a tuple for each concrete list.
  abbrev pub All {κ} : (A → Type κ) → List A → Type κ
  All P [] = Unit
  All P (x ∷ xs) = P x × All P xs

  pub List-cases : (xs : List A) → (xs ≡ []) ⊎ ((x : A) × (rest : List A) × (xs ≡ x ∷ rest))
  List-cases [] = inl refl
  List-cases (x ∷ xs) = inr (x, xs, refl)

module _ {ℓ} {A : Type ℓ} where
  pub length-append : (xs ys : List A) → length (xs ++ ys) ≡ length xs + length ys
  length-append [] ys = omega arith
  length-append (x ∷ xs) ys = omega (arith, length-append xs ys)

  pub length-retain-le : (p : A → Bool) (xs : List A) → length (retain p xs) ≤ length xs
  unfolding retain
  length-retain-le p [] = omega arith
  length-retain-le p (x ∷ xs) = ground (arith, length-retain-le p xs)

  -- Nothing was removed only if every element passes.
  pub retain-eq_of_length :
      (p : A → Bool) (xs : List A) → length xs ≤ length (retain p xs) → retain p xs ≡ xs
  unfolding retain
  retain-eq_of_length p [] h = refl
  retain-eq_of_length p (x ∷ xs) h = ground (arith, length-retain-le p xs, retain-eq_of_length p xs)

  pub retain-retain : (p : A → Bool) (xs : List A) → retain p (retain p xs) ≡ retain p xs
  unfolding retain
  retain-retain p [] = refl
  retain-retain p (x ∷ xs) = ground (arith, retain-retain p xs)

  pub retain_congr :
      (p q : A → Bool) (xs : List A) → ((x : A) → p x ≡ q x) → retain p xs ≡ retain q xs
  unfolding retain
  retain_congr p q [] h = refl
  retain_congr p q (x ∷ xs) h = ground (arith, h x, retain_congr p q xs h)

  -- An element was removed exactly if some element fails the test.
  pub length-retain :
      (p : A → Bool) (xs : List A)
      → ltb (length (retain p xs)) (length xs) ≡ any (λ x. not (p x)) xs
  unfolding retain any
  length-retain p [] = refl
  length-retain p (x ∷ xs) = ground (arith, length-retain-le p xs, length-retain p xs)
