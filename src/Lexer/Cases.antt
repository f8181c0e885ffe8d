-- ===== src/Lexer/Cases.antt =====
-- Splits on a computed value that keep its equation, for a predicate on the result.
use kore_lang.Base.{◌≡◌, refl, Bool, true, false, Option, none, some, List, [], ◌∷◌}

module _ {A : Type 0} (P : A → Type 0) where
  pub bool_case :
      (b : Bool) (x y : A)
      → (b ≡ true → P x)
      → (b ≡ false → P y)
      → P (elim b [ true ↦ x | false ↦ y ])
  bool_case true x y h k = h refl
  bool_case false x y h k = k refl

  pub list_case :
      {B : Type 0} (bs : List B) (x : A) (y : B → List B → A)
      → (bs ≡ [] → P x)
      → ((c : B) (cs : List B) → bs ≡ c ∷ cs → P (y c cs))
      → P (elim bs [ [] ↦ x | c ∷ cs ↦ y c cs ])
  list_case [] x y h k = h refl
  list_case (c ∷ cs) x y h k = k c cs refl

  pub option_case :
      {B : Type 0} (o : Option B) (x : A) (y : B → A)
      → (o ≡ none → P x)
      → ((c : B) → o ≡ some c → P (y c))
      → P (elim o [ none ↦ x | some c ↦ y c ])
  option_case none x y h k = h refl
  option_case (some c) x y h k = k c refl
