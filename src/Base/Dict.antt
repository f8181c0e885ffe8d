-- ===== src/Base/Dict.antt =====
-- `HashMap` with text keys, as an association list with one entry for a key. The order of entries is
-- that of the list.
use Prim.Native.String.{String}
use mathlib.Core.Path.{◌≡◌, refl}
use mathlib.Core.Logic.{◌↔◌}
use mathlib.Core.Bool.{Bool, true, false}
use mathlib.Core.Option.{Option, none, some}
use mathlib.Core.List.{List, [], ◌∷◌}
use native.Mathlib.Omega.{arith}
use text.Mathlib.Text.{◌==◌}
use text.Mathlib.TextEquality.{eq_iff}
use text.Mathlib.TextPositions.{eq_refl}
use kore_lang.Base.Tests.{if◌then◌else◌}

abbrev pub name_eq : String → String → Bool
name_eq a b = a == b

pub name_eq_iff : (a b : String) → (name_eq a b ≡ true) ↔ (a ≡ b)
name_eq_iff a b = eq_iff a b

pub name_eq_refl : (a : String) → name_eq a a ≡ true
name_eq_refl a = eq_refl a

abbrev pub Dict {ℓ} : Type ℓ → Type ℓ
Dict V = List (String × V)

module _ {ℓ} {V : Type ℓ} where
  unfoldable pub get : Dict V → String → Option V
  get [] k = none
  get ((j, v) ∷ d) k = if name_eq j k then some v else get d k

  unfoldable pub put : Dict V → String → V → Dict V
  put [] k v = (k, v) ∷ []
  put ((j, w) ∷ d) k v = if name_eq j k then (k, v) ∷ d else (j, w) ∷ put d k v

  abbrev pub is_some : Option V → Bool
  is_some none = false
  is_some (some v) = true

  pub get-put :
      (d : Dict V) (k j : String) (v : V)
      → get (put d k v) j ≡ (if name_eq k j then some v else get d j)
  unfolding get put
  get-put [] k j v = refl
  get-put ((i, w) ∷ d) k j v = ground (arith, eq_iff k j, eq_iff i k, eq_iff i j, get-put d k j v)
