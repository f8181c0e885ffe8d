-- ===== src/Resolve/Symbols/Tests.antt =====
-- A table of two symbols, and the theorems at it.
use kore_lang.Base.{◌≡◌, ◌<◌, refl, true, false, some, [], ◌∷◌, arith}
use kore_lang.Resolve.Symbols.{Symbol, func, local, insert, get, lookup}
use kore_lang.Resolve.Symbols.Laws.{get-insert}

abbrev main : Symbol
main = record {
  name = "main";
  kind = func;
  span = record { file = 0; lo = 0; hi = 4 };
  is_mut = false;
  is_public = true;
}

abbrev x : Symbol
x = record main { name = "x"; kind = local }

get-insert_example :
    (get (insert (main ∷ []) x).0 (insert (main ∷ []) x).1 ≡ some x)
    × (0 < 1 → get (insert (main ∷ []) x).0 0 ≡ get (main ∷ []) 0)
get-insert_example = get-insert (main ∷ []) x 0 (omega arith)

found : lookup (main ∷ x ∷ []) "x" ≡ some 1
unfolding lookup
found = refl
