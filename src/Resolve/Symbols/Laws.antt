-- ===== src/Resolve/Symbols/Laws.antt =====
-- Ids that the table has given out stay valid.
use native.Mathlib.Nat.{zero-add, add-zero}
use kore_lang.Base.{
  ℕ, zero, suc, ◌+◌, ◌^◌, ◌<◌, ◌≡◌, ◌∙◌, refl, true, Option, none, some, [], ◌∷◌, ◌++◌, String,
  arith, length, get_elem?, if◌then◌else◌, Bool-cases, inl, inr,
}
use kore_lang.Base.Dict.{name_eq, name_eq_iff}
use kore_lang.Resolve.Symbols.{
  Symbol, SymbolTable, SymbolId, as_u32, insert, get, find_from, lookup,
}

-- `a.or(b)`.
abbrev pub first {ℓ} : {A : Type ℓ} → Option A → Option A → Option A
first none o = o
first (some a) o = some a

get_elem?-append_self :
    (xs : SymbolTable) (s : Symbol) → get_elem? (xs ++ s ∷ []) (length xs) ≡ some s
get_elem?-append_self [] s = refl
get_elem?-append_self (x ∷ xs) s = get_elem?-append_self xs s

get_elem?-append_old :
    (xs : SymbolTable) (s : Symbol) (i : ℕ)
    → i < length xs
    → get_elem? (xs ++ s ∷ []) i ≡ get_elem? xs i
get_elem?-append_old [] s i h = absurd (omega arith)
get_elem?-append_old (x ∷ xs) s zero h = refl
get_elem?-append_old (x ∷ xs) s (suc i) h = get_elem?-append_old xs s i (omega arith)

as_u32_small : (n : ℕ) → n < 2 ^ 32 → as_u32 n ≡ n
as_u32_small n h = omega arith

-- Below 2^32 symbols: `get` of the id that `insert` returns is the inserted symbol, and every older id
-- keeps its symbol.
pub get-insert :
    (syms : SymbolTable) (sym : Symbol) (i : SymbolId)
    → length syms < 2 ^ 32
    → (get (insert syms sym).0 (insert syms sym).1 ≡ some sym)
      × (i < length syms → get (insert syms sym).0 i ≡ get syms i)
unfolding insert get
get-insert syms sym i h = (
  rw (as_u32_small (length syms) h) (get_elem?-append_self syms sym),
  get_elem?-append_old syms sym i,
)

find_from-append :
    (i : ℕ) (syms : SymbolTable) (sym : Symbol) (name : String)
    → find_from i (syms ++ sym ∷ []) name
      ≡ first
          (find_from i syms name)
          (if name_eq sym.name name then some (as_u32 (i + length syms)) else none)
unfolding find_from
find_from-append i [] sym name = rw (add-zero i)
find_from-append i (s ∷ ss) sym name =
    let shift : suc i + length ss ≡ i + suc (length ss) = omega arith in
    ground (arith, rw shift at (find_from-append (suc i) ss sym name))

-- Below 2^32 symbols: a new symbol is found by its name exactly if no older symbol has that name, and
-- what was found before is found still.
pub lookup-insert :
    (syms : SymbolTable) (sym : Symbol) (name : String)
    → length syms < 2 ^ 32
    → lookup (insert syms sym).0 name
      ≡ first (lookup syms name) (if name_eq sym.name name then some (length syms) else none)
unfolding lookup insert
lookup-insert syms sym name h =
    find_from-append 0 syms sym name ∙ rw (zero-add (length syms), as_u32_small (length syms) h)

find_from-get :
    (i : ℕ) (syms : SymbolTable) (name : String) (id : SymbolId)
    → i + length syms < 2 ^ 32
    → find_from i syms name ≡ some id
    → (k : ℕ) × (sym : Symbol) × (id ≡ i + k)
      × (get_elem? syms k ≡ some sym)
      × (name_eq sym.name name ≡ true)
unfolding find_from
find_from-get i [] name id b h = absurd (ground arith)
find_from-get i (s ∷ ss) name id b h = elim (Bool-cases (name_eq s.name name)) [
  | inl same ↦
      let first_id : as_u32 i ≡ id = ground arith in
      (0, s, omega (arith, first_id, as_u32_small i (omega arith)), refl, same)
  | inr other ↦
      let (k, sym, e, found, same) =
        find_from-get (suc i) ss name id (omega arith) (rw other at h) in
      (suc k, sym, omega arith, found, same)
]

-- Below 2^32 symbols: the id that `lookup` returns is that of a symbol with the name.
pub get-lookup :
    (syms : SymbolTable) (name : String) (id : SymbolId)
    → length syms < 2 ^ 32
    → lookup syms name ≡ some id
    → (sym : Symbol) × (get syms id ≡ some sym) × (sym.name ≡ name)
unfolding lookup get
get-lookup syms name id b h =
    let (k, sym, e, found, same) = find_from-get 0 syms name id (omega arith) h in
    let at : id ≡ k = omega arith in (sym, rw at found, (name_eq_iff sym.name name).0 same)
