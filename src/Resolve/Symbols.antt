-- ===== src/Resolve/Symbols.antt =====
-- stage0/src/frontend/resolve/symbols.rs: the symbol table.
pub mod Laws
mod Tests
use kore_lang.Base.{
  ℕ, suc, ◌+◌, ◌%◌, ◌^◌, Bool, Option, none, some, List, [], ◌∷◌, ◌++◌, String, length, get_elem?,
  if◌then◌else◌,
}
use kore_lang.Base.Dict.{name_eq}
use kore_lang.Diag.{Span}

abbrev pub SymbolId : Type 0
SymbolId = ℕ

pub data SymbolKind : Type 0 where
  func struct union member param local : SymbolKind
  module_of : ℕ → SymbolKind

pub record Symbol : Type 0 where
  pub name : String
  pub kind : SymbolKind
  pub span : Span
  pub is_mut : Bool
  pub is_public : Bool

abbrev pub SymbolTable : Type 0
SymbolTable = List Symbol

abbrev pub new : SymbolTable
new = []

-- `syms.len() as u32`.
abbrev pub as_u32 : ℕ → SymbolId
as_u32 n = n % 2 ^ 32

-- The table and the id of the new symbol.
unfoldable pub insert : SymbolTable → Symbol → SymbolTable × SymbolId
insert syms sym = (syms ++ sym ∷ [], as_u32 (length syms))

unfoldable pub get : SymbolTable → SymbolId → Option Symbol
get syms id = get_elem? syms id

-- `iter().enumerate().find(…)`, counting from `i`.
unfoldable pub find_from : ℕ → SymbolTable → String → Option SymbolId
find_from i [] name = none
find_from i (s ∷ ss) name =
    if name_eq s.name name then some (as_u32 i) else find_from (suc i) ss name

unfoldable pub lookup : SymbolTable → String → Option SymbolId
unfolding find_from
lookup syms name = find_from 0 syms name

unfoldable pub len : SymbolTable → ℕ
len syms = length syms
