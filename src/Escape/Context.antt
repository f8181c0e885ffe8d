-- ===== src/Escape/Context.antt =====
-- stage0/src/frontend/escape/context.rs: the bindings in scope and their ownership states.
pub mod Lookup
pub mod Restore
pub mod Arm
mod Tests
use kore_lang.Base.{
  ℕ, ◌-◌, ltb, Bool, true, false, Option, none, some, List, [], ◌∷◌, ◌++◌, String, length,
  if◌then◌else◌,
}
use kore_lang.Base.Dict.{name_eq}
use kore_lang.Diag.{Span}

pub data OwnershipState : Type 0 where
  live : OwnershipState
  moved : Span → OwnershipState

pub data BindingKind : Type 0 where
  own borrow plain : BindingKind

pub record BindingInfo : Type 0 where
  pub kind : BindingKind
  pub state : OwnershipState
  pub depth : ℕ

abbrev pub own_info : ℕ → BindingInfo
own_info depth = record { kind = own; state = live; depth = depth }

abbrev pub borrow_info : ℕ → BindingInfo
borrow_info depth = record { kind = borrow; state = live; depth = depth }

abbrev pub plain_info : ℕ → BindingInfo
plain_info depth = record { kind = plain; state = live; depth = depth }

unfoldable pub is_moved : BindingInfo → Bool
is_moved info = elim info.state [ live ↦ false | moved span ↦ true ]

abbrev pub is_own : BindingKind → Bool
is_own own = true
is_own _ = false

-- The newest binding stands first; the source's `Vec` has it last.
abbrev pub Bindings : Type 0
Bindings = List (String × BindingInfo)

-- The innermost scope stands first, too.
pub record EscapeContext : Type 0 where
  pub scopes : List Bindings

abbrev pub new : EscapeContext
new = record { scopes = [] ∷ [] }

unfoldable pub depth : EscapeContext → ℕ
depth c = length c.scopes - 1

unfoldable pub push_scope : EscapeContext → EscapeContext
push_scope c = record { scopes = [] ∷ c.scopes }

abbrev pub outer : List Bindings → List Bindings
outer [] = []
outer (s ∷ ss) = ss

-- The last scope stays.
unfoldable pub pop_scope : EscapeContext → EscapeContext
pop_scope c = if ltb 1 (length c.scopes) then record { scopes = outer c.scopes } else c

abbrev pub define_in : List Bindings → String → BindingInfo → List Bindings
define_in [] name info = []
define_in (s ∷ ss) name info = ((name, info) ∷ s) ∷ ss

unfoldable pub define : EscapeContext → String → BindingInfo → EscapeContext
define c name info = record { scopes = define_in c.scopes name info }

unfoldable pub lookup_scope : Bindings → String → Option BindingInfo
lookup_scope [] name = none
lookup_scope ((n, info) ∷ s) name = if name_eq n name then some info else lookup_scope s name

unfoldable pub lookup_in : List Bindings → String → Option BindingInfo
unfolding lookup_scope
lookup_in [] name = none
lookup_in (s ∷ ss) name =
    let further = lookup_in ss name in
    elim (lookup_scope s name) [ some info ↦ some info | none ↦ further ]

unfoldable pub lookup : EscapeContext → String → Option BindingInfo
unfolding lookup_in
lookup c name = lookup_in c.scopes name

-- `lookup_mut`, with what is then done to the binding: nothing where there is none.
unfoldable pub change_scope : (BindingInfo → BindingInfo) → Bindings → String → Option Bindings
change_scope f [] name = none
change_scope f ((n, info) ∷ s) name =
    let later = change_scope f s name in
    if name_eq n name
    then some ((n, f info) ∷ s)
    else elim later [ none ↦ none | some s' ↦ some ((n, info) ∷ s') ]

unfoldable pub change_in : (BindingInfo → BindingInfo) → List Bindings → String → List Bindings
unfolding change_scope
change_in f [] name = []
change_in f (s ∷ ss) name =
    let further = change_in f ss name in
    elim (change_scope f s name) [ some s' ↦ s' ∷ ss | none ↦ s ∷ further ]

unfoldable pub lookup_mut : (BindingInfo → BindingInfo) → EscapeContext → String → EscapeContext
unfolding change_in
lookup_mut f c name = record { scopes = change_in f c.scopes name }

abbrev pub set_moved : Span → BindingInfo → BindingInfo
set_moved site info = if is_own info.kind then record info { state = moved site } else info

unfoldable pub mark_moved : EscapeContext → String → Span → EscapeContext
unfolding lookup_mut
mark_moved c name site = lookup_mut (set_moved site) c name

abbrev pub Snapshot : Type 0
Snapshot = List (String × OwnershipState)

-- The outermost scope and the oldest binding come first.
unfoldable pub snapshot_scope : Bindings → Snapshot
snapshot_scope [] = []
snapshot_scope ((n, info) ∷ s) =
    snapshot_scope s ++ (if is_own info.kind then (n, info.state) ∷ [] else [])

unfoldable pub snapshot_in : List Bindings → Snapshot
unfolding snapshot_scope
snapshot_in [] = []
snapshot_in (s ∷ ss) = snapshot_in ss ++ snapshot_scope s

unfoldable pub snapshot_moves : EscapeContext → Snapshot
unfolding snapshot_in
snapshot_moves c = snapshot_in c.scopes

abbrev pub set_state : OwnershipState → BindingInfo → BindingInfo
set_state state info = record info { state = state }

unfoldable pub restore_snapshot : EscapeContext → Snapshot → EscapeContext
unfolding lookup_mut
restore_snapshot c [] = c
restore_snapshot c ((name, state) ∷ snap) =
    restore_snapshot (lookup_mut (set_state state) c name) snap
