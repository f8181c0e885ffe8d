-- ===== src/Escape/Context/Restore.antt =====
-- Snapshots around an arm of a branch.
use kore_lang.Base.{
  ℕ, ◌≡◌, ◌∙◌, refl, ap, true, Option, none, some, List, [], ◌∷◌, ◌++◌, String, length, arith,
  if◌then◌else◌, Bool-cases, Option-cases, inl, inr,
}
use kore_lang.Base.Dict.{name_eq}
use kore_lang.Escape.Context.{
  OwnershipState, BindingKind, BindingInfo, is_own, Bindings, EscapeContext, lookup_scope,
  lookup_in, lookup, change_scope, change_in, lookup_mut, set_state, Snapshot, snapshot_scope,
  snapshot_in, snapshot_moves, restore_snapshot,
}
use kore_lang.Escape.Context.Lookup.{changed, lookup_mut-lookup}

-- The last entry for a name.
unfoldable last_state : Snapshot → String → Option OwnershipState
last_state [] j = none
last_state ((n, state) ∷ snap) j =
    let later = last_state snap j in
    elim later [ some st ↦ some st | none ↦ if name_eq n j then some state else none ]

abbrev apply_state : Option OwnershipState → BindingInfo → BindingInfo
apply_state none info = info
apply_state (some state) info = set_state state info

last_state-append :
    (xs ys : Snapshot) (j : String)
    → last_state (xs ++ ys) j
      ≡ (elim (last_state ys j) [ some st ↦ some st | none ↦ last_state xs j ])
unfolding last_state
last_state-append [] ys j = elim (Option-cases (last_state ys j)) [
  | inl e ↦ ground arith
  | inr (st, e) ↦ ground arith
]
last_state-append ((n, state) ∷ xs) ys j = elim (Option-cases (last_state ys j)) [
  | inl e ↦ ground (arith, last_state-append xs ys j)
  | inr (st, e) ↦ ground (arith, last_state-append xs ys j)
]

restore_snapshot-lookup :
    (snap : Snapshot) (c : EscapeContext) (j : String)
    → lookup (restore_snapshot c snap) j ≡ changed (apply_state (last_state snap j)) (lookup c j)
unfolding restore_snapshot last_state
restore_snapshot-lookup [] c j = elim (Option-cases (lookup c j)) [
  | inl e ↦ ground arith
  | inr (info, e) ↦ ground arith
]
restore_snapshot-lookup ((n, state) ∷ snap) c j =
    let rest = restore_snapshot-lookup snap (lookup_mut (set_state state) c n) j in
    let here = lookup_mut-lookup (set_state state) c n j in
    elim (Option-cases (lookup c j)) [
      | inl e ↦ ground (arith, rest, here)
      | inr (info, e) ↦ elim (Option-cases (last_state snap j)) [
        | inl none_later ↦ ground (arith, rest, here)
        | inr (st, later) ↦ ground (arith, rest, here)
      ]
    ]

last_state-none :
    (s : Bindings) (j : String) → lookup_scope s j ≡ none → last_state (snapshot_scope s) j ≡ none
unfolding last_state lookup_scope snapshot_scope
last_state-none [] j h = refl
last_state-none ((n, info) ∷ s) j h =
    let tail_none = last_state-none s j (ground arith) in
    let both =
      last_state-append (snapshot_scope s) (if is_own info.kind then (n, info.state) ∷ [] else [])
        j in
    ground (arith, tail_none, both)

last_state-own :
    (s : Bindings) (j : String) (info : BindingInfo)
    → lookup_scope s j ≡ some info
    → is_own info.kind ≡ true
    → last_state (snapshot_scope s) j ≡ some info.state
unfolding last_state lookup_scope snapshot_scope
last_state-own [] j info h k = absurd (ground arith)
last_state-own ((n, old) ∷ s) j info h k =
    let both =
      last_state-append (snapshot_scope s) (if is_own old.kind then (n, old.state) ∷ [] else [])
        j in
    elim (Bool-cases (name_eq n j)) [
      | inl same ↦
          let e : old ≡ info = ground arith in
          let own_old : is_own old.kind ≡ true = rw e k in
          let state_old : old.state ≡ info.state = ap (λ i. i.state) e in ground (arith, both)
      | inr other ↦ ground (arith, both, last_state-own s j info (ground arith) k)
    ]

last_state-own_in :
    (ss : List Bindings) (j : String) (info : BindingInfo)
    → lookup_in ss j ≡ some info
    → is_own info.kind ≡ true
    → last_state (snapshot_in ss) j ≡ some info.state
unfolding lookup_in snapshot_in
last_state-own_in [] j info h k = absurd (ground arith)
last_state-own_in (s ∷ ss) j info h k =
    let both = last_state-append (snapshot_in ss) (snapshot_scope s) j in
    elim (Option-cases (lookup_scope s j)) [
      | inl absent ↦
          ground
            (arith, both, last_state-none s j absent, last_state-own_in ss j info (ground arith) k)
      | inr (found, present) ↦ ground (arith, both, last_state-own s j info (ground arith) k)
    ]

-- What the check reads of a binding: its kind, its depth, and the state if it owns.
abbrev pub seen : BindingInfo → BindingKind × (ℕ × Option OwnershipState)
seen info = (info.kind, (info.depth, if is_own info.kind then some info.state else none))

abbrev pub seen_of : Option BindingInfo → Option (BindingKind × (ℕ × Option OwnershipState))
seen_of none = none
seen_of (some info) = some (seen info)

-- What no move changes.
abbrev pub shape : Option BindingInfo → Option (BindingKind × ℕ)
shape none = none
shape (some info) = some (info.kind, info.depth)

pub restore_seen :
    (c d : EscapeContext) (j : String)
    → shape (lookup d j) ≡ shape (lookup c j)
    → seen_of (lookup (restore_snapshot d (snapshot_moves c)) j) ≡ seen_of (lookup c j)
unfolding snapshot_moves lookup
restore_seen c d j h =
    let restored = restore_snapshot-lookup (snapshot_moves c) d j in
    elim (Option-cases (lookup c j)) [
      | inl absent ↦ elim (Option-cases (lookup d j)) [
        | inl absent' ↦ ground (arith, restored)
        | inr (info', present') ↦ absurd (ground arith)
      ]
      | inr (info, present) ↦ elim (Option-cases (lookup d j)) [
        | inl absent' ↦ absurd (ground arith)
        | inr (info', present') ↦
            let same_kind : info'.kind ≡ info.kind = ground arith in
            let same_depth : info'.depth ≡ info.depth = ground arith in
            elim (Bool-cases (is_own info.kind)) [
              | inl owns ↦ ground (arith, restored, last_state-own_in c.scopes j info present owns)
              | inr other ↦ elim (Option-cases (last_state (snapshot_moves c) j)) [
                | inl nothing ↦ ground (arith, restored)
                | inr (st, entry) ↦ ground (arith, restored)
              ]
            ]
      ]
    ]

length-change_in :
    (f : BindingInfo → BindingInfo) (ss : List Bindings) (name : String)
    → length (change_in f ss name) ≡ length ss
unfolding change_in
length-change_in f [] name = refl
length-change_in f (s ∷ ss) name = elim (Option-cases (change_scope f s name)) [
  | inl absent ↦ ground (arith, length-change_in f ss name)
  | inr (t, present) ↦ ground arith
]

length-restore_snapshot :
    (snap : Snapshot) (c : EscapeContext)
    → length (restore_snapshot c snap).scopes ≡ length c.scopes
unfolding restore_snapshot lookup_mut
length-restore_snapshot [] c = refl
length-restore_snapshot ((n, state) ∷ snap) c =
    length-restore_snapshot snap (lookup_mut (set_state state) c n)
    ∙ length-change_in (set_state state) c.scopes n

shape-apply_state :
    (s : Option OwnershipState) (o : Option BindingInfo)
    → shape (changed (apply_state s) o) ≡ shape o
shape-apply_state s none = refl
shape-apply_state none (some info) = refl
shape-apply_state (some state) (some info) = refl

pub restore_snapshot-shape :
    (snap : Snapshot) (c : EscapeContext) (j : String)
    → (length (restore_snapshot c snap).scopes ≡ length c.scopes)
      × (shape (lookup (restore_snapshot c snap) j) ≡ shape (lookup c j))
restore_snapshot-shape snap c j = (
  length-restore_snapshot snap c,
  ap shape (restore_snapshot-lookup snap c j) ∙ shape-apply_state (last_state snap j) (lookup c j),
)
