-- ===== src/Diag/Sink/Stored.antt =====
-- What the sink stores: one diagnostic for each (code, place), and no more errors than the limit.
use kore_lang.Base.{
  ℕ, ◌+◌, ◌≤◌, ◌≡◌, ◌∙◌, refl, ap, inl, inr, false, Option, none, some, List, [], ◌∷◌, ◌++◌, map,
  arith, Option-cases, Bool-cases, ◌&&◌, All, if◌then◌else◌,
}
use kore_lang.Diag.{Severity, error, warning, note, help, Diagnostic, dedup_key}
use kore_lang.Diag.Sink.{
  DiagSink, with_error_limit, is_error, at_limit, Key, key_eq, merge, count_errors, stored_errors,
  count, store, emit, emit_all,
}

-- No two of the keys are equal.
abbrev pub Distinct : List Key → Type 0
Distinct [] = Unit
Distinct (k ∷ ks) = All (λ j. key_eq j k ≡ false) ks × Distinct ks

-- Merging touches only the number of occurrences.
map-merge {ℓ} :
    {B : Type ℓ} (g : Diagnostic → B)
    → ((e : Diagnostic) (n : ℕ) → g (record e { occurrences = n }) ≡ g e)
    → (d : Diagnostic) (ds ds' : List Diagnostic) → merge d ds ≡ some ds'
    → map g ds' ≡ map g ds
unfolding merge
map-merge g same d [] ds' h = cc
map-merge g same d (e ∷ es) ds' h = elim (Option-cases (merge d es)) [
  | inl absent ↦ ground (arith, same e (e.occurrences + 1))
  | inr (rest, found) ↦ ground (arith, same e (e.occurrences + 1), map-merge g same d es rest found)
]

merge-none-All :
    (d : Diagnostic) (ds : List Diagnostic)
    → merge d ds ≡ none
    → All (λ j. key_eq j (dedup_key d) ≡ false) (map dedup_key ds)
unfolding merge
merge-none-All d [] h = tt
merge-none-All d (e ∷ es) h = elim (Option-cases (merge d es)) [
  | inl absent ↦ (ground arith, merge-none-All d es absent)
  | inr (rest, found) ↦ absurd (ground arith)
]

key_eq_comm : (j k : Key) → key_eq j k ≡ key_eq k j
unfolding key_eq
key_eq_comm (c, (f, l)) (c', (f', l')) = ground arith

All-append :
    (k x : Key) (ks : List Key)
    → All (λ j. key_eq j x ≡ false) ks
    → key_eq k x ≡ false
    → All (λ j. key_eq j x ≡ false) (ks ++ k ∷ [])
All-append k x [] h e = (e, tt)
All-append k x (_ ∷ ks) h e = (h.0, All-append k x ks h.1 e)

Distinct-append :
    (k : Key) (ks : List Key)
    → Distinct ks
    → All (λ j. key_eq j k ≡ false) ks
    → Distinct (ks ++ k ∷ [])
Distinct-append k [] u h = (tt, tt)
Distinct-append k (x ∷ ks) u h =
    (All-append k x ks u.0 (key_eq_comm k x ∙ h.0), Distinct-append k ks u.1 h.1)

map-append_one {ℓ} :
    {B : Type ℓ} (g : Diagnostic → B) (ds : List Diagnostic) (d : Diagnostic)
    → map g (ds ++ d ∷ []) ≡ map g ds ++ g d ∷ []
map-append_one g [] d = refl
map-append_one g (e ∷ es) d = ap (λ t. g e ∷ t) (map-append_one g es d)

count_errors-append :
    (ds : List Diagnostic) (d : Diagnostic)
    → count_errors (ds ++ d ∷ []) ≡ count_errors ds + (if is_error d.severity then 1 else 0)
unfolding count_errors
count_errors-append [] d = ground arith
count_errors-append (e ∷ es) d = ground (arith, count_errors-append es d)

count_errors-merge :
    (d : Diagnostic) (ds ds' : List Diagnostic)
    → merge d ds ≡ some ds'
    → count_errors ds' ≡ count_errors ds
unfolding merge count_errors
count_errors-merge d [] ds' h = cc
count_errors-merge d (e ∷ es) ds' h = elim (Option-cases (merge d es)) [
  | inl absent ↦ ground arith
  | inr (rest, found) ↦ ground (arith, count_errors-merge d es rest found)
]

-- At most `limit` errors, where a limit is set.
abbrev pub Within : Option ℕ → ℕ → Type 0
Within none n = Unit
Within (some limit) n = n ≤ limit

pub record IsTidy (s : DiagSink) : Type 0 where
  pub distinct : Distinct (map dedup_key s.diags)
  pub within : Within s.error_limit (stored_errors s)

Within-count : (e : Severity) (s : DiagSink) → IsTidy s → IsTidy (count e s)
unfolding count stored_errors
Within-count error s t = record { distinct = t.distinct; within = t.within }
Within-count warning s t = record { distinct = t.distinct; within = t.within }
Within-count note s t = t
Within-count help s t = t

-- An error is stored below the limit only.
Within-append :
    (limit : Option ℕ) (ds : List Diagnostic) (d : Diagnostic)
    → Within limit (count_errors ds)
    → (is_error d.severity && at_limit limit (count_errors ds)) ≡ false
    → Within limit (count_errors (ds ++ d ∷ []))
Within-append none ds d w h = tt
Within-append (some limit) ds d w h = ground (arith, count_errors-append ds d)

IsTidy-push :
    (d : Diagnostic) (s : DiagSink)
    → IsTidy s
    → merge d s.diags ≡ none
    → (is_error d.severity && at_limit s.error_limit (stored_errors s)) ≡ false
    → IsTidy (record s { diags = s.diags ++ d ∷ [] })
unfolding stored_errors
IsTidy-push d s t absent room = record {
  distinct = rw map-append_one (
      Distinct-append (dedup_key d) (map dedup_key s.diags) t.distinct
        (merge-none-All d s.diags absent));
  within = Within-append s.error_limit s.diags d t.within room;
}

IsTidy-merge :
    (d : Diagnostic) (s : DiagSink) (ds : List Diagnostic)
    → IsTidy s
    → merge d s.diags ≡ some ds
    → IsTidy (record s { diags = ds })
unfolding stored_errors dedup_key
IsTidy-merge d s ds t found = record {
  distinct = rw (map-merge dedup_key (λ e n. refl) d s.diags ds found) t.distinct;
  within = rw (count_errors-merge d s.diags ds found) t.within;
}

IsTidy-store : (d : Diagnostic) (s : DiagSink) → IsTidy s → IsTidy (store d s)
unfolding store stored_errors
IsTidy-store d s t = elim (Option-cases (merge d s.diags)) [
  | inl absent ↦
      elim (Bool-cases (is_error d.severity && at_limit s.error_limit (stored_errors s))) [
        | inl full ↦
            let same : store d s ≡ record s { suppressed = s.suppressed + 1 } = ground arith in
            rw same (record { distinct = t.distinct; within = t.within })
        | inr room ↦
            let same : store d s ≡ record s { diags = s.diags ++ d ∷ [] } = ground arith in
            rw same (IsTidy-push d s t absent room)
      ]
  | inr (ds, found) ↦
      let same : store d s ≡ record s { diags = ds } = ground arith in
      rw same (IsTidy-merge d s ds t found)
]

IsTidy-emit : (d : Diagnostic) (s : DiagSink) → IsTidy s → IsTidy (emit d s)
unfolding emit
IsTidy-emit d s t = IsTidy-store d (count d.severity s) (Within-count d.severity s t)

IsTidy-emit_all : (ds : List Diagnostic) (s : DiagSink) → IsTidy s → IsTidy (emit_all ds s)
unfolding emit_all
IsTidy-emit_all [] s t = t
IsTidy-emit_all (d ∷ ds) s t = IsTidy-emit_all ds (emit d s) (IsTidy-emit d s t)

Within-zero : (limit : Option ℕ) → Within limit 0
Within-zero none = tt
Within-zero (some n) = omega arith

-- After any sequence of reports the stored diagnostics have different (code, place) keys, and where
-- a limit is set no more errors than it are stored.
pub emit_all-IsTidy :
    (limit : Option ℕ) (ds : List Diagnostic) → IsTidy (emit_all ds (with_error_limit limit))
unfolding stored_errors
emit_all-IsTidy limit ds =
    IsTidy-emit_all ds (with_error_limit limit)
      (record { distinct = tt; within = Within-zero limit })
