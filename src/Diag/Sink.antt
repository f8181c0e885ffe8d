-- ===== src/Diag/Sink.antt =====
-- stage0/src/diag/sink.rs: the sink that collects, counts, merges and throttles diagnostics.
-- `emit` counts without a bound; `emit_u32` is `emit` with the u32 counters of the source, in which a sum
-- out of range is a panic, as in a build that checks for overflow.
pub mod Counts
pub mod Stored
mod Sorted
mod Tests
use kore_lang.Base.{
  ℕ, suc, ◌+◌, Bool, true, false, ◌&&◌, Option, none, some, List, [], ◌∷◌, ◌++◌, ltb, leb, ◌==◌,
  if◌then◌else◌,
}
use kore_lang.Diag.{Severity, error, warning, note, help, Diagnostic, dedup_key, sort_key}

pub record DiagSink : Type 0 where
  pub diags : List Diagnostic
  pub err_count : ℕ
  pub warn_count : ℕ
  pub error_limit : Option ℕ
  pub suppressed : ℕ

abbrev pub new : DiagSink
new = record { diags = []; err_count = 0; warn_count = 0; error_limit = none; suppressed = 0 }

abbrev pub with_error_limit : Option ℕ → DiagSink
with_error_limit limit = record new { error_limit = limit }

-- `--error-limit=0` means no limit.
unfoldable pub error_limit_from_arg : ℕ → Option ℕ
error_limit_from_arg n = if n == 0 then none else some n

abbrev pub is_error : Severity → Bool
is_error error = true
is_error _ = false

abbrev pub is_warning : Severity → Bool
is_warning warning = true
is_warning _ = false

abbrev pub Key : Type 0
Key = ℕ × (ℕ × ℕ)

unfoldable pub key_eq : Key → Key → Bool
key_eq (c, (f, l)) (c', (f', l')) = c == c' && (f == f' && l == l')

-- `find` over the stored diagnostics, and `occurrences += 1` on the first that fits.
unfoldable pub merge : Diagnostic → List Diagnostic → Option (List Diagnostic)
unfolding key_eq dedup_key
merge d [] = none
merge d (e ∷ es) =
    let rest = merge d es in
    if key_eq (dedup_key e) (dedup_key d)
    then some (record e { occurrences = e.occurrences + 1 } ∷ es)
    else elim rest [ none ↦ none | some es' ↦ some (e ∷ es') ]

unfoldable pub count_errors : List Diagnostic → ℕ
count_errors [] = 0
count_errors (d ∷ ds) = if is_error d.severity then suc (count_errors ds) else count_errors ds

unfoldable pub stored_errors : DiagSink → ℕ
unfolding count_errors
stored_errors s = count_errors s.diags

-- The `match` on the severity that opens `emit`: counting never depends on storing.
unfoldable pub count : Severity → DiagSink → DiagSink
count error s = record s { err_count = s.err_count + 1 }
count warning s = record s { warn_count = s.warn_count + 1 }
count note s = s
count help s = s

abbrev pub at_limit : Option ℕ → ℕ → Bool
at_limit none stored = false
at_limit (some limit) stored = leb limit stored

-- The rest of `emit`: merge with a stored diagnostic, throttle, or store.
unfoldable pub store : Diagnostic → DiagSink → DiagSink
unfolding merge stored_errors
store d s = elim (merge d s.diags) [
  | some merged ↦ record s { diags = merged }
  | none ↦
      if is_error d.severity && at_limit s.error_limit (stored_errors s)
      then record s { suppressed = s.suppressed + 1 }
      else record s { diags = s.diags ++ d ∷ [] }
]

unfoldable pub emit : Diagnostic → DiagSink → DiagSink
unfolding store count
emit d s = store d (count d.severity s)

unfoldable pub has_errors : DiagSink → Bool
has_errors s = ltb 0 s.err_count

-- The order of (file, lo) pairs.
unfoldable pub key_leb : Diagnostic → Diagnostic → Bool
unfolding sort_key
key_leb d e =
    let (f, l) = sort_key d.loc in
    let (f', l') = sort_key e.loc in if f == f' then leb l l' else ltb f f'

-- `sort_by_key` is stable: an earlier diagnostic stays before the later ones with its key.
unfoldable pub insert_sorted : Diagnostic → List Diagnostic → List Diagnostic
unfolding key_leb
insert_sorted d [] = d ∷ []
insert_sorted d (e ∷ es) = if key_leb d e then d ∷ e ∷ es else e ∷ insert_sorted d es

unfoldable pub sort_by_key : List Diagnostic → List Diagnostic
unfolding insert_sorted
sort_by_key [] = []
sort_by_key (d ∷ ds) = insert_sorted d (sort_by_key ds)

unfoldable pub finish : DiagSink → List Diagnostic
finish s = sort_by_key s.diags

-- A run of the compiler as the sink sees it.
unfoldable pub emit_all : List Diagnostic → DiagSink → DiagSink
unfolding emit
emit_all [] s = s
emit_all (d ∷ ds) s = emit_all ds (emit d s)

abbrev pub u32_size : ℕ
u32_size = 4294967296

unfoldable pub occurrences_fit : List Diagnostic → Bool
occurrences_fit [] = true
occurrences_fit (d ∷ ds) = ltb d.occurrences u32_size && occurrences_fit ds

unfoldable pub counters_fit : DiagSink → Bool
unfolding occurrences_fit
counters_fit s =
    (ltb s.err_count u32_size && ltb s.warn_count u32_size)
    && (ltb s.suppressed u32_size && occurrences_fit s.diags)

-- A counter grows by one at a time, so a sum that does not fit is found in the state after it.
unfoldable pub emit_u32 : Diagnostic → DiagSink → Option DiagSink
unfolding emit counters_fit
emit_u32 d s = let s' = emit d s in if counters_fit s' then some s' else none

unfoldable pub emit_all_u32 : List Diagnostic → DiagSink → Option DiagSink
unfolding emit_u32
emit_all_u32 [] s = some s
emit_all_u32 (d ∷ ds) s = elim (emit_u32 d s) [ none ↦ none | some s' ↦ emit_all_u32 ds s' ]
