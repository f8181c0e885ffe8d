-- ===== src/Diag/Sink/Counts.antt =====
-- The counters of the sink: what the gates between passes read.
use kore_lang.Base.{
  ℕ, suc, ◌+◌, ◌<◌, ◌≡◌, refl, true, inl, inr, Bool, Option, some, List, [], ◌∷◌, ◌++◌, arith, ltb,
  if◌then◌else◌, length, Option-cases,
}
use kore_lang.Diag.{Severity, Diagnostic}
use kore_lang.Diag.Sink.{
  DiagSink, with_error_limit, is_error, is_warning, merge, count, store, emit, has_errors, emit_all,
  u32_size, occurrences_fit, counters_fit, emit_u32, emit_all_u32,
}

-- How often the stored diagnostics were reported.
unfoldable pub total : List Diagnostic → ℕ
total [] = 0
total (d ∷ ds) = d.occurrences + total ds

-- The number of reports that pass a test.
unfoldable pub count_where : (Severity → Bool) → List Diagnostic → ℕ
count_where p [] = 0
count_where p (d ∷ ds) = if p d.severity then suc (count_where p ds) else count_where p ds

-- Each report has been made once.
abbrev pub Fresh : List Diagnostic → Type 0
Fresh [] = Unit
Fresh (d ∷ ds) = (d.occurrences ≡ 1) × Fresh ds

total-append :
    (ds : List Diagnostic) (d : Diagnostic) → total (ds ++ d ∷ []) ≡ total ds + d.occurrences
unfolding total
total-append [] d = omega arith
total-append (e ∷ es) d = omega (arith, total-append es d)

total-merge :
    (d : Diagnostic) (ds ds' : List Diagnostic) → merge d ds ≡ some ds' → total ds' ≡ suc (total ds)
unfolding total merge
total-merge d [] ds' h = cc
total-merge d (e ∷ es) ds' h = elim (Option-cases (merge d es)) [
  | inl absent ↦ ground arith
  | inr (rest, found) ↦ ground (arith, total-merge d es rest found)
]

total-emit :
    (d : Diagnostic) (s : DiagSink)
    → d.occurrences ≡ 1
    → total (emit d s).diags + (emit d s).suppressed ≡ suc (total s.diags + s.suppressed)
unfolding emit store count
total-emit d s one = elim (Option-cases (merge d s.diags)) [
  | inl absent ↦ ground (arith, total-append s.diags d)
  | inr (rest, found) ↦ ground (arith, total-merge d s.diags rest found)
]

pub err_count-emit :
    (d : Diagnostic) (s : DiagSink)
    → (emit d s).err_count ≡ (if is_error d.severity then suc s.err_count else s.err_count)
unfolding emit store count
err_count-emit d s = ground arith

warn_count-emit :
    (d : Diagnostic) (s : DiagSink)
    → (emit d s).warn_count ≡ (if is_warning d.severity then suc s.warn_count else s.warn_count)
unfolding emit store count
warn_count-emit d s = ground arith

err_count-emit_all :
    (ds : List Diagnostic) (s : DiagSink)
    → (emit_all ds s).err_count ≡ s.err_count + count_where is_error ds
unfolding emit_all count_where
err_count-emit_all [] s = omega arith
err_count-emit_all (d ∷ ds) s = ground (arith, err_count-emit_all ds (emit d s), err_count-emit d s)

warn_count-emit_all :
    (ds : List Diagnostic) (s : DiagSink)
    → (emit_all ds s).warn_count ≡ s.warn_count + count_where is_warning ds
unfolding emit_all count_where
warn_count-emit_all [] s = omega arith
warn_count-emit_all (d ∷ ds) s =
    ground (arith, warn_count-emit_all ds (emit d s), warn_count-emit d s)

total-emit_all :
    (ds : List Diagnostic) (s : DiagSink)
    → Fresh ds
    → total (emit_all ds s).diags + (emit_all ds s).suppressed
      ≡ total s.diags + s.suppressed + length ds
unfolding emit_all
total-emit_all [] s f = omega arith
total-emit_all (d ∷ ds) s f = omega (arith, total-emit_all ds (emit d s) f.1, total-emit d s f.0)

-- With `n` more first reports to come no counter passes u32.
record Room (n : ℕ) (s : DiagSink) : Type 0 where
  err : s.err_count + n < u32_size
  warn : s.warn_count + n < u32_size
  stored : total s.diags + s.suppressed + n < u32_size

occurrences_fit-total : (ds : List Diagnostic) → total ds < u32_size → occurrences_fit ds ≡ true
unfolding total occurrences_fit
occurrences_fit-total [] h = refl
occurrences_fit-total (d ∷ ds) h = let rest = occurrences_fit-total ds (omega arith) in ground arith

counters_fit-Room : (n : ℕ) (s : DiagSink) → Room n s → counters_fit s ≡ true
unfolding counters_fit
counters_fit-Room n s room =
    let stored = occurrences_fit-total s.diags (omega (arith, room.stored)) in
    let err : s.err_count < u32_size = omega (arith, room.err) in
    let warn : s.warn_count < u32_size = omega (arith, room.warn) in
    let suppressed : s.suppressed < u32_size = omega (arith, room.stored) in ground arith

Room-emit :
    (n : ℕ) (d : Diagnostic) (s : DiagSink) → d.occurrences ≡ 1 → Room (suc n) s → Room n (emit d s)
Room-emit n d s one room = record {
  err = ground (arith, err_count-emit d s, room.err);
  warn = ground (arith, warn_count-emit d s, room.warn);
  stored = omega (arith, total-emit d s one, room.stored);
}

emit_all_u32-Room :
    (ds : List Diagnostic) (s : DiagSink)
    → Fresh ds
    → Room (length ds) s
    → emit_all_u32 ds s ≡ some (emit_all ds s)
unfolding emit_all emit_all_u32 emit_u32
emit_all_u32-Room [] s f room = refl
emit_all_u32-Room (d ∷ ds) s f room =
    let room' = Room-emit (length ds) d s f.0 room in
    let fits = counters_fit-Room (length ds) (emit d s) room' in
    rw (fits, emit_all_u32) (emit_all_u32-Room ds (emit d s) f.1 room')

emit_all_u32-some :
    (limit : Option ℕ) (ds : List Diagnostic)
    → Fresh ds
    → length ds < u32_size
    → emit_all_u32 ds (with_error_limit limit) ≡ some (emit_all ds (with_error_limit limit))
unfolding total
emit_all_u32-some limit ds f h =
    emit_all_u32-Room ds (with_error_limit limit) f
      (record { err = omega arith; warn = omega arith; stored = omega arith })

-- Whatever the limit on stored errors, less than 2^32 first reports overflow no counter of the sink; the
-- counters after them are the numbers of their errors and of their warnings, and `has_errors` says
-- whether there was an error.
pub emit_all_counts :
    (limit : Option ℕ) (ds : List Diagnostic)
    → Fresh ds
    → length ds < u32_size
    → (s : DiagSink) × (emit_all_u32 ds (with_error_limit limit) ≡ some s)
      × (s.err_count ≡ count_where is_error ds)
      × (s.warn_count ≡ count_where is_warning ds)
      × (has_errors s ≡ ltb 0 (count_where is_error ds))
unfolding has_errors
emit_all_counts limit ds f h =
    let s = with_error_limit limit in
    (
      emit_all ds s,
      emit_all_u32-some limit ds f h,
      omega (arith, err_count-emit_all ds s),
      omega (arith, warn_count-emit_all ds s),
      ground (arith, err_count-emit_all ds s),
    )

-- No report is lost: less than 2^32 first reports overflow no counter of the sink, and after them the
-- occurrences of the stored diagnostics and the number of suppressed ones add up to the number of
-- reports.
pub emit_all_conserves :
    (limit : Option ℕ) (ds : List Diagnostic)
    → Fresh ds
    → length ds < u32_size
    → (s : DiagSink) × (emit_all_u32 ds (with_error_limit limit) ≡ some s)
      × (total s.diags + s.suppressed ≡ length ds)
unfolding total
emit_all_conserves limit ds f h =
    let s = with_error_limit limit in
    (emit_all ds s, emit_all_u32-some limit ds f h, omega (arith, total-emit_all ds s f))
