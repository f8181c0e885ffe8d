-- ===== src/Diag/Sink/Tests.antt =====
-- A run of reports, and the theorems of the sink at it.
use kore_lang.Base.{arith, ◌+◌, ◌≡◌, refl, some, List, [], ◌∷◌, ltb, length}
use kore_lang.Diag.{Diagnostic, at, in_file, nowhere, error_diagnostic, warning_diagnostic}
use kore_lang.Diag.Sink.{
  DiagSink, with_error_limit, is_error, is_warning, emit_all, has_errors, emit_all_u32,
}
use kore_lang.Diag.Sink.Counts.{Fresh, total, count_where, emit_all_counts, emit_all_conserves}
use kore_lang.Diag.Sink.Stored.{IsTidy, emit_all-IsTidy}

-- An error without a place, the same twice at one place, a warning, and an error past the limit.
abbrev reports : List Diagnostic
reports =
    error_diagnostic 9001 nowhere
    ∷ error_diagnostic 9003 (at (record { file = 1; lo = 5; hi = 6 }))
    ∷ error_diagnostic 9003 (at (record { file = 1; lo = 5; hi = 9 }))
    ∷ warning_diagnostic 9004 (in_file 1)
    ∷ error_diagnostic 9002 nowhere
    ∷ []

abbrev sink : DiagSink
sink = emit_all reports (with_error_limit (some 2))

sink_suppressed : sink.suppressed ≡ 1
unfolding emit_all
sink_suppressed = refl

reports-Fresh : Fresh reports
reports-Fresh = (refl, (refl, (refl, (refl, (refl, tt)))))

emit_all_counts_example :
    (s : DiagSink) × (emit_all_u32 reports (with_error_limit (some 2)) ≡ some s)
    × (s.err_count ≡ count_where is_error reports)
    × (s.warn_count ≡ count_where is_warning reports)
    × (has_errors s ≡ ltb 0 (count_where is_error reports))
emit_all_counts_example = emit_all_counts (some 2) reports reports-Fresh (omega arith)

emit_all_conserves_example :
    (s : DiagSink) × (emit_all_u32 reports (with_error_limit (some 2)) ≡ some s)
    × (total s.diags + s.suppressed ≡ length reports)
emit_all_conserves_example = emit_all_conserves (some 2) reports reports-Fresh (omega arith)

emit_all-IsTidy_example : IsTidy sink
emit_all-IsTidy_example = emit_all-IsTidy (some 2) reports
