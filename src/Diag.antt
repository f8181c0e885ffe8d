-- ===== src/Diag.antt =====
-- stage0/src/diag/diagnostic.rs: positions and diagnostics. The text of a diagnostic and its notes
-- (`msg`, `children`), which only the renderers read, are left out.
pub mod Sink
use kore_lang.Base.{ℕ, ◌-◌, ◌^◌}

abbrev pub FileId : Type 0
FileId = ℕ

pub record Span : Type 0 where
  pub file : FileId
  pub lo : ℕ
  pub hi : ℕ

pub data Severity : Type 0 where
  error warning note help : Severity

pub data DiagLoc : Type 0 where
  nowhere : DiagLoc
  in_file : FileId → DiagLoc
  at : Span → DiagLoc

abbrev pub u32_max : ℕ
u32_max = 2 ^ 32 - 1

-- Diagnostics without a place come last.
unfoldable pub sort_key : DiagLoc → ℕ × ℕ
sort_key nowhere = (u32_max, u32_max)
sort_key (in_file f) = (f, 0)
sort_key (at s) = (s.file, s.lo)

pub record Diagnostic : Type 0 where
  pub severity : Severity
  pub code : ℕ
  pub loc : DiagLoc
  pub occurrences : ℕ

-- `Diagnostic::new`, at the severity of `Diagnostic::error` and of `Diagnostic::warning`.
abbrev pub new_diagnostic : Severity → ℕ → DiagLoc → Diagnostic
new_diagnostic severity code loc = record {
  severity = severity;
  code = code;
  loc = loc;
  occurrences = 1;
}

abbrev pub error_diagnostic : ℕ → DiagLoc → Diagnostic
error_diagnostic = new_diagnostic error

abbrev pub warning_diagnostic : ℕ → DiagLoc → Diagnostic
warning_diagnostic = new_diagnostic warning

unfoldable pub dedup_key : Diagnostic → ℕ × (ℕ × ℕ)
unfolding sort_key
dedup_key d = (d.code, sort_key d.loc)
