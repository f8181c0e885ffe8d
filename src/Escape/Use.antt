-- ===== src/Escape/Use.antt =====
-- stage0/src/frontend/escape/checker.rs: the check of a use of a name.
pub mod Moves
mod Tests
use kore_lang.Base.{Option, none, some, String, if◌then◌else◌}
use kore_lang.Diag.{Span, at, error_diagnostic}
use kore_lang.Diag.Sink.{DiagSink, emit}
use kore_lang.Escape.Context.{
  OwnershipState, live, moved, is_own, BindingInfo, EscapeContext, lookup,
}

abbrev pub site_of : OwnershipState → Option Span
site_of (moved site) = some site
site_of live = none

-- Where the name was moved, if it means an owner that was.
abbrev pub moved_at : Option BindingInfo → Option Span
moved_at none = none
moved_at (some info) = if is_own info.kind then site_of info.state else none

abbrev pub report_use : Option Span → Span → DiagSink → DiagSink
report_use none span sink = sink
report_use (some site) span sink = emit (error_diagnostic 5001 (at span)) sink

unfoldable pub check_use : EscapeContext → String → Span → DiagSink → DiagSink
unfolding lookup emit
check_use c name span sink = report_use (moved_at (lookup c name)) span sink
