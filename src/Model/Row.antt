-- ===== src/Model/Row.antt =====
-- crates/renamewright-core/src/model.rs: the rows of a plan.
use renamewright.Common.{
  ℕ, ◌+◌, Bool, true, false, Option, List, [], ◌∷◌, ◌++◌, if◌then◌else◌, any, wrapping,
  saturating_add,
}
use renamewright.Text.{Str, OsString, str_len, to_string_lossy, os_eq}
use renamewright.Model.Source.{SourceId, ParentId, EntryKind, SourceSnapshot, source_kind}
use renamewright.Model.Diagnostic.{
  DiagnosticCode, Diagnostic, blocked_diagnostic, is_blocked, has_code,
}

pub data NameStatus : Type 0 where
  changed unchanged blocked : NameStatus

pub record TraceStep : Type 0 where
  pub rule_index : ℕ
  pub before : Str
  pub after : Str

pub record PlanRow : Type 0 where
  pub source_id : SourceId
  pub parent_id : ParentId
  pub entry_kind : Option EntryKind
  pub original_name : OsString
  pub proposed_name : OsString
  pub original_display : Str
  pub proposed_display : Str
  pub status : NameStatus
  pub trace : List TraceStep
  pub diagnostics : List Diagnostic
  pub override_applied : Bool
  pub trace_truncated : Bool

unfoldable pub status_for : OsString → OsString → List Diagnostic → NameStatus
status_for original proposed diagnostics =
    if any (λ d. is_blocked d.severity) diagnostics
    then NameStatus.blocked
    else if os_eq original proposed
    then NameStatus.unchanged
    else NameStatus.changed

unfoldable pub new_row : SourceSnapshot → OsString → List TraceStep → List Diagnostic → PlanRow
unfolding source_kind
new_row source proposed trace diagnostics = record {
  source_id = source.id;
  parent_id = source.parent_id;
  entry_kind = source_kind source;
  original_name = source.native_name;
  proposed_name = proposed;
  original_display = to_string_lossy source.native_name;
  proposed_display = to_string_lossy proposed;
  status = status_for source.native_name proposed diagnostics;
  trace = trace;
  diagnostics = diagnostics;
  override_applied = false;
  trace_truncated = false;
}

unfoldable pub with_override_applied : PlanRow → PlanRow
with_override_applied row = record row { override_applied = true }

unfoldable pub with_trace_truncated : PlanRow → Bool → PlanRow
with_trace_truncated row truncated = record row { trace_truncated = truncated }

unfoldable pub block : PlanRow → DiagnosticCode → PlanRow
block row code = record row {
  diagnostics =
      if has_code code row.diagnostics
      then row.diagnostics
      else row.diagnostics ++ blocked_diagnostic code ∷ [];
  status = NameStatus.blocked;
}

-- The bytes of all the `after` texts.
abbrev pub after_bytes : List TraceStep → ℕ
after_bytes [] = 0
after_bytes (step ∷ steps) = str_len step.after + after_bytes steps

abbrev pub first_before_bytes : List TraceStep → ℕ
first_before_bytes [] = 0
first_before_bytes (step ∷ steps) = str_len step.before

unfoldable pub retained_trace_bytes : PlanRow → ℕ
retained_trace_bytes row =
    saturating_add (first_before_bytes row.trace) (wrapping (after_bytes row.trace))
