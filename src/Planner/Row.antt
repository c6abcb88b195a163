-- ===== src/Planner/Row.antt =====
-- crates/renamewright-core/src/planner.rs: the trace budget and `build_row`.
use mathlib.Core.Option
use renamewright.Common.{
  ℕ, suc, ◌-◌, ◌*◌, Bool, true, false, not, ◌&&◌, Option, none, some, List, [], ◌∷◌, ◌++◌, ◌==◌,
  ltb, if◌then◌else◌, is_empty, get_elem?, saturating_add, Result, ok, err,
}
use renamewright.Text.{Str, OsString, str_len, to_str, to_string_lossy, from_str, os_eq}
use renamewright.Model.Source.{
  EntryKind, file, directory, symlink, SourceSnapshot, source_kind, TargetPolicy,
}
use renamewright.Model.Diagnostic.{
  DiagnosticCode, unchanged, empty_name, name_too_long, unsupported_encoding, sequence_overflow,
  Diagnostic, blocked_diagnostic, information_diagnostic,
}
use renamewright.Model.Row.{
  TraceStep, PlanRow, new_row, with_override_applied, with_trace_truncated,
}
use renamewright.Windows.{validate_name}
use renamewright.Rules.Types.{
  RenameRule, applies_to_directories, RuleApplicationError, RulePipeline, Libraries,
}
use renamewright.Rules.Apply.{apply_rule}

abbrev pub max_plan_trace_bytes : ℕ
max_plan_trace_bytes = 8 * 1024 * 1024

pub record TraceBudget : Type 0 where
  pub remaining_bytes : ℕ

abbrev pub new_budget : TraceBudget
new_budget = record { remaining_bytes = max_plan_trace_bytes }

abbrev pub exhausted : TraceBudget → Bool
exhausted budget = budget.remaining_bytes == 0

unfoldable pub retain : TraceBudget → ℕ → Bool × TraceBudget
retain budget bytes =
    if ltb budget.remaining_bytes bytes
    then (false, record { remaining_bytes = 0 })
    else (true, record { remaining_bytes = budget.remaining_bytes - bytes })

-- The variables of the loop over the rules.
pub record RowState : Type 0 where
  pub proposed : OsString
  pub trace : List TraceStep
  pub prior_trace_value : Option Str
  pub trace_truncated : Bool
  pub budget : TraceBudget

-- The text before the rule, unless the budget is exhausted.
unfoldable pub text_before : RowState → Option Str
text_before st =
    if exhausted st.budget
    then none
    else some
        (elim st.prior_trace_value [ none ↦ to_string_lossy st.proposed | some prior ↦ prior ])

abbrev pub first_bytes : Option Str → Str → ℕ
first_bytes none before = str_len before
first_bytes (some prior) before = 0

-- What the round does once the rule has given `after`.
unfoldable pub record_step : ℕ → Option Str → OsString → RowState → RowState
unfolding retain
record_step rule_index none after st = record st { proposed = after; trace_truncated = true }
record_step rule_index (some before) after st =
    let text = to_string_lossy after in
    let (kept, budget) =
      retain st.budget (saturating_add (str_len text) (first_bytes st.prior_trace_value before)) in
    if kept
    then record st {
      proposed = after;
      trace = st.trace ++ record { rule_index = rule_index; before = before; after = text } ∷ [];
      prior_trace_value = some text;
      budget = budget;
    }
    else record st {
      proposed = after;
      trace_truncated = true;
      prior_trace_value = none;
      budget = budget;
    }

abbrev pub error_code : RuleApplicationError → DiagnosticCode
error_code RuleApplicationError.unsupported_encoding = unsupported_encoding
error_code RuleApplicationError.sequence_overflow = sequence_overflow
error_code RuleApplicationError.output_too_long = name_too_long

abbrev pub is_directory : Option EntryKind → Bool
is_directory (some directory) = true
is_directory (some file) = false
is_directory (some symlink) = false
is_directory none = false

abbrev pub flatten : Option (Option (Option ℕ)) → Option ℕ
flatten (some (some value)) = value
flatten (some none) = none
flatten none = none

abbrev pub value_at : List (Option (List (Option ℕ))) → ℕ → ℕ → Option ℕ
value_at sequence_values rule_index source_index = flatten (
    Option.map (λ values. Option.bind values (λ vs. get_elem? vs source_index))
      (get_elem? sequence_values rule_index))

unfoldable pub validate : OsString → TargetPolicy → List Diagnostic
unfolding blocked_diagnostic
validate name policy =
    if is_empty name then blocked_diagnostic empty_name ∷ [] else elim (to_str name) [
      | none ↦ blocked_diagnostic unsupported_encoding ∷ []
      | some text ↦ if policy.windows_names then validate_name text else []
    ]

-- The row with its diagnostics, once the proposed name is final.
unfoldable pub finish_row : SourceSnapshot → Option Str → TargetPolicy → RowState → PlanRow
unfolding validate
finish_row source name_override policy st =
    let proposed : OsString = elim name_override [
      | none ↦ st.proposed
      | some name ↦ from_str name
    ] in
    let same : List Diagnostic =
      if os_eq proposed source.native_name then information_diagnostic unchanged ∷ [] else [] in
    let row =
      with_trace_truncated (new_row source proposed st.trace (validate proposed policy ++ same))
        st.trace_truncated in
    elim name_override [ none ↦ row | some name ↦ with_override_applied row ]

unfoldable pub failed_row : SourceSnapshot → DiagnosticCode → RowState → PlanRow
failed_row source code st =
    with_trace_truncated (new_row source st.proposed st.trace (blocked_diagnostic code ∷ []))
      st.trace_truncated

module _ (lib : Libraries) (pipeline : RulePipeline lib.Regex) where
  -- The loop over the rules: a row that an error ends, or the state behind the last rule.
  unfoldable pub rule_loop :
      ℕ
      → SourceSnapshot
      → List (Option (List (Option ℕ)))
      → ℕ
      → List RenameRule
      → RowState
      → Result (PlanRow × TraceBudget) RowState
  unfolding record_step text_before failed_row source_kind applies_to_directories
  rule_loop source_index source sequence_values rule_index [] st = ok st
  rule_loop source_index source sequence_values rule_index (rule ∷ rules) st =
      if is_directory (source_kind source) && not (applies_to_directories rule)
      then rule_loop source_index source sequence_values (suc rule_index) rules st
      else elim (apply_rule lib pipeline rule_index st.proposed
          (value_at sequence_values rule_index source_index)) [
            | err e ↦ err (failed_row source (error_code e) st, st.budget)
            | ok after ↦
                rule_loop source_index source sequence_values (suc rule_index) rules
                  (record_step rule_index (text_before st) after st)
          ]

  -- The row, and the trace budget that is left.
  unfoldable pub build_row :
      ℕ
      → SourceSnapshot
      → List (Option (List (Option ℕ)))
      → Option Str
      → TargetPolicy
      → TraceBudget
      → PlanRow × TraceBudget
  unfolding rule_loop finish_row
  build_row source_index source sequence_values name_override policy budget =
      elim (rule_loop source_index source sequence_values 0 pipeline.rules (record {
        proposed = source.native_name;
        trace = [];
        prior_trace_value = none;
        trace_truncated = false;
        budget = budget;
      })) [ err ended ↦ ended | ok st ↦ (finish_row source name_override policy st, st.budget) ]
