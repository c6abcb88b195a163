-- ===== src/Planner/Follow.antt =====
-- `build_row` (crates/renamewright-core/src/planner.rs) gives a row of its source, however the rules end.
use renamewright.Common.{if_both}
use renamewright.Common.{
  ◌∙◌, ℕ, suc, ◌≡◌, refl, List, [], ◌∷◌, ◌&&◌, not, Bool, false, Option, none, some, Result, ok,
  err,
}
use renamewright.Text.{Str, OsString}
use renamewright.Model.Source.{SourceSnapshot, TargetPolicy, source_kind}
use renamewright.Model.Row.{
  PlanRow, TraceStep, new_row, with_trace_truncated, with_override_applied,
}
use renamewright.Model.Diagnostic.{Diagnostic}
use renamewright.Rules.Types.{
  RenameRule, RuleApplicationError, RulePipeline, Libraries, applies_to_directories,
}
use renamewright.Rules.Apply.{apply_rule}
use renamewright.Planner.Row.{
  TraceBudget, RowState, is_directory, value_at, error_code, failed_row, finish_row, record_step,
  text_before, rule_loop, build_row,
}
use renamewright.Planner.Advance.{Advances}

-- The row stands for the source.
pub record Follows (source : SourceSnapshot) (row : PlanRow) : Type 0 where
  pub source_id : row.source_id ≡ source.id
  pub parent_id : row.parent_id ≡ source.parent_id
  pub entry_kind : row.entry_kind ≡ source_kind source
  pub original_name : row.original_name ≡ source.native_name

pub Follows-Advances :
    (source : SourceSnapshot) (before after : PlanRow)
    → Follows source before
    → Advances before after
    → Follows source after
Follows-Advances source before after f a = record {
  source_id = a.source_id ∙ f.source_id;
  parent_id = a.parent_id ∙ f.parent_id;
  entry_kind = a.entry_kind ∙ f.entry_kind;
  original_name = a.original_name ∙ f.original_name;
}

pub new_row-Follows :
    (source : SourceSnapshot) (proposed : OsString) (trace : List TraceStep)
    (diagnostics : List Diagnostic)
    → Follows source (new_row source proposed trace diagnostics)
unfolding new_row
new_row-Follows source proposed trace diagnostics = record {
  source_id = refl;
  parent_id = refl;
  entry_kind = refl;
  original_name = refl;
}

truncated-Follows :
    (source : SourceSnapshot) (row : PlanRow) (truncated : Bool)
    → Follows source row
    → Follows source (with_trace_truncated row truncated)
unfolding with_trace_truncated
truncated-Follows source row truncated f = record {
  source_id = f.source_id;
  parent_id = f.parent_id;
  entry_kind = f.entry_kind;
  original_name = f.original_name;
}

override-Follows :
    (source : SourceSnapshot) (row : PlanRow)
    → Follows source row
    → Follows source (with_override_applied row)
unfolding with_override_applied
override-Follows source row f = record {
  source_id = f.source_id;
  parent_id = f.parent_id;
  entry_kind = f.entry_kind;
  original_name = f.original_name;
}

finish_row-Follows :
    (source : SourceSnapshot) (name_override : Option Str) (policy : TargetPolicy) (st : RowState)
    → Follows source (finish_row source name_override policy st)
unfolding finish_row
finish_row-Follows source none policy st =
    truncated-Follows source _ st.trace_truncated (new_row-Follows source _ st.trace _)
finish_row-Follows source (some name) policy st =
    override-Follows source _
      (truncated-Follows source _ st.trace_truncated (new_row-Follows source _ st.trace _))

abbrev Ended : SourceSnapshot → Result (PlanRow × TraceBudget) RowState → Type 0
Ended source (err (row, budget)) = Follows source row
Ended source (ok st) = Unit

module _ (lib : Libraries) (pipeline : RulePipeline lib.Regex) where
  rule_loop-Ended :
      (source_index : ℕ) (source : SourceSnapshot) (values : List (Option (List (Option ℕ))))
      (rule_index : ℕ) (rules : List RenameRule) (st : RowState)
      → Ended source (rule_loop lib pipeline source_index source values rule_index rules st)
  unfolding rule_loop failed_row
  rule_loop-Ended source_index source values rule_index [] st = tt
  rule_loop-Ended source_index source values rule_index (rule ∷ rules) st =
      if_both (Ended source)
        (is_directory (source_kind source) && not (applies_to_directories rule)) _ _
        (rule_loop-Ended source_index source values (suc rule_index) rules st)
        (go (λ s. rule_loop-Ended source_index source values (suc rule_index) rules s)
          (apply_rule lib pipeline rule_index st.proposed
            (value_at values rule_index source_index)))
    where
      go :
          ((s : RowState)
            → Ended source
                (rule_loop lib pipeline source_index source values (suc rule_index) rules s))
          → (applied : Result RuleApplicationError OsString)
          → Ended source (elim applied [
            | err e ↦ err (failed_row source (error_code e) st, st.budget)
            | ok after ↦
                rule_loop lib pipeline source_index source values
                  (suc rule_index)
                  rules
                  (record_step rule_index (text_before st) after st)
          ])
      go rest (err e) =
          truncated-Follows source _ st.trace_truncated
            (new_row-Follows source st.proposed st.trace _)
      go rest (ok after) = rest (record_step rule_index (text_before st) after st)

  pub build_row-Follows :
      (source_index : ℕ) (source : SourceSnapshot) (values : List (Option (List (Option ℕ))))
      (name_override : Option Str) (policy : TargetPolicy) (budget : TraceBudget)
      → Follows source
          (build_row lib pipeline source_index source values name_override policy budget).0
  unfolding build_row
  build_row-Follows source_index source values name_override policy budget = go _ (
      rule_loop-Ended source_index source values 0 pipeline.rules (record {
        proposed = source.native_name;
        trace = [];
        prior_trace_value = none;
        trace_truncated = false;
        budget = budget;
      }))
    where
      go :
          (r : Result (PlanRow × TraceBudget) RowState)
          → Ended source r
          → Follows source (
              let built : PlanRow × TraceBudget = elim r [
                | err ended ↦ ended
                | ok st ↦ (finish_row source name_override policy st, st.budget)
              ] in
              built.0)
      go (err (row, b)) h = h
      go (ok st) h = finish_row-Follows source name_override policy st
