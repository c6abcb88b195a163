-- ===== src/Tests/Pipelines.antt =====
-- The theorems on rules and plans at concrete pipelines (crates/renamewright-core/src/rules.rs and
-- planner.rs).
use renamewright.Common.{
  refl, ok, err, ltb, if◌then◌else◌, ◌≢◌, All, ◌↔◌, ℕ, ◌≡◌, ◌⊎◌, true, none, some, List, [], ◌∷◌,
  ◌==◌,
}
use renamewright.Text.{Str, codes, from_str, str_len}
use renamewright.Model.Counters.{SomeChanged, count_status, can_apply-new_plan}
use renamewright.Model.Plan.{blocked_one, changed_one, RenamePlan, can_apply, new_plan}
use renamewright.Model.Row.{new_row, NameStatus, PlanRow}
use renamewright.Rules.Types.{
  RenameRule, RulePipeline, CompiledRule, Captures, max_rule_output_bytes, output_too_long,
}
use renamewright.Rules.Compile.{compile_rule, compile}
use renamewright.Rules.Checks.{CompileOutcome, compile_outcome}
use renamewright.Rules.Apply.{apply_rule}
use renamewright.Rules.Bounds.{Explains, apply_rule-Explains}
use renamewright.Rules.Regex.{replace_regex_bounded}
use renamewright.Rules.Rewriting.{Rewrites, replace_regex_bounded-Rewrites}
use renamewright.Planner.Overrides.{NameOverride}
use renamewright.Planner.Build.{
  PlanBuildContext, build_plan_with_rule_pipeline_overrides_and_environment_cancellable,
  build_plan_with_rule_pipeline_overrides_and_environment,
}
use renamewright.Planner.Plans.{IsPlanOf}
use renamewright.Planner.Cancel.{build_plan-cancelled, build_plan-IsPlanOf}
use renamewright.Tests.Samples.{literal_libraries, photo, note}

abbrev rules : List RenameRule
rules = RenameRule.literal_replace (codes "IMG") (codes "pic") ∷ RenameRule.prefix (codes "x") ∷ []

abbrev pipeline : RulePipeline Str
pipeline = record {
  rules = rules;
  compiled =
      CompiledRule.literal_replace (codes "IMG") (codes "pic")
      ∷ CompiledRule.prefix (codes "x")
      ∷ [];
}

compile_outcome_example : CompileOutcome literal_libraries rules (compile literal_libraries rules)
compile_outcome_example = compile_outcome literal_libraries rules

compiles : compile literal_libraries rules ≡ ok pipeline
unfolding compile compile_rule str_len
compiles = refl

apply_rule-Explains_example :
    Explains literal_libraries
      (some (CompiledRule.literal_replace (codes "IMG") (codes "pic")))
      photo.native_name
      none
      (apply_rule literal_libraries pipeline 0 photo.native_name none)
apply_rule-Explains_example =
    apply_rule-Explains literal_libraries rules pipeline 0 photo.native_name none compiles

abbrev captures : Captures
captures = record { group = λ n. some (record { start = n; end = 3 }); named = λ name. none }

replace_regex_bounded-Rewrites_example :
    (out : Str) × Rewrites (codes "abc") (codes "$1-$$") 0 (captures ∷ []) out
    × (replace_regex_bounded (codes "abc") (captures ∷ []) (codes "$1-$$") ≡ (
        if ltb max_rule_output_bytes (str_len out) then err output_too_long else ok (from_str out)))
replace_regex_bounded-Rewrites_example =
    replace_regex_bounded-Rewrites (codes "abc") (captures ∷ []) (codes "$1-$$")

abbrev context : PlanBuildContext
context = record {
  policy = record { windows_names = true };
  environment = record {
    stale_sources = 77 ∷ [];
    unavailable_parents = [];
    occupied_names = [];
    ancestor_conflicts = [];
  };
}

abbrev renamed : List NameOverride
renamed = record { source_id = 9; proposed_name = codes "todo" } ∷ []

abbrev planned : RenamePlan
planned =
    build_plan_with_rule_pipeline_overrides_and_environment literal_libraries pipeline 1 1
      (photo ∷ note ∷ []) renamed context.policy context.environment

build_plan-IsPlanOf_example : IsPlanOf literal_libraries 1 1 (photo ∷ note ∷ []) context planned
build_plan-IsPlanOf_example =
    build_plan-IsPlanOf literal_libraries pipeline 1 1 (photo ∷ note ∷ []) renamed context

-- Cancelled at the third answer.
build_plan-cancelled_example :
    let built =
      build_plan_with_rule_pipeline_overrides_and_environment_cancellable literal_libraries pipeline
        1 1
        (photo ∷ note ∷ [])
        renamed
        context
        (λ k. k == 2) in
    ((k : ℕ) × ((k == 2) ≡ true) × (built ≡ none)) ⊎ (built ≡ some planned)
build_plan-cancelled_example =
    build_plan-cancelled literal_libraries pipeline 1 1 (photo ∷ note ∷ []) renamed context
      (λ k. k == 2)

abbrev first_row : PlanRow
first_row = new_row photo (from_str (codes "picture.jpg")) [] []

can_apply-new_plan_example :
    let plan = new_plan 1 1 (first_row ∷ []) in
    (plan.changed_count ≡ count_status changed_one (first_row ∷ []))
    × (plan.blocked_count ≡ count_status blocked_one (first_row ∷ []))
    × ((can_apply plan ≡ true) ↔ (
        SomeChanged (first_row ∷ [])
        × All (λ row. row.status ≢ NameStatus.blocked) (first_row ∷ [])))
can_apply-new_plan_example = can_apply-new_plan 1 1 (first_row ∷ [])
