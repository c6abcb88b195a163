-- ===== src/Planner/Build.antt =====
-- crates/renamewright-core/src/planner.rs: the plans. The orders of the sources are computed anew for
-- each sequence rule: the code keeps the first result of a pure function.
use mathlib.Core.Option
use renamewright.Common.{
  ℕ, suc, ◌%◌, Bool, false, Option, none, some, List, [], ◌∷◌, map, ◌==◌, if◌then◌else◌, ok, err,
}
use renamewright.Model.Source.{
  PlanId, SourceSnapshot, ValidationEnvironment, TargetPolicy, default_environment,
}
use renamewright.Model.Diagnostic.{invalid_rule, blocked_diagnostic}
use renamewright.Model.Row.{PlanRow, new_row}
use renamewright.Model.Plan.{RenamePlan, new_plan}
use renamewright.Rules.Types.{RenameRule, RulePipeline, Libraries, SequenceAllocation}
use renamewright.Rules.Apply.{sequence_allocation}
use renamewright.Rules.Compile.{compile}
use renamewright.Planner.Overrides.{NameOverride, OverrideMap, find_override, validate_overrides}
use renamewright.Planner.Sequence.{ordered_source_indices, allocate_sequence}
use renamewright.Planner.Row.{TraceBudget, new_budget, build_row}
use renamewright.Planner.Polling.{Polled, pure, check_continue, ◌>>=◌, ◌>>◌}
use renamewright.Planner.Marks.{
  mark_stale_sources, mark_ancestor_conflicts, mark_unavailable_parents, mark_duplicates,
  mark_occupied_destinations,
}

pub record PlanBuildContext : Type 0 where
  pub policy : TargetPolicy
  pub environment : ValidationEnvironment

unfoldable pub invalid_rule_plan : PlanId → ℕ → List SourceSnapshot → RenamePlan
invalid_rule_plan plan_id generation sources =
    new_plan plan_id generation
      (map (λ s. new_row s s.native_name [] (blocked_diagnostic invalid_rule ∷ [])) sources)

-- The values of one rule, if it allocates a sequence.
unfoldable pub rule_values :
    List SourceSnapshot → Option SequenceAllocation → Option (List (Option ℕ))
rule_values sources none = none
rule_values sources (some allocation) =
    some (allocate_sequence sources (ordered_source_indices sources allocation.order) allocation)

-- The poll at every 64th source.
unfoldable pub check_at : ℕ → Polled (Unit {0})
check_at source_index = if source_index % 64 == 0 then check_continue else pure tt

module _ (lib : Libraries) (pipeline : RulePipeline lib.Regex) where
  -- The loop over the rules that allocates their sequence values.
  unfoldable pub sequence_loop :
      List SourceSnapshot → ℕ → List RenameRule → Polled (List (Option (List (Option ℕ))))
  unfolding rule_values
  sequence_loop sources rule_index [] = pure []
  sequence_loop sources rule_index (rule ∷ rules) = do
    check_continue
    rest ← sequence_loop sources (suc rule_index) rules
    pure (rule_values sources (sequence_allocation lib pipeline rule_index) ∷ rest)

  module _ (sequence_values : List (Option (List (Option ℕ)))) (overrides : OverrideMap)
      (policy : TargetPolicy) where
    abbrev pub row_of : ℕ → SourceSnapshot → TraceBudget → PlanRow × TraceBudget
    row_of source_index source budget =
        build_row lib pipeline source_index source sequence_values
          (find_override overrides source.id) policy budget

    -- The loop over the sources.
    unfoldable pub rows_loop : ℕ → List SourceSnapshot → TraceBudget → Polled (List PlanRow)
    unfolding check_at
    rows_loop source_index [] budget = pure []
    rows_loop source_index (source ∷ sources) budget = do
      check_at source_index
      rest ← rows_loop (suc source_index) sources (row_of source_index source budget).1
      pure ((row_of source_index source budget).0 ∷ rest)

  -- The marks, with a poll before each and one behind the last.
  unfoldable pub mark_rows : PlanBuildContext → List PlanRow → Polled (List PlanRow)
  mark_rows context rows = do
    check_continue
    stale ← pure (mark_stale_sources rows context.environment)
    check_continue
    nested ← pure (mark_ancestor_conflicts stale context.environment)
    check_continue
    parents ← pure (mark_unavailable_parents nested context.environment)
    check_continue
    unique ← pure (mark_duplicates lib.to_lowercase context.policy parents)
    check_continue
    marked ←
        pure (mark_occupied_destinations lib.to_lowercase context.policy unique context.environment)
    check_continue
    pure marked

  unfoldable pub checked_plan :
      PlanId → ℕ → List SourceSnapshot → PlanBuildContext → OverrideMap → Polled RenamePlan
  unfolding sequence_loop rows_loop mark_rows
  checked_plan plan_id generation sources context overrides = do
    sequence_values ← sequence_loop sources 0 pipeline.rules
    rows ← rows_loop sequence_values overrides context.policy 0 sources new_budget
    marked ← mark_rows context rows
    pure (new_plan plan_id generation marked)

  unfoldable pub build_plan_polled :
      PlanId → ℕ → List SourceSnapshot → List NameOverride → PlanBuildContext → Polled RenamePlan
  unfolding checked_plan
  build_plan_polled plan_id generation sources overrides context = do
    check_continue
    (elim (validate_overrides sources overrides) [
      | none ↦ pure (invalid_rule_plan plan_id generation sources)
      | some validated ↦ checked_plan plan_id generation sources context validated
    ])

  unfoldable pub build_plan_with_rule_pipeline_overrides_and_environment_cancellable :
      PlanId
      → ℕ
      → List SourceSnapshot
      → List NameOverride
      → PlanBuildContext
      → (ℕ → Bool)
      → Option RenamePlan
  build_plan_with_rule_pipeline_overrides_and_environment_cancellable plan_id generation sources
        overrides context should_cancel =
      Option.map (λ r. r.0)
        (build_plan_polled plan_id generation sources overrides context should_cancel 0)

  unfoldable pub build_plan_with_rule_pipeline_overrides_and_environment :
      PlanId
      → ℕ
      → List SourceSnapshot
      → List NameOverride
      → TargetPolicy
      → ValidationEnvironment
      → RenamePlan
  build_plan_with_rule_pipeline_overrides_and_environment plan_id generation sources overrides
        policy environment =
      elim (build_plan_with_rule_pipeline_overrides_and_environment_cancellable plan_id generation
        sources overrides (record { policy = policy; environment = environment }) (λ _. false)) [
          | some plan ↦ plan
          | none ↦ new_plan plan_id generation []
        ]

  unfoldable pub build_plan_with_rule_pipeline_and_environment :
      PlanId → ℕ → List SourceSnapshot → TargetPolicy → ValidationEnvironment → RenamePlan
  build_plan_with_rule_pipeline_and_environment plan_id generation sources policy environment =
      build_plan_with_rule_pipeline_overrides_and_environment plan_id generation sources [] policy
        environment

  unfoldable pub build_plan_with_rule_pipeline :
      PlanId → ℕ → List SourceSnapshot → TargetPolicy → RenamePlan
  build_plan_with_rule_pipeline plan_id generation sources policy =
      build_plan_with_rule_pipeline_and_environment plan_id generation sources policy
        default_environment

module _ (lib : Libraries) where
  unfoldable pub build_plan_with_environment :
      PlanId
      → ℕ
      → List SourceSnapshot
      → List RenameRule
      → TargetPolicy
      → ValidationEnvironment
      → RenamePlan
  build_plan_with_environment plan_id generation sources rules policy environment =
      elim (compile lib rules) [
        | err e ↦ invalid_rule_plan plan_id generation sources
        | ok pipeline ↦
            build_plan_with_rule_pipeline_and_environment lib pipeline plan_id generation sources
              policy environment
      ]

  unfoldable pub build_plan :
      PlanId → ℕ → List SourceSnapshot → List RenameRule → TargetPolicy → RenamePlan
  build_plan plan_id generation sources rules policy =
      build_plan_with_environment plan_id generation sources rules policy default_environment
