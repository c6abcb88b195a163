-- ===== src/Planner/Decisions.antt =====
-- The planner of crates/renamewright-core/src/planner.rs decides on one plan, whatever is polled.
use renamewright.Planner.Plans.{
  AllFollow, IsPlanOf, marked_rows-IsPlanOf, invalid_rule_plan-IsPlanOf, each_follow,
}
use renamewright.Common.{
  ℕ, suc, ◌%◌, ◌==◌, Bool, true, false, if◌then◌else◌, Option, none, some, List, [], ◌∷◌,
}
use renamewright.Model.Source.{PlanId, SourceSnapshot, TargetPolicy}
use renamewright.Model.Row.{PlanRow}
use renamewright.Model.Plan.{new_plan}
use renamewright.Rules.Types.{RenameRule, RulePipeline, Libraries}
use renamewright.Planner.Overrides.{NameOverride, OverrideMap, validate_overrides}
use renamewright.Planner.Row.{TraceBudget, new_budget}
use renamewright.Planner.Polling.{
  pure, check_continue, Decides, pure-Decides, check_continue-Decides, >>=-Decides,
}
use renamewright.Planner.Budget.{cost, total, total-Advances, build_row-RowWithin}
use renamewright.Planner.Row.{max_plan_trace_bytes}
use renamewright.Common.{arith, ◌≤◌, ◌<◌, ◌+◌, usize_max}
use renamewright.Planner.Overrides.{find_override}
use renamewright.Planner.Follow.{build_row-Follows}
use renamewright.Planner.Guards.{mark_rows-Decides}
use renamewright.Planner.Build.{
  PlanBuildContext, invalid_rule_plan, check_at, sequence_loop, row_of, rows_loop, mark_rows,
  checked_plan, build_plan_polled,
}

check_if : (test : Bool) → Decides (if test then check_continue else pure tt) (λ _. Unit {0})
check_if true = check_continue-Decides
check_if false = pure-Decides (λ _. Unit {0}) tt tt

check_at-Decides : (source_index : ℕ) → Decides (check_at source_index) (λ _. Unit {0})
unfolding check_at
check_at-Decides source_index = check_if (source_index % 64 == 0)

-- Rows of the sources that retain at most `limit` bytes.
abbrev IsBuilt : List SourceSnapshot → ℕ → List PlanRow → Type 0
IsBuilt sources limit rows = AllFollow sources rows × (total rows ≤ limit)

module _ (lib : Libraries) (pipeline : RulePipeline lib.Regex) where
  sequence_loop-Decides :
      (sources : List SourceSnapshot) (rule_index : ℕ) (rules : List RenameRule)
      → Decides (sequence_loop lib pipeline sources rule_index rules) (λ _. Unit {0})
  unfolding sequence_loop
  sequence_loop-Decides sources rule_index [] = pure-Decides (λ _. Unit {0}) [] tt
  sequence_loop-Decides sources rule_index (rule ∷ rules) =
      let ih = sequence_loop-Decides sources (suc rule_index) rules in
      >>=-Decides check_continue _ check_continue-Decides (λ _ _.
        >>=-Decides (sequence_loop lib pipeline sources (suc rule_index) rules) _ ih
          (λ rest _. pure-Decides (λ _. Unit {0}) _ tt))

  rows_loop-Decides :
      (values : List (Option (List (Option ℕ)))) (overrides : OverrideMap) (policy : TargetPolicy)
      (source_index : ℕ) (sources : List SourceSnapshot) (budget : TraceBudget)
      → budget.remaining_bytes < usize_max
      → Decides
          (rows_loop lib pipeline values overrides policy source_index sources budget)
          (IsBuilt sources budget.remaining_bytes)
  unfolding rows_loop
  rows_loop-Decides values overrides policy source_index [] budget small =
      pure-Decides (IsBuilt [] budget.remaining_bytes) [] (tt, omega arith)
  rows_loop-Decides values overrides policy source_index (source ∷ sources) budget small =
      let built = row_of lib pipeline values overrides policy source_index source budget in
      let within : cost built.0.trace + built.1.remaining_bytes ≤ budget.remaining_bytes =
        build_row-RowWithin lib pipeline budget.remaining_bytes small source_index source values
          (find_override overrides source.id) policy budget (omega arith) in
      let ih =
        rows_loop-Decides values overrides policy (suc source_index) sources built.1
          (omega arith) in
      >>=-Decides (check_at source_index) _ (check_at-Decides source_index) (λ _ _.
        >>=-Decides
          (rows_loop lib pipeline values overrides policy (suc source_index) sources built.1) _ ih
          (λ rest h.
            pure-Decides (IsBuilt (source ∷ sources) budget.remaining_bytes) (built.0 ∷ rest) (
              (build_row-Follows lib pipeline source_index source values _ policy budget, h.0),
              omega (arith, h.1, within),
            )))

  pub build_plan_polled-Decides :
      (plan_id : PlanId) (generation : ℕ) (sources : List SourceSnapshot)
      (overrides : List NameOverride) (context : PlanBuildContext)
      → Decides
          (build_plan_polled lib pipeline plan_id generation sources overrides context)
          (IsPlanOf lib plan_id generation sources context)
  unfolding build_plan_polled checked_plan
  build_plan_polled-Decides plan_id generation sources overrides context =
      >>=-Decides check_continue _ check_continue-Decides (λ _ _.
        go (validate_overrides sources overrides) (λ values validated.
          rows_loop-Decides values validated context.policy 0 sources new_budget (omega arith)))
    where
      go :
          (valid : Option OverrideMap)
          → ((values : List (Option (List (Option ℕ)))) (validated : OverrideMap)
              → Decides
                  (rows_loop lib pipeline values validated context.policy 0 sources new_budget)
                  (IsBuilt sources max_plan_trace_bytes))
          → Decides
              (elim valid [
                | none ↦ pure (invalid_rule_plan plan_id generation sources)
                | some validated ↦
                    checked_plan lib pipeline plan_id generation sources context validated
              ])
              (IsPlanOf lib plan_id generation sources context)
      go none rows =
          pure-Decides (IsPlanOf lib plan_id generation sources context) _
            (invalid_rule_plan-IsPlanOf lib plan_id generation sources context)
      go (some validated) rows =
          >>=-Decides (sequence_loop lib pipeline sources 0 pipeline.rules) _
            (sequence_loop-Decides sources 0 pipeline.rules)
            (λ values _.
              >>=-Decides
                (rows_loop lib pipeline values validated context.policy 0 sources new_budget) _
                (rows values validated)
                (λ built h.
                  >>=-Decides (mark_rows lib pipeline context built) _
                    (mark_rows-Decides lib pipeline context built)
                    (λ marked g.
                      pure-Decides (IsPlanOf lib plan_id generation sources context)
                        (new_plan plan_id generation marked)
                        (marked_rows-IsPlanOf lib plan_id generation sources context marked
                          (each_follow sources built marked h.0 g.0)
                          (omega (arith, total-Advances built marked g.0, h.1)) g.1))))
