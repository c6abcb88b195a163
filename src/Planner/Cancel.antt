-- ===== src/Planner/Cancel.antt =====
-- Cancellation of the planner (crates/renamewright-core/src/planner.rs).
use renamewright.Planner.Plans.{IsPlanOf}
use renamewright.Planner.Decisions.{build_plan_polled-Decides}
use mathlib.Core.Option
use renamewright.Common.{
  sym, subst, ◌∙◌, ℕ, ◌≡◌, ◌⊎◌, inl, inr, ap, Bool, true, false, Option, none, some, List, [],
}
use renamewright.Model.Source.{PlanId, SourceSnapshot}
use renamewright.Model.Plan.{RenamePlan, new_plan}
use renamewright.Rules.Types.{RulePipeline, Libraries}
use renamewright.Planner.Overrides.{NameOverride}
use renamewright.Planner.Polling.{Determined}
use renamewright.Planner.Build.{
  PlanBuildContext, build_plan_polled,
  build_plan_with_rule_pipeline_overrides_and_environment_cancellable,
  build_plan_with_rule_pipeline_overrides_and_environment,
}

module _ (lib : Libraries) (pipeline : RulePipeline lib.Regex) (plan_id : PlanId) (generation : ℕ)
    (sources : List SourceSnapshot) (overrides : List NameOverride)
    (context : PlanBuildContext) where
  abbrev uncancelled : RenamePlan
  uncancelled =
      build_plan_with_rule_pipeline_overrides_and_environment lib pipeline plan_id generation
        sources overrides context.policy context.environment

  abbrev picked : Option RenamePlan → RenamePlan
  picked built = elim built [ some plan ↦ plan | none ↦ new_plan plan_id generation [] ]

  decided :
      (plan : RenamePlan)
      → Determined
          (build_plan_polled lib pipeline plan_id generation sources overrides context)
          plan
      → uncancelled ≡ plan
  unfolding build_plan_with_rule_pipeline_overrides_and_environment
      build_plan_with_rule_pipeline_overrides_and_environment_cancellable
  decided plan h = elim (h (λ _. false) 0) [
    | inl (k, e, _) ↦ absurd cc
    | inr (k, e) ↦ ap picked (ap (Option.map (λ r. r.0)) e)
  ]

  -- Whatever a caller answers when the planner asks it whether to stop, the planner gives no plan only
  -- when some answer was to stop, and else exactly the plan that it builds uncancelled.
  pub build_plan-cancelled :
      (should_cancel : ℕ → Bool)
      → let built =
          build_plan_with_rule_pipeline_overrides_and_environment_cancellable lib pipeline plan_id
            generation sources overrides context should_cancel in
        ((k : ℕ) × (should_cancel k ≡ true) × (built ≡ none)) ⊎ (built ≡ some uncancelled)
  unfolding build_plan_with_rule_pipeline_overrides_and_environment_cancellable
  build_plan-cancelled should_cancel =
      let d = build_plan_polled-Decides lib pipeline plan_id generation sources overrides context in
      elim (d.2 should_cancel 0) [
        | inl (k, e, h) ↦ inl (k, e, ap (Option.map (λ r. r.0)) h)
        | inr (k, h) ↦ inr (ap (Option.map (λ r. r.0)) h ∙ ap some (sym (decided d.0 d.2)))
      ]

  -- A plan carries its identity and its generation, and has one row for each source, in order, with the
  -- identity, the parent, the kind and the name of that source. By its counter, its traces retain at
  -- most 8 MiB. It can be applied only if no row is
  -- stale, in conflict with an ancestor, without its parent or headed for an occupied name, and no two
  -- rows have one destination.
  pub build_plan-IsPlanOf : IsPlanOf lib plan_id generation sources context uncancelled
  build_plan-IsPlanOf =
      let d = build_plan_polled-Decides lib pipeline plan_id generation sources overrides context in
      subst (IsPlanOf lib plan_id generation sources context) (sym (decided d.0 d.2)) d.1
