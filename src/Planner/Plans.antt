-- ===== src/Planner/Plans.antt =====
-- What a plan of crates/renamewright-core/src/planner.rs keeps of its sources, and which plans can be
-- applied.
use renamewright.Common.{
  Bool-cases, ◌≢◌, All, ℕ, ◌≡◌, inl, inr, refl, Bool, true, false, List, [], ◌∷◌, map,
}
use renamewright.Model.Source.{PlanId, SourceSnapshot}
use renamewright.Model.Row.{status_for, new_row, NameStatus, PlanRow}
use renamewright.Model.Plan.{RenamePlan, new_plan, can_apply}
use renamewright.Rules.Types.{Libraries}
use renamewright.Planner.Advance.{Guarded, Each, Each-trans, AllAdvance}
use renamewright.Planner.Budget.{total, new_plan-total}
use renamewright.Planner.Row.{max_plan_trace_bytes}
use renamewright.Common.{arith, ◌≤◌}
use renamewright.Planner.Follow.{Follows, Follows-Advances, new_row-Follows}
use renamewright.Planner.Guards.{IsMarked, is_stale, is_nested, has_no_parent, takes_occupied}
use renamewright.Model.Diagnostic.{blocked_diagnostic, invalid_rule}
use renamewright.Model.Counters.{SomeChanged, can_apply-new_plan}
use renamewright.Planner.Duplicates.{shares_destination}
use renamewright.Planner.Build.{PlanBuildContext, invalid_rule_plan}

abbrev pub AllFollow : List SourceSnapshot → List PlanRow → Type 0
AllFollow = Each Follows

-- The environment does not forbid the row, and no other of `all` goes where it goes.
pub record IsClear (lib : Libraries) (context : PlanBuildContext) (all : List PlanRow)
    (row : PlanRow) : Type 0 where
  pub stale : is_stale context.environment row ≡ false
  pub nested : is_nested context.environment row ≡ false
  pub parent : has_no_parent context.environment row ≡ false
  pub occupied : takes_occupied lib context row ≡ false
  pub unique : shares_destination lib.to_lowercase context.policy all row ≡ false

-- The plan has a row for each source, in order, and can be applied only if the environment forbids
-- none of them and no two go to one destination.
pub record IsPlanOf (lib : Libraries) (plan_id : PlanId) (generation : ℕ)
    (sources : List SourceSnapshot) (context : PlanBuildContext) (plan : RenamePlan) : Type 0 where
  pub id : plan.id ≡ plan_id
  pub generation_kept : plan.generation ≡ generation
  pub follows : AllFollow sources plan.rows
  pub retained : plan.retained_bytes ≤ max_plan_trace_bytes
  pub applies : can_apply plan ≡ true → All (IsClear lib context plan.rows) plan.rows

unguarded :
    (test : PlanRow → Bool) (row : PlanRow)
    → Guarded test row
    → row.status ≢ NameStatus.blocked
    → test row ≡ false
unguarded test row g free = elim (Bool-cases (test row)) [ inl h ↦ absurd (free (g h)) | inr h ↦ h ]

marked_rows-IsClear :
    (lib : Libraries) (context : PlanBuildContext) (all rows : List PlanRow)
    → IsMarked lib context all rows
    → All (λ row. row.status ≢ NameStatus.blocked) rows
    → All (IsClear lib context all) rows
marked_rows-IsClear lib context all [] m _ = tt
marked_rows-IsClear lib context all (row ∷ rows) m (free, frees) = (
  record {
    stale = unguarded (is_stale context.environment) row m.stale.0 free;
    nested = unguarded (is_nested context.environment) row m.nested.0 free;
    parent = unguarded (has_no_parent context.environment) row m.parent.0 free;
    occupied = unguarded (takes_occupied lib context) row m.occupied.0 free;
    unique = unguarded (shares_destination lib.to_lowercase context.policy all) row m.unique.0 free;
  },
  marked_rows-IsClear lib context all rows
      (record {
        stale = m.stale.1;
        nested = m.nested.1;
        parent = m.parent.1;
        occupied = m.occupied.1;
        unique = m.unique.1;
      })
      frees,
)

pub marked_rows-IsPlanOf :
    (lib : Libraries) (plan_id : PlanId) (generation : ℕ) (sources : List SourceSnapshot)
    (context : PlanBuildContext) (rows : List PlanRow)
    → AllFollow sources rows
    → total rows ≤ max_plan_trace_bytes
    → IsMarked lib context rows rows
    → IsPlanOf lib plan_id generation sources context (new_plan plan_id generation rows)
unfolding new_plan
marked_rows-IsPlanOf lib plan_id generation sources context rows f small m = record {
  id = refl;
  generation_kept = refl;
  follows = f;
  retained = omega (arith, new_plan-total plan_id generation rows);
  applies = λ h.
      marked_rows-IsClear lib context rows rows m
        (((can_apply-new_plan plan_id generation rows).2.0 h).1);
}

unfoldable invalid_row : SourceSnapshot → PlanRow
invalid_row s = new_row s s.native_name [] (blocked_diagnostic invalid_rule ∷ [])

invalid_rows-Follow : (sources : List SourceSnapshot) → AllFollow sources (map invalid_row sources)
unfolding invalid_row
invalid_rows-Follow [] = tt
invalid_rows-Follow (s ∷ sources) = (
  new_row-Follows s s.native_name [] (blocked_diagnostic invalid_rule ∷ []),
  invalid_rows-Follow sources,
)

invalid_rows-unchanged : (sources : List SourceSnapshot) → ¬ SomeChanged (map invalid_row sources)
unfolding invalid_row new_row blocked_diagnostic status_for
invalid_rows-unchanged [] h = h
invalid_rows-unchanged (s ∷ sources) (inl h) = cc
invalid_rows-unchanged (s ∷ sources) (inr h) = invalid_rows-unchanged sources h

invalid_rows-total : (sources : List SourceSnapshot) → total (map invalid_row sources) ≡ 0
unfolding invalid_row new_row
invalid_rows-total [] = refl
invalid_rows-total (s ∷ sources) = omega (arith, invalid_rows-total sources)

pub invalid_rule_plan-IsPlanOf :
    (lib : Libraries) (plan_id : PlanId) (generation : ℕ) (sources : List SourceSnapshot)
    (context : PlanBuildContext)
    → IsPlanOf lib plan_id generation sources context (invalid_rule_plan plan_id generation sources)
unfolding invalid_rule_plan new_plan invalid_row
invalid_rule_plan-IsPlanOf lib plan_id generation sources context = record {
  id = refl;
  generation_kept = refl;
  follows = invalid_rows-Follow sources;
  retained = omega (
    arith,
    new_plan-total plan_id generation (map invalid_row sources),
    invalid_rows-total sources,
  );
  applies = λ h. absurd (
      invalid_rows-unchanged sources
        (((can_apply-new_plan plan_id generation (map invalid_row sources)).2.0 h).0));
}

pub each_follow :
    (sources : List SourceSnapshot) (before after : List PlanRow)
    → AllFollow sources before
    → AllAdvance before after
    → AllFollow sources after
each_follow sources before after = Each-trans Follows-Advances sources before after
