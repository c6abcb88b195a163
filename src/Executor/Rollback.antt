-- ===== src/Executor/Rollback.antt =====
-- crates/renamewright-platform/src/executor.rs: `start_rollback` and `continue_rollback`.
use renamewright.Common.{
  ℕ, zero, suc, List, [], ◌∷◌, reverse, none, some, ltb, if◌then◌else◌, Result, err, ok, ◌>>=◌,
  length, take,
}
use renamewright.Execution.Schedule.{ExecutionStep}
use renamewright.Execution.Journal.{
  rollback, RollbackCause, ExecutionIdentity, rollback_started, rollback_step_prepared,
  rollback_step_completed, rollback_step_failed, transaction_rolled_back,
}
use renamewright.Executor.{
  ExecutionFsErrorKind, ExecutionOutcome, ambiguous_filesystem, rollback_failed,
  invalid_frozen_plan, ExecutionFileSystem, ExecutionJournal, ExecutionPlanView,
  filesystem_error_is_ambiguous, recovery_outcome, rollback_names,
}
use renamewright.Executor.Steps.{
  World, Executed, Running, record_step, record_completion, planned, conclude, rename,
}

module _ (filesystem : ExecutionFileSystem) (journal : ExecutionJournal)
    (plan : ExecutionPlanView) where
  abbrev Here : Type 0
  Here = World filesystem journal plan

  unfoldable pub complete_rollback : Here → RollbackCause → Executed filesystem journal plan
  unfolding conclude record_step
  complete_rollback world cause =
      conclude filesystem journal plan
        (record_step filesystem journal plan world transaction_rolled_back rollback none)
        (ExecutionOutcome.rolled_back cause)

  -- What follows the rename of a rollback step.
  unfoldable pub undone :
      Here
      → ExecutionStep
      → Result ExecutionFsErrorKind ExecutionIdentity
      → Running filesystem journal plan (Unit {0})
  unfolding record_completion record_step recovery_outcome
  undone world step (ok identity) =
      record_completion filesystem journal plan world (rollback_step_completed step.index identity)
        rollback (some step.index)
  undone world step (err kind) =
      if filesystem_error_is_ambiguous kind
      then err (world, recovery_outcome rollback (some step.index) (ambiguous_filesystem kind))
      else record_step filesystem journal plan world (rollback_step_failed step.index) rollback
          (some step.index)
        >>= λ (failed, done).
            err (failed, recovery_outcome rollback (some step.index) (rollback_failed kind))

  unfoldable pub rollback_step : Here → ExecutionStep → Running filesystem journal plan (Unit {0})
  unfolding record_step planned undone rename
  rollback_step world step = do
    (prepared, done) ←
        record_step filesystem journal plan world (rollback_step_prepared step.index) rollback
          (some step.index)
    (same, target) ← planned filesystem journal plan prepared step rollback
    let (renamed, result) =
        rename filesystem journal plan same target (rollback_names target.0 step.phase)
    undone renamed step result

  unfoldable pub rollback_loop :
      List ExecutionStep → Here → Running filesystem journal plan (Unit {0})
  unfolding rollback_step
  rollback_loop [] world = ok (world, tt)
  rollback_loop (step ∷ steps) world = do
    (next, done) ← rollback_step world step
    rollback_loop steps next

  unfoldable pub continue_rollback : Here → ℕ → RollbackCause → Executed filesystem journal plan
  unfolding rollback_loop complete_rollback recovery_outcome
  continue_rollback world next_step cause =
      if ltb next_step (length plan.schedule)
      then elim (rollback_loop (reverse (take (suc next_step) plan.schedule)) world) [
        | ok (last, done) ↦ complete_rollback last cause
        | err executed ↦ executed
      ]
      else (world, recovery_outcome rollback (some next_step) invalid_frozen_plan)

  -- The steps to undo, if any.
  unfoldable pub roll_back : ℕ → Here → RollbackCause → Executed filesystem journal plan
  unfolding continue_rollback complete_rollback
  roll_back zero world cause = complete_rollback world cause
  roll_back (suc next_step) world cause = continue_rollback world next_step cause

  unfoldable pub start_rollback : Here → ℕ → RollbackCause → Executed filesystem journal plan
  unfolding record_step roll_back
  start_rollback world completed_count cause =
      elim (record_step filesystem journal plan world (rollback_started cause) rollback none) [
        | ok (started, done) ↦ roll_back completed_count started cause
        | err executed ↦ executed
      ]
