-- ===== src/Executor/Forward.antt =====
-- crates/renamewright-platform/src/executor.rs: `continue_forward` and `execute_with_journal`. The n-th
-- call of `should_cancel` answers `should_cancel n`.
use renamewright.Common.{
  ℕ, zero, suc, List, [], ◌∷◌, some, Bool, ◌==◌, leb, if◌then◌else◌, max, Result, err, ok, ◌>>=◌,
  length, take, drop,
}
use renamewright.Execution.Schedule.{ExecutionStep}
use renamewright.Execution.Journal.{
  ExecutionIdentity, forward, cancelled, forward_step_failed, forward_batch_prepared,
  forward_step_prepared, forward_step_completed,
}
use renamewright.Executor.{
  ExecutionFsErrorKind, ExecutionFileSystem, ExecutionJournal, ExecutionPlanView,
  FrozenExecutionPlan, view, ambiguous_filesystem, invalid_frozen_plan,
  filesystem_error_is_ambiguous, recovery_outcome, forward_names,
}
use renamewright.Executor.Steps.{
  World, Executed, Running, record_step, record_completion, planned, rename, complete_transaction,
}
use renamewright.Executor.Rollback.{start_rollback}

module _ (filesystem : ExecutionFileSystem) (journal : ExecutionJournal) (plan : ExecutionPlanView)
    (should_cancel : ℕ → Bool) where
  abbrev pub Here : Type 0
  Here = World filesystem journal plan

  -- `append_forward_batch`.
  unfoldable pub record_batch : Here → ℕ → ℕ → Running filesystem journal plan (Unit {0})
  record_batch world first_step step_count =
      record_step filesystem journal plan world
        (if step_count == 1
          then forward_step_prepared first_step
          else forward_batch_prepared first_step step_count)
        forward (some first_step)

  -- What follows the rename of a forward step.
  unfoldable pub done_forward :
      Here
      → ExecutionStep
      → ℕ
      → Result ExecutionFsErrorKind ExecutionIdentity
      → Running filesystem journal plan ℕ
  done_forward world step completed_count (ok identity) =
      record_completion filesystem journal plan world (forward_step_completed step.index identity)
        forward (some step.index)
      >>= λ (next, done). ok (next, suc completed_count)
  done_forward world step completed_count (err kind) =
      if filesystem_error_is_ambiguous kind
      then err (world, recovery_outcome forward (some step.index) (ambiguous_filesystem kind))
      else err (
          start_rollback filesystem journal plan world completed_count
            (forward_step_failed step.index))

  unfoldable pub attempt_step : Here → ExecutionStep → ℕ → Running filesystem journal plan ℕ
  unfolding done_forward
  attempt_step world step completed_count = do
    (same, target) ← planned filesystem journal plan world step forward
    let (renamed, result) =
        rename filesystem journal plan same target (forward_names target.0 step.phase)
    done_forward renamed step completed_count result

  -- The steps of a batch.
  unfoldable pub step_loop : List ExecutionStep → Here → ℕ → Running filesystem journal plan ℕ
  unfolding attempt_step
  step_loop [] world completed_count = ok (world, completed_count)
  step_loop (step ∷ steps) world completed_count =
      let polled : Here = record world { polls = suc world.polls } in
      if should_cancel world.polls
      then err (start_rollback filesystem journal plan polled completed_count cancelled)
      else attempt_step polled step completed_count >>= λ (next, count). step_loop steps next count

  -- `chunks(batch_size)`, on as much fuel as there are steps.
  unfoldable pub batch_loop :
      ℕ → ℕ → List ExecutionStep → Here → ℕ → Running filesystem journal plan ℕ
  unfolding record_batch step_loop
  batch_loop fuel batch_size [] world completed_count = ok (world, completed_count)
  batch_loop zero batch_size (step ∷ steps) world completed_count = ok (world, completed_count)
  batch_loop (suc fuel) batch_size (step ∷ steps) world completed_count = do
    let batch : List ExecutionStep = take batch_size (step ∷ steps)
    (prepared, done) ← record_batch world step.index (length batch)
    (next, count) ← step_loop batch prepared completed_count
    batch_loop fuel batch_size (drop batch_size (step ∷ steps)) next count

  unfoldable pub continue_forward : Here → ℕ → Executed filesystem journal plan
  unfolding batch_loop
  continue_forward world next_step =
      if leb next_step (length plan.schedule)
      then elim (batch_loop (length plan.schedule) (max (journal.forward_batch_size world.log) 1)
          (drop next_step plan.schedule) world next_step) [
            | ok (last, count) ↦ complete_transaction filesystem journal plan last
            | err executed ↦ executed
          ]
      else (world, recovery_outcome forward (some next_step) invalid_frozen_plan)

unfoldable pub execute_with_journal :
    (filesystem : ExecutionFileSystem) (journal : ExecutionJournal) (plan : FrozenExecutionPlan)
    → (ℕ → Bool)
    → World filesystem journal (view plan)
    → Executed filesystem journal (view plan)
unfolding continue_forward
execute_with_journal filesystem journal plan should_cancel world =
    continue_forward filesystem journal (view plan) should_cancel world 0
