-- ===== src/Executor/Steps.antt =====
-- crates/renamewright-platform/src/executor.rs: the state of a run, and the parts of a step that both
-- directions share.
use renamewright.Common.{ℕ, Option, none, some, Result, err, ok}
use renamewright.Text.{OsString}
use renamewright.Execution.Schedule.{ExecutionStep}
use renamewright.Execution.Journal.{
  ExecutionDirection, forward, ExecutionIdentity, JournalEntry, JournalRecord,
  transaction_completed,
}
use renamewright.Writer.{JournalStorageErrorKind}
use renamewright.Executor.{
  ExecutionOutcome, ExecutionFsErrorKind, journal_failed, invalid_frozen_plan, ExecutionFileSystem,
  Appended, ExecutionJournal, ExecutionPlanView, recovery_outcome,
}

module _ (filesystem : ExecutionFileSystem) (journal : ExecutionJournal)
    (plan : ExecutionPlanView) where
  pub record World : Type 0 where
    pub files : filesystem.Files
    pub log : journal.Log
    pub polls : ℕ

  abbrev pub Executed : Type 0
  Executed = World × ExecutionOutcome

  -- An early return, or the state with which the code goes on.
  abbrev pub Running : Type 0 → Type 0
  Running A = Result Executed (World × A)

  unfoldable pub logged :
      World
      → Appended journal.Log
      → (JournalStorageErrorKind → ExecutionOutcome)
      → Running (Unit {0})
  logged world (log, ok done) failed = ok (record world { log = log }, tt)
  logged world (log, err kind) failed = err (record world { log = log }, failed kind)

  unfoldable pub record_step :
      World → JournalRecord → ExecutionDirection → Option ℕ → Running (Unit {0})
  unfolding logged recovery_outcome
  record_step world journal_record direction step_index =
      logged world (journal.append world.log journal_record)
        λ kind. recovery_outcome direction step_index (journal_failed kind)

  unfoldable pub record_completion :
      World → JournalRecord → ExecutionDirection → Option ℕ → Running (Unit {0})
  unfolding logged recovery_outcome
  record_completion world journal_record direction step_index =
      logged world (journal.append_completion world.log journal_record)
        λ kind. recovery_outcome direction step_index (journal_failed kind)

  -- The entry of the step with the identity of its parent.
  unfoldable pub planned :
      World
      → ExecutionStep
      → ExecutionDirection
      → Running (JournalEntry × OsString × ExecutionIdentity)
  unfolding recovery_outcome
  planned world step direction = elim (plan.entry step.source_id) [
    | none ↦ err (world, recovery_outcome direction (some step.index) invalid_frozen_plan)
    | some (entry, parent) ↦ elim entry.parent_execution_identity [
      | none ↦ err (world, recovery_outcome direction (some step.index) invalid_frozen_plan)
      | some identity ↦ ok (world, (entry, parent, identity))
    ]
  ]

  -- The end of a run.
  unfoldable pub conclude : Running (Unit {0}) → ExecutionOutcome → Executed
  conclude (ok (world, done)) outcome = (world, outcome)
  conclude (err executed) outcome = executed

  unfoldable pub complete_transaction : World → Executed
  unfolding conclude record_step
  complete_transaction world =
      conclude (record_step world transaction_completed forward none) ExecutionOutcome.completed

  unfoldable pub rename :
      World
      → JournalEntry × OsString × ExecutionIdentity
      → OsString × OsString
      → World × Result ExecutionFsErrorKind ExecutionIdentity
  rename world (entry, parent, parent_identity) (source_name, target_name) =
      let (files, result) =
        filesystem.rename_no_replace_in_parent world.files parent source_name target_name
          parent_identity entry.execution_identity in
      (record world { files = files }, result)
