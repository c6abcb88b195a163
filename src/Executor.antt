-- ===== src/Executor.antt =====
-- crates/renamewright-platform/src/executor.rs, with the error kinds and the trait of execution_fs.rs: the
-- execution of a frozen plan. The file system, the journal and the answers to `should_cancel` are
-- parameters; a run passes on the states of the first two and the number of polls so far.
pub mod Steps
pub mod Rollback
pub mod Forward
pub mod Follow
pub mod Numbered
pub mod Undoing
pub mod Advances
pub mod Loops
pub mod Frozen
pub mod Outcome
pub mod Start
pub mod Crash
use renamewright.Common.{
  ℕ, List, [], ◌∷◌, map, Option, none, some, Bool, true, false, ◌==◌, leb, if◌then◌else◌, Result,
  ok, ◌>>=◌, length,
}
use renamewright.Text.{OsString}
use renamewright.Model.Source.{SourceId, PlanId}
use renamewright.Execution.Schedule.{
  ExecutionPhase, source_to_temporary, temporary_to_final, ExecutionStep, ScheduleError,
  build_two_phase_schedule,
}
use renamewright.Execution.Journal.{
  ExecutionDirection, RollbackCause, ExecutionIdentity, JournalEntry, JournalRecord,
  transaction_started,
}
use renamewright.Writer.{JournalStorageErrorKind}

abbrev pub forward_journal_batch_steps : ℕ
forward_journal_batch_steps = 32

pub data ExecutionFsErrorKind : Type 0 where
  invalid_component : ExecutionFsErrorKind
  source_unavailable : ExecutionFsErrorKind
  unsupported_entry : ExecutionFsErrorKind
  unsupported_platform : ExecutionFsErrorKind
  unsupported_file_system : ExecutionFsErrorKind
  stale_identity : ExecutionFsErrorKind
  destination_exists : ExecutionFsErrorKind
  access_denied : ExecutionFsErrorKind
  sharing_violation : ExecutionFsErrorKind
  post_rename_identity_unavailable : ExecutionFsErrorKind
  post_rename_identity_mismatch : ExecutionFsErrorKind
  io_failure : ExecutionFsErrorKind

pub data ExecutionRecoveryReason : Type 0 where
  journal_failed : JournalStorageErrorKind → ExecutionRecoveryReason
  ambiguous_filesystem : ExecutionFsErrorKind → ExecutionRecoveryReason
  rollback_failed : ExecutionFsErrorKind → ExecutionRecoveryReason
  invalid_frozen_plan : ExecutionRecoveryReason

pub record ExecutionRecovery : Type 0 where
  pub direction : ExecutionDirection
  pub step_index : Option ℕ
  pub reason : ExecutionRecoveryReason

pub data ExecutionOutcome : Type 0 where
  completed : ExecutionOutcome
  rolled_back : RollbackCause → ExecutionOutcome
  recovery_required : ExecutionRecovery → ExecutionOutcome

-- `ExecutionFileSystem::rename_no_replace_in_parent`: parent, names, identity of the parent, identity.
pub record ExecutionFileSystem : Type 1 where
  pub Files : Type 0
  pub rename_no_replace_in_parent :
      Files
      → OsString
      → OsString
      → OsString
      → ExecutionIdentity
      → ExecutionIdentity
      → Files × Result ExecutionFsErrorKind ExecutionIdentity

abbrev pub Appended : Type 0 → Type 0
Appended Log = Log × Result JournalStorageErrorKind (Unit {0})

-- `ExecutionJournal`.
pub record ExecutionJournal : Type 1 where
  pub Log : Type 0
  pub append : Log → JournalRecord → Appended Log
  pub append_completion : Log → JournalRecord → Appended Log
  pub forward_batch_size : Log → ℕ

-- `ExecutionPlanView`.
pub record ExecutionPlanView : Type 0 where
  pub schedule : List ExecutionStep
  pub entry : SourceId → Option (JournalEntry × OsString)

pub record FrozenExecutionEntry : Type 0 where
  pub journal_entry : JournalEntry
  pub parent : OsString

pub record FrozenExecutionPlan : Type 0 where
  pub plan_id : PlanId
  pub source_generation : ℕ
  pub entries : List FrozenExecutionEntry
  pub schedule : List ExecutionStep

unfoldable pub initial_record : FrozenExecutionPlan → JournalRecord
initial_record plan =
    transaction_started plan.plan_id plan.source_generation (length plan.schedule)
      (map (λ entry. entry.journal_entry) plan.entries)

-- The binary search by the source, which no two entries share.
unfoldable pub find_entry : List FrozenExecutionEntry → SourceId → Option (JournalEntry × OsString)
find_entry [] source_id = none
find_entry (entry ∷ entries) source_id =
    if entry.journal_entry.source_id == source_id
    then some (entry.journal_entry, entry.parent)
    else find_entry entries source_id

unfoldable pub view : FrozenExecutionPlan → ExecutionPlanView
unfolding find_entry
view plan = record { schedule = plan.schedule; entry = find_entry plan.entries }

-- `sort_by_key` on the source, which is stable.
unfoldable pub insert_entry :
    FrozenExecutionEntry → List FrozenExecutionEntry → List FrozenExecutionEntry
insert_entry entry [] = entry ∷ []
insert_entry entry (first ∷ entries) =
    if leb entry.journal_entry.source_id first.journal_entry.source_id
    then entry ∷ first ∷ entries
    else first ∷ insert_entry entry entries

unfoldable pub sort_entries : List FrozenExecutionEntry → List FrozenExecutionEntry
unfolding insert_entry
sort_entries [] = []
sort_entries (entry ∷ entries) = insert_entry entry (sort_entries entries)

unfoldable pub from_entries :
    PlanId → ℕ → List FrozenExecutionEntry → Result ScheduleError FrozenExecutionPlan
unfolding sort_entries
from_entries plan_id source_generation entries = do
  schedule ←
      build_two_phase_schedule (map (λ entry. entry.journal_entry.source_id) (sort_entries entries))
  ok (record {
    plan_id = plan_id;
    source_generation = source_generation;
    entries = sort_entries entries;
    schedule = schedule;
  })

abbrev pub filesystem_error_is_ambiguous : ExecutionFsErrorKind → Bool
filesystem_error_is_ambiguous post_rename_identity_unavailable = true
filesystem_error_is_ambiguous post_rename_identity_mismatch = true
filesystem_error_is_ambiguous kind = false

unfoldable pub recovery_outcome :
    ExecutionDirection → Option ℕ → ExecutionRecoveryReason → ExecutionOutcome
recovery_outcome direction step_index reason =
    recovery_required (record { direction = direction; step_index = step_index; reason = reason })

abbrev pub forward_names : JournalEntry → ExecutionPhase → OsString × OsString
forward_names entry source_to_temporary = (entry.names.original_name, entry.names.temporary_name)
forward_names entry temporary_to_final = (entry.names.temporary_name, entry.names.final_name)

abbrev pub rollback_names : JournalEntry → ExecutionPhase → OsString × OsString
rollback_names entry phase =
    let (source_name, target_name) = forward_names entry phase in (target_name, source_name)
