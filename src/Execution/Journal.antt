-- ===== src/Execution/Journal.antt =====
-- crates/renamewright-core/src/execution.rs: identities, journal entries, records and statuses.
use renamewright.Common.{ℕ, Option, none, some, List}
use renamewright.Text.{OsString}
use renamewright.Model.Source.{SourceId, ParentId, PlanId, SourceFingerprint}

pub data ExecutionDirection : Type 0 where
  forward rollback : ExecutionDirection

pub data RollbackCause : Type 0 where
  cancelled : RollbackCause
  forward_step_failed : ℕ → RollbackCause
  recovery_requested : RollbackCause

-- `file_id` holds 16 bytes.
pub record ExecutionIdentity : Type 0 where
  pub volume_serial_number : ℕ
  pub file_id : List ℕ

pub record JournalNameGraph : Type 0 where
  pub original_name : OsString
  pub temporary_name : OsString
  pub final_name : OsString

-- A `PathBuf` is the `OsString` that it wraps.
pub record JournalEntry : Type 0 where
  pub source_id : SourceId
  pub parent_id : ParentId
  pub names : JournalNameGraph
  pub admission_fingerprint : SourceFingerprint
  pub execution_identity : ExecutionIdentity
  pub parent_execution_identity : Option ExecutionIdentity
  pub native_parent : Option OsString
  pub undo_of_plan_id : Option PlanId

unfoldable pub new_entry :
    SourceId → ParentId → JournalNameGraph → SourceFingerprint → ExecutionIdentity → JournalEntry
new_entry source parent names fingerprint identity = record {
  source_id = source;
  parent_id = parent;
  names = names;
  admission_fingerprint = fingerprint;
  execution_identity = identity;
  parent_execution_identity = none;
  native_parent = none;
  undo_of_plan_id = none;
}

unfoldable pub entry_with_native_parent :
    SourceId
    → ParentId
    → JournalNameGraph
    → SourceFingerprint
    → ExecutionIdentity
    → OsString
    → JournalEntry
entry_with_native_parent source parent names fingerprint identity native_parent = record {
  source_id = source;
  parent_id = parent;
  names = names;
  admission_fingerprint = fingerprint;
  execution_identity = identity;
  parent_execution_identity = none;
  native_parent = some native_parent;
  undo_of_plan_id = none;
}

unfoldable pub entry_with_native_parent_identity :
    SourceId
    → ParentId
    → JournalNameGraph
    → SourceFingerprint
    → ExecutionIdentity
    → ExecutionIdentity
    → OsString
    → JournalEntry
entry_with_native_parent_identity source parent names fingerprint identity parent_identity
      native_parent =
    record {
      source_id = source;
      parent_id = parent;
      names = names;
      admission_fingerprint = fingerprint;
      execution_identity = identity;
      parent_execution_identity = some parent_identity;
      native_parent = some native_parent;
      undo_of_plan_id = none;
    }

unfoldable pub into_undo_of : JournalEntry → PlanId → JournalEntry
into_undo_of entry plan_id = record entry { undo_of_plan_id = some plan_id }

pub data JournalRecord : Type 0 where
  -- plan_id, source_generation, step_count, entries
  transaction_started : PlanId → ℕ → ℕ → List JournalEntry → JournalRecord
  -- first_step, step_count
  forward_batch_prepared : ℕ → ℕ → JournalRecord
  forward_step_prepared : ℕ → JournalRecord
  forward_step_completed : ℕ → ExecutionIdentity → JournalRecord
  forward_step_not_applied : ℕ → JournalRecord
  rollback_started : RollbackCause → JournalRecord
  rollback_step_prepared : ℕ → JournalRecord
  rollback_step_completed : ℕ → ExecutionIdentity → JournalRecord
  rollback_step_not_applied : ℕ → JournalRecord
  rollback_step_failed : ℕ → JournalRecord
  rollback_recovery_started : ℕ → JournalRecord
  transaction_completed : JournalRecord
  transaction_rolled_back : JournalRecord

pub data JournalStatus : Type 0 where
  forward_pending : ℕ → JournalStatus
  completion_pending : JournalStatus
  rollback_pending : RollbackCause → ℕ → JournalStatus
  rollback_completion_pending : RollbackCause → JournalStatus
  reconciliation_required : ExecutionDirection → ℕ → JournalStatus
  recovery_required : RollbackCause → ℕ → JournalStatus
  completed : JournalStatus
  rolled_back : RollbackCause → JournalStatus

pub data JournalReplayErrorKind : Type 0 where
  empty_journal : JournalReplayErrorKind
  missing_header : JournalReplayErrorKind
  invalid_step_count : JournalReplayErrorKind
  invalid_prepared_batch : JournalReplayErrorKind
  unexpected_record : JournalReplayErrorKind
  -- expected, actual
  unexpected_step : ℕ → ℕ → JournalReplayErrorKind
  record_after_terminal : JournalReplayErrorKind

pub record JournalReplayError : Type 0 where
  pub record_index : ℕ
  pub kind : JournalReplayErrorKind
