-- ===== src/Tests/Journals.antt =====
-- The journal and schedule theorems at concrete journals (crates/renamewright-core/src/execution.rs).
use renamewright.Common.{◌≤◌, ◌≡◌, refl, inl, List, [], ◌∷◌, ◌++◌, usize_max, ok, err, arith}
use renamewright.Execution.Journal.{
  transaction_rolled_back, forward, rollback, cancelled, JournalRecord, transaction_started,
  forward_step_prepared, forward_step_completed, rollback_started, rollback_step_prepared,
  rollback_step_completed, rollback_step_not_applied, rollback_step_failed, transaction_completed,
  JournalStatus, forward_pending, rollback_pending, recovery_required, reconciliation_required,
  unexpected_step, record_after_terminal, invalid_step_count, RollbackCause,
}
use renamewright.Execution.Replay.{
  admit_cause, status_for, require_step, apply_rollback_record, apply_forward_record, apply_record,
  apply_records, replay_journal,
}
use renamewright.Execution.Replay.Order.{
  StatusAccounts, applied_steps, undone_steps, replay_journal-StatusAccounts,
}
use renamewright.Execution.Replay.Prefix.{replay_journal-append-err, replay_journal-terminal}
use renamewright.Execution.Replay.Progress.{
  after_undo, replay_journal-Awaits, replay_journal-wrong_step, replay_journal-undo_answers,
}
use renamewright.Execution.Replay.Runs.{
  forward_run, rollback_run, replay_journal-forward_run, replay_journal-rollback_run,
}
use renamewright.Execution.Schedule.{build_two_phase_schedule}
use renamewright.Execution.Schedule.Outcome.{ScheduleOutcome, build_two_phase_schedule_outcome}
use renamewright.Tests.Samples.{identity, entry}

abbrev opening : JournalRecord
opening = transaction_started 1 1 2 (entry ∷ [])

-- One step done, the second prepared, then cancelled.
abbrev undoing : List JournalRecord
undoing =
    forward_step_prepared 0
    ∷ forward_step_completed 0 identity
    ∷ rollback_started cancelled
    ∷ rollback_step_prepared 0
    ∷ []

undoing_status : replay_journal (opening ∷ undoing) ≡ ok (reconciliation_required rollback 0)
unfolding replay_journal apply_records apply_record apply_forward_record apply_rollback_record
    admit_cause require_step status_for
undoing_status = refl

abbrev pending : List JournalRecord
pending = forward_step_prepared 0 ∷ forward_step_completed 0 identity ∷ []

pending_status : replay_journal (opening ∷ pending) ≡ ok (forward_pending 1)
unfolding replay_journal apply_records apply_record apply_forward_record require_step status_for
pending_status = refl

abbrev finished : List JournalRecord
finished =
    forward_step_prepared 0
    ∷ forward_step_completed 0 identity
    ∷ forward_step_prepared 1
    ∷ forward_step_completed 1 identity
    ∷ transaction_completed
    ∷ []

finished_status : replay_journal (opening ∷ finished) ≡ ok JournalStatus.completed
unfolding replay_journal apply_records apply_record apply_forward_record require_step status_for
finished_status = refl

replay_journal-StatusAccounts_example :
    StatusAccounts 2
      (reconciliation_required rollback 0)
      (applied_steps undoing)
      (undone_steps undoing)
replay_journal-StatusAccounts_example =
    replay_journal-StatusAccounts 1 1 2 (entry ∷ []) undoing undoing_status

abbrev miscounted : JournalRecord
miscounted = transaction_started 1 1 3 (entry ∷ [])

miscounted_refused :
    replay_journal (miscounted ∷ []) ≡ err (record { record_index = 0; kind = invalid_step_count })
unfolding replay_journal
miscounted_refused = refl

replay_journal-append-err_example :
    replay_journal (miscounted ∷ [] ++ pending)
    ≡ err (record { record_index = 0; kind = invalid_step_count })
replay_journal-append-err_example =
    replay_journal-append-err miscounted [] pending
      {e = record { record_index = 0; kind = invalid_step_count }} miscounted_refused

replay_journal-terminal_example :
    replay_journal ((opening ∷ finished) ++ forward_step_prepared 0 ∷ [])
    ≡ err (record { record_index = 6; kind = record_after_terminal })
replay_journal-terminal_example =
    replay_journal-terminal (opening ∷ finished) (forward_step_prepared 0) []
      {status = JournalStatus.completed} finished_status (inl refl)

replay_journal-Awaits_example :
    replay_journal ((opening ∷ pending) ++ forward_step_prepared 1 ∷ [])
    ≡ ok (reconciliation_required forward 1)
replay_journal-Awaits_example =
    replay_journal-Awaits (opening ∷ pending) (forward_step_prepared 1) {status = forward_pending 1}
      {next = reconciliation_required forward 1} pending_status (refl, refl)

replay_journal-wrong_step_example :
    replay_journal ((opening ∷ pending) ++ forward_step_prepared 0 ∷ [])
    ≡ err (record { record_index = 3; kind = unexpected_step 1 0 })
replay_journal-wrong_step_example =
    replay_journal-wrong_step (opening ∷ pending) 1 0 pending_status (λ e. omega arith)

replay_journal-undo_answers_example :
    (cause : RollbackCause) × (replay_journal
        ((opening ∷ undoing) ++ rollback_step_completed 0 identity ∷ [])
      ≡ ok (after_undo cause 0))
    × (replay_journal ((opening ∷ undoing) ++ rollback_step_not_applied 0 ∷ [])
        ≡ ok (rollback_pending cause 0))
    × (replay_journal ((opening ∷ undoing) ++ rollback_step_failed 0 ∷ [])
        ≡ ok (recovery_required cause 0))
replay_journal-undo_answers_example =
    replay_journal-undo_answers (opening ∷ undoing) 0 identity undoing_status

one_fits : 2 ≤ usize_max
one_fits = omega arith

replay_journal-forward_run_example :
    replay_journal (opening ∷ forward_run identity 0 2 ++ transaction_completed ∷ [])
    ≡ ok JournalStatus.completed
replay_journal-forward_run_example =
    replay_journal-forward_run 1 1 (entry ∷ []) identity (omega arith) (omega arith)

replay_journal-rollback_run_example :
    replay_journal (
      opening
      ∷ (forward_run identity 0 2
          ++ (rollback_started cancelled ∷ rollback_run identity 2
              ++ transaction_rolled_back ∷ [])))
    ≡ ok (JournalStatus.rolled_back cancelled)
replay_journal-rollback_run_example =
    replay_journal-rollback_run 1 1 (entry ∷ []) identity (omega arith) (omega arith) 2 cancelled
      (omega arith) (inl refl)

build_two_phase_schedule_outcome_example :
    ScheduleOutcome (9 ∷ 4 ∷ []) (build_two_phase_schedule (9 ∷ 4 ∷ []))
build_two_phase_schedule_outcome_example = build_two_phase_schedule_outcome (9 ∷ 4 ∷ [])
