-- ===== src/Execution/Replay.antt =====
-- crates/renamewright-core/src/execution.rs: `replay_journal`. A `VecDeque` is the list of its
-- elements from the front.
pub mod Invariant
pub mod Prefix
pub mod Order
pub mod Progress
pub mod Runs
use renamewright.Common.{
  ℕ, suc, ◌+◌, Bool, true, false, ◌&&◌, ◌||◌, not, Option, none, some, List, [], ◌∷◌, ◌++◌, reverse,
  ◌==◌, ltb, if◌then◌else◌, length, is_empty, head?, tail, range_from, wrapping, checked_add,
  checked_mul, saturating_add, Result, ok, err, ◌>>=◌, ◌>>◌,
}
use renamewright.Execution.Journal.{
  forward, rollback, RollbackCause, cancelled, forward_step_failed, recovery_requested,
  JournalRecord, transaction_started, forward_batch_prepared, forward_step_prepared,
  forward_step_completed, forward_step_not_applied, rollback_started, rollback_step_prepared,
  rollback_step_completed, rollback_step_not_applied, rollback_step_failed,
  rollback_recovery_started, transaction_completed, transaction_rolled_back, JournalStatus,
  forward_pending, completion_pending, rollback_pending, rollback_completion_pending,
  reconciliation_required, recovery_required, JournalReplayErrorKind, empty_journal, missing_header,
  invalid_step_count, invalid_prepared_batch, unexpected_record, unexpected_step,
  record_after_terminal, JournalReplayError,
}

pub data ReplayMode : Type 0 where
  -- next_step, completed_steps, prepared_steps
  forwards : ℕ → List ℕ → List ℕ → ReplayMode
  -- cause, remaining_steps, prepared_step
  backwards : RollbackCause → List ℕ → Option ℕ → ReplayMode
  completed : ReplayMode
  rolled_back : RollbackCause → ReplayMode
  -- cause, failed_step, remaining_steps
  recovery : RollbackCause → ℕ → List ℕ → ReplayMode

abbrev pub Replay : Type 0 → Type 0
Replay = Result JournalReplayError

abbrev pub fail : {A : Type 0} → ℕ → JournalReplayErrorKind → Replay A
fail record_index kind = err (record { record_index = record_index; kind = kind })

unfoldable pub unexpected : {A : Type 0} → ℕ → Replay A
unexpected record_index = fail record_index unexpected_record

unfoldable pub require_step : ℕ → ℕ → ℕ → Replay (Unit {0})
require_step expected actual record_index =
    if expected == actual then ok tt else fail record_index (unexpected_step expected actual)

-- `steps.front() == Some(step)` and `step == Some(…)`.
abbrev pub is_some_of : Option ℕ → ℕ → Bool
is_some_of none step = false
is_some_of (some s) step = s == step

abbrev pub is_none : Option ℕ → Bool
is_none none = true
is_none (some s) = false

unfoldable pub forward_batch_steps : ℕ → ℕ → ℕ → ℕ → ℕ → Replay (List ℕ)
unfolding require_step
forward_batch_steps next_step first_step prepared_count step_count record_index = do
  require_step next_step first_step record_index
  elim (checked_add first_step prepared_count) [
    | none ↦ fail record_index invalid_prepared_batch
    | some end_step ↦
        if prepared_count == 0 || ltb step_count end_step
        then fail record_index invalid_prepared_batch
        else ok (range_from first_step prepared_count)
  ]

-- The inner `match` of `RollbackStarted`: whether the cause is admitted here.
unfoldable pub admit_cause : RollbackCause → ℕ → List ℕ → ℕ → Replay (Unit {0})
unfolding require_step unexpected
admit_cause cancelled next_step prepared_steps record_index = ok tt
admit_cause recovery_requested next_step prepared_steps record_index =
    if is_empty prepared_steps then ok tt else unexpected record_index
admit_cause (forward_step_failed step_index) next_step prepared_steps record_index =
    if is_some_of (head? prepared_steps) step_index
    then require_step next_step step_index record_index
    else unexpected record_index

unfoldable pub apply_forward_record :
    ℕ → List ℕ → List ℕ → ℕ → JournalRecord → ℕ → Replay ReplayMode
unfolding forward_batch_steps require_step unexpected admit_cause
apply_forward_record next done prepared count (forward_batch_prepared first prepared_count) index =
    if is_empty prepared
    then (do
      steps ← forward_batch_steps next first prepared_count count index
      ok (forwards next done steps))
    else (do require_step next first index; unexpected index)
apply_forward_record next done prepared count (forward_step_prepared step) index =
    if is_empty prepared && ltb next count
    then (do require_step next step index; ok (forwards next done (prepared ++ step ∷ [])))
    else (do require_step next step index; unexpected index)
apply_forward_record next done prepared count (forward_step_completed step identity) index =
    if is_some_of (head? prepared) step && next == step
    then ok (forwards (wrapping (next + 1)) (done ++ step ∷ []) (tail prepared))
    else unexpected index
apply_forward_record next done prepared count (forward_step_not_applied step) index =
    if is_some_of (head? prepared) step then ok (forwards next done []) else unexpected index
apply_forward_record next done prepared count (rollback_started cause) index = do
  admit_cause cause next prepared index
  ok (backwards cause (reverse done) none)
apply_forward_record next done prepared count transaction_completed index =
    if is_empty prepared && next == count then ok completed else unexpected index
apply_forward_record next done prepared count _ index = unexpected index

unfoldable pub apply_rollback_record :
    RollbackCause → List ℕ → Option ℕ → JournalRecord → ℕ → Replay ReplayMode
unfolding require_step unexpected
apply_rollback_record cause remaining prepared (rollback_step_prepared step) index =
    if is_none prepared && is_some_of (head? remaining) step
    then ok (backwards cause remaining (some step))
    else elim (head? remaining) [
      | none ↦ unexpected index
      | some expected ↦ do require_step expected step index; unexpected index
    ]
apply_rollback_record cause remaining prepared (rollback_step_completed step identity) index =
    if is_some_of prepared step
    then ok (backwards cause (tail remaining) none)
    else unexpected index
apply_rollback_record cause remaining prepared (rollback_step_not_applied step) index =
    if is_some_of prepared step then ok (backwards cause remaining none) else unexpected index
apply_rollback_record cause remaining prepared (rollback_step_failed step) index =
    if is_some_of prepared step then ok (recovery cause step remaining) else unexpected index
apply_rollback_record cause remaining prepared transaction_rolled_back index =
    if is_none prepared && is_empty remaining then ok (rolled_back cause) else unexpected index
apply_rollback_record cause remaining prepared _ index = unexpected index

pub apply_recovery_record : RollbackCause → ℕ → List ℕ → JournalRecord → ℕ → Replay ReplayMode
unfolding require_step unexpected
apply_recovery_record cause failed remaining (rollback_recovery_started step) index = do
  require_step failed step index
  ok (backwards cause remaining none)
apply_recovery_record cause failed remaining _ index = unexpected index

unfoldable pub apply_record : ReplayMode → ℕ → JournalRecord → ℕ → Replay ReplayMode
unfolding apply_recovery_record
apply_record (forwards next done prepared) count r index =
    apply_forward_record next done prepared count r index
apply_record (backwards cause remaining prepared) count r index =
    apply_rollback_record cause remaining prepared r index
apply_record (recovery cause failed remaining) count r index =
    apply_recovery_record cause failed remaining r index
apply_record completed count r index = fail index record_after_terminal
apply_record (rolled_back cause) count r index = fail index record_after_terminal

abbrev pub pending_forward : ℕ → ℕ → JournalStatus
pending_forward next count = if next == count then completion_pending else forward_pending next

unfoldable pub status_for : ReplayMode → ℕ → JournalStatus
status_for (forwards next done (step ∷ prepared)) count = reconciliation_required forward step
status_for (forwards next done []) count = pending_forward next count
status_for (backwards cause remaining (some step)) count = reconciliation_required rollback step
status_for (backwards cause [] none) count = rollback_completion_pending cause
status_for (backwards cause (next ∷ remaining) none) count = rollback_pending cause next
status_for completed count = JournalStatus.completed
status_for (rolled_back cause) count = JournalStatus.rolled_back cause
status_for (recovery cause failed remaining) count = recovery_required cause failed

-- The loop over the records behind the header; `offset` is the position that `enumerate` gives.
unfoldable pub apply_records : ReplayMode → ℕ → ℕ → List JournalRecord → Replay ReplayMode
apply_records mode count offset [] = ok mode
apply_records mode count offset (r ∷ rs) = do
  mode' ← apply_record mode count r (saturating_add offset 1)
  apply_records mode' count (suc offset) rs

-- `entries.is_empty() || entries.len().checked_mul(2) != Some(step_count)`, negated.
abbrev pub is_valid_count : ℕ → ℕ → Bool
is_valid_count entries count = not (entries == 0) && is_some_of (checked_mul entries 2) count

abbrev pub start : ReplayMode
start = forwards 0 [] []

unfoldable pub replay_journal : List JournalRecord → Replay JournalStatus
unfolding apply_records status_for
replay_journal [] = fail 0 empty_journal
replay_journal (transaction_started plan_id generation count entries ∷ rs) =
    if is_valid_count (length entries) count
    then (do mode ← apply_records start count 0 rs; ok (status_for mode count))
    else fail 0 invalid_step_count
replay_journal (_ ∷ rs) = fail 0 missing_header
