-- ===== src/Execution/Replay/Order.antt =====
-- Which steps a replayed journal has applied and undone: the order of the completed steps, read off
-- the records, against the status.
use renamewright.Common.{
  none, some, refl, ok, ◌<◌, length-range_from, length, countdown, ℕ, suc, ◌≤◌, ◌≡◌, subst, Option,
  List, [], ◌∷◌, ◌++◌, reverse, arith, range_from, append-nil, append_assoc, Result-cases,
  saturating_add, inl, inr, usize_max,
}
use renamewright.Execution.Replay.Prefix.{replay_journal-header, is_valid_count-bound}
use renamewright.Execution.Journal.{
  forward, rollback, completion_pending, forward_pending, rollback_pending,
  rollback_completion_pending, recovery_required, reconciliation_required, transaction_started,
  JournalEntry, JournalStatus, RollbackCause, JournalRecord, forward_batch_prepared,
  forward_step_prepared, forward_step_completed, forward_step_not_applied, rollback_started,
  rollback_step_prepared, rollback_step_completed, rollback_step_not_applied, rollback_step_failed,
  rollback_recovery_started, transaction_completed, transaction_rolled_back,
}
use renamewright.Execution.Replay.{
  start, replay_journal, status_for, ReplayMode, forwards, backwards, completed, rolled_back,
  recovery, apply_forward_record, apply_rollback_record, apply_record, apply_records,
}
use renamewright.Execution.Replay.Invariant.{
  apply_records-IsWellFormed, start-IsWellFormed, IsWellFormed, IsForward, IsBackward, OnOk,
  apply_record-IsWellFormed,
}

-- The step that a record completes forwards, and the one that it undoes.
abbrev applied_step : JournalRecord → List ℕ
applied_step (forward_step_completed step identity) = step ∷ []
applied_step _ = []

abbrev undone_step : JournalRecord → List ℕ
undone_step (rollback_step_completed step identity) = step ∷ []
undone_step _ = []

-- The steps that the records complete and undo, in their order.
abbrev pub applied_steps : List JournalRecord → List ℕ
applied_steps [] = []
applied_steps (r ∷ rs) = applied_step r ++ applied_steps rs

abbrev pub undone_steps : List JournalRecord → List ℕ
undone_steps [] = []
undone_steps (r ∷ rs) = undone_step r ++ undone_steps rs

-- The applied steps are a prefix of the schedule.
abbrev pub IsPrefix : ℕ → List ℕ → Type 0
IsPrefix count applied = (applied ≡ range_from 0 (length applied)) × (length applied ≤ count)

-- The undone steps and those that remain are the applied steps, last first.
abbrev pub Unwinds : ℕ → List ℕ → List ℕ → List ℕ → Type 0
Unwinds count applied undone remaining =
    IsPrefix count applied × (reverse applied ≡ undone ++ remaining)

-- How a mode accounts for the steps applied and undone so far.
abbrev Accounts : ℕ → ReplayMode → List ℕ → List ℕ → Type 0
Accounts count (forwards next done prepared) applied undone = (applied ≡ done) × (undone ≡ [])
Accounts count (backwards cause remaining prepared) applied undone =
    Unwinds count applied undone remaining
Accounts count completed applied undone = (applied ≡ range_from 0 count) × (undone ≡ [])
Accounts count (rolled_back cause) applied undone = Unwinds count applied undone []
Accounts count (recovery cause failed remaining) applied undone =
    Unwinds count applied undone remaining

module _ (count : ℕ) where
  abbrev Accounted : List ℕ → List ℕ → JournalRecord → ReplayMode → Type 0
  Accounted applied undone r mode =
      Accounts count mode (applied ++ applied_step r) (undone ++ undone_step r)

  forward-Accounts :
      (next : ℕ) (done prepared : List ℕ) (r : JournalRecord) (index : ℕ) (applied undone : List ℕ)
      → IsForward count next done prepared
      → applied ≡ done
      → undone ≡ []
      → OnOk (Accounted applied undone r) (apply_forward_record next done prepared count r index)
  unfolding apply_forward_record
  forward-Accounts next done prepared (forward_batch_prepared first n) index applied undone w a u =
      ground (arith, append-nil applied, append-nil undone)
  forward-Accounts next done prepared (forward_step_prepared step) index applied undone w a u =
      ground (arith, append-nil applied, append-nil undone)
  forward-Accounts next done prepared (forward_step_completed step identity) index applied undone w
        a u =
      ground (arith, append-nil undone)
  forward-Accounts next done prepared (forward_step_not_applied step) index applied undone w a u =
      ground (arith, append-nil applied, append-nil undone)
  forward-Accounts next done prepared (rollback_started cause) index applied undone w a u =
      let prefix : IsPrefix count (applied ++ []) =
        rw (append-nil applied, a, w.done_below, length-range_from 0 next)
          (refl, omega (arith, w.in_schedule)) in
      ground (arith, append-nil applied, append-nil undone)
  forward-Accounts next done prepared transaction_completed index applied undone w a u =
      ground (arith, append-nil applied, append-nil undone, w.done_below)
  forward-Accounts next done prepared _ index applied undone w a u = tt

  backward-Accounts :
      (cause : RollbackCause) (remaining : List ℕ) (prepared : Option ℕ) (r : JournalRecord)
      (index : ℕ) (applied undone : List ℕ)
      → IsBackward count remaining prepared
      → Unwinds count applied undone remaining
      → OnOk (Accounted applied undone r) (apply_rollback_record cause remaining prepared r index)
  unfolding apply_rollback_record
  backward-Accounts cause remaining prepared (rollback_step_prepared step) index applied undone w
        a =
      ground (arith, append-nil applied, append-nil undone)
  backward-Accounts cause [] prepared (rollback_step_completed step identity) index applied undone w
        a =
      ground (arith, append-nil applied)
  backward-Accounts cause (next ∷ remaining) prepared (rollback_step_completed step identity) index
        applied undone w a =
      ground (arith, append-nil applied, append_assoc undone (step ∷ []) remaining)
  backward-Accounts cause remaining prepared (rollback_step_not_applied step) index applied undone w
        a =
      ground (arith, append-nil applied, append-nil undone)
  backward-Accounts cause remaining prepared (rollback_step_failed step) index applied undone w a =
      ground (arith, append-nil applied, append-nil undone)
  backward-Accounts cause remaining prepared transaction_rolled_back index applied undone w a =
      ground (arith, append-nil applied, append-nil undone)
  backward-Accounts cause remaining prepared _ index applied undone w a = tt

  apply_record-Accounts :
      (mode : ReplayMode) (r : JournalRecord) (index : ℕ) (applied undone : List ℕ)
      → IsWellFormed count mode
      → Accounts count mode applied undone
      → OnOk (Accounted applied undone r) (apply_record mode count r index)
  unfolding apply_record
  apply_record-Accounts (forwards next done prepared) r index applied undone w a =
      forward-Accounts next done prepared r index applied undone w a.0 a.1
  apply_record-Accounts (backwards cause remaining prepared) r index applied undone w a =
      backward-Accounts cause remaining prepared r index applied undone w a
  apply_record-Accounts completed r index applied undone w a = tt
  apply_record-Accounts (rolled_back cause) r index applied undone w a = tt
  apply_record-Accounts (recovery cause failed remaining) (rollback_recovery_started step) index
        applied undone w a =
      ground (arith, append-nil applied, append-nil undone)
  apply_record-Accounts (recovery cause failed remaining) _ index applied undone w a = tt

  apply_records-Accounts :
      (bound : count ≤ usize_max) (mode : ReplayMode) (offset : ℕ) (rs : List JournalRecord)
      (applied undone : List ℕ)
      → IsWellFormed count mode
      → Accounts count mode applied undone
      → OnOk
          (λ m. Accounts count m (applied ++ applied_steps rs) (undone ++ undone_steps rs))
          (apply_records mode count offset rs)
  unfolding apply_records
  apply_records-Accounts bound mode offset [] applied undone w a =
      rw (append-nil applied, append-nil undone) a
  apply_records-Accounts bound mode offset (r ∷ rs) applied undone w a =
      elim (Result-cases (apply_record mode count r (saturating_add offset 1))) [
        | inr (e, h) ↦ rw h tt
        | inl (mode', h) ↦ rw h (
            rw
              (
                ← append_assoc applied (applied_step r) (applied_steps rs),
                ← append_assoc undone (undone_step r) (undone_steps rs),
              )
              (apply_records-Accounts bound mode' (suc offset) rs (applied ++ applied_step r)
                (undone ++ undone_step r)
                (subst (OnOk (IsWellFormed count)) h
                  (apply_record-IsWellFormed count bound mode r _ w))
                (subst (OnOk (Accounted applied undone r)) h
                  (apply_record-Accounts mode r _ applied undone w a))))
      ]

-- What a status says of the steps applied and undone so far.
abbrev pub StatusAccounts : ℕ → JournalStatus → List ℕ → List ℕ → Type 0
StatusAccounts count (forward_pending next) applied undone =
    (applied ≡ range_from 0 next) × (undone ≡ []) × (next < count)
StatusAccounts count completion_pending applied undone =
    (applied ≡ range_from 0 count) × (undone ≡ [])
StatusAccounts count (reconciliation_required forward step) applied undone =
    (applied ≡ range_from 0 step) × (undone ≡ []) × (step < count)
StatusAccounts count (reconciliation_required rollback step) applied undone =
    Unwinds count applied undone (countdown (suc step))
StatusAccounts count (rollback_pending cause next) applied undone =
    Unwinds count applied undone (countdown (suc next))
StatusAccounts count (rollback_completion_pending cause) applied undone =
    Unwinds count applied undone []
StatusAccounts count (recovery_required cause failed) applied undone =
    Unwinds count applied undone (countdown (suc failed))
StatusAccounts count JournalStatus.completed applied undone =
    (applied ≡ range_from 0 count) × (undone ≡ [])
StatusAccounts count (JournalStatus.rolled_back cause) applied undone =
    Unwinds count applied undone []

countdown_front :
    (next : ℕ) (steps : List ℕ)
    → next ∷ steps ≡ countdown (suc (length steps))
    → next ∷ steps ≡ countdown (suc next)
countdown_front next steps h = ground arith

status_for-StatusAccounts :
    (count : ℕ) (mode : ReplayMode) (applied undone : List ℕ)
    → IsWellFormed count mode
    → Accounts count mode applied undone
    → StatusAccounts count (status_for mode count) applied undone
unfolding status_for
status_for-StatusAccounts count (forwards next done []) applied undone w a = ground arith
status_for-StatusAccounts count (forwards next done (step ∷ prepared)) applied undone w a =
    ground arith
status_for-StatusAccounts count (backwards cause [] none) applied undone w a = a
status_for-StatusAccounts count (backwards cause (next ∷ remaining) none) applied undone w a =
    rw (← countdown_front next remaining w.counts_down) a
status_for-StatusAccounts count (backwards cause [] (some step)) applied undone w a = ground arith
status_for-StatusAccounts count (backwards cause (next ∷ remaining) (some step)) applied undone w
      a =
    ground (arith, countdown_front next remaining w.counts_down)
status_for-StatusAccounts count completed applied undone w a = a
status_for-StatusAccounts count (rolled_back cause) applied undone w a = a
status_for-StatusAccounts count (recovery cause failed []) applied undone w a = ground arith
status_for-StatusAccounts count (recovery cause failed (next ∷ remaining)) applied undone w a =
    ground (arith, countdown_front next remaining w.counts_down)

-- The status of an accepted journal tells exactly which of the scheduled steps its records have
-- completed and undone: forwards, the steps below the next one in ascending order and none undone;
-- backwards, the undone steps are the last completed ones, newest first, and those below the next
-- step remain; after the end, all the steps, or each completed step undone in reverse order.
pub replay_journal-StatusAccounts :
    (plan_id generation count : ℕ) (entries : List JournalEntry) (rs : List JournalRecord)
    {status : JournalStatus}
    → replay_journal (transaction_started plan_id generation count entries ∷ rs) ≡ ok status
    → StatusAccounts count status (applied_steps rs) (undone_steps rs)
replay_journal-StatusAccounts plan_id generation count entries rs h =
    let (mode, valid, runs, reached) =
      replay_journal-header plan_id generation count entries rs h in
    let (_, bound, _) = is_valid_count-bound (length entries) count valid in
    let w =
      subst (OnOk (IsWellFormed count)) runs
        (apply_records-IsWellFormed count bound start 0 rs (start-IsWellFormed count)) in
    let a = subst (OnOk (λ m. Accounts count m (applied_steps rs) (undone_steps rs))) runs (
      apply_records-Accounts count bound start 0 rs [] [] (start-IsWellFormed count)
        (refl, refl)) in
    subst (λ s. StatusAccounts count s (applied_steps rs) (undone_steps rs)) reached
      (status_for-StatusAccounts count mode (applied_steps rs) (undone_steps rs) w a)
