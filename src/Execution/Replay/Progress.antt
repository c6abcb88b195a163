-- ===== src/Execution/Replay/Progress.antt =====
-- The status of a journal names the record that may follow it.
use renamewright.Common.{
  countdown, ap, zero, sym, ◌∙◌, inl, inr, Bool-cases, ◌==◌, ℕ, suc, ◌≡◌, ◌≢◌, refl, none, some,
  List, [], ◌∷◌, ◌++◌, arith, length, ok, err, ◌>>=◌, saturating_add, subst, min, usize_max,
}
use renamewright.Execution.Journal.{
  forward, rollback, RollbackCause, ExecutionIdentity, JournalRecord, forward_step_prepared,
  forward_step_not_applied, rollback_step_prepared, rollback_step_completed,
  rollback_step_not_applied, rollback_step_failed, rollback_recovery_started, transaction_completed,
  transaction_rolled_back, JournalStatus, forward_pending, completion_pending, rollback_pending,
  rollback_completion_pending, reconciliation_required, recovery_required, unexpected_step,
}
use renamewright.Execution.Replay.{
  apply_rollback_record, apply_recovery_record, apply_forward_record, ReplayMode, forwards,
  backwards, completed, rolled_back, recovery, Replay, apply_record, apply_records, status_for,
  replay_journal, start,
}
use renamewright.Execution.Replay.Invariant.{
  IsWellFormed, OnOk, apply_records-IsWellFormed, start-IsWellFormed,
}
use renamewright.Execution.Replay.Prefix.{
  Accepted, replay_journal-Accepted, replay_journal-extend, is_valid_count-bound,
}

-- `Awaits status r next`: the status waits for the record, which leads to the status `next`.
abbrev pub Awaits : JournalStatus → JournalRecord → JournalStatus → Type 0
Awaits (forward_pending step) r next =
    (r ≡ forward_step_prepared step) × (next ≡ reconciliation_required forward step)
Awaits completion_pending r next = (r ≡ transaction_completed) × (next ≡ JournalStatus.completed)
Awaits (reconciliation_required forward step) r next =
    (r ≡ forward_step_not_applied step) × (next ≡ forward_pending step)
Awaits (reconciliation_required rollback step) r next = ⊥
Awaits (rollback_pending cause step) r next =
    (r ≡ rollback_step_prepared step) × (next ≡ reconciliation_required rollback step)
Awaits (rollback_completion_pending cause) r next =
    (r ≡ transaction_rolled_back) × (next ≡ JournalStatus.rolled_back cause)
Awaits (recovery_required cause step) r next =
    (r ≡ rollback_recovery_started step) × (next ≡ rollback_pending cause step)
Awaits JournalStatus.completed r next = ⊥
Awaits (JournalStatus.rolled_back cause) r next = ⊥

-- The status after one more record.
abbrev pub status_after : ReplayMode → ℕ → JournalRecord → ℕ → Replay JournalStatus
status_after mode count r index = apply_record mode count r index >>= λ m. ok (status_for m count)

Awaits-status_after :
    (mode : ReplayMode) (count : ℕ) (r : JournalRecord) (index : ℕ) (next : JournalStatus)
    → IsWellFormed count mode
    → Awaits (status_for mode count) r next
    → status_after mode count r index ≡ ok next
unfolding status_for apply_record apply_forward_record apply_rollback_record apply_recovery_record
Awaits-status_after (forwards step done []) count r index next w a =
    elim (Bool-cases (step == count)) [
      | inl e ↦
          let a' : Awaits completion_pending r next = rw e at a in rw (a'.0, a'.1) (ground arith)
      | inr e ↦
          let a' : Awaits (forward_pending step) r next = rw e at a in
          rw (a'.0, a'.1) (ground (arith, w.in_schedule))
    ]
Awaits-status_after (forwards step done (p ∷ prepared)) count r index next w a =
    rw (a.0, a.1) (ground (arith, w))
Awaits-status_after (backwards cause [] none) count r index next w a =
    rw (a.0, a.1) (ground (arith, w))
Awaits-status_after (backwards cause (step ∷ remaining) none) count r index next w a =
    rw (a.0, a.1) (ground (arith, w))
Awaits-status_after (backwards cause remaining (some step)) count r index next w a = absurd a
Awaits-status_after (recovery cause failed remaining) count r index next w a =
    rw (a.0, a.1) (ground (arith, w))
Awaits-status_after completed count r index next w a = absurd a
Awaits-status_after (rolled_back cause) count r index next w a = absurd a

Accepted-IsWellFormed :
    {journal : List JournalRecord} {status : JournalStatus} (a : Accepted journal status)
    → IsWellFormed a.count a.mode
Accepted-IsWellFormed a = subst (OnOk (IsWellFormed a.count)) a.runs (
    apply_records-IsWellFormed a.count (is_valid_count-bound (length a.entries) a.count a.valid).1
      start 0 a.rest (start-IsWellFormed a.count))

bind-ok :
    (m : Replay ReplayMode) (k : ReplayMode → Replay JournalStatus)
    → ((m >>= λ a. ok a) >>= k) ≡ (m >>= k)
bind-ok (ok a) k = refl
bind-ok (err e) k = refl

-- One record appended to an accepted journal.
replay_journal-one :
    {journal : List JournalRecord} {status : JournalStatus} (r : JournalRecord)
    (a : Accepted journal status)
    → replay_journal (journal ++ r ∷ [])
      ≡ status_after a.mode a.count r (saturating_add (length a.rest) 1)
unfolding apply_records
replay_journal-one {journal} r a =
    replay_journal-extend journal (r ∷ []) a
    ∙ bind-ok (apply_record a.mode a.count r (saturating_add (length a.rest) 1))
        (λ m. ok (status_for m a.count))

-- An accepted journal can be continued with the record that its status waits for, and the replay of
-- the longer journal has the status that is due: a pending step can be prepared, a prepared step
-- reported as not applied, a failed rollback resumed, and a finished direction closed.
pub replay_journal-Awaits :
    (journal : List JournalRecord) (r : JournalRecord) {status next : JournalStatus}
    → replay_journal journal ≡ ok status
    → Awaits status r next
    → replay_journal (journal ++ r ∷ []) ≡ ok next
replay_journal-Awaits journal r {status} {next} h w =
    let a = replay_journal-Accepted journal h in
    replay_journal-one r a
    ∙ Awaits-status_after a.mode a.count r _ next (Accepted-IsWellFormed a)
        (subst (λ s. Awaits s r next) (sym a.reached) w)

wrong_step_refused :
    (mode : ReplayMode) (count step other index : ℕ)
    → IsWellFormed count mode
    → status_for mode count ≡ forward_pending step
    → other ≢ step
    → apply_record mode count (forward_step_prepared other) index
      ≡ err (record { record_index = index; kind = unexpected_step step other })
unfolding status_for apply_record apply_forward_record
wrong_step_refused (forwards next done []) count step other index w e ne = ground (arith, w)
wrong_step_refused (forwards next done (p ∷ prepared)) count step other index w e ne = absurd (cc)
wrong_step_refused (backwards cause [] none) count step other index w e ne = absurd (cc)
wrong_step_refused (backwards cause (s ∷ remaining) none) count step other index w e ne =
    absurd (cc)
wrong_step_refused (backwards cause remaining (some s)) count step other index w e ne = absurd (cc)
wrong_step_refused (recovery cause failed remaining) count step other index w e ne = absurd (cc)
wrong_step_refused completed count step other index w e ne = absurd (cc)
wrong_step_refused (rolled_back cause) count step other index w e ne = absurd (cc)

-- Steps cannot be skipped or repeated: where a step is pending forwards, preparing any other one is
-- refused at the appended record, with the step that was expected.
pub replay_journal-wrong_step :
    (journal : List JournalRecord) (step other : ℕ)
    → replay_journal journal ≡ ok (forward_pending step)
    → other ≢ step
    → replay_journal (journal ++ forward_step_prepared other ∷ [])
      ≡ err (record {
        record_index = min (length journal) usize_max;
        kind = unexpected_step step other;
      })
replay_journal-wrong_step journal step other h ne =
    let a = replay_journal-Accepted journal h in
    let index : saturating_add (length a.rest) 1 ≡ min (length journal) usize_max =
      omega (arith, ap length a.shape) in
    replay_journal-one (forward_step_prepared other) a
    ∙ rw (
      wrong_step_refused a.mode a.count step other (saturating_add (length a.rest) 1)
          (Accepted-IsWellFormed a) a.reached ne,
      index,
    )

-- What is left when the rollback step `step` is undone.
abbrev pub after_undo : RollbackCause → ℕ → JournalStatus
after_undo cause zero = rollback_completion_pending cause
after_undo cause (suc below) = rollback_pending cause below

countdown-rest :
    (next : ℕ) (steps : List ℕ)
    → next ∷ steps ≡ countdown (suc (length steps))
    → steps ≡ countdown next
countdown-rest next steps h = ground arith

after_undo-status :
    (cause : RollbackCause) (step count : ℕ)
    → status_for (backwards cause (countdown step) none) count ≡ after_undo cause step
unfolding status_for
after_undo-status cause zero count = refl
after_undo-status cause (suc step) count = refl

undo_answers :
    (mode : ReplayMode) (count step index : ℕ) (identity : ExecutionIdentity)
    → IsWellFormed count mode
    → status_for mode count ≡ reconciliation_required rollback step
    → (cause : RollbackCause) × (status_after mode count
          (rollback_step_completed step identity)
          index
        ≡ ok (after_undo cause step))
      × (status_after mode count (rollback_step_not_applied step) index
          ≡ ok (rollback_pending cause step))
      × (status_after mode count (rollback_step_failed step) index
          ≡ ok (recovery_required cause step))
unfolding status_for apply_record apply_rollback_record
undo_answers (forwards next done []) count step index identity w e = absurd (ground arith)
undo_answers (forwards next done (p ∷ prepared)) count step index identity w e = absurd (cc)
undo_answers (backwards cause [] none) count step index identity w e = absurd (cc)
undo_answers (backwards cause (s ∷ remaining) none) count step index identity w e = absurd (cc)
undo_answers (backwards cause [] (some s)) count step index identity w e =
    absurd (ground (arith, w))
undo_answers (backwards cause (next ∷ remaining) (some s)) count step index identity w e =
    let here : s ≡ step = cc in
    let first : next ≡ s = cc (w.front) in
    let rest : remaining ≡ countdown step =
      countdown-rest next remaining w.counts_down ∙ ap countdown (first ∙ here) in
    rw (rest, first, here)
      (cause, ground (arith, after_undo-status cause step count), ground arith, ground arith)
undo_answers (recovery cause failed remaining) count step index identity w e = absurd (cc)
undo_answers completed count step index identity w e = absurd (cc)
undo_answers (rolled_back cause) count step index identity w e = absurd (cc)

-- Where a rollback step is prepared and unresolved, all three answers are accepted: undone, and the
-- rollback goes on below it or is over; not applied, and the step is pending again; failed, and
-- recovery is required at it.
pub replay_journal-undo_answers :
    (journal : List JournalRecord) (step : ℕ) (identity : ExecutionIdentity)
    → replay_journal journal ≡ ok (reconciliation_required rollback step)
    → (cause : RollbackCause) × (replay_journal
          (journal ++ rollback_step_completed step identity ∷ [])
        ≡ ok (after_undo cause step))
      × (replay_journal (journal ++ rollback_step_not_applied step ∷ [])
          ≡ ok (rollback_pending cause step))
      × (replay_journal (journal ++ rollback_step_failed step ∷ [])
          ≡ ok (recovery_required cause step))
replay_journal-undo_answers journal step identity h =
    let a = replay_journal-Accepted journal h in
    let (cause, undone, not_applied, failed) =
      undo_answers a.mode a.count step (saturating_add (length a.rest) 1) identity
        (Accepted-IsWellFormed a) a.reached in
    (
      cause,
      replay_journal-one (rollback_step_completed step identity) a ∙ undone,
      replay_journal-one (rollback_step_not_applied step) a ∙ not_applied,
      replay_journal-one (rollback_step_failed step) a ∙ failed,
    )
