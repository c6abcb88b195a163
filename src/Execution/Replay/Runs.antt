-- ===== src/Execution/Replay/Runs.antt =====
-- Whole runs: the records of an execution with no failure, and of one that is rolled back.
use renamewright.Common.{
  ap₂, ◌⊎◌, ℕ, zero, suc, ◌+◌, ◌*◌, ◌≤◌, ◌<◌, ◌≡◌, refl, sym, ◌∙◌, none, List, [], ◌∷◌, ◌++◌, arith,
  length, ok, ◌>>=◌, reverse, range_from, countdown, reverse-range_from, append_assoc, append-nil,
  usize_max, true, saturating_add,
}
use renamewright.Execution.Journal.{
  RollbackCause, cancelled, recovery_requested, ExecutionIdentity, JournalEntry, JournalRecord,
  transaction_started, forward_step_prepared, forward_step_completed, rollback_started,
  rollback_step_prepared, rollback_step_completed, transaction_completed, transaction_rolled_back,
  JournalStatus,
}
use renamewright.Execution.Replay.{
  forwards, backwards, completed, rolled_back, apply_record, apply_records, apply_forward_record,
  apply_rollback_record, start, is_valid_count, replay_journal,
}
use renamewright.Execution.Replay.Prefix.{apply_records-append}

module _ (identity : ExecutionIdentity) where
  -- The records of `n` steps from `first`, each prepared and then completed.
  abbrev pub forward_run : ℕ → ℕ → List JournalRecord
  forward_run first zero = []
  forward_run first (suc n) =
      forward_step_prepared first
      ∷ forward_step_completed first identity
      ∷ forward_run (suc first) n

  -- The records that undo the steps below `n`, from the last.
  abbrev pub rollback_run : ℕ → List JournalRecord
  rollback_run zero = []
  rollback_run (suc n) =
      rollback_step_prepared n ∷ rollback_step_completed n identity ∷ rollback_run n

  module _ (count : ℕ) (bound : count ≤ usize_max) where
    prepare_one :
        (step index : ℕ) (done : List ℕ)
        → step < count
        → apply_record (forwards step done []) count (forward_step_prepared step) index
          ≡ ok (forwards step done (step ∷ []))
    unfolding apply_record apply_forward_record
    prepare_one step index done h = ground arith

    complete_one :
        (step index : ℕ) (done : List ℕ)
        → step < count
        → apply_record
            (forwards step done (step ∷ []))
            count
            (forward_step_completed step identity)
            index
          ≡ ok (forwards (suc step) (done ++ step ∷ []) [])
    unfolding apply_record apply_forward_record
    complete_one step index done h = ground arith

    apply_records-forward_run :
        (first n offset : ℕ) (done : List ℕ)
        → first + n ≤ count
        → apply_records (forwards first done []) count offset (forward_run first n)
          ≡ ok (forwards (first + n) (done ++ range_from first n) [])
    unfolding apply_records
    apply_records-forward_run first zero offset done fits =
        ap₂ (λ k ds. ok (forwards k ds [])) (omega arith) (sym (append-nil done))
    apply_records-forward_run first (suc n) offset done fits =
        let next : suc first + n ≡ first + suc n = omega arith in
        rw
          (
            prepare_one first (saturating_add offset 1) done (omega arith),
            complete_one first (saturating_add (suc offset) 1) done (omega arith),
            apply_records-forward_run (suc first) n (suc (suc offset)) (done ++ first ∷ [])
                (omega arith),
          )
          (ap₂ (λ k ds. ok (forwards k ds [])) next
            (append_assoc done (first ∷ []) (range_from (suc first) n)))

    undo_one :
        (cause : RollbackCause) (step index index' : ℕ) (rest : List ℕ)
        → (apply_record
              (backwards cause (step ∷ rest) none)
              count
              (rollback_step_prepared step)
              index
            >>= λ mode. apply_record mode count (rollback_step_completed step identity) index')
          ≡ ok (backwards cause rest none)
    unfolding apply_record apply_rollback_record
    undo_one cause step index index' rest = ground arith

    apply_records-rollback_run :
        (cause : RollbackCause) (n offset : ℕ)
        → apply_records (backwards cause (countdown n) none) count offset (rollback_run n)
          ≡ ok (backwards cause [] none)
    unfolding apply_records apply_record apply_rollback_record
    apply_records-rollback_run cause zero offset = refl
    apply_records-rollback_run cause (suc n) offset =
        ground (arith, apply_records-rollback_run cause n (suc (suc offset)))

commit_one :
    (step count index : ℕ) (done : List ℕ)
    → step ≡ count
    → apply_record (forwards step done []) count transaction_completed index ≡ ok completed
unfolding apply_record apply_forward_record
commit_one step count index done h = ground arith

stop_one :
    (step count index : ℕ) (done : List ℕ) (cause : RollbackCause)
    → (cause ≡ cancelled) ⊎ (cause ≡ recovery_requested)
    → apply_record (forwards step done []) count (rollback_started cause) index
      ≡ ok (backwards cause (reverse done) none)
unfolding apply_record apply_forward_record
stop_one step count index done cause h = ground arith

-- The rollback records, and the one that closes the transaction.
rollback_closes :
    (identity : ExecutionIdentity) (count : ℕ) (bound : count ≤ usize_max) (cause : RollbackCause)
    (n offset : ℕ)
    → apply_records
        (backwards cause (countdown n) none)
        count
        offset
        (rollback_run identity n ++ transaction_rolled_back ∷ [])
      ≡ ok (rolled_back cause)
unfolding apply_records apply_record apply_rollback_record
rollback_closes identity count bound cause n offset =
    apply_records-append (backwards cause (countdown n) none) count offset (rollback_run identity n)
      (transaction_rolled_back ∷ [])
    ∙ rw (apply_records-rollback_run identity count bound cause n offset)

module _ (plan_id generation : ℕ) (entries : List JournalEntry) (identity : ExecutionIdentity)
    (present : 0 < length entries) (fits : length entries * 2 ≤ usize_max) where
  abbrev pub steps : ℕ
  steps = length entries * 2

  abbrev pub header : JournalRecord
  header = transaction_started plan_id generation steps entries

  valid : is_valid_count (length entries) steps ≡ true
  valid = ground arith

  -- For a plan with at least one entry, whose number of steps a `usize` holds: an execution that prepares
  -- and completes every step in order and then closes the transaction is accepted, and its journal is
  -- complete.
  pub replay_journal-forward_run :
      replay_journal (header ∷ forward_run identity 0 steps ++ transaction_completed ∷ [])
      ≡ ok JournalStatus.completed
  unfolding replay_journal apply_records
  replay_journal-forward_run = rw (
    valid,
    apply_records-append start steps 0 (forward_run identity 0 steps) (transaction_completed ∷ []),
    apply_records-forward_run identity steps fits 0 steps 0 [] (omega arith),
    commit_one (0 + steps) steps (saturating_add (0 + length (forward_run identity 0 steps)) 1)
        (range_from 0 steps) (omega arith),
  )

  -- For a plan with at least one entry, whose number of steps a `usize` holds: an execution that is
  -- cancelled, or stopped by a request for recovery, after any number of its steps, and then undoes them
  -- from the last and closes the transaction, is accepted, and its journal is rolled back.
  pub replay_journal-rollback_run :
      (n : ℕ) (cause : RollbackCause)
      → n ≤ steps
      → (cause ≡ cancelled) ⊎ (cause ≡ recovery_requested)
      → replay_journal (
          header
          ∷ (forward_run identity 0 n
              ++ (rollback_started cause ∷ rollback_run identity n
                  ++ transaction_rolled_back ∷ [])))
        ≡ ok (JournalStatus.rolled_back cause)
  unfolding replay_journal apply_records
  replay_journal-rollback_run n cause le c = rw (
    valid,
    apply_records-append start steps 0 (forward_run identity 0 n)
        (rollback_started cause ∷ rollback_run identity n ++ transaction_rolled_back ∷ []),
    apply_records-forward_run identity steps fits 0 n 0 [] (omega arith),
    stop_one (0 + n) steps (saturating_add (0 + length (forward_run identity 0 n)) 1)
        (range_from 0 n) cause c,
    reverse-range_from n,
    rollback_closes identity steps fits cause n (suc (0 + length (forward_run identity 0 n))),
  )
