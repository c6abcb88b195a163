-- ===== src/Executor/Outcome.antt =====
-- Every run of a frozen plan leaves a journal that replays to what its outcome says.
use native.Mathlib.Nat.{zero-add}
use renamewright.Common.{
  if_both, ℕ, ◌≡◌, refl, ap, ◌∙◌, subst, List, [], ◌∷◌, map, none, some, Bool, true, false, ok, err,
  arith, length, length-map, leb, ◌==◌, max,
}
use renamewright.Execution.Schedule.Outcome.{numbered}
use renamewright.Execution.Journal.{JournalRecord, JournalStatus, forward}
use renamewright.Execution.Replay.{
  ReplayMode, forwards, backwards, rolled_back, completed, apply_records, start, status_for,
  replay_journal, is_valid_count,
}
use renamewright.Writer.Resume.{is_terminal_status}
use renamewright.Executor.{
  ExecutionFileSystem, ExecutionJournal, ExecutionOutcome, recovery_required, FrozenExecutionEntry,
  FrozenExecutionPlan, initial_record, view, from_entries,
}
use renamewright.Executor.Steps.{World, Running, complete_transaction}
use renamewright.Executor.Forward.{continue_forward, execute_with_journal}
use renamewright.Executor.Follow.{
  JournalLaws, RunLaws, IsOpen, Agrees, At, Ends, record_step-Goes, conclude-Ends,
}
use renamewright.Executor.Advances.{going_forward, commit_all}
use renamewright.Executor.Loops.{Advances, batch_loop-Advances}
use renamewright.Executor.Frozen.{IsFrozen, from_entries-IsFrozen}

-- The status that an outcome leaves the journal with.
abbrev pub Settles : ExecutionOutcome → JournalStatus → Type 0
Settles ExecutionOutcome.completed status = status ≡ JournalStatus.completed
Settles (ExecutionOutcome.rolled_back cause) status = status ≡ JournalStatus.rolled_back cause
Settles (recovery_required details) status = is_terminal_status status ≡ false

status_for-open :
    (mode : ReplayMode) (count : ℕ)
    → IsOpen mode
    → is_terminal_status (status_for mode count) ≡ false
unfolding status_for is_terminal_status
status_for-open (forwards next done (step ∷ prepared)) count unfinished = refl
status_for-open (forwards next done []) count unfinished =
    if_both (λ status. is_terminal_status status ≡ false) (next == count) _ _ refl refl
status_for-open (backwards cause remaining (some step)) count unfinished = refl
status_for-open (backwards cause [] none) count unfinished = refl
status_for-open (backwards cause (next ∷ remaining) none) count unfinished = refl
status_for-open completed count unfinished = absurd unfinished
status_for-open (rolled_back cause) count unfinished = absurd unfinished
status_for-open (ReplayMode.recovery cause failed remaining) count unfinished = refl

status_for-Settles :
    (outcome : ExecutionOutcome) (mode : ReplayMode) (count : ℕ)
    → Agrees outcome mode
    → Settles outcome (status_for mode count)
unfolding status_for
status_for-Settles ExecutionOutcome.completed mode count agrees = rw agrees refl
status_for-Settles (ExecutionOutcome.rolled_back cause) mode count agrees = rw agrees refl
status_for-Settles (recovery_required details) mode count agrees = status_for-open mode count agrees

replay_journal-runs :
    (plan : FrozenExecutionPlan) (rest : List JournalRecord) (mode : ReplayMode)
    → IsFrozen plan
    → apply_records start (length plan.schedule) 0 rest ≡ ok mode
    → replay_journal (initial_record plan ∷ rest) ≡ ok (status_for mode (length plan.schedule))
unfolding replay_journal initial_record
replay_journal-runs plan rest mode (numbered, twice, present, fits) runs =
    let counted : length (map (λ entry. entry.journal_entry) plan.entries) ≡ length plan.entries =
      length-map plan.entries _ in
    let valid : is_valid_count (length (map (λ entry. entry.journal_entry) plan.entries))
          (length plan.schedule)
        ≡ true =
      rw (counted, twice) (ground (arith, present, fits, twice)) in
    rw (valid, runs) refl

module _ (filesystem : ExecutionFileSystem) (journal : ExecutionJournal)
    (plan : FrozenExecutionPlan) (laws : RunLaws filesystem journal)
    (should_cancel : ℕ → Bool) where
  execute_with_journal-Ends :
      (world : World filesystem journal (view plan))
      → IsFrozen plan
      → laws.base.accepted world.log ≡ initial_record plan ∷ []
      → laws.Kept world.log
      → Ends filesystem journal
          (view plan)
          laws
          (initial_record plan)
          (length plan.schedule)
          (execute_with_journal filesystem journal plan should_cancel world)
  unfolding execute_with_journal continue_forward view complete_transaction apply_records
  execute_with_journal-Ends world (in_order, twice, present, fits) held kept =
      let at_front : leb 0 (length plan.schedule) ≡ true = ground arith in
      rw at_front (
        after_batches-Ends _ _ (zero-add (length plan.schedule)) (
          batch_loop-Advances filesystem journal (view plan) laws (initial_record plan) fits
            in_order should_cancel (length plan.schedule)
            (max (journal.forward_batch_size world.log) 1) plan.schedule world 0 (ground arith)
            (omega arith) in_order (omega arith) ([], held, refl, kept)))
    where
      after_batches-Ends :
          (next : ℕ) (running : Running filesystem journal (view plan) ℕ)
          → next ≡ length plan.schedule
          → Advances filesystem journal
              (view plan)
              laws
              (initial_record plan)
              fits
              in_order
              should_cancel
              next
              0
              running
          → Ends filesystem journal
              (view plan)
              laws
              (initial_record plan)
              (length plan.schedule)
              (elim running [
                | ok (last, count) ↦ complete_transaction filesystem journal (view plan) last
                | err executed ↦ executed
              ])
      after_batches-Ends next (ok (last, count)) whole (same, at) =
          conclude-Ends filesystem journal (view plan) laws (initial_record plan)
            (length plan.schedule) _ _ completed refl
            (record_step-Goes filesystem journal (view plan) laws (initial_record plan)
              (length plan.schedule) last (going_forward (length plan.schedule) 0) completed _
              forward none tt tt (λ index. commit_all (length plan.schedule) fits index)
              (subst
                (λ n.
                  At filesystem journal (view plan) laws (initial_record plan)
                    (length plan.schedule) last (going_forward n 0))
                whole at))
      after_batches-Ends next (err executed) whole h = h

  -- The journal of a run replays to what the outcome says, and keeps its property.
  pub execute_with_journal-Kept :
      (world : World filesystem journal (view plan))
      → IsFrozen plan
      → laws.base.accepted world.log ≡ initial_record plan ∷ []
      → laws.Kept world.log
      → (status : JournalStatus) × (replay_journal (
            laws.base.accepted
              (execute_with_journal filesystem journal plan should_cancel world).0.log)
          ≡ ok status)
        × Settles (execute_with_journal filesystem journal plan should_cancel world).1 status
        × laws.Kept (execute_with_journal filesystem journal plan should_cancel world).0.log
  execute_with_journal-Kept world frozen held kept =
      let (mode, (rest, ended, runs, keeps), agrees) =
        execute_with_journal-Ends world frozen held kept in
      (
        status_for mode (length plan.schedule),
        ap replay_journal ended ∙ replay_journal-runs plan rest mode frozen runs,
        status_for-Settles _ mode (length plan.schedule) agrees,
        keeps,
      )

-- Every journal keeps the property that always holds.
abbrev run_laws :
    (filesystem : ExecutionFileSystem) (journal : ExecutionJournal)
    → JournalLaws journal
    → RunLaws filesystem journal
run_laws filesystem journal laws = record {
  base = laws;
  Known = λ identity. Unit;
  Kept = λ log. Unit;
  renames_known = λ files parent source_name target_name parent_identity expected identity e. tt;
  append_keeps = λ log journal_record writes kept. tt;
  append_completion_keeps = λ log journal_record writes kept. tt;
}

module _ (filesystem : ExecutionFileSystem) (journal : ExecutionJournal)
    (plan : FrozenExecutionPlan) (laws : JournalLaws journal) (should_cancel : ℕ → Bool) where
  -- For a plan that `from_entries` has frozen and a journal that holds its initial record and no other,
  -- with any file system, any answers to `should_cancel` and any failures of the file system and the
  -- journal: the run leaves a journal that the replay accepts. Its status is completed if the outcome is,
  -- rolled back for the same cause if the outcome is, and not terminal where recovery is required.
  pub execute_with_journal-Settles :
      (plan_id generation : ℕ) (entries : List FrozenExecutionEntry)
      (world : World filesystem journal (view plan))
      → from_entries plan_id generation entries ≡ ok plan
      → laws.accepted world.log ≡ initial_record plan ∷ []
      → (status : JournalStatus) × (replay_journal
            (laws.accepted (execute_with_journal filesystem journal plan should_cancel world).0.log)
          ≡ ok status)
        × Settles (execute_with_journal filesystem journal plan should_cancel world).1 status
  execute_with_journal-Settles plan_id generation entries world made held =
      let (status, replays, settles, kept) =
        execute_with_journal-Kept filesystem journal plan (run_laws filesystem journal laws)
          should_cancel world (from_entries-IsFrozen plan_id generation entries plan made) held
          tt in
      (status, replays, settles)
