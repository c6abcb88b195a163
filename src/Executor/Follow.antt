-- ===== src/Executor/Follow.antt =====
-- A run and the replay of the records that its journal has accepted.
use renamewright.Common.{ℕ, ◌≡◌, refl, ap, ◌∙◌, List, [], ◌∷◌, ◌++◌, Option, ok, err, ◌>>=◌}
use renamewright.Execution.Journal.{
  rollback_step_completed, forward_step_completed, transaction_started, ExecutionIdentity,
  ExecutionDirection, JournalRecord,
}
use renamewright.Execution.Replay.{
  ReplayMode, completed, rolled_back, apply_record, apply_records, start,
}
use renamewright.Execution.Replay.Prefix.{apply_records-append}
use renamewright.Writer.{JournalStorageErrorKind}
use renamewright.Executor.{
  OsString, recovery_outcome, ExecutionFileSystem, ExecutionJournal, ExecutionPlanView,
  ExecutionOutcome, recovery_required, Appended,
}
use renamewright.Executor.Steps.{
  conclude, World, Executed, Running, logged, record_step, record_completion,
}

-- The records after an append.
abbrev pub after_append :
    {Log : Type 0} → List JournalRecord → JournalRecord → Appended Log → List JournalRecord
after_append records journal_record (log, ok done) = records ++ journal_record ∷ []
after_append records journal_record (log, err kind) = records

-- What a journal has accepted: an append that succeeds adds its record, one that fails adds none.
pub record JournalLaws (journal : ExecutionJournal) : Type 0 where
  pub accepted : journal.Log → List JournalRecord
  pub append_accepts :
      (log : journal.Log) (journal_record : JournalRecord)
      → accepted (journal.append log journal_record).0
        ≡ after_append (accepted log) journal_record (journal.append log journal_record)
  pub append_completion_accepts :
      (log : journal.Log) (journal_record : JournalRecord)
      → accepted (journal.append_completion log journal_record).0
        ≡ after_append (accepted log) journal_record (journal.append_completion log journal_record)

-- The records that a run appends, of which those of completed steps carry an identity.
abbrev pub Writes : (ExecutionIdentity → Type 0) → JournalRecord → Type 0
Writes Known (transaction_started plan_id source_generation step_count entries) = ⊥
Writes Known (forward_step_completed step_index identity) = Known identity
Writes Known (rollback_step_completed step_index identity) = Known identity
Writes Known journal_record = Unit

-- A journal with a property of its state that every append keeps, where the identities that the file
-- system answers are known ones.
pub record RunLaws (filesystem : ExecutionFileSystem) (journal : ExecutionJournal) : Type 1 where
  pub base : JournalLaws journal
  pub Known : ExecutionIdentity → Type 0
  pub Kept : journal.Log → Type 0
  pub renames_known :
      (files : filesystem.Files) (parent source_name target_name : OsString)
      (parent_identity expected identity : ExecutionIdentity)
      → (filesystem.rename_no_replace_in_parent files parent source_name target_name parent_identity
          expected).1
        ≡ ok identity
      → Known identity
  pub append_keeps :
      (log : journal.Log) (journal_record : JournalRecord)
      → Writes Known journal_record
      → Kept log
      → Kept (journal.append log journal_record).0
  pub append_completion_keeps :
      (log : journal.Log) (journal_record : JournalRecord)
      → Writes Known journal_record
      → Kept log
      → Kept (journal.append_completion log journal_record).0

-- The transaction is not over.
abbrev pub IsOpen : ReplayMode → Type 0
IsOpen completed = ⊥
IsOpen (rolled_back cause) = ⊥
IsOpen mode = Unit

-- The mode that an outcome leaves the journal in.
abbrev pub Agrees : ExecutionOutcome → ReplayMode → Type 0
Agrees ExecutionOutcome.completed mode = mode ≡ completed
Agrees (ExecutionOutcome.rolled_back cause) mode = mode ≡ rolled_back cause
Agrees (recovery_required details) mode = IsOpen mode

module _ (filesystem : ExecutionFileSystem) (journal : ExecutionJournal) (plan : ExecutionPlanView)
    (laws : RunLaws filesystem journal) (header : JournalRecord) (count : ℕ) where
  -- The accepted records lead the replay to this mode.
  abbrev pub At : World filesystem journal plan → ReplayMode → Type 0
  At world mode =
      (rest : List JournalRecord) × (laws.base.accepted world.log ≡ header ∷ rest)
      × (apply_records start count 0 rest ≡ ok mode)
      × laws.Kept world.log

  abbrev pub Ends : Executed filesystem journal plan → Type 0
  Ends (world, outcome) = (mode : ReplayMode) × At world mode × Agrees outcome mode

  -- The code goes on in such a state, or the run is over.
  abbrev pub Goes :
      {A : Type 0}
      → (World filesystem journal plan → A → Type 0)
      → Running filesystem journal plan A
      → Type 0
  Goes P (ok (world, value)) = P world value
  Goes P (err executed) = Ends executed

  pub Goes-then :
      {A B : Type 0} (P : World filesystem journal plan → A → Type 0)
      (Q : World filesystem journal plan → B → Type 0) (first : Running filesystem journal plan A)
      (next : World filesystem journal plan × A → Running filesystem journal plan B)
      → Goes P first
      → ((world : World filesystem journal plan) (value : A)
          → P world value
          → Goes Q (next (world, value)))
      → Goes Q (first >>= next)
  Goes-then P Q (ok (world, value)) next h step = step world value h
  Goes-then P Q (err executed) next h step = h

  -- A record that the mode takes to the next one.
  abbrev pub Takes : ReplayMode → JournalRecord → ReplayMode → Type 0
  Takes mode journal_record next =
      (index : ℕ) → apply_record mode count journal_record index ≡ ok next

  At-append :
      (mode next : ReplayMode) (journal_record : JournalRecord) (rest : List JournalRecord)
      → Takes mode journal_record next
      → apply_records start count 0 rest ≡ ok mode
      → apply_records start count 0 (rest ++ journal_record ∷ []) ≡ ok next
  unfolding apply_records
  At-append mode next journal_record rest takes runs =
      apply_records-append start count 0 rest (journal_record ∷ []) ∙ rw (runs, takes _) refl

  logged-Goes :
      (world : World filesystem journal plan) (mode next : ReplayMode)
      (journal_record : JournalRecord) (answer : Appended journal.Log)
      (failed : JournalStorageErrorKind → ExecutionOutcome)
      → ((kind : JournalStorageErrorKind) → Agrees (failed kind) mode)
      → Takes mode journal_record next
      → laws.base.accepted answer.0
        ≡ after_append (laws.base.accepted world.log) journal_record answer
      → laws.Kept answer.0
      → At world mode
      → Goes (λ w done. At w next) (logged filesystem journal plan world answer failed)
  unfolding logged
  logged-Goes world mode next journal_record (log, ok done) failed agrees takes accepts keeps
        (rest, held, runs, kept) =
      (
        rest ++ journal_record ∷ [],
        accepts ∙ ap (λ records. records ++ journal_record ∷ []) held,
        At-append mode next journal_record rest takes runs,
        keeps,
      )
  logged-Goes world mode next journal_record (log, err kind) failed agrees takes accepts keeps
        (rest, held, runs, kept) =
      (mode, (rest, accepts ∙ held, runs, keeps), agrees kind)

  module _ (world : World filesystem journal plan) (mode next : ReplayMode)
      (journal_record : JournalRecord) (direction : ExecutionDirection)
      (step_index : Option ℕ) where
    -- An append in an open mode that takes the record.
    pub record_step-Goes :
        IsOpen mode
        → Writes laws.Known journal_record
        → Takes mode journal_record next
        → At world mode
        → Goes
            (λ w done. At w next)
            (record_step filesystem journal plan world journal_record direction step_index)
    unfolding record_step recovery_outcome
    record_step-Goes unfinished writes takes at =
        logged-Goes world mode next journal_record (journal.append world.log journal_record) _
          (λ kind. unfinished) takes (laws.base.append_accepts world.log journal_record)
          (laws.append_keeps world.log journal_record writes at.3) at

    pub record_completion-Goes :
        IsOpen mode
        → Writes laws.Known journal_record
        → Takes mode journal_record next
        → At world mode
        → Goes
            (λ w done. At w next)
            (record_completion filesystem journal plan world journal_record direction step_index)
    unfolding record_completion recovery_outcome
    record_completion-Goes unfinished writes takes at =
        logged-Goes world mode next journal_record
          (journal.append_completion world.log journal_record) _ (λ kind. unfinished) takes
          (laws.base.append_completion_accepts world.log journal_record)
          (laws.append_completion_keeps world.log journal_record writes at.3) at

  pub conclude-Ends :
      (running : Running filesystem journal plan (Unit {0})) (outcome : ExecutionOutcome)
      (mode : ReplayMode)
      → Agrees outcome mode
      → Goes (λ w done. At w mode) running
      → Ends (conclude filesystem journal plan running outcome)
  unfolding conclude
  conclude-Ends (ok (world, done)) outcome mode agrees h = (mode, h, agrees)
  conclude-Ends (err executed) outcome mode agrees h = h
