-- ===== src/Executor/Start.antt =====
-- crates/renamewright-platform/src/executor.rs: the journal's writer as an `ExecutionJournal`, and
-- `execute_frozen_plan`. Beside the writer stands the list of the records whose appends succeeded, which
-- only the laws read. The paths are not looked at: what the operating system answers is an argument.
use renamewright.Common.{
  Result-cases, inl, inr, ok_injective, ℕ, List, [], ◌∷◌, ◌++◌, Option, Bool, leb, if◌then◌else◌,
  Result, err, ok, ◌≡◌, refl,
}
use renamewright.Execution.Journal.{JournalRecord}
use renamewright.Codec.Frame.{Hasher}
use renamewright.Writer.{
  JournalSink, DurableAppender, Appending, IoErrorKind, JournalStorageErrorKind, append,
  append_buffered_completion,
}
use renamewright.Writer.Resume.{create_new}
use renamewright.Executor.{
  Appended, ExecutionFileSystem, ExecutionJournal, FrozenExecutionPlan, initial_record, view,
  forward_journal_batch_steps,
}
use renamewright.Executor.Steps.{World, Executed}
use renamewright.Executor.Forward.{execute_with_journal}
use renamewright.Executor.Follow.{JournalLaws, after_append}

module _ (crc : Hasher) (journal_sink : JournalSink) where
  abbrev pub JournalWriter : Type 0
  JournalWriter = DurableAppender crc journal_sink × List JournalRecord

  -- `map_err` to the error's kind, with the record in the list if the append succeeded.
  unfoldable pub entered :
      List JournalRecord → JournalRecord → Appending crc journal_sink → Appended JournalWriter
  entered records journal_record (appender, ok done) =
      ((appender, records ++ journal_record ∷ []), ok tt)
  entered records journal_record (appender, err error) = ((appender, records), err error.kind)

  unfoldable pub append_to : JournalWriter → JournalRecord → Appended JournalWriter
  unfolding entered
  append_to (appender, records) journal_record =
      entered records journal_record (append crc journal_sink appender journal_record)

  unfoldable pub append_completion_to : JournalWriter → JournalRecord → Appended JournalWriter
  unfolding entered
  append_completion_to (appender, records) journal_record =
      entered records journal_record
        (append_buffered_completion crc journal_sink appender journal_record)

  abbrev pub writer_batch_size : JournalWriter → ℕ
  writer_batch_size (appender, records) =
      if leb 6 appender.schema_version then forward_journal_batch_steps else 1

  abbrev pub journal_writer : ExecutionJournal
  journal_writer = record {
    Log = JournalWriter;
    append = append_to;
    append_completion = append_completion_to;
    forward_batch_size = writer_batch_size;
  }

  entered_accepts :
      (records : List JournalRecord) (journal_record : JournalRecord)
      (answer : Appending crc journal_sink)
      → (entered records journal_record answer).0.1
        ≡ after_append records journal_record (entered records journal_record answer)
  unfolding entered
  entered_accepts records journal_record (appender, ok done) = refl
  entered_accepts records journal_record (appender, err error) = refl

  pub append_accepts_lem :
      (log : JournalWriter) (journal_record : JournalRecord)
      → (append_to log journal_record).0.1
        ≡ after_append log.1 journal_record (append_to log journal_record)
  unfolding append_to
  append_accepts_lem (appender, records) journal_record = entered_accepts records journal_record _

  pub append_completion_accepts_lem :
      (log : JournalWriter) (journal_record : JournalRecord)
      → (append_completion_to log journal_record).0.1
        ≡ after_append log.1 journal_record (append_completion_to log journal_record)
  unfolding append_completion_to
  append_completion_accepts_lem (appender, records) journal_record =
      entered_accepts records journal_record _

  -- The writer keeps the laws of a journal.
  abbrev pub writer_laws : JournalLaws journal_writer
  writer_laws = record {
    accepted = λ log. log.1;
    append_accepts = append_accepts_lem;
    append_completion_accepts = append_completion_accepts_lem;
  }

  module _ (filesystem : ExecutionFileSystem) (plan : FrozenExecutionPlan)
      (should_cancel : ℕ → Bool) where
    abbrev pub Run : Type 0
    Run = Executed filesystem journal_writer (view plan)

    unfoldable pub execute_frozen_plan :
        filesystem.Files
        → Option (Bool × IoErrorKind)
        → Option IoErrorKind
        → journal_sink.Sink
        → Result JournalStorageErrorKind Run
    execute_frozen_plan files opening locked sink =
        elim (create_new crc journal_sink (initial_record plan) opening locked sink) [
          | err error ↦ err error.kind
          | ok appender ↦ ok (
              execute_with_journal filesystem journal_writer plan should_cancel
                (record { files = files; log = (appender, initial_record plan ∷ []); polls = 0 }))
        ]

    -- The state in which a run starts.
    abbrev pub starting :
        filesystem.Files
        → DurableAppender crc journal_sink
        → World filesystem journal_writer (view plan)
    starting files appender = record {
      files = files;
      log = (appender, initial_record plan ∷ []);
      polls = 0;
    }

    pub execute_frozen_plan-ok :
        (files : filesystem.Files) (opening : Option (Bool × IoErrorKind))
        (locked : Option IoErrorKind) (sink : journal_sink.Sink) (run : Run)
        → execute_frozen_plan files opening locked sink ≡ ok run
        → (appender : DurableAppender crc journal_sink) × (create_new crc journal_sink
              (initial_record plan)
              opening
              locked
              sink
            ≡ ok appender)
          × (execute_with_journal filesystem journal_writer plan should_cancel
                (starting files appender)
              ≡ run)
    unfolding execute_frozen_plan
    execute_frozen_plan-ok files opening locked sink run e =
        elim (Result-cases
          (create_new crc journal_sink (initial_record plan) opening locked sink)) [
            | inl (appender, made) ↦
                (appender, made, ok_injective (rw (execute_frozen_plan, made) at e))
            | inr (error, refused) ↦
                let clash = rw (execute_frozen_plan, refused) at e in absurd (cc)
          ]
