-- ===== src/Executor/Crash.antt =====
-- What a run leaves in the journal's file, whatever fails (crates/renamewright-platform/src/executor.rs,
-- with the writer of journal.rs).
use renamewright.Common.{
  ok_injective, ℕ, ◌^◌, ◌<◌, ◌≡◌, refl, subst, List, [], ◌∷◌, Option, Bool, true, false, ok, err,
  ◌>>◌, >>=-eq-ok,
}
use renamewright.Text.{OsString}
use renamewright.Execution.Journal.{
  ExecutionIdentity, JournalRecord, JournalStatus, transaction_started, forward_batch_prepared,
  forward_step_prepared, forward_step_completed, forward_step_not_applied,
  rollback_step_not_applied, rollback_recovery_started, rollback_started, rollback_step_prepared,
  rollback_step_completed, rollback_step_failed, transaction_completed, transaction_rolled_back,
}
use renamewright.Execution.Replay.{replay_journal}
use renamewright.Codec.{journal_schema_version}
use renamewright.Codec.Frame.{Hasher}
use renamewright.Codec.Stored.{IsStored, IsIdentity}
use renamewright.Writer.{
  JournalSink, DurableAppender, Appending, IoErrorKind, invalid_initial_record, lock_failed, Stored,
  append_initial, new_appender, initial_record_has_parent_authority,
}
use renamewright.Writer.Resume.{create_new, created, require, succeeded}
use renamewright.Writer.Durable.{SinkLaws}
use renamewright.Writer.Crash.{
  accepted_after, send, write_journal, send_all, send-Appended, after-Written, Written,
  write_journal-Written, Inspects, Written-Inspects,
}
use renamewright.Executor.{
  ExecutionFileSystem, FrozenExecutionEntry, FrozenExecutionPlan, from_entries, initial_record,
}
use renamewright.Executor.Follow.{Writes, RunLaws}
use renamewright.Executor.Frozen.{from_entries-IsFrozen}
use renamewright.Executor.Outcome.{Settles, execute_with_journal-Kept}
use renamewright.Executor.Start.{
  JournalWriter, entered, append_to, append_completion_to, journal_writer, writer_laws, Run,
  execute_frozen_plan, execute_frozen_plan-ok, starting,
}

-- The identities that a file system answers have a 64-bit volume and 16 bytes.
abbrev pub AnswersIdentities : ExecutionFileSystem → Type 0
AnswersIdentities filesystem =
    (files : filesystem.Files) (parent source_name target_name : OsString)
    (parent_identity expected identity : ExecutionIdentity)
    → (filesystem.rename_no_replace_in_parent files parent source_name target_name parent_identity
        expected).1
      ≡ ok identity
    → IsIdentity identity

written-IsStored :
    (journal_record : JournalRecord)
    → Writes IsIdentity journal_record
    → IsStored journal_schema_version journal_record
written-IsStored (transaction_started plan_id source_generation step_count entries) h = absurd h
written-IsStored (forward_batch_prepared first count) h = tt
written-IsStored (forward_step_prepared step) h = tt
written-IsStored (forward_step_completed step identity) h = h
written-IsStored (rollback_started cause) h = tt
written-IsStored (rollback_step_prepared step) h = tt
written-IsStored (rollback_step_completed step identity) h = h
written-IsStored (rollback_step_failed step) h = tt
written-IsStored (forward_step_not_applied step) h = tt
written-IsStored (rollback_step_not_applied step) h = tt
written-IsStored (rollback_recovery_started step) h = tt
written-IsStored transaction_completed h = tt
written-IsStored transaction_rolled_back h = tt

module _ (crc : Hasher) (journal_sink : JournalSink) (sink_laws : SinkLaws journal_sink) where
  abbrev Sound : JournalWriter crc journal_sink → Type 0
  Sound = Written crc journal_sink sink_laws journal_schema_version

  entered-Sound :
      (records : List JournalRecord) (journal_record : JournalRecord)
      (answer : Appending crc journal_sink)
      → Sound (accepted_after crc journal_sink records journal_record answer)
      → Sound (entered crc journal_sink records journal_record answer).0
  unfolding entered
  entered-Sound records journal_record (appender, ok done) h = h
  entered-Sound records journal_record (appender, err error) h = h

  sent-Sound :
      (log : JournalWriter crc journal_sink) (journal_record : JournalRecord) (buffered : Bool)
      → Writes IsIdentity journal_record
      → Sound log
      → Sound
          (entered crc journal_sink log.1 journal_record
            (send crc journal_sink log.0 (journal_record, buffered))).0
  sent-Sound (appender, records) journal_record buffered writes (holds, kept) =
      let stored : IsStored journal_schema_version journal_record =
        written-IsStored journal_record writes in
      entered-Sound records journal_record _ (
        after-Written crc journal_sink sink_laws journal_schema_version records journal_record _
          kept stored
          (send-Appended crc journal_sink sink_laws journal_schema_version appender records
            (journal_record, buffered) holds stored))

  append_to-Sound :
      (log : JournalWriter crc journal_sink) (journal_record : JournalRecord)
      → Writes IsIdentity journal_record
      → Sound log
      → Sound (append_to crc journal_sink log journal_record).0
  unfolding append_to send
  append_to-Sound log journal_record writes h = sent-Sound log journal_record false writes h

  append_completion_to-Sound :
      (log : JournalWriter crc journal_sink) (journal_record : JournalRecord)
      → Writes IsIdentity journal_record
      → Sound log
      → Sound (append_completion_to crc journal_sink log journal_record).0
  unfolding append_completion_to send
  append_completion_to-Sound log journal_record writes h =
      sent-Sound log journal_record true writes h

  abbrev durable_laws :
      (filesystem : ExecutionFileSystem)
      → AnswersIdentities filesystem
      → RunLaws filesystem (journal_writer crc journal_sink)
  durable_laws filesystem answers = record {
    base = writer_laws crc journal_sink;
    Known = IsIdentity;
    Kept = Sound;
    renames_known = answers;
    append_keeps = append_to-Sound;
    append_completion_keeps = append_completion_to-Sound;
  }

  -- A created journal holds its initial record.
  create_new-Sound :
      (header : JournalRecord) (opening : Option (Bool × IoErrorKind)) (locked : Option IoErrorKind)
      (sink : journal_sink.Sink) (appender : DurableAppender crc journal_sink)
      → sink_laws.contents sink ≡ []
      → IsStored journal_schema_version header
      → create_new crc journal_sink header opening locked sink ≡ ok appender
      → Sound (appender, header ∷ [])
  unfolding create_new write_journal send_all
  create_new-Sound header opening locked sink appender empty stored e =
      let (authorized, e1, f1) =
        >>=-eq-ok (require (initial_record_has_parent_authority header) invalid_initial_record) _
          e in
      let (there, e2, f2) = >>=-eq-ok (created crc journal_sink opening) _ f1 in
      let (free, e3, f3) = >>=-eq-ok (succeeded locked lock_failed) _ f2 in
      first (append_initial crc journal_sink (new_appender crc journal_sink sink) header) f3
        (write_journal-Written crc journal_sink sink_laws sink header [] empty stored tt)
    where
      first :
          (answer : Appending crc journal_sink)
          → ◌≡◌ {A = Stored (DurableAppender crc journal_sink)}
              (answer.1 >> ok answer.0)
              (ok appender)
          → Sound (accepted_after crc journal_sink [] header answer)
          → Sound (appender, header ∷ [])
      first (next, ok done) p h = subst (λ a. Sound (a, header ∷ [])) (ok_injective p) h
      first (next, err error) p h = absurd (cc)

  Sound-Inspects :
      ((hash : crc.Hash) → crc.finalize hash < 2 ^ 32)
      → (log : JournalWriter crc journal_sink) → Sound log
      → Inspects crc journal_sink sink_laws log
  Sound-Inspects bound (appender, records) h =
      Written-Inspects crc journal_sink sink_laws bound appender records h

  module _ (bound : (hash : crc.Hash) → crc.finalize hash < 2 ^ 32)
      (filesystem : ExecutionFileSystem) (answers : AnswersIdentities filesystem)
      (plan : FrozenExecutionPlan) (should_cancel : ℕ → Bool) where
    -- A run of a plan that `from_entries` has frozen, on a new and empty journal that can be created, where
    -- the plan's numbers and names can be stored, the file system answers identities of 16 bytes with a
    -- 64-bit volume, and the checksum has 32 bits. Whatever else the file system answers, whichever writes
    -- and syncs of the journal fail and whenever the run is cancelled: the records whose appends succeeded
    -- replay to a status that is completed if the outcome is, rolled back for the same cause if the
    -- outcome is, and not terminal where recovery is required; and inspecting the journal's file yields
    -- these records, followed by at most one more.
    pub execute_frozen_plan-Inspects :
        (plan_id generation : ℕ) (entries : List FrozenExecutionEntry) (files : filesystem.Files)
        (opening : Option (Bool × IoErrorKind)) (locked : Option IoErrorKind)
        (sink : journal_sink.Sink) (run : Run crc journal_sink filesystem plan should_cancel)
        → from_entries plan_id generation entries ≡ ok plan
        → IsStored journal_schema_version (initial_record plan)
        → sink_laws.contents sink ≡ []
        → execute_frozen_plan crc journal_sink filesystem plan should_cancel files opening locked
            sink
          ≡ ok run
        → (status : JournalStatus) × (replay_journal run.0.log.1 ≡ ok status)
          × Settles run.1 status
          × Inspects crc journal_sink sink_laws run.0.log
    execute_frozen_plan-Inspects plan_id generation entries files opening locked sink run made
          stored empty e =
        let (appender, created, ran) =
          execute_frozen_plan-ok crc journal_sink filesystem plan should_cancel files opening locked
            sink run e in
        let (status, replays, settles, sound) =
          subst
            (λ end.
              (s : JournalStatus) × (replay_journal end.0.log.1 ≡ ok s)
              × Settles end.1 s
              × Sound end.0.log)
            ran
            (execute_with_journal-Kept filesystem (journal_writer crc journal_sink) plan
              (durable_laws filesystem answers) should_cancel
              (starting crc journal_sink filesystem plan should_cancel files appender)
              (from_entries-IsFrozen plan_id generation entries plan made) refl
              (create_new-Sound (initial_record plan) opening locked sink appender empty stored
                created)) in
        (status, replays, settles, Sound-Inspects bound run.0.log sound)
