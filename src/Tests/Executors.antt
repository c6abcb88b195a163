-- ===== src/Tests/Executors.antt =====
-- The executor theorems at a plan with one entry, a file system that refuses the second rename and a
-- disk that fills up (crates/renamewright-platform/src/executor.rs).
use renamewright.Common.{
  inl, inr, subst, Bool-cases, ok_injective, arith, ℕ, suc, List, [], ◌∷◌, none, Bool, false, ◌==◌,
  if◌then◌else◌, ok, err, ◌≡◌, refl,
}
use renamewright.Text.{scalar}
use renamewright.Execution.Schedule.{
  source_to_temporary, temporary_to_final, first_duplicate, sort_unstable, two_phases,
  build_two_phase_schedule,
}
use renamewright.Execution.Journal.{JournalStatus}
use renamewright.Execution.Replay.{replay_journal}
use renamewright.Executor.{
  ExecutionFileSystem, FrozenExecutionEntry, FrozenExecutionPlan, sharing_violation, from_entries,
  initial_record, view,
}
use renamewright.Executor.Steps.{World}
use renamewright.Executor.Forward.{execute_with_journal}
use renamewright.Executor.Outcome.{Settles, execute_with_journal-Settles}
use renamewright.Executor.Start.{journal_writer, writer_laws, Run, execute_frozen_plan}
use renamewright.Writer.{
  DurableAppender, new_appender, append_initial, initial_record_has_parent_authority,
}
use renamewright.Writer.Resume.{create_new}
use renamewright.Codec.Cursor.{put_optional, put_usize, put_u32_len, put_u64}
use renamewright.Codec.Entry.{
  encode_entry, encode_native_name, encode_fingerprint, encode_undo, encode_execution_identity,
}
use renamewright.Codec.Record.{encode_record, encode_header, encode_entries}
use renamewright.Codec.Frame.{check, encode_frame_for_version}
use renamewright.Text.{os_bytes}
use renamewright.Tests.Codecs.{sum_hasher, sum_bound, entry_stored, volume, entry}
use renamewright.Tests.Writers.{small_disk, small_disk_laws}
use renamewright.Writer.Crash.{Inspects}
use renamewright.Codec.Stored.{IsIdentity, IsStored}
use renamewright.Executor.Crash.{AnswersIdentities, execute_frozen_plan-Inspects}

-- The number of renames so far.
abbrev busy_files : ExecutionFileSystem
busy_files = record {
  Files = ℕ;
  rename_no_replace_in_parent = λ files parent source_name target_name parent_identity identity.
      (suc files, if files == 1 then err sharing_violation else ok volume);
}

abbrev entries : List FrozenExecutionEntry
entries = record { journal_entry = entry; parent = scalar 0x2f ∷ [] } ∷ []

abbrev plan : FrozenExecutionPlan
plan = record {
  plan_id = 1;
  source_generation = 1;
  entries = entries;
  schedule =
      record { index = 0; source_id = 4; phase = source_to_temporary }
      ∷ record { index = 1; source_id = 4; phase = temporary_to_final }
      ∷ [];
}

made : from_entries 1 1 entries ≡ ok plan
unfolding from_entries build_two_phase_schedule first_duplicate sort_unstable two_phases
made = refl

-- The disk fills up during the rollback.
abbrev appender : DurableAppender sum_hasher small_disk
appender =
    (append_initial sum_hasher small_disk (new_appender sum_hasher small_disk ([], 300))
      (initial_record plan)).0

abbrev world : World busy_files (journal_writer sum_hasher small_disk) (view plan)
world = record { files = 0; log = (appender, initial_record plan ∷ []); polls = 0 }

abbrev never : ℕ → Bool
never poll = false

abbrev run : Run sum_hasher small_disk busy_files plan never
run = execute_with_journal busy_files (journal_writer sum_hasher small_disk) plan never world

execute_with_journal-Settles_example :
    (status : JournalStatus) × (replay_journal run.0.log.1 ≡ ok status) × Settles run.1 status
execute_with_journal-Settles_example =
    execute_with_journal-Settles busy_files (journal_writer sum_hasher small_disk) plan
      (writer_laws sum_hasher small_disk) never 1 1 entries world made refl

started :
    execute_frozen_plan sum_hasher small_disk busy_files plan never 0 none none ([], 300) ≡ ok run
unfolding execute_frozen_plan create_new append_initial new_appender initial_record encode_record
    encode_header encode_entries encode_entry encode_native_name encode_fingerprint encode_undo
    encode_execution_identity put_optional put_usize put_u32_len put_u64 check os_bytes
    initial_record_has_parent_authority encode_frame_for_version
started = refl

plan-IsStored : IsStored 6 (initial_record plan)
unfolding initial_record
plan-IsStored = (omega arith, omega arith, (entry_stored, tt))

answers : AnswersIdentities busy_files
answers files parent source_name target_name parent_identity expected identity e =
    elim (Bool-cases (files == 1)) [
      | inl busy ↦ let clash = rw busy at e in absurd (cc)
      | inr free ↦
          let same = rw free at e in subst IsIdentity (ok_injective same) (omega arith, refl)
    ]

execute_frozen_plan-Inspects_example :
    (status : JournalStatus) × (replay_journal run.0.log.1 ≡ ok status)
    × Settles run.1 status
    × Inspects sum_hasher small_disk small_disk_laws run.0.log
execute_frozen_plan-Inspects_example =
    execute_frozen_plan-Inspects sum_hasher small_disk small_disk_laws sum_bound busy_files answers
      plan never 1 1 entries 0 none none ([], 300) run made plan-IsStored refl started
