-- ===== src/Tests/Writers.antt =====
-- The writer theorems at a sink that runs out of space (crates/renamewright-platform/src/journal.rs).
use renamewright.Common.{
  ok, ℕ, ◌-◌, ◌≡◌, refl, inl, inr, ◌⊎◌, List, [], ◌∷◌, ◌++◌, Option, none, some, leb, if◌then◌else◌,
  Bool, true, false, Bool-cases, arith, length, take, drop, take-append-drop,
}
use renamewright.Execution.Journal.{
  JournalRecord, transaction_started, forward_step_prepared, forward_step_completed,
}
use renamewright.Codec.{Bytes}
use renamewright.Codec.Frame.{inspect_journal}
use renamewright.Codec.Journals.{frames_from}
use renamewright.Writer.{DurableAppender, JournalSink, IoErrorKind}
use renamewright.Writer.Durable.{SinkLaws}
use renamewright.Writer.Crash.{
  send, Inspects, send_all, write_journal, write_journal-inspect_journal,
}
use renamewright.Execution.Journal.{forward_pending}
use renamewright.Execution.Replay.{
  replay_journal, apply_records, apply_record, apply_forward_record, require_step, status_for,
}
use renamewright.Codec.Frame.{encode_journal, encode_loop}
use renamewright.Writer.{initial_record_has_parent_authority}
use renamewright.Text.{os_bytes}
use renamewright.Writer.{
  append_buffered_completion, append_initial, new_appender, advance, append, append_record,
  append_validated, synchronized, validate_append, write_record,
}
use renamewright.Codec.Frame.{
  check, encode_frame_for_version, crc32_loop, crc32_parts, seal, encode_frame,
}
use renamewright.Codec.Record.{encode_record, encode_header, encode_entries}
use renamewright.Codec.Cursor.{put_usize, put_u32_len, put_optional, put_u64}
use renamewright.Codec.Entry.{
  encode_entry, encode_native_name, encode_fingerprint, encode_undo, encode_execution_identity,
}
use renamewright.Writer.Resume.{JournalFile, resume, starts_with_authority, is_terminal_status}
use renamewright.Writer.Reopen.{write_journal-resume}
use renamewright.Tests.Codecs.{
  records, bytes_of, file_small, sum_hasher, sum_bound, volume, entry, stored,
}

-- The bytes of the file and the space that is left.
abbrev pub Disk : Type 0
Disk = Bytes × ℕ

abbrev pub disk_write : Disk → Bytes → Disk × Option IoErrorKind
disk_write (file, space) bytes =
    if leb (length bytes) space
    then ((file ++ bytes, space - length bytes), none)
    else ((file ++ take space bytes, 0), some 28)

abbrev pub small_disk : JournalSink
small_disk = record { Sink = Disk; write_frame = disk_write; sync_all = λ disk. (disk, none) }

pub appends :
    (disk : Disk) (bytes : Bytes)
    → (disk_write disk bytes).1 ≡ none
    → (disk_write disk bytes).0.0 ≡ disk.0 ++ bytes
appends (file, space) bytes e = elim (Bool-cases (leb (length bytes) space)) [
  | inl fits ↦ rw fits refl
  | inr full ↦ absurd (ground (arith, full, e))
]

pub cuts :
    (disk : Disk) (bytes : Bytes) (io_kind : IoErrorKind)
    → (disk_write disk bytes).1 ≡ some io_kind
    → (cut : Bytes) × (gone : Bytes) × (cut ++ gone ≡ bytes)
      × ((disk_write disk bytes).0.0 ≡ disk.0 ++ cut)
cuts (file, space) bytes io_kind e = elim (Bool-cases (leb (length bytes) space)) [
  | inl fits ↦ absurd (ground (arith, fits, e))
  | inr full ↦ (take space bytes, drop space bytes, take-append-drop space bytes, rw full refl)
]

abbrev pub small_disk_laws : SinkLaws small_disk
small_disk_laws = record {
  contents = λ disk. disk.0;
  write_appends = appends;
  write_cuts = cuts;
  sync_keeps = λ disk. refl;
}

abbrev header : JournalRecord
header = transaction_started 1 1 2 (entry ∷ [])

abbrev requests : List (JournalRecord × Bool)
requests = (forward_step_prepared 0, false) ∷ (forward_step_completed 0 volume, true) ∷ []

abbrev outcome : DurableAppender sum_hasher small_disk × List JournalRecord
outcome = write_journal sum_hasher small_disk ([], 230) header requests

-- The disk fills up in the middle of the third frame.
write_journal-inspect_journal_example :
    ((inspect_journal sum_hasher outcome.0.sink.0).frames ≡ frames_from 6 0 outcome.1)
    ⊎ ((next : JournalRecord) × ((inspect_journal sum_hasher outcome.0.sink.0).frames
          ≡ frames_from 6 0 (outcome.1 ++ next ∷ [])))
write_journal-inspect_journal_example =
    write_journal-inspect_journal sum_hasher small_disk small_disk_laws sum_bound ([], 230) header
      requests refl stored.0 stored.1

-- The same appends with room for all of them, and a step later on a disk that fills up.
abbrev stopped : DurableAppender sum_hasher small_disk × List JournalRecord
stopped = write_journal sum_hasher small_disk ([], 1000) header requests

abbrev reopened : Disk
reopened = (stopped.0.sink.0, 20)

abbrev journal_file : JournalFile
journal_file = record {
  opened = none;
  locked = none;
  metadata = ok (true, 247);
  content = ok stopped.0.sink.0;
}

unbroken :
    (stopped.0.poisoned ≡ false)
    × (stopped.1 ≡ records)
    × (stopped.0.sink.0 ≡ bytes_of (encode_journal sum_hasher records))
unfolding write_journal send_all send append_buffered_completion append_initial
    initial_record_has_parent_authority new_appender advance append append_record append_validated
    synchronized validate_append write_record check encode_frame_for_version crc32_loop crc32_parts
    seal encode_journal encode_loop encode_frame encode_record encode_header encode_entries
    put_usize put_u32_len put_optional put_u64 encode_entry encode_native_name encode_fingerprint
    encode_undo encode_execution_identity os_bytes
unbroken = (refl, refl, refl)

starts : starts_with_authority stopped.1 ≡ true
starts = rw unbroken.1 (unfold starts_with_authority initial_record_has_parent_authority in refl)

pending : replay_journal stopped.1 ≡ ok (forward_pending 1)
unfolding replay_journal apply_records apply_record apply_forward_record require_step status_for
pending = rw unbroken.1 refl

write_journal-resume_example :
    (resumed : DurableAppender sum_hasher small_disk) × (resume sum_hasher small_disk journal_file
        reopened
      ≡ ok (resumed, stopped.1))
    × Inspects sum_hasher small_disk small_disk_laws
        (send_all sum_hasher small_disk resumed stopped.1 ((forward_step_prepared 1, false) ∷ []))
write_journal-resume_example =
    write_journal-resume sum_hasher sum_bound small_disk small_disk_laws ([], 1000) reopened header
      requests ((forward_step_prepared 1, false) ∷ []) journal_file (forward_pending 1) refl
      stored.0 stored.1 (tt, tt) unbroken.0 refl
      (refl, refl, 247, refl, omega arith, refl, rw unbroken.2 file_small) starts pending
      (unfold is_terminal_status in refl)
