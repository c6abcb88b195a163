-- ===== src/Writer/Resume.antt =====
-- crates/renamewright-platform/src/journal.rs: `JournalWriter::create_new`, `JournalWriter::resume` and
-- `AuthorizedJournal`. What the operating system answers about the file is an argument: the outcome of
-- each call, and the bytes that `take(…).read_to_end` collects. A path is not looked at.
use renamewright.Common.{
  ℕ, ◌*◌, List, [], ◌∷◌, Option, none, some, Bool, true, false, ◌&&◌, leb, ◌==◌, if◌then◌else◌,
  Result, err, ok, ◌>>=◌, ◌>>◌, length, map,
}
use renamewright.Text.{list_eq}
use renamewright.Execution.Journal.{JournalRecord, JournalStatus, empty_journal}
use renamewright.Execution.Replay.{replay_journal}
use renamewright.Codec.{Bytes, journal_schema_version}
use renamewright.Codec.Frame.{Hasher, JournalFrame, decode_journal}
use renamewright.Writer.{
  snapshot_changed, lock_failed, resume_codec, open_failed, already_exists, resume_too_large,
  resume_terminal, resume_version, invalid_initial_record, resume_protocol, resume_read_failed,
  IoErrorKind, JournalStorageErrorKind, Stored, storage_error, JournalSink, DurableAppender,
  new_appender, resumed_appender, append_initial, initial_record_has_parent_authority,
}

abbrev pub min_resumable_journal_schema_version : ℕ
min_resumable_journal_schema_version = 5

abbrev pub max_journal_file_bytes : ℕ
max_journal_file_bytes = 64 * 1024 * 1024

-- `open`, `try_lock`, `metadata` with `is_file` and `len`, and the read.
pub record JournalFile : Type 0 where
  pub opened : Option IoErrorKind
  pub locked : Option IoErrorKind
  pub metadata : Result IoErrorKind (Bool × ℕ)
  pub content : Result IoErrorKind Bytes

unfoldable pub succeeded :
    Option IoErrorKind → (IoErrorKind → JournalStorageErrorKind) → Stored (Unit {0})
succeeded none kind = ok tt
succeeded (some io_kind) kind = storage_error 0 (kind io_kind)

unfoldable pub or_read_failed : {A : Type 0} → Result IoErrorKind A → Stored A
or_read_failed (ok value) = ok value
or_read_failed (err io_kind) = storage_error 0 (resume_read_failed io_kind)

unfoldable pub require : Bool → JournalStorageErrorKind → Stored (Unit {0})
require test kind = if test then ok tt else storage_error 0 kind

-- The opened, locked and bounded file.
unfoldable pub read_file : JournalFile → Stored Bytes
unfolding succeeded or_read_failed require
read_file file = do
  succeeded file.opened open_failed
  succeeded file.locked lock_failed
  (is_file, size) ← or_read_failed file.metadata
  require (is_file && leb size max_journal_file_bytes) resume_too_large
  or_read_failed file.content

unfoldable pub replayed : List JournalRecord → Stored JournalStatus
replayed records = elim (replay_journal records) [
  | ok status ↦ ok status
  | err error ↦ storage_error error.record_index (resume_protocol error.kind)
]

unfoldable pub is_terminal_status : JournalStatus → Bool
is_terminal_status JournalStatus.completed = true
is_terminal_status (JournalStatus.rolled_back cause) = true
is_terminal_status status = false

unfoldable pub starts_with_authority : List JournalRecord → Bool
starts_with_authority [] = false
starts_with_authority (first ∷ records) = initial_record_has_parent_authority first

abbrev pub records_of : List JournalFrame → List JournalRecord
records_of = map (λ frame. frame.journal_record)

unfoldable pub first_version : List JournalFrame → Stored ℕ
first_version [] = storage_error 0 (resume_protocol empty_journal)
first_version (first ∷ frames) = ok first.schema_version

module _ (crc : Hasher) where
  unfoldable pub decoded : Bytes → Stored (List JournalFrame)
  decoded bytes = elim (decode_journal crc bytes) [
    | ok frames ↦ ok frames
    | err error ↦ storage_error error.frame_index (resume_codec error.kind)
  ]

  pub record AuthorizedJournal : Type 0 where
    pub records : List JournalRecord
    pub schema_version : ℕ
    pub bytes : Bytes

  unfoldable pub open_authorized : JournalFile → Stored AuthorizedJournal
  unfolding read_file decoded first_version require
  open_authorized file = do
    bytes ← read_file file
    frames ← decoded bytes
    version ← first_version frames
    require (version == journal_schema_version && starts_with_authority (records_of frames))
        (resume_version version)
    ok (record { records = records_of frames; schema_version = version; bytes = bytes })

  -- The outcome of the rewind and what the second read collects.
  unfoldable pub verify_content :
      AuthorizedJournal → Option IoErrorKind → Result IoErrorKind Bytes → Stored (Unit {0})
  unfolding succeeded or_read_failed require
  verify_content journal rewound content = do
    succeeded rewound resume_read_failed
    current ← or_read_failed content
    require (list_eq current journal.bytes) snapshot_changed

  module _ (journal_sink : JournalSink) where
    -- The records replay to a status that is not terminal, and the writer goes on behind them.
    unfoldable pub continue_after :
        journal_sink.Sink
        → List JournalRecord
        → ℕ
        → Stored (DurableAppender crc journal_sink × List JournalRecord)
    unfolding replayed resumed_appender
    continue_after sink records version = do
      status ← replayed records
      if is_terminal_status status
          then storage_error (length records) resume_terminal
          else ok (resumed_appender crc journal_sink sink (length records) version, records)

    unfoldable pub into_writer :
        AuthorizedJournal
        → journal_sink.Sink
        → Option IoErrorKind
        → Result IoErrorKind Bytes
        → Stored (DurableAppender crc journal_sink × List JournalRecord)
    unfolding verify_content continue_after
    into_writer journal sink rewound content = do
      verify_content journal rewound content
      continue_after sink journal.records journal.schema_version

    unfoldable pub resume :
        JournalFile
        → journal_sink.Sink
        → Stored (DurableAppender crc journal_sink × List JournalRecord)
    unfolding read_file decoded first_version require continue_after
    resume file sink = do
      bytes ← read_file file
      require (leb (length bytes) max_journal_file_bytes) resume_too_large
      frames ← decoded bytes
      version ← first_version frames
      require
          (leb min_resumable_journal_schema_version version && leb version journal_schema_version)
          (resume_version version)
      require (starts_with_authority (records_of frames)) (resume_version version)
      continue_after sink (records_of frames) version

    -- `create_new` of the file, where `already_there` says that the error is `AlreadyExists`.
    unfoldable pub created : Option (Bool × IoErrorKind) → Stored (Unit {0})
    created none = ok tt
    created (some (already_there, io_kind)) =
        storage_error 0 (if already_there then already_exists else open_failed io_kind)

    unfoldable pub create_new :
        JournalRecord
        → Option (Bool × IoErrorKind)
        → Option IoErrorKind
        → journal_sink.Sink
        → Stored (DurableAppender crc journal_sink)
    unfolding require created succeeded append_initial new_appender
    create_new initial_record opening locked sink = do
      require (initial_record_has_parent_authority initial_record) invalid_initial_record
      created opening
      succeeded locked lock_failed
      let (appender, outcome) =
          append_initial crc journal_sink (new_appender crc journal_sink sink) initial_record
      outcome
      ok appender
