-- ===== src/Writer.antt =====
-- crates/renamewright-platform/src/journal.rs: `DurableAppender` and `JournalWriter`. A method of
-- `&mut self` answers the new state beside its result. The sink is a parameter with its two methods;
-- an `io::ErrorKind` is a number. `usize` has 64 bits.
pub mod Resume
pub mod Durable
pub mod Crash
pub mod Reopen
use renamewright.Common.{
  ℕ, List, Option, none, some, Bool, true, false, ◌&&◌, if◌then◌else◌, Result, err, ok, checked_add,
}
use renamewright.Execution.Journal.{
  ExecutionIdentity, JournalEntry, JournalRecord, JournalReplayErrorKind, transaction_started,
  forward_step_completed, rollback_step_completed, transaction_completed, transaction_rolled_back,
}
use renamewright.Codec.{Bytes, JournalCodecErrorKind, journal_schema_version}
use renamewright.Codec.Frame.{Hasher, encode_frame_for_version}

abbrev pub IoErrorKind : Type 0
IoErrorKind = ℕ

pub data JournalStorageErrorKind : Type 0 where
  invalid_initial_record : JournalStorageErrorKind
  already_exists : JournalStorageErrorKind
  open_failed : IoErrorKind → JournalStorageErrorKind
  lock_failed : IoErrorKind → JournalStorageErrorKind
  resume_read_failed : IoErrorKind → JournalStorageErrorKind
  resume_too_large : JournalStorageErrorKind
  resume_codec : JournalCodecErrorKind → JournalStorageErrorKind
  resume_protocol : JournalReplayErrorKind → JournalStorageErrorKind
  resume_version : ℕ → JournalStorageErrorKind
  resume_terminal : JournalStorageErrorKind
  snapshot_changed : JournalStorageErrorKind
  header_after_start : JournalStorageErrorKind
  record_after_terminal : JournalStorageErrorKind
  codec : JournalCodecErrorKind → JournalStorageErrorKind
  write_failed : IoErrorKind → JournalStorageErrorKind
  sync_failed : IoErrorKind → JournalStorageErrorKind
  writer_poisoned : JournalStorageErrorKind
  sequence_exhausted : JournalStorageErrorKind

pub record JournalStorageError : Type 0 where
  pub sequence : ℕ
  pub kind : JournalStorageErrorKind

abbrev pub Stored : Type 0 → Type 0
Stored = Result JournalStorageError

abbrev pub storage_error : {A : Type 0} → ℕ → JournalStorageErrorKind → Stored A
storage_error sequence kind = err (record { sequence = sequence; kind = kind })

-- `JournalSink`: the state after the call, and the error if it failed.
pub record JournalSink : Type 1 where
  pub Sink : Type 0
  pub write_frame : Sink → Bytes → Sink × Option IoErrorKind
  pub sync_all : Sink → Sink × Option IoErrorKind

-- `Option::is_some` of a parent identity.
abbrev has_identity : Option ExecutionIdentity → Bool
has_identity none = false
has_identity (some identity) = true

unfoldable pub all_have_identity : List JournalEntry → Bool
all_have_identity List.[] = true
all_have_identity (List.◌∷◌ entry entries) =
    has_identity entry.parent_execution_identity && all_have_identity entries

unfoldable pub initial_record_has_parent_authority : JournalRecord → Bool
unfolding all_have_identity
initial_record_has_parent_authority (transaction_started plan_id generation count entries) =
    all_have_identity entries
initial_record_has_parent_authority journal_record = false

abbrev pub is_terminal_record : JournalRecord → Bool
is_terminal_record transaction_completed = true
is_terminal_record transaction_rolled_back = true
is_terminal_record journal_record = false

abbrev pub is_completion : JournalRecord → Bool
is_completion (forward_step_completed step identity) = true
is_completion (rollback_step_completed step identity) = true
is_completion journal_record = false

abbrev pub is_header : JournalRecord → Bool
is_header (transaction_started plan_id generation count entries) = true
is_header journal_record = false

module _ (crc : Hasher) (journal_sink : JournalSink) where
  pub record DurableAppender : Type 0 where
    pub sink : journal_sink.Sink
    pub next_sequence : ℕ
    pub terminal : Bool
    pub poisoned : Bool
    pub schema_version : ℕ

  unfoldable pub new_appender : journal_sink.Sink → DurableAppender
  new_appender sink = record {
    sink = sink;
    next_sequence = 0;
    terminal = false;
    poisoned = false;
    schema_version = journal_schema_version;
  }

  unfoldable pub resumed_appender : journal_sink.Sink → ℕ → ℕ → DurableAppender
  resumed_appender sink next_sequence schema_version = record {
    sink = sink;
    next_sequence = next_sequence;
    terminal = false;
    poisoned = false;
    schema_version = schema_version;
  }

  abbrev pub Appending : Type 0
  Appending = DurableAppender × Stored (Unit {0})

  abbrev pub refuse : DurableAppender → JournalStorageErrorKind → Appending
  refuse appender kind = (appender, storage_error appender.next_sequence kind)

  -- A failed write or sync.
  unfoldable pub poison : DurableAppender → journal_sink.Sink → JournalStorageErrorKind → Appending
  poison appender sink kind = refuse (record appender { sink = sink; poisoned = true }) kind

  unfoldable pub advance : DurableAppender → journal_sink.Sink → ℕ → JournalRecord → Appending
  advance appender sink following journal_record = (
    record appender {
      sink = sink;
      next_sequence = following;
      terminal = is_terminal_record journal_record;
    },
    ok tt,
  )

  -- The end of `append_record`, from the write on.
  unfoldable pub synchronized : DurableAppender → journal_sink.Sink → ℕ → JournalRecord → Appending
  unfolding poison advance
  synchronized appender sink following journal_record =
      let (synced, failure) = journal_sink.sync_all sink in
      elim failure [
        | none ↦ advance appender synced following journal_record
        | some io_kind ↦ poison appender synced (sync_failed io_kind)
      ]

  unfoldable pub write_record : DurableAppender → Bytes → ℕ → JournalRecord → Bool → Appending
  unfolding poison advance synchronized
  write_record appender frame following journal_record synchronize =
      let (written, failure) = journal_sink.write_frame appender.sink frame in
      elim failure [
        | some io_kind ↦ poison appender written (write_failed io_kind)
        | none ↦
            if synchronize
            then synchronized appender written following journal_record
            else advance appender written following journal_record
      ]

  unfoldable pub append_record : DurableAppender → JournalRecord → Bool → Appending
  unfolding write_record
  append_record appender journal_record synchronize = elim (checked_add appender.next_sequence 1) [
    | none ↦ refuse appender sequence_exhausted
    | some following ↦
        elim (encode_frame_for_version crc appender.next_sequence journal_record
          appender.next_sequence appender.schema_version) [
            | err error ↦ refuse appender (codec error.kind)
            | ok frame ↦ write_record appender frame following journal_record synchronize
          ]
  ]

  unfoldable pub append_initial : DurableAppender → JournalRecord → Appending
  unfolding append_record
  append_initial appender journal_record =
      if initial_record_has_parent_authority journal_record
      then append_record appender journal_record true
      else refuse appender invalid_initial_record

  unfoldable pub validate_append : DurableAppender → JournalRecord → Stored (Unit {0})
  validate_append appender journal_record =
      if appender.poisoned
      then storage_error appender.next_sequence writer_poisoned
      else if is_header journal_record
      then storage_error appender.next_sequence header_after_start
      else if appender.terminal
      then storage_error appender.next_sequence record_after_terminal
      else ok tt

  unfoldable pub append_validated : DurableAppender → JournalRecord → Bool → Appending
  unfolding validate_append append_record
  append_validated appender journal_record synchronize =
      elim (validate_append appender journal_record) [
        | err error ↦ (appender, err error)
        | ok done ↦ append_record appender journal_record synchronize
      ]

  unfoldable pub append : DurableAppender → JournalRecord → Appending
  unfolding append_validated
  append appender journal_record = append_validated appender journal_record true

  unfoldable pub append_buffered_completion : DurableAppender → JournalRecord → Appending
  unfolding append append_validated
  append_buffered_completion appender journal_record =
      if is_completion journal_record
      then append_validated appender journal_record false
      else append appender journal_record
