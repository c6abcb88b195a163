-- ===== src/Codec.antt =====
-- crates/renamewright-platform/src/journal.rs: the binary journal codec of the Unix build. Bytes are
-- numbers, a byte string is the list of them. A reader takes the bytes from the cursor on and answers
-- its value with the bytes that follow. A writer answers the bytes that it appends to the payload.
pub mod Cursor
pub mod Entry
pub mod Record
pub mod Frame
pub mod Reads
pub mod Stored
pub mod Fields
pub mod Entries
pub mod Records
pub mod Passes
pub mod Frames
pub mod Local
pub mod Chain
pub mod Inspect
pub mod Journals
pub mod Torn
pub mod Failures
use renamewright.Common.{ℕ, ◌*◌, List, [], ◌∷◌, Option}
use renamewright.Common.{Result, err}
use mathlib.Core.Option

abbrev pub Bytes : Type 0
Bytes = List ℕ

abbrev pub journal_schema_version : ℕ
journal_schema_version = 6

abbrev pub min_supported_journal_schema_version : ℕ
min_supported_journal_schema_version = 1

abbrev pub max_journal_payload_bytes : ℕ
max_journal_payload_bytes = 16 * 1024 * 1024

-- `b"RWJR"`.
abbrev pub magic : Bytes
magic = 0x52 ∷ 0x57 ∷ 0x4a ∷ 0x52 ∷ []

abbrev pub frame_header_bytes : ℕ
frame_header_bytes = 24

abbrev pub flag_none : ℕ
flag_none = 0

abbrev pub native_encoding_unix_bytes : ℕ
native_encoding_unix_bytes = 1

-- `MAX_ADMITTED_SOURCES` of crates/renamewright-platform/src/lib.rs.
abbrev pub max_admitted_sources : ℕ
max_admitted_sources = 10000

pub data JournalCodecErrorKind : Type 0 where
  truncated_header : JournalCodecErrorKind
  truncated_payload : JournalCodecErrorKind
  invalid_magic : JournalCodecErrorKind
  unsupported_version : ℕ → JournalCodecErrorKind
  -- expected, actual
  mixed_version : ℕ → ℕ → JournalCodecErrorKind
  invalid_flags : ℕ → JournalCodecErrorKind
  frame_too_large : ℕ → JournalCodecErrorKind
  checksum_mismatch : JournalCodecErrorKind
  unknown_record_kind : ℕ → JournalCodecErrorKind
  invalid_payload : JournalCodecErrorKind
  invalid_native_name_encoding : JournalCodecErrorKind
  too_many_entries : ℕ → JournalCodecErrorKind
  integer_out_of_range : JournalCodecErrorKind
  -- expected, actual
  sequence_mismatch : ℕ → ℕ → JournalCodecErrorKind

pub record JournalCodecError : Type 0 where
  pub frame_index : ℕ
  pub kind : JournalCodecErrorKind

abbrev pub Coded : Type 0 → Type 0
Coded = Result JournalCodecError

abbrev pub codec_error : {A : Type 0} → ℕ → JournalCodecErrorKind → Coded A
codec_error frame_index kind = err (record { frame_index = frame_index; kind = kind })
