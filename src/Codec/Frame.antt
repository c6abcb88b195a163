-- ===== src/Codec/Frame.antt =====
-- crates/renamewright-platform/src/journal.rs: frames and whole journals. The CRC of `crc32fast` is a
-- parameter: a hasher with its three methods. `usize` has 64 bits, and so `u64::try_from` of an index
-- does not fail.
use renamewright.Common.{
  true, false, ◌-◌, ℕ, ◌+◌, ◌^◌, List, [], ◌∷◌, ◌++◌, Option, none, some, err, ok, ◌>>=◌, ◌>>◌,
}
use renamewright.Common.{Bool, ◌&&◌, ◌==◌, ltb, leb, if◌then◌else◌, length, zero, suc, take, drop}
use renamewright.Text.{list_eq}
use renamewright.Execution.Journal.{JournalRecord}
use renamewright.Codec.{
  JournalCodecErrorKind, Bytes, Coded, JournalCodecError, codec_error, truncated_header,
  truncated_payload, invalid_magic, unsupported_version, mixed_version, invalid_flags,
  frame_too_large, checksum_mismatch, sequence_mismatch, magic, journal_schema_version,
  min_supported_journal_schema_version, max_journal_payload_bytes, frame_header_bytes, flag_none,
}
use renamewright.Codec.Cursor.{join, le_bytes, from_le_bytes}
use renamewright.Codec.Record.{encode_record, decode_record}

-- `crc32fast::Hasher`.
pub record Hasher : Type 1 where
  pub Hash : Type 0
  pub new : Hash
  pub update : Hash → Bytes → Hash
  pub finalize : Hash → ℕ

pub record JournalFrame : Type 0 where
  pub schema_version : ℕ
  pub sequence : ℕ
  pub journal_record : JournalRecord

pub record JournalInspection : Type 0 where
  pub frames : List JournalFrame
  pub issue : Option JournalCodecError

unfoldable pub is_torn_tail : JournalInspection → Bool
is_torn_tail inspection = elim inspection.issue [
  | none ↦ false
  | some error ↦ elim error.kind [ truncated_header ↦ true | truncated_payload ↦ true | _ ↦ false ]
]

-- `bytes[first..first + count]`.
abbrev pub slice : ℕ → ℕ → Bytes → Bytes
slice first count bytes = take count (drop first bytes)

-- `frames.first()` has another version.
unfoldable pub check_version : List JournalFrame → ℕ → Coded (Unit {0})
check_version [] version = ok tt
check_version (first ∷ others) version =
    if first.schema_version == version
    then ok tt
    else codec_error (length (first ∷ others)) (mixed_version first.schema_version version)

unfoldable pub check : ℕ → Bool → JournalCodecErrorKind → Coded (Unit {0})
check frame_index test kind = if test then ok tt else codec_error frame_index kind

unfoldable pub complete_prefix_loop : ℕ → Bytes → ℕ → Option ℕ
complete_prefix_loop zero bytes offset = some offset
complete_prefix_loop (suc count) bytes offset =
    let payload_length = from_le_bytes (slice (offset + 16) 4 bytes) in
    let following = offset + frame_header_bytes + payload_length in
    let rest = complete_prefix_loop count bytes following in
    if leb (offset + frame_header_bytes) (length bytes)
    then (if leb payload_length max_journal_payload_bytes
        then (if leb following (length bytes) then rest else none)
        else none)
    else none

unfoldable pub complete_prefix_length : Bytes → ℕ → Option ℕ
unfolding complete_prefix_loop
complete_prefix_length bytes frame_count = complete_prefix_loop frame_count bytes 0

-- The header up to the checksum.
abbrev pub header_front : ℕ → ℕ → ℕ → ℕ → Bytes
header_front schema_version record_kind sequence payload_length = join (
    magic
    ∷ le_bytes 2 schema_version
    ∷ (record_kind ∷ flag_none ∷ [])
    ∷ le_bytes 8 sequence
    ∷ le_bytes 4 payload_length
    ∷ [])

module _ (crc : Hasher) where
  unfoldable pub crc32_loop : crc.Hash → List Bytes → ℕ
  crc32_loop hash [] = crc.finalize hash
  crc32_loop hash (part ∷ parts) = crc32_loop (crc.update hash part) parts

  unfoldable pub crc32_parts : List Bytes → ℕ
  unfolding crc32_loop
  crc32_parts parts = crc32_loop crc.new parts

  -- The frame with the checksum in place of its zeros.
  unfoldable pub seal : Bytes → Bytes → Bytes
  seal front payload =
      join (front ∷ le_bytes 4 (crc32_parts (drop 4 front ∷ payload ∷ [])) ∷ payload ∷ [])

  unfoldable pub encode_frame_for_version : ℕ → JournalRecord → ℕ → ℕ → Coded Bytes
  unfolding seal
  encode_frame_for_version sequence journal_record frame_index schema_version = do
    (record_kind, payload) ← encode_record journal_record frame_index schema_version
    check frame_index (ltb (length payload) (2 ^ 32)) (frame_too_large (2 ^ 32 - 1))
    check frame_index (leb (length payload) max_journal_payload_bytes)
        (frame_too_large (length payload))
    ok (seal (header_front schema_version record_kind sequence (length payload)) payload)

  unfoldable pub encode_frame : ℕ → JournalRecord → ℕ → Coded Bytes
  unfolding encode_frame_for_version
  encode_frame sequence journal_record frame_index =
      encode_frame_for_version sequence journal_record frame_index journal_schema_version

  unfoldable pub encode_loop : ℕ → List JournalRecord → Coded Bytes
  unfolding encode_frame
  encode_loop frame_index [] = ok []
  encode_loop frame_index (journal_record ∷ records) = do
    frame ← encode_frame frame_index journal_record frame_index
    others ← encode_loop (suc frame_index) records
    ok (frame ++ others)

  unfoldable pub encode_journal : List JournalRecord → Coded Bytes
  unfolding encode_loop
  encode_journal records = encode_loop 0 records

  -- One round of the loop of `decode_journal`: the frame at the front of `bytes` and the bytes
  -- behind it.
  unfoldable pub decode_frame : List JournalFrame → Bytes → Coded (JournalFrame × Bytes)
  decode_frame frames bytes =
      let frame_index = length frames in
      let version = from_le_bytes (slice 4 2 bytes) in
      let record_kind = from_le_bytes (slice 6 1 bytes) in
      let flags = from_le_bytes (slice 7 1 bytes) in
      let sequence = from_le_bytes (slice 8 8 bytes) in
      let payload_length = from_le_bytes (slice 16 4 bytes) in
      let payload = slice frame_header_bytes payload_length bytes in
      let checksum = from_le_bytes (slice 20 4 bytes) in
      do
        check frame_index (leb frame_header_bytes (length bytes)) truncated_header
        check frame_index (list_eq (take 4 bytes) magic) invalid_magic
        check frame_index
            (leb min_supported_journal_schema_version version && leb version journal_schema_version)
            (unsupported_version version)
        check_version frames version
        check frame_index (flags == flag_none) (invalid_flags flags)
        check frame_index (sequence == frame_index) (sequence_mismatch frame_index sequence)
        check frame_index (leb payload_length max_journal_payload_bytes)
            (frame_too_large payload_length)
        check frame_index (leb (frame_header_bytes + payload_length) (length bytes))
            truncated_payload
        check frame_index (crc32_parts (slice 4 16 bytes ∷ payload ∷ []) == checksum)
            checksum_mismatch
        journal_record ← decode_record record_kind payload frame_index version
        ok (
          record { schema_version = version; sequence = sequence; journal_record = journal_record },
          drop (frame_header_bytes + payload_length) bytes,
        )

  -- The fuel is the number of bytes. A round takes at least `frame_header_bytes`.
  unfoldable pub decode_loop : ℕ → List JournalFrame → Bytes → Coded (List JournalFrame)
  unfolding decode_frame
  decode_loop fuel frames [] = ok frames
  decode_loop zero frames (b ∷ bytes) = ok frames
  decode_loop (suc fuel) frames (b ∷ bytes) = do
    (frame, rest) ← decode_frame frames (b ∷ bytes)
    decode_loop fuel (frames ++ frame ∷ []) rest

  unfoldable pub decode_journal : Bytes → Coded (List JournalFrame)
  unfolding decode_loop
  decode_journal bytes = decode_loop (length bytes) [] bytes

  -- The frames of the prefix that decodes, if it does.
  abbrev pub frames_or_none : Coded (List JournalFrame) → List JournalFrame
  frames_or_none (ok frames) = frames
  frames_or_none (err error) = []

  unfoldable pub prefix_frames : Option ℕ → Bytes → List JournalFrame
  prefix_frames none bytes = []
  prefix_frames (some count) bytes = frames_or_none (decode_journal (take count bytes))

  unfoldable pub inspect_journal : Bytes → JournalInspection
  unfolding prefix_frames
  inspect_journal bytes = elim (decode_journal bytes) [
    | ok frames ↦ record { frames = frames; issue = none }
    | err issue ↦ record {
      frames = prefix_frames (complete_prefix_length bytes issue.frame_index) bytes;
      issue = some issue;
    }
  ]
