-- ===== src/Codec/Entry.antt =====
-- crates/renamewright-platform/src/journal.rs: the fields of a journal entry, as the Unix build writes
-- and reads them. The frame index only goes into errors.
use renamewright.Common.{ℕ, [], ◌∷◌, ◌++◌, Option, none, some, ok, ◌>>=◌ as and_then}
use renamewright.Common.{◌&&◌, ◌==◌, leb, if◌then◌else◌, length}
use renamewright.Text.{OsString, os_bytes}
use renamewright.Text.Utf8.{from_vec}
use renamewright.Model.Source.{
  PlanId, EntryKind, file, directory, symlink, EntryIdentitySignal, SourceFingerprint,
}
use renamewright.Execution.Journal.{
  RollbackCause, cancelled, forward_step_failed, recovery_requested,
}
use renamewright.Execution.Journal.{ExecutionIdentity, JournalNameGraph, JournalEntry}
use renamewright.Execution.Journal.{
  new_entry, entry_with_native_parent, entry_with_native_parent_identity, into_undo_of,
}
use renamewright.Codec.{
  Bytes, Coded, codec_error, invalid_payload, invalid_native_name_encoding,
  native_encoding_unix_bytes,
}
use renamewright.Codec.Cursor.{
  Reader, pure, ◌>>=◌, le_bytes, take_bytes, read_u8, read_u32, read_u64, read_u128, read_usize,
}
use renamewright.Codec.Cursor.{put_u64, put_usize, put_u32_len, join, put_optional, read_optional}

abbrev pub refuse : {A : Type 0} → ℕ → Reader A
refuse frame_index rest = codec_error frame_index invalid_payload

unfoldable pub encode_native_name : OsString → ℕ → Coded Bytes
encode_native_name name frame_index =
    let bytes = os_bytes name in
    and_then (put_u32_len (length bytes) frame_index)
      λ count. ok (native_encoding_unix_bytes ∷ (count ++ bytes))

unfoldable pub decode_native_name : ℕ → Reader OsString
decode_native_name frame_index = do
  encoding ← read_u8 frame_index
  if encoding == native_encoding_unix_bytes
      then (do
        count ← read_u32 frame_index
        bytes ← take_bytes frame_index count
        pure (from_vec bytes))
      else λ rest. codec_error frame_index invalid_native_name_encoding

unfoldable pub encode_execution_identity : ExecutionIdentity → Bytes
encode_execution_identity identity = put_u64 identity.volume_serial_number ++ identity.file_id

unfoldable pub decode_execution_identity : ℕ → Reader ExecutionIdentity
decode_execution_identity frame_index = do
  volume_serial_number ← read_u64 frame_index
  file_id ← take_bytes frame_index 16
  pure (record { volume_serial_number = volume_serial_number; file_id = file_id })

abbrev pub kind_byte : EntryKind → ℕ
kind_byte file = 1
kind_byte symlink = 2
kind_byte directory = 3

abbrev pub signal_bytes : EntryIdentitySignal → Bytes
signal_bytes signal = put_u64 signal.primary ++ put_u64 signal.secondary

unfoldable pub encode_fingerprint : SourceFingerprint → Coded Bytes
encode_fingerprint fingerprint =
    and_then (put_optional (λ signal. ok (signal_bytes signal)) fingerprint.entry_identity_signal)
      λ signal.
        and_then (put_optional (λ nanos. ok (le_bytes 16 nanos)) fingerprint.modified_nanos)
          λ modified. ok (
            kind_byte fingerprint.entry_kind
            ∷ join (signal ∷ put_u64 fingerprint.byte_len ∷ modified ∷ []))

unfoldable pub read_kind : ℕ → ℕ → Reader EntryKind
read_kind frame_index schema_version = do
  kind ← read_u8 frame_index
  if kind == 1
      then pure file
      else if kind == 2
      then pure symlink
      else if kind == 3 && leb 4 schema_version
      then pure directory
      else refuse frame_index

unfoldable pub read_signal : ℕ → Reader EntryIdentitySignal
read_signal frame_index = do
  primary ← read_u64 frame_index
  secondary ← read_u64 frame_index
  pure (record { primary = primary; secondary = secondary })

unfoldable pub decode_fingerprint : ℕ → ℕ → Reader SourceFingerprint
decode_fingerprint frame_index schema_version = do
  entry_kind ← read_kind frame_index schema_version
  signal ← read_optional frame_index (read_signal frame_index)
  byte_len ← read_u64 frame_index
  modified_nanos ← read_optional frame_index (read_u128 frame_index)
  pure (record {
    entry_kind = entry_kind;
    entry_identity_signal = signal;
    byte_len = byte_len;
    modified_nanos = modified_nanos;
  })

unfoldable pub encode_rollback_cause : RollbackCause → ℕ → Coded Bytes
encode_rollback_cause cancelled frame_index = ok (1 ∷ [])
encode_rollback_cause (forward_step_failed step) frame_index =
    and_then (put_usize step frame_index) λ bytes. ok (2 ∷ bytes)
encode_rollback_cause recovery_requested frame_index = ok (3 ∷ [])

unfoldable pub decode_rollback_cause : ℕ → Reader RollbackCause
decode_rollback_cause frame_index = do
  cause ← read_u8 frame_index
  if cause == 1
      then pure cancelled
      else if cause == 2
      then (do step ← read_usize frame_index; pure (forward_step_failed step))
      else if cause == 3
      then pure recovery_requested
      else refuse frame_index

-- `undo_of_plan_id`, which the versions below 3 cannot hold.
unfoldable pub encode_undo : Option PlanId → ℕ → ℕ → Coded Bytes
encode_undo undo frame_index schema_version =
    if leb 3 schema_version
    then put_optional (λ plan_id. ok (put_u64 plan_id)) undo
    else elim undo [ none ↦ ok [] | some plan_id ↦ codec_error frame_index invalid_payload ]

unfoldable pub encode_entry : JournalEntry → ℕ → ℕ → Coded Bytes
encode_entry entry frame_index schema_version =
    and_then (encode_native_name entry.names.original_name frame_index) λ original.
      and_then (encode_native_name entry.names.temporary_name frame_index) λ temporary.
        and_then (encode_native_name entry.names.final_name frame_index) λ final.
          and_then (encode_fingerprint entry.admission_fingerprint) λ fingerprint.
            and_then
              (if leb 2 schema_version
                then put_optional (λ parent. encode_native_name parent frame_index)
                    entry.native_parent
                else ok [])
              λ native_parent.
                and_then (encode_undo entry.undo_of_plan_id frame_index schema_version) λ undo.
                  and_then
                    (if leb 5 schema_version
                      then put_optional (λ identity. ok (encode_execution_identity identity))
                          entry.parent_execution_identity
                      else ok [])
                    λ parent_identity. ok (
                      join (
                        put_u64 entry.source_id
                        ∷ put_u64 entry.parent_id
                        ∷ original
                        ∷ temporary
                        ∷ final
                        ∷ fingerprint
                        ∷ encode_execution_identity entry.execution_identity
                        ∷ native_parent
                        ∷ undo
                        ∷ parent_identity
                        ∷ []))

-- The constructors of `JournalEntry` that the decoder calls.
unfoldable pub build_entry :
    ℕ
    → ℕ
    → JournalNameGraph
    → SourceFingerprint
    → ExecutionIdentity
    → Option OsString
    → Option ExecutionIdentity
    → JournalEntry
build_entry source parent names fingerprint identity (some native_parent) (some parent_identity) =
    entry_with_native_parent_identity source parent names fingerprint identity parent_identity
      native_parent
build_entry source parent names fingerprint identity (some native_parent) none =
    entry_with_native_parent source parent names fingerprint identity native_parent
build_entry source parent names fingerprint identity none parent_identity =
    new_entry source parent names fingerprint identity

abbrev pub with_undo : Option PlanId → JournalEntry → JournalEntry
with_undo none entry = entry
with_undo (some plan_id) entry = into_undo_of entry plan_id

unfoldable pub decode_entry : ℕ → ℕ → Reader JournalEntry
decode_entry frame_index schema_version = do
  source_id ← read_u64 frame_index
  parent_id ← read_u64 frame_index
  original ← decode_native_name frame_index
  temporary ← decode_native_name frame_index
  final ← decode_native_name frame_index
  fingerprint ← decode_fingerprint frame_index schema_version
  identity ← decode_execution_identity frame_index
  native_parent ←
      (if leb 2 schema_version
        then read_optional frame_index (decode_native_name frame_index)
        else pure none)
  undo ←
      (if leb 3 schema_version then read_optional frame_index (read_u64 frame_index) else pure none)
  parent_identity ←
      (if leb 5 schema_version
        then read_optional frame_index (decode_execution_identity frame_index)
        else pure none)
  let names : JournalNameGraph = record {
    original_name = original;
    temporary_name = temporary;
    final_name = final;
  }
  pure (
      with_undo undo
        (build_entry source_id parent_id names fingerprint identity native_parent parent_identity))
