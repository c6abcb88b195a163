-- ===== src/Codec/Frames.antt =====
-- A frame that was encoded decodes to its record, whatever bytes follow it.
use renamewright.Common.{
  inr, inl, Result-cases, ℕ, ◌^◌, ◌≤◌, ◌<◌, ◌≡◌, refl, ap, ◌∙◌, subst, List, [], ◌∷◌, ◌++◌,
}
use renamewright.Common.{ok, arith, length, drop, take-append, drop-append, drop-add, length-append}
use renamewright.Execution.Journal.{JournalRecord}
use renamewright.Codec.{Bytes, max_journal_payload_bytes}
use renamewright.Codec.Record.{encode_record, decode_record}
use renamewright.Codec.Frame.{
  header_front, crc32_loop, Hasher, JournalFrame, check, crc32_parts, seal,
  encode_frame_for_version, decode_frame,
}
use renamewright.Codec.Reads.{from_le_bytes-le_bytes}
use renamewright.Codec.Stored.{IsU64, IsStored}
use renamewright.Codec.Records.{decode_record-encode_record, kind_small}
use renamewright.Codec.Passes.{AllHave, check_version_lem, decode_frame-Passes}

-- A frame holds the payload of its record, within the limit.
pub frame_parts :
    (crc : Hasher) (sequence : ℕ) (journal_record : JournalRecord) (frame_index version : ℕ)
    (bytes : Bytes)
    → encode_frame_for_version crc sequence journal_record frame_index version ≡ ok bytes
    → (written : ℕ × Bytes) × (encode_record journal_record frame_index version ≡ ok written)
      × (length written.1 ≤ max_journal_payload_bytes)
      × (seal crc (header_front version written.0 sequence (length written.1)) written.1 ≡ bytes)
unfolding encode_frame_for_version check
frame_parts crc sequence journal_record frame_index version bytes e =
    elim (Result-cases (encode_record journal_record frame_index version)) [
      | inl (written, e1) ↦ (written, e1, ground arith, ground arith)
      | inr (error, e1) ↦ absurd (ground arith)
    ]

module _ (crc : Hasher) (bound : (hash : crc.Hash) → crc.finalize hash < 2 ^ 32) where
  crc32_bound : (hash : crc.Hash) (parts : List Bytes) → crc32_loop crc hash parts < 2 ^ 32
  unfolding crc32_loop
  crc32_bound hash [] = bound hash
  crc32_bound hash (part ∷ parts) = crc32_bound (crc.update hash part) parts

  -- A sealed frame in front of other bytes.
  decode_frame-seal :
      (frames : List JournalFrame) (version kind : ℕ) (payload rest : Bytes)
      (journal_record : JournalRecord)
      → (1 ≤ version) × (version ≤ 6)
      → AllHave version frames
      → kind < 256
      → IsU64 (length frames)
      → length payload ≤ max_journal_payload_bytes
      → decode_record kind payload (length frames) version ≡ ok journal_record
      → decode_frame crc frames
          (seal crc (header_front version kind (length frames) (length payload)) payload ++ rest)
        ≡ ok (
          record {
            schema_version = version;
            sequence = length frames;
            journal_record = journal_record;
          },
          rest,
        )
  unfolding seal crc32_parts
  decode_frame-seal frames version kind payload rest journal_record (low, high) same small sequence
        limit decoded =
      decode_frame-Passes crc frames _ version kind (length payload) journal_record (
        omega (arith, length-append payload rest),
        refl,
        from_le_bytes-le_bytes 2 version (omega arith),
        (low, high),
        check_version_lem frames version same,
        omega arith,
        refl,
        from_le_bytes-le_bytes 8 (length frames) (omega arith),
        from_le_bytes-le_bytes 4 (length payload) (omega arith),
        limit,
        rw (take-append payload rest) (
            from_le_bytes-le_bytes 4 _ (
              crc32_bound crc.new (
                drop 4 (header_front version kind (length frames) (length payload))
                ∷ payload
                ∷ []))),
        rw (take-append payload rest) decoded,
      )
      ∙ ap (λ left. ok (_, left)) (drop-add 24 (length payload) _ ∙ drop-append payload rest)

  -- What the encoder answers for a record decodes to it in front of any bytes.
  pub decode_frame-encode_frame_for_version :
      (frames : List JournalFrame) (version : ℕ) (journal_record : JournalRecord)
      (bytes rest : Bytes)
      → (1 ≤ version) × (version ≤ 6)
      → AllHave version frames
      → IsU64 (length frames)
      → IsStored version journal_record
      → encode_frame_for_version crc (length frames) journal_record (length frames) version
        ≡ ok bytes
      → decode_frame crc frames (bytes ++ rest)
        ≡ ok (
          record {
            schema_version = version;
            sequence = length frames;
            journal_record = journal_record;
          },
          rest,
        )
  decode_frame-encode_frame_for_version frames version journal_record bytes rest range same small
        stored e =
      let ((kind, payload), e1, limit, sealed) =
        frame_parts crc (length frames) journal_record (length frames) version bytes e in
      subst
        (λ b.
          decode_frame crc frames (b ++ rest)
          ≡ ok (
            record {
              schema_version = version;
              sequence = length frames;
              journal_record = journal_record;
            },
            rest,
          ))
        sealed
        (decode_frame-seal frames version kind payload rest journal_record range same
          (kind_small journal_record (length frames) version (kind, payload) e1) small limit
          (decode_record-encode_record (length frames) version journal_record kind payload stored
            e1))
