-- ===== src/Tests/Codecs.antt =====
-- The codec and writer theorems at a concrete journal (crates/renamewright-platform/src/journal.rs).
use renamewright.Common.{
  ◌*◌, All, ℕ, ◌+◌, ◌%◌, ◌^◌, ◌≤◌, ◌<◌, ◌≡◌, refl, List, [], ◌∷◌, some, ok, err, arith, length,
  take,
}
use renamewright.Text.{scalar}
use renamewright.Execution.Journal.{
  ExecutionIdentity, JournalEntry, JournalRecord, transaction_started, forward_step_prepared,
  forward_step_completed,
}
use renamewright.Codec.{Coded, Bytes}
use renamewright.Codec.Cursor.{put_optional, put_usize, put_u32_len, put_u64}
use renamewright.Codec.Entry.{
  encode_entry, encode_native_name, encode_fingerprint, encode_undo, encode_execution_identity,
}
use renamewright.Codec.Record.{encode_record, encode_header, encode_entries}
use renamewright.Codec.Frame.{decode_journal, inspect_journal, Hasher, encode_journal, check}
use renamewright.Codec.Stored.{IsEntry, IsStored}
use renamewright.Text.{os_bytes}
use renamewright.Text.Utf8.{from_vec}
use renamewright.Codec.Inspect.{LongestPrefix, inspect_journal-LongestPrefix}
use renamewright.Codec.Journals.{frames_from, decode_journal-encode_journal}
use renamewright.Tests.Samples

-- The sum of the bytes stands in for the CRC.
abbrev sum : List ℕ → ℕ
sum [] = 0
sum (b ∷ bs) = b + sum bs

abbrev pub sum_hasher : Hasher
sum_hasher = record {
  Hash = ℕ;
  new = 0;
  update = λ hash bytes. hash + sum bytes;
  finalize = λ hash. hash % 2 ^ 32;
}

pub sum_bound : (hash : ℕ) → sum_hasher.finalize hash < 2 ^ 32
sum_bound hash = omega arith

abbrev pub volume : ExecutionIdentity
volume = record {
  volume_serial_number = 7;
  file_id = 1 ∷ 2 ∷ 3 ∷ 4 ∷ 5 ∷ 6 ∷ 7 ∷ 8 ∷ 9 ∷ 10 ∷ 11 ∷ 12 ∷ 13 ∷ 14 ∷ 15 ∷ 16 ∷ [];
}

abbrev pub entry : JournalEntry
entry = record Samples.entry {
  execution_identity = volume;
  parent_execution_identity = some volume;
  native_parent = some (scalar 0x2f ∷ []);
}

abbrev pub records : List JournalRecord
records =
    transaction_started 1 1 2 (entry ∷ [])
    ∷ forward_step_prepared 0
    ∷ forward_step_completed 0 volume
    ∷ []

abbrev pub bytes_of : Coded Bytes → Bytes
bytes_of (ok bytes) = bytes
bytes_of (err error) = []

pub encodes : encode_journal sum_hasher records ≡ ok (bytes_of (encode_journal sum_hasher records))
unfolding encode_journal encode_record encode_header encode_entries encode_entry encode_native_name
    encode_fingerprint encode_undo encode_execution_identity put_optional put_usize put_u32_len
    put_u64 check os_bytes
encodes = refl

pub file_small : length (bytes_of (encode_journal sum_hasher records)) ≤ 64 * 1024 * 1024
unfolding encode_journal encode_record encode_header encode_entries encode_entry encode_native_name
    encode_fingerprint encode_undo encode_execution_identity put_optional put_usize put_u32_len
    put_u64 check os_bytes
file_small = omega arith

pub entry_stored : IsEntry 6 entry
unfolding from_vec os_bytes
entry_stored = (
  omega arith,
  omega arith,
  refl,
  refl,
  refl,
  (λ p. cc, tt, omega arith, tt),
  (omega arith, refl),
  (refl, (omega arith, refl), omega arith),
  tt,
)

pub stored : All (IsStored 6) records
unfolding from_vec os_bytes
stored = ((omega arith, omega arith, (entry_stored, tt)), (tt, ((omega arith, refl), tt)))

decode_journal-encode_journal_example :
    decode_journal sum_hasher (bytes_of (encode_journal sum_hasher records))
    ≡ ok (frames_from 6 0 records)
decode_journal-encode_journal_example =
    decode_journal-encode_journal sum_hasher sum_bound records
      (bytes_of (encode_journal sum_hasher records)) (omega arith) stored encodes

-- The journal cut off in its last frame.
abbrev torn : Bytes
torn = take 240 (bytes_of (encode_journal sum_hasher records))

inspect_journal-LongestPrefix_example :
    LongestPrefix sum_hasher torn (inspect_journal sum_hasher torn)
inspect_journal-LongestPrefix_example = inspect_journal-LongestPrefix sum_hasher torn
