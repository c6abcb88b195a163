-- ===== src/Codec/Record.antt =====
-- crates/renamewright-platform/src/journal.rs: `encode_record` and `decode_record`.
use renamewright.Common.{◌-◌, ℕ, ◌^◌, List, [], ◌∷◌, ◌++◌, ok, ◌>>=◌ as and_then}
use renamewright.Common.{◌&&◌, ◌==◌, ltb, leb, if◌then◌else◌, length, zero, suc}
use renamewright.Model.Source.{PlanId}
use renamewright.Execution.Journal.{
  JournalEntry, JournalRecord, transaction_started, forward_batch_prepared, forward_step_prepared,
  forward_step_completed, forward_step_not_applied, rollback_started, rollback_step_prepared,
  rollback_step_completed, rollback_step_not_applied, rollback_step_failed,
  rollback_recovery_started, transaction_completed, transaction_rolled_back,
}
use renamewright.Codec.{
  Bytes, Coded, codec_error, invalid_payload, too_many_entries, unknown_record_kind,
  max_admitted_sources,
}
use renamewright.Codec.Cursor.{
  Reader, pure, ◌>>=◌, read_u32, read_u64, read_usize, finish, join, put_u64, put_usize,
  put_u32_len,
}
use renamewright.Codec.Entry.{
  encode_entry, decode_entry, encode_execution_identity, decode_execution_identity,
  encode_rollback_cause, decode_rollback_cause,
}

unfoldable pub encode_entries : List JournalEntry → ℕ → ℕ → Coded Bytes
encode_entries [] frame_index schema_version = ok []
encode_entries (entry ∷ entries) frame_index schema_version =
    and_then (encode_entry entry frame_index schema_version) λ first.
      and_then (encode_entries entries frame_index schema_version) λ others. ok (first ++ others)

unfoldable pub encode_header : PlanId → ℕ → ℕ → List JournalEntry → ℕ → ℕ → Coded Bytes
encode_header plan_id source_generation step_count entries frame_index schema_version =
    if ltb (length entries) (2 ^ 32)
    then (if leb (length entries) max_admitted_sources
        then (and_then (put_usize step_count frame_index) λ steps.
            and_then (put_u32_len (length entries) frame_index) λ entry_count.
              and_then (encode_entries entries frame_index schema_version) λ encoded. ok (
                join (
                  put_u64 plan_id
                  ∷ put_u64 source_generation
                  ∷ steps
                  ∷ entry_count
                  ∷ encoded
                  ∷ [])))
        else codec_error frame_index (too_many_entries (length entries)))
    else codec_error frame_index (too_many_entries (2 ^ 32 - 1))

-- A record of one step index.
abbrev pub step_record : ℕ → ℕ → ℕ → Coded (ℕ × Bytes)
step_record kind step frame_index = and_then (put_usize step frame_index) λ bytes. ok (kind, bytes)

-- The kind of the record and its payload.
unfoldable pub encode_record : JournalRecord → ℕ → ℕ → Coded (ℕ × Bytes)
encode_record (transaction_started plan_id source_generation step_count entries) frame_index
      schema_version =
    and_then (encode_header plan_id source_generation step_count entries frame_index schema_version)
      λ bytes. ok (1, bytes)
encode_record (forward_step_prepared step) frame_index schema_version =
    step_record 2 step frame_index
encode_record (forward_batch_prepared first count) frame_index schema_version =
    if ltb schema_version 6
    then codec_error frame_index invalid_payload
    else and_then (put_usize first frame_index)
        λ from. and_then (put_usize count frame_index) λ steps. ok (13, from ++ steps)
encode_record (forward_step_completed step identity) frame_index schema_version =
    and_then (put_usize step frame_index)
      λ bytes. ok (3, bytes ++ encode_execution_identity identity)
encode_record (forward_step_not_applied step) frame_index schema_version =
    step_record 10 step frame_index
encode_record (rollback_started cause) frame_index schema_version =
    and_then (encode_rollback_cause cause frame_index) λ bytes. ok (4, bytes)
encode_record (rollback_step_prepared step) frame_index schema_version =
    step_record 5 step frame_index
encode_record (rollback_step_completed step identity) frame_index schema_version =
    and_then (put_usize step frame_index)
      λ bytes. ok (6, bytes ++ encode_execution_identity identity)
encode_record (rollback_step_not_applied step) frame_index schema_version =
    step_record 11 step frame_index
encode_record (rollback_step_failed step) frame_index schema_version =
    step_record 7 step frame_index
encode_record (rollback_recovery_started step) frame_index schema_version =
    step_record 12 step frame_index
encode_record transaction_completed frame_index schema_version = ok (8, [])
encode_record transaction_rolled_back frame_index schema_version = ok (9, [])

unfoldable pub decode_entries : ℕ → ℕ → ℕ → Reader (List JournalEntry)
decode_entries zero frame_index schema_version = pure []
decode_entries (suc count) frame_index schema_version = do
  entry ← decode_entry frame_index schema_version
  entries ← decode_entries count frame_index schema_version
  pure (entry ∷ entries)

unfoldable pub decode_header : ℕ → ℕ → Reader JournalRecord
decode_header frame_index schema_version = do
  plan_id ← read_u64 frame_index
  source_generation ← read_u64 frame_index
  step_count ← read_usize frame_index
  entry_count ← read_u32 frame_index
  if leb entry_count max_admitted_sources
      then (do
        entries ← decode_entries entry_count frame_index schema_version
        pure (transaction_started plan_id source_generation step_count entries))
      else λ rest. codec_error frame_index (too_many_entries entry_count)

abbrev pub read_step : (ℕ → JournalRecord) → ℕ → Reader JournalRecord
read_step make frame_index = do step ← read_usize frame_index; pure (make step)

abbrev pub read_batch : ℕ → Reader JournalRecord
read_batch frame_index = do
  first ← read_usize frame_index
  count ← read_usize frame_index
  pure (forward_batch_prepared first count)

unfoldable pub record_body : ℕ → ℕ → ℕ → Reader JournalRecord
record_body kind frame_index schema_version =
    if kind == 1
    then decode_header frame_index schema_version
    else if kind == 2
    then read_step forward_step_prepared frame_index
    else if kind == 13 && leb 6 schema_version
    then read_batch frame_index
    else if kind == 3
    then (do
      step ← read_usize frame_index
      identity ← decode_execution_identity frame_index
      pure (forward_step_completed step identity))
    else if kind == 10
    then read_step forward_step_not_applied frame_index
    else if kind == 4
    then (do cause ← decode_rollback_cause frame_index; pure (rollback_started cause))
    else if kind == 5
    then read_step rollback_step_prepared frame_index
    else if kind == 6
    then (do
      step ← read_usize frame_index
      identity ← decode_execution_identity frame_index
      pure (rollback_step_completed step identity))
    else if kind == 11
    then read_step rollback_step_not_applied frame_index
    else if kind == 7
    then read_step rollback_step_failed frame_index
    else if kind == 12
    then read_step rollback_recovery_started frame_index
    else if kind == 8
    then pure transaction_completed
    else if kind == 9
    then pure transaction_rolled_back
    else λ rest. codec_error frame_index (unknown_record_kind kind)

unfoldable pub decode_record : ℕ → Bytes → ℕ → ℕ → Coded JournalRecord
decode_record kind payload frame_index schema_version =
    and_then (record_body kind frame_index schema_version payload)
      λ (journal_record, rest). and_then (finish frame_index rest) λ done. ok journal_record
