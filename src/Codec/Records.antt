-- ===== src/Codec/Records.antt =====
-- The reader of a record undoes its writer.
use renamewright.Common.{ok_injective, ℕ, ◌<◌, ◌≡◌, refl, sym, ap, subst, List, [], ◌∷◌, true}
use renamewright.Common.{ok, leb, ltb, arith, length, >>=-eq-ok, append-nil, All}
use renamewright.Execution.Journal.{
  JournalEntry, JournalRecord, transaction_started, forward_batch_prepared, forward_step_prepared,
  forward_step_completed, forward_step_not_applied, rollback_started, rollback_step_prepared,
  rollback_step_completed, rollback_step_not_applied, rollback_step_failed,
  rollback_recovery_started, transaction_completed, transaction_rolled_back,
}
use renamewright.Codec.{Bytes, Coded, max_admitted_sources}
use renamewright.Codec.Cursor.{finish}
use renamewright.Codec.Record.{
  encode_entries, encode_header, step_record, encode_record, decode_entries, decode_header,
  read_step, record_body, decode_record,
}
use renamewright.Codec.Reads.{Reads, reads, Reads-on, Reads-then, Reads-map}
use renamewright.Codec.Stored.{IsU64, IsEntry, IsStored}
use renamewright.Codec.Fields.{
  refused_if, ok-Reads, read_u64-Reads, read_u32-Reads, read_usize-Reads, Reads-if, admitted_if,
}
use renamewright.Codec.Entries.{
  decode_entry-Reads, decode_execution_identity-Reads, decode_rollback_cause-Reads,
}

decode_entries-Reads :
    (frame_index version : ℕ) (entries : List JournalEntry) (bytes : Bytes)
    → All (IsEntry version) entries
    → encode_entries entries frame_index version ≡ ok bytes
    → Reads (decode_entries (length entries) frame_index version) bytes entries
unfolding encode_entries decode_entries
decode_entries-Reads frame_index version [] bytes h e = ok-Reads (reads λ rest. refl) bytes e
decode_entries-Reads frame_index version (entry ∷ entries) bytes (h, hs) e =
    let (first, e1, f1) = >>=-eq-ok _ _ e in
    let (others, e2, written) = >>=-eq-ok _ _ f1 in
    ok-Reads
      (Reads-then _ (decode_entry-Reads frame_index version entry first h e1)
        (Reads-map _ (decode_entries-Reads frame_index version entries others hs e2)))
      bytes written

decode_header-Reads :
    (frame_index version plan_id generation count : ℕ) (entries : List JournalEntry) (bytes : Bytes)
    → IsU64 plan_id
    → IsU64 generation
    → All (IsEntry version) entries
    → encode_header plan_id generation count entries frame_index version ≡ ok bytes
    → Reads
        (decode_header frame_index version)
        bytes
        (transaction_started plan_id generation count entries)
unfolding encode_header decode_header
decode_header-Reads frame_index version plan_id generation count entries bytes plan gen hs e =
    let (small, e') = admitted_if _ _ _ e in
    let (few, e0) = admitted_if _ _ _ e' in
    let (steps, e1, f1) = >>=-eq-ok _ _ e0 in
    let (entry_count, e2, f2) = >>=-eq-ok _ _ f1 in
    let (encoded, e3, written) = >>=-eq-ok _ _ f2 in
    ok-Reads
      (Reads-then _ (read_u64-Reads frame_index plan_id plan) (
        Reads-then _ (read_u64-Reads frame_index generation gen) (
          Reads-then _ (read_usize-Reads frame_index count steps e1) (
            Reads-then _ (read_u32-Reads frame_index (length entries) entry_count e2) (
              Reads-if _ (leb (length entries) max_admitted_sources) few
                (Reads-map _ (decode_entries-Reads frame_index version entries encoded hs e3)))))))
      bytes written

-- The kind and the payload of a record with one step index.
read_step-Reads :
    (kind frame_index step : ℕ) (make : ℕ → JournalRecord) (written : ℕ × Bytes)
    → step_record kind step frame_index ≡ ok written
    → (written.0 ≡ kind) × Reads (read_step make frame_index) written.1 (make step)
read_step-Reads kind frame_index step make written e =
    let (bytes, e1, f) = >>=-eq-ok _ _ e in
    (
      ap (λ w. w.0) (sym (ok_injective f)),
      subst (λ b. Reads (read_step make frame_index) b (make step)) (ap (λ w. w.1) (ok_injective f))
          (Reads-map make (read_usize-Reads frame_index step bytes e1)),
    )

module _ (frame_index version : ℕ) where
  -- The body that `decode_record` reads for what `encode_record` answered.
  abbrev ReadsBack : JournalRecord → ℕ × Bytes → Type 0
  ReadsBack journal_record (kind, payload) =
      Reads (record_body kind frame_index version) payload journal_record

  known-Reads :
      {journal_record : JournalRecord} {kind : ℕ} {payload : Bytes} (written : ℕ × Bytes)
      → Reads (record_body kind frame_index version) payload journal_record
      → ◌≡◌ {A = Coded (ℕ × Bytes)} (ok (kind, payload)) (ok written)
      → ReadsBack journal_record written
  known-Reads {journal_record} written h e = subst (ReadsBack journal_record) (ok_injective e) h

  step-Reads :
      (kind step : ℕ) (make : ℕ → JournalRecord) (written : ℕ × Bytes)
      → ((payload : Bytes)
          → Reads (read_step make frame_index) payload (make step)
          → Reads (record_body kind frame_index version) payload (make step))
      → step_record kind step frame_index ≡ ok written
      → ReadsBack (make step) written
  step-Reads kind step make written body e =
      let (k, h) = read_step-Reads kind frame_index step make written e in
      subst (λ n. Reads (record_body n frame_index version) written.1 (make step)) (sym k)
        (body written.1 h)

  pub record_body-Reads :
      (journal_record : JournalRecord) (written : ℕ × Bytes)
      → IsStored version journal_record
      → encode_record journal_record frame_index version ≡ ok written
      → ReadsBack journal_record written
  unfolding encode_record record_body
  record_body-Reads (transaction_started plan_id generation count entries) written (plan, gen, hs)
        e =
      let (bytes, e1, f) = >>=-eq-ok _ _ e in
      known-Reads written
        (decode_header-Reads frame_index version plan_id generation count entries bytes plan gen hs
          e1)
        f
  record_body-Reads (forward_batch_prepared first count) written h e =
      let (recent, e') = refused_if _ _ (ltb version 6) e in
      let current : leb 6 version ≡ true = ground (arith, recent) in
      let (from, e1, f1) = >>=-eq-ok _ _ e' in
      let (steps, e2, f2) = >>=-eq-ok _ _ f1 in
      known-Reads written
        (Reads-if _ (leb 6 version) current (
          Reads-then _ (read_usize-Reads frame_index first from e1)
            (Reads-map _ (read_usize-Reads frame_index count steps e2))))
        f2
  record_body-Reads (forward_step_prepared step) written h e =
      step-Reads 2 step forward_step_prepared written (λ b k. k) e
  record_body-Reads (forward_step_completed step identity) written h e =
      let (bytes, e1, f) = >>=-eq-ok _ _ e in
      known-Reads written
        (Reads-then _ (read_usize-Reads frame_index step bytes e1)
          (Reads-map _ (decode_execution_identity-Reads frame_index identity h)))
        f
  record_body-Reads (forward_step_not_applied step) written h e =
      step-Reads 10 step forward_step_not_applied written (λ b k. k) e
  record_body-Reads (rollback_started cause) written h e =
      let (bytes, e1, f) = >>=-eq-ok _ _ e in
      known-Reads written
        (Reads-map rollback_started (decode_rollback_cause-Reads frame_index cause bytes e1)) f
  record_body-Reads (rollback_step_prepared step) written h e =
      step-Reads 5 step rollback_step_prepared written (λ b k. k) e
  record_body-Reads (rollback_step_completed step identity) written h e =
      let (bytes, e1, f) = >>=-eq-ok _ _ e in
      known-Reads written
        (Reads-then _ (read_usize-Reads frame_index step bytes e1)
          (Reads-map _ (decode_execution_identity-Reads frame_index identity h)))
        f
  record_body-Reads (rollback_step_not_applied step) written h e =
      step-Reads 11 step rollback_step_not_applied written (λ b k. k) e
  record_body-Reads (rollback_step_failed step) written h e =
      step-Reads 7 step rollback_step_failed written (λ b k. k) e
  record_body-Reads (rollback_recovery_started step) written h e =
      step-Reads 12 step rollback_recovery_started written (λ b k. k) e
  record_body-Reads transaction_completed written h e = known-Reads written (reads λ rest. refl) e
  record_body-Reads transaction_rolled_back written h e = known-Reads written (reads λ rest. refl) e

  -- Decoding the payload that a record was encoded to answers the record.
  pub decode_record-encode_record :
      (journal_record : JournalRecord) (kind : ℕ) (payload : Bytes)
      → IsStored version journal_record
      → encode_record journal_record frame_index version ≡ ok (kind, payload)
      → decode_record kind payload frame_index version ≡ ok journal_record
  unfolding decode_record finish
  decode_record-encode_record journal_record kind payload h e =
      let whole : record_body kind frame_index version payload ≡ ok (journal_record, []) =
        subst (λ b. record_body kind frame_index version b ≡ ok (journal_record, []))
          (append-nil payload)
          (Reads-on (record_body-Reads journal_record (kind, payload) h e) []) in
      rw whole refl

-- The kind of a record is a byte.
pub kind_small :
    (journal_record : JournalRecord) (frame_index version : ℕ) (written : ℕ × Bytes)
    → encode_record journal_record frame_index version ≡ ok written
    → written.0 < 256
unfolding encode_record
kind_small (transaction_started plan_id generation count entries) frame_index version written e =
    ground arith
kind_small (forward_batch_prepared first count) frame_index version written e = ground arith
kind_small (forward_step_prepared step) frame_index version written e = ground arith
kind_small (forward_step_completed step identity) frame_index version written e = ground arith
kind_small (forward_step_not_applied step) frame_index version written e = ground arith
kind_small (rollback_started cause) frame_index version written e = ground arith
kind_small (rollback_step_prepared step) frame_index version written e = ground arith
kind_small (rollback_step_completed step identity) frame_index version written e = ground arith
kind_small (rollback_step_not_applied step) frame_index version written e = ground arith
kind_small (rollback_step_failed step) frame_index version written e = ground arith
kind_small (rollback_recovery_started step) frame_index version written e = ground arith
kind_small transaction_completed frame_index version written e = ground arith
kind_small transaction_rolled_back frame_index version written e = ground arith
