-- ===== src/Codec/Failures.antt =====
-- The errors of the decoder name the frame that it decodes.
use renamewright.Common.{
  if_both, ℕ, zero, suc, ◌≡◌, refl, List, [], ◌∷◌, none, some, inl, inr, Bool, true, false, ◌&&◌,
  err, ok, Result-cases, length, leb, ◌==◌, if◌then◌else◌, usize_max, ◌>>=◌ as and_then, ◌>>◌,
}
use renamewright.Execution.Journal.{
  transaction_rolled_back, transaction_completed, rollback_recovery_started, rollback_step_failed,
  rollback_step_not_applied, rollback_step_prepared, rollback_started, forward_step_not_applied,
  forward_batch_prepared, forward_step_prepared, JournalRecord, forward_step_completed,
  rollback_step_completed,
}
use renamewright.Codec.{unknown_record_kind, Bytes, Coded, JournalCodecErrorKind, codec_error}
use renamewright.Codec.Cursor.{
  from_le_bytes, Reader, pure, ◌>>=◌, take_bytes, read_number, read_u8, read_u32, read_u64,
  read_u128, read_usize, read_optional, finish,
}
use renamewright.Codec.Entry.{
  decode_native_name, decode_execution_identity, read_kind, read_signal, decode_fingerprint,
  decode_rollback_cause, decode_entry,
}
use renamewright.Codec.Record.{read_step, decode_entries, decode_header, record_body, decode_record}
use renamewright.Codec.Frame.{slice, JournalFrame, Hasher, check, check_version, decode_frame}

-- Every error of the result names this frame.
abbrev pub Names : {A : Type 0} → ℕ → Coded A → Type 0
Names frame_index (ok value) = Unit
Names frame_index (err error) = error.frame_index ≡ frame_index

data Fails {A : Type 0} (frame_index : ℕ) (read : Reader A) : Type 0 where
  fails : ((bytes : Bytes) → Names frame_index (read bytes)) → Fails frame_index read

Fails-on :
    {A : Type 0} {frame_index : ℕ} {read : Reader A}
    → Fails frame_index read
    → (bytes : Bytes) → Names frame_index (read bytes)
Fails-on (fails h) = h

module _ (frame_index : ℕ) where
  Fails-then :
      {A B : Type 0} (read : Reader A) (next : A → Reader B)
      → Fails frame_index read
      → ((value : A) → Fails frame_index (next value))
      → Fails frame_index (read >>= next)
  unfolding ◌>>=◌
  Fails-then read next first second = fails λ bytes. elim (Result-cases (read bytes)) [
    | inl ((value, rest), e) ↦ rw (◌>>=◌, e) (Fails-on (second value) rest)
    | inr (error, e) ↦ rw (◌>>=◌, e) (rw e at (Fails-on first bytes))
  ]

  Fails-if :
      {A : Type 0} (test : Bool) (first second : Reader A)
      → Fails frame_index first
      → Fails frame_index second
      → Fails frame_index (if test then first else second)
  Fails-if true first second y n = y
  Fails-if false first second y n = n

  Fails-pure : {A : Type 0} (value : A) → Fails frame_index (pure value)
  Fails-pure value = fails λ bytes. tt

  Fails-error :
      {A : Type 0} (kind : JournalCodecErrorKind)
      → Fails {A = A} frame_index (λ rest. codec_error {A = A × Bytes} frame_index kind)
  Fails-error kind = fails λ bytes. refl

  Fails-map :
      {A B : Type 0} (read : Reader A) (make : A → B)
      → Fails frame_index read
      → Fails frame_index (read >>= λ value. pure (make value))
  Fails-map read make first = Fails-then read _ first λ value. Fails-pure (make value)

  take_bytes-Fails : (count : ℕ) → Fails frame_index (take_bytes frame_index count)
  unfolding take_bytes
  take_bytes-Fails count =
      fails λ bytes. if_both (Names frame_index) (leb count (length bytes)) _ _ tt refl

  read_number-Fails : (width : ℕ) → Fails frame_index (read_number width frame_index)
  unfolding read_number
  read_number-Fails width = Fails-map _ _ (take_bytes-Fails width)

  read_u64-Fails : Fails frame_index (read_u64 frame_index)
  unfolding read_u64
  read_u64-Fails = read_number-Fails 8

  read_u8-Fails : Fails frame_index (read_u8 frame_index)
  unfolding read_u8
  read_u8-Fails = read_number-Fails 1

  read_usize-Fails : Fails frame_index (read_usize frame_index)
  unfolding read_usize
  read_usize-Fails =
      Fails-then _ _ read_u64-Fails
        λ value. Fails-if (leb value usize_max) _ _ (Fails-pure value) (Fails-error _)

  read_optional-Fails :
      {A : Type 0} (read : Reader A)
      → Fails frame_index read
      → Fails frame_index (read_optional frame_index read)
  unfolding read_optional
  read_optional-Fails read h = Fails-then _ _ read_u8-Fails λ tag.
      Fails-if (tag == 0) _ _ (Fails-pure none)
        (Fails-if (tag == 1) _ _ (Fails-map read some h) (Fails-error _))

  decode_native_name-Fails : Fails frame_index (decode_native_name frame_index)
  unfolding decode_native_name read_u32
  decode_native_name-Fails = Fails-then _ _ read_u8-Fails λ encoding.
      Fails-if _ _ _
        (Fails-then _ _ (read_number-Fails 4) λ count. Fails-map _ _ (take_bytes-Fails count))
        (Fails-error _)

  decode_execution_identity-Fails : Fails frame_index (decode_execution_identity frame_index)
  unfolding decode_execution_identity
  decode_execution_identity-Fails =
      Fails-then _ _ read_u64-Fails λ volume. Fails-map _ _ (take_bytes-Fails 16)

  decode_fingerprint-Fails :
      (version : ℕ) → Fails frame_index (decode_fingerprint frame_index version)
  unfolding decode_fingerprint read_kind read_signal read_u128
  decode_fingerprint-Fails version =
      Fails-then _ _
        (Fails-then _ _ read_u8-Fails λ kind. Fails-if (kind == 1) _ _ (Fails-pure _) (
          Fails-if (kind == 2) _ _ (Fails-pure _)
            (Fails-if (kind == 3 && leb 4 version) _ _ (Fails-pure _) (Fails-error _))))
        λ kind.
          Fails-then _ _
            (read_optional-Fails _
              (Fails-then _ _ read_u64-Fails λ primary. Fails-map _ _ read_u64-Fails))
            λ signal.
              Fails-then _ _ read_u64-Fails
                λ size. Fails-map _ _ (read_optional-Fails _ (read_number-Fails 16))

  decode_rollback_cause-Fails : Fails frame_index (decode_rollback_cause frame_index)
  unfolding decode_rollback_cause
  decode_rollback_cause-Fails = Fails-then _ _ read_u8-Fails λ cause.
      Fails-if (cause == 1) _ _ (Fails-pure _) (
        Fails-if (cause == 2) _ _ (Fails-map _ _ read_usize-Fails)
          (Fails-if (cause == 3) _ _ (Fails-pure _) (Fails-error _)))

  decode_entry-Fails : (version : ℕ) → Fails frame_index (decode_entry frame_index version)
  unfolding decode_entry
  decode_entry-Fails version = Fails-then _ _ read_u64-Fails λ source.
      Fails-then _ _ read_u64-Fails λ parent. Fails-then _ _ decode_native_name-Fails λ original.
        Fails-then _ _ decode_native_name-Fails λ temporary.
          Fails-then _ _ decode_native_name-Fails λ final.
            Fails-then _ _ (decode_fingerprint-Fails version) λ fingerprint.
              Fails-then _ _ decode_execution_identity-Fails λ identity.
                Fails-then _ _
                  (Fails-if _ _ _ (read_optional-Fails _ decode_native_name-Fails)
                    (Fails-pure none))
                  λ native_parent.
                    Fails-then _ _
                      (Fails-if _ _ _ (read_optional-Fails _ read_u64-Fails) (Fails-pure none))
                      λ undo. Fails-map _ _ (
                        Fails-if _ _ _ (read_optional-Fails _ decode_execution_identity-Fails)
                          (Fails-pure none))

  decode_entries-Fails :
      (count version : ℕ) → Fails frame_index (decode_entries count frame_index version)
  unfolding decode_entries
  decode_entries-Fails zero version = Fails-pure []
  decode_entries-Fails (suc count) version =
      Fails-then _ _ (decode_entry-Fails version)
        λ entry. Fails-map _ _ (decode_entries-Fails count version)

  decode_header-Fails : (version : ℕ) → Fails frame_index (decode_header frame_index version)
  unfolding decode_header read_u32
  decode_header-Fails version = Fails-then _ _ read_u64-Fails λ plan_id.
      Fails-then _ _ read_u64-Fails λ generation. Fails-then _ _ read_usize-Fails λ steps.
        Fails-then _ _ (read_number-Fails 4) λ count.
          Fails-if _ _ _ (Fails-map _ _ (decode_entries-Fails count version)) (Fails-error _)

  read_step-Fails : (make : ℕ → JournalRecord) → Fails frame_index (read_step make frame_index)
  read_step-Fails make = Fails-map _ make read_usize-Fails

  record_body-Fails : (kind version : ℕ) → Fails frame_index (record_body kind frame_index version)
  unfolding record_body
  record_body-Fails kind version = Fails-if (kind == 1) _ _ (decode_header-Fails version) (
      Fails-if (kind == 2) _ _ (read_step-Fails forward_step_prepared) (
        Fails-if (kind == 13 && leb 6 version) _ _
          (Fails-then _ _ read_usize-Fails
            λ first. Fails-map _ (forward_batch_prepared first) read_usize-Fails)
          (Fails-if (kind == 3) _ _
            (Fails-then _ _ read_usize-Fails
              λ step. Fails-map _ (forward_step_completed step) decode_execution_identity-Fails)
            (Fails-if (kind == 10) _ _ (read_step-Fails forward_step_not_applied) (
              Fails-if (kind == 4) _ _ (Fails-map _ rollback_started decode_rollback_cause-Fails) (
                Fails-if (kind == 5) _ _ (read_step-Fails rollback_step_prepared) (
                  Fails-if (kind == 6) _ _
                    (Fails-then _ _ read_usize-Fails λ step.
                      Fails-map _ (rollback_step_completed step) decode_execution_identity-Fails)
                    (Fails-if (kind == 11) _ _ (read_step-Fails rollback_step_not_applied) (
                      Fails-if (kind == 7) _ _ (read_step-Fails rollback_step_failed) (
                        Fails-if (kind == 12) _ _ (read_step-Fails rollback_recovery_started) (
                          Fails-if (kind == 8) _ _ (Fails-pure transaction_completed) (
                            Fails-if (kind == 9) _ _ (Fails-pure transaction_rolled_back)
                              (Fails-error (unknown_record_kind kind))))))))))))))

  Names-then :
      {A B : Type 0} (first : Coded A) (next : A → Coded B)
      → Names frame_index first
      → ((value : A) → Names frame_index (next value))
      → Names frame_index (and_then first next)
  Names-then (ok value) next f n = n value
  Names-then (err error) next f n = f

  finish-Names : (rest : Bytes) → Names frame_index (finish frame_index rest)
  unfolding finish
  finish-Names [] = tt
  finish-Names (b ∷ rest) = refl

  decode_record-Names :
      (kind version : ℕ) (payload : Bytes)
      → Names frame_index (decode_record kind payload frame_index version)
  unfolding decode_record
  decode_record-Names kind version payload =
      Names-then (record_body kind frame_index version payload) _
        (Fails-on (record_body-Fails kind version) payload)
        λ read. Names-then (finish frame_index read.1) _ (finish-Names read.1) λ done. tt

  check-Names :
      (test : Bool) (kind : JournalCodecErrorKind) → Names frame_index (check frame_index test kind)
  unfolding check
  check-Names true kind = tt
  check-Names false kind = refl

check_version-Names :
    (frames : List JournalFrame) (version : ℕ)
    → Names (length frames) (check_version frames version)
unfolding check_version
check_version-Names [] version = tt
check_version-Names (first ∷ others) version =
    if_both (Names (length (first ∷ others))) (first.schema_version == version) _ _ tt refl

-- A frame that does not decode fails with its own index.
pub decode_frame-Names :
    (crc : Hasher) (frames : List JournalFrame) (bytes : Bytes)
    → Names (length frames) (decode_frame crc frames bytes)
unfolding decode_frame
decode_frame-Names crc frames bytes =
    let names : (test : Bool) (kind : JournalCodecErrorKind) (next : Coded (JournalFrame × Bytes))
        → Names (length frames) next
        → Names (length frames) (check (length frames) test kind >> next) =
      λ test kind next h.
        Names-then (length frames) (check (length frames) test kind) (λ done. next)
          (check-Names (length frames) test kind) (λ done. h) in
    names _ _ _ (
      names _ _ _ (
        names _ _ _ (
          Names-then (length frames) (check_version frames (from_le_bytes (slice 4 2 bytes))) _
            (check_version-Names frames _)
            λ same. names _ _ _ (
              names _ _ _ (
                names _ _ _ (
                  names _ _ _ (
                    names _ _ _ (
                      Names-then (length frames) (decode_record _ _ (length frames) _) _
                        (decode_record-Names (length frames) _ _ _) λ journal_record. tt))))))))
