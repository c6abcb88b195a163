-- ===== src/Codec/Passes.antt =====
-- What the tests of `decode_frame` let through, in both directions.
use renamewright.Common.{
  ok_injective, ==_iff, ℕ, ◌+◌, ◌≤◌, ◌≡◌, refl, sym, ap, ◌∙◌, List, [], ◌∷◌, Bool, true, false,
  ◌&&◌,
}
use renamewright.Common.{ok, leb, ◌==◌, ==_self, arith, length, take, drop, >>=-eq-ok, All, ◌>>◌}
use renamewright.Text.{list_eq_iff, list_eq}
use renamewright.Execution.Journal.{JournalRecord}
use renamewright.Codec.{
  truncated_payload, frame_too_large, sequence_mismatch, unsupported_version, invalid_magic,
  JournalCodecErrorKind, truncated_header, Bytes, Coded, magic, max_journal_payload_bytes,
  frame_header_bytes, flag_none,
}
use renamewright.Codec.Cursor.{from_le_bytes}
use renamewright.Codec.Record.{decode_record}
use renamewright.Codec.Frame.{
  Hasher, JournalFrame, slice, check, check_version, crc32_parts, decode_frame,
}

-- The frames have this version.
abbrev pub AllHave : ℕ → List JournalFrame → Type 0
AllHave version = All (λ frame. frame.schema_version ≡ version)

pub check_version_lem :
    (frames : List JournalFrame) (version : ℕ)
    → AllHave version frames
    → check_version frames version ≡ ok tt
unfolding check_version
check_version_lem [] version h = refl
check_version_lem (first ∷ others) version (same, h) = rw (same, ==_self version) refl

pub check-true :
    (frame_index : ℕ) (test : Bool) (kind : JournalCodecErrorKind)
    → test ≡ true
    → check frame_index test kind ≡ ok tt
unfolding check
check-true frame_index test kind h = rw h refl

check_then :
    {A : Type 0} {answer : A} (frame_index : ℕ) (test : Bool) (kind : JournalCodecErrorKind)
    (next : Coded A)
    → (check frame_index test kind >> next) ≡ ok answer
    → (test ≡ true) × (next ≡ ok answer)
unfolding check
check_then frame_index true kind next e = (refl, e)
check_then frame_index false kind next e = cc

at_most : {m n : ℕ} → leb m n ≡ true → m ≤ n
at_most h = ground arith

between : {n : ℕ} → (leb 1 n && leb n 6) ≡ true → (1 ≤ n) × (n ≤ 6)
between h = ground arith

pub list_eq_self : (xs : List ℕ) → list_eq xs xs ≡ true
list_eq_self xs = (list_eq_iff xs xs).1 refl

module _ (crc : Hasher) (frames : List JournalFrame) (bytes : Bytes) where
  -- The header of the bytes has these fields, and the payload is that of the record.
  abbrev pub Passes : ℕ → ℕ → ℕ → JournalRecord → Type 0
  Passes version kind size journal_record =
      (frame_header_bytes + size ≤ length bytes)
      × (take 4 bytes ≡ magic)
      × (from_le_bytes (slice 4 2 bytes) ≡ version)
      × ((1 ≤ version) × (version ≤ 6))
      × (check_version frames version ≡ ok tt)
      × (from_le_bytes (slice 6 1 bytes) ≡ kind)
      × (from_le_bytes (slice 7 1 bytes) ≡ flag_none)
      × (from_le_bytes (slice 8 8 bytes) ≡ length frames)
      × (from_le_bytes (slice 16 4 bytes) ≡ size)
      × (size ≤ max_journal_payload_bytes)
      × (from_le_bytes (slice 20 4 bytes)
          ≡ crc32_parts crc (slice 4 16 bytes ∷ slice frame_header_bytes size bytes ∷ []))
      × (decode_record kind (slice frame_header_bytes size bytes) (length frames) version
          ≡ ok journal_record)

  -- Bytes that pass every test of `decode_frame`.
  pub decode_frame-Passes :
      (version kind size : ℕ) (journal_record : JournalRecord)
      → Passes version kind size journal_record
      → decode_frame crc frames bytes
        ≡ ok (
          record {
            schema_version = version;
            sequence = length frames;
            journal_record = journal_record;
          },
          drop (frame_header_bytes + size) bytes,
        )
  unfolding decode_frame check
  decode_frame-Passes version kind size journal_record
        (whole, starts, v, (low, high), same, k, f, s, l, limit, sum, decoded) =
      rw
        (
          v,
          k,
          f,
          s,
          l,
          sum,
          starts,
          check-true (length frames) (leb frame_header_bytes (length bytes)) truncated_header
              (ground arith),
          check-true (length frames) (list_eq magic magic) invalid_magic (list_eq_self magic),
          check-true (length frames) (leb 1 version && leb version 6) (unsupported_version version)
              (ground arith),
          same,
          check-true (length frames) (length frames == length frames)
              (sequence_mismatch (length frames) (length frames)) (==_self (length frames)),
          check-true (length frames) (leb size max_journal_payload_bytes) (frame_too_large size)
              (ground arith),
          check-true (length frames) (leb (frame_header_bytes + size) (length bytes))
              truncated_payload (ground arith),
          ==_self (crc32_parts crc (slice 4 16 bytes ∷ slice frame_header_bytes size bytes ∷ [])),
          decoded,
        )
        refl

  -- A frame that decodes has passed every test.
  pub Passes-decode_frame :
      (frame : JournalFrame) (rest : Bytes)
      → decode_frame crc frames bytes ≡ ok (frame, rest)
      → (version : ℕ) × (kind : ℕ) × (size : ℕ) × (journal_record : JournalRecord) × Passes version
          kind size journal_record
        × (record {
          schema_version = version;
          sequence = length frames;
          journal_record = journal_record;
        }
            ≡ frame)
        × (drop (frame_header_bytes + size) bytes ≡ rest)
  unfolding decode_frame
  Passes-decode_frame frame rest e =
      let version : ℕ = from_le_bytes (slice 4 2 bytes) in
      let size : ℕ = from_le_bytes (slice 16 4 bytes) in
      let (t1, e1) = check_then _ _ _ _ e in
      let (t2, e2) = check_then _ _ _ _ e1 in
      let (t3, e3) = check_then _ _ _ _ e2 in
      let (agreed, same, e4) = >>=-eq-ok (check_version frames version) _ e3 in
      let (t5, e5) = check_then _ _ _ _ e4 in
      let (t6, e6) = check_then _ _ _ _ e5 in
      let (t7, e7) = check_then _ _ _ _ e6 in
      let (t8, e8) = check_then _ _ _ _ e7 in
      let (t9, e9) = check_then _ _ _ _ e8 in
      let (journal_record, decoded, made) = >>=-eq-ok _ _ e9 in
      let sequence : from_le_bytes (slice 8 8 bytes) ≡ length frames = (==_iff _ _).0 t6 in
      (
        version,
        from_le_bytes (slice 6 1 bytes),
        size,
        journal_record,
        (
          at_most t8,
          (list_eq_iff _ _).0 t2,
          refl,
          between t3,
          same,
          refl,
          (==_iff _ _).0 t5,
          sequence,
          refl,
          at_most t7,
          sym ((==_iff _ _).0 t9),
          decoded,
        ),
        ap (λ n. record { schema_version = version; sequence = n; journal_record = journal_record })
              (sym sequence)
            ∙ ap (λ p. p.0) (ok_injective made),
        ap (λ p. p.1) (ok_injective made),
      )
