-- ===== src/Codec/Torn.antt =====
-- A journal whose last frame was cut off by a crash.
use renamewright.Common.{
  Bool, ==_self, ◌==◌, ◌&&◌, Bool-cases, length-drop, ℕ, ◌+◌, ◌^◌, ◌≤◌, ◌<◌, ◌≡◌, ◌≢◌, refl, sym,
  ap, ◌∙◌, subst, List, [], ◌∷◌, ◌++◌, ◌⊎◌, inl, inr, true, false, some, ok, arith, leb, length,
  take, length-append, append-nil, All,
}
use renamewright.Text.{list_eq}
use renamewright.Execution.Journal.{JournalRecord}
use renamewright.Codec.{frame_too_large, unsupported_version, sequence_mismatch}
use renamewright.Codec.Journals.{
  Encodes, frames_from, encoded_run, length-frames_from, frames_from-AllHave,
}
use renamewright.Codec.Inspect.{inspect_failed}
use renamewright.Codec.Chain.{Chain}
use renamewright.Codec.Stored.{IsStored}
use renamewright.Codec.Frames.{decode_frame-encode_frame_for_version}
use renamewright.Codec.{
  frame_too_large, max_journal_payload_bytes, sequence_mismatch, unsupported_version, invalid_magic,
  magic, JournalCodecErrorKind, codec_error, Bytes, truncated_header, truncated_payload,
  frame_header_bytes,
}
use renamewright.Codec.Cursor.{from_le_bytes}
use renamewright.Codec.Frame.{
  encode_frame_for_version, Hasher, JournalFrame, slice, check, decode_frame, inspect_journal,
  is_torn_tail,
}
use renamewright.Codec.Passes.{list_eq_self, check-true, Passes, Passes-decode_frame}
use renamewright.Codec.Local.{slice-before}

check-false :
    (frame_index : ℕ) (test : Bool) (kind : JournalCodecErrorKind)
    → test ≡ false
    → check frame_index test kind ≡ codec_error frame_index kind
unfolding check
check-false frame_index test kind h = rw h refl

module _ (crc : Hasher) (frames : List JournalFrame) where
  -- Fewer bytes than a header.
  short_header :
      (bytes : Bytes)
      → length bytes < frame_header_bytes
      → decode_frame crc frames bytes ≡ codec_error (length frames) truncated_header
  unfolding decode_frame
  short_header bytes h =
      rw
        (check-false (length frames) (leb frame_header_bytes (length bytes)) truncated_header
          (ground arith))
        refl

  -- A whole header, and fewer bytes behind it than it announces.
  short_payload :
      (front back : Bytes) (version kind size : ℕ) (journal_record : JournalRecord)
      → frame_header_bytes ≤ length front
      → length front < frame_header_bytes + size
      → Passes crc frames (front ++ back) version kind size journal_record
      → decode_frame crc frames front ≡ codec_error (length frames) truncated_payload
  unfolding decode_frame check
  short_payload front back version kind size journal_record header short
        (long, starts, v, range, agreed, k, f, s, l, limit, sum, decoded) =
      let number : (first count value : ℕ)
          → first + count ≤ length front
          → from_le_bytes (slice first count (front ++ back)) ≡ value
          → from_le_bytes (slice first count front) ≡ value =
        λ first count value h e.
          ap from_le_bytes (sym (slice-before first count front back h)) ∙ e in
      let start : take 4 front ≡ magic = sym (slice-before 0 4 front back (omega arith)) ∙ starts in
      rw
        (
          number 4 2 version (omega arith) v,
          number 7 1 0 (omega arith) f,
          number 8 8 (length frames) (omega arith) s,
          number 16 4 size (omega arith) l,
          start,
          check-true (length frames) (leb frame_header_bytes (length front)) truncated_header
              (ground arith),
          check-true (length frames) (list_eq magic magic) invalid_magic (list_eq_self magic),
          check-true (length frames) (leb 1 version && leb version 6) (unsupported_version version)
              (ground arith),
          agreed,
          check-true (length frames) (length frames == length frames)
              (sequence_mismatch (length frames) (length frames)) (==_self (length frames)),
          check-true (length frames) (leb size max_journal_payload_bytes) (frame_too_large size)
              (ground arith),
          check-false (length frames) (leb (frame_header_bytes + size) (length front))
              truncated_payload (ground arith),
        )
        refl

  -- A frame that is cut off somewhere fails as truncated.
  cut_frame :
      (cut gone : Bytes) (frame : JournalFrame)
      → gone ≢ []
      → decode_frame crc frames (cut ++ gone) ≡ ok (frame, [])
      → (kind : JournalCodecErrorKind) × (decode_frame crc frames cut
          ≡ codec_error (length frames) kind)
        × ((kind ≡ truncated_header) ⊎ (kind ≡ truncated_payload))
  cut_frame cut gone frame more e =
      let (version, kind, size, journal_record, passed, made, left) =
        Passes-decode_frame crc frames (cut ++ gone) frame [] e in
      let whole : frame_header_bytes + size ≡ length (cut ++ gone) =
        omega
          (arith, length-drop (frame_header_bytes + size) (cut ++ gone) passed.0, ap length left) in
      let shorter : length cut < frame_header_bytes + size =
        omega (arith, whole, length-append cut gone, nonempty gone more) in
      elim (Bool-cases (leb frame_header_bytes (length cut))) [
        | inl header ↦ (
          truncated_payload,
          short_payload cut gone version kind size journal_record (ground arith) shorter passed,
          inr refl,
        )
        | inr short ↦ (truncated_header, short_header cut (ground arith), inl refl)
      ]
    where
      nonempty : (bs : Bytes) → bs ≢ [] → 1 ≤ length bs
      nonempty [] h = absurd (h refl)
      nonempty (b ∷ bs) h = omega arith

torn_kind :
    (crc : Hasher) (last : List JournalFrame) (frame_index : ℕ) (kind : JournalCodecErrorKind)
    → (kind ≡ truncated_header) ⊎ (kind ≡ truncated_payload)
    → is_torn_tail
        (record { frames = last; issue = some (record { frame_index = frame_index; kind = kind }) })
      ≡ true
unfolding is_torn_tail
torn_kind crc last frame_index kind (inl h) = rw h refl
torn_kind crc last frame_index kind (inr h) = rw h refl

module _ (crc : Hasher) (bound : (hash : crc.Hash) → crc.finalize hash < 2 ^ 32) where
  -- A journal that lost the end of its last frame still yields every record in front of it, and is
  -- recognised as torn.
  pub inspect_journal_torn :
      (version : ℕ) (records : List JournalRecord) (next : JournalRecord) (bytes cut gone : Bytes)
      → (1 ≤ version) × (version ≤ 6)
      → length records < 2 ^ 64
      → All (IsStored version) records
      → IsStored version next
      → Encodes crc version 0 records bytes
      → encode_frame_for_version crc (length records) next (length records) version
        ≡ ok (cut ++ gone)
      → cut ≢ []
      → gone ≢ []
      → ((inspect_journal crc (bytes ++ cut)).frames ≡ frames_from version 0 records)
        × (is_torn_tail (inspect_journal crc (bytes ++ cut)) ≡ true)
  inspect_journal_torn version records next bytes cut gone range small stored stored_next e written
        some_bytes more =
      let last : List JournalFrame = frames_from version 0 records in
      let counted : length last ≡ length records = length-frames_from version 0 records in
      let run : Chain crc (length records) [] (bytes ++ cut) last cut =
        encoded_run crc bound version [] records bytes cut range tt (omega arith) stored e in
      let frame : JournalFrame = record {
        schema_version = version;
        sequence = length last;
        journal_record = next;
      } in
      let decoded : decode_frame crc last ((cut ++ gone) ++ []) ≡ ok (frame, []) =
        decode_frame-encode_frame_for_version crc bound last version next (cut ++ gone) [] range
          (frames_from-AllHave version 0 records) (omega arith) stored_next (rw counted written) in
      let (kind, failed, torn) = cut_frame crc last cut gone frame more (
        subst (λ b. decode_frame crc last b ≡ ok (frame, [])) (append-nil (cut ++ gone)) decoded) in
      let inspected : inspect_journal crc (bytes ++ cut) ≡ record {
        frames = last;
        issue = some (record { frame_index = length last; kind = kind });
      } =
        inspect_failed crc (length records) (bytes ++ cut) cut last
          (record { frame_index = length last; kind = kind }) run some_bytes failed counted in
      rw inspected (refl, torn_kind crc last (length last) kind torn)
