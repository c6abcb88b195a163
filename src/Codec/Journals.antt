-- ===== src/Codec/Journals.antt =====
-- Whole journals: what was encoded decodes to the same records.
use renamewright.Common.{
  ok_injective, ℕ, zero, suc, ◌+◌, ◌^◌, ◌≤◌, ◌<◌, ◌≡◌, refl, sym, ap, ◌∙◌, subst, List, [], ◌∷◌,
  ◌++◌, ok, >>=-eq-ok, arith, length, length-append, append_assoc, append-nil, All, All-append,
}
use renamewright.Execution.Journal.{JournalRecord}
use renamewright.Codec.{Bytes, journal_schema_version}
use renamewright.Codec.Frame.{
  Hasher, JournalFrame, decode_frame, decode_journal, encode_frame_for_version, encode_frame,
  encode_loop, encode_journal,
}
use renamewright.Codec.Passes.{AllHave}
use renamewright.Codec.Stored.{IsStored}
use renamewright.Codec.Frames.{decode_frame-encode_frame_for_version}
use renamewright.Codec.Chain.{Chain, stop, step, loop_follows, loop_done}

-- The frames of the records, numbered from `sequence`.
abbrev pub frames_from : ℕ → ℕ → List JournalRecord → List JournalFrame
frames_from version sequence [] = []
frames_from version sequence (journal_record ∷ records) =
    record { schema_version = version; sequence = sequence; journal_record = journal_record }
    ∷ frames_from version (suc sequence) records

pub length-frames_from :
    (version sequence : ℕ) (records : List JournalRecord)
    → length (frames_from version sequence records) ≡ length records
length-frames_from version sequence [] = refl
length-frames_from version sequence (journal_record ∷ records) =
    ap suc (length-frames_from version (suc sequence) records)

pub frames_from-AllHave :
    (version sequence : ℕ) (records : List JournalRecord)
    → AllHave version (frames_from version sequence records)
frames_from-AllHave version sequence [] = tt
frames_from-AllHave version sequence (journal_record ∷ records) =
    (refl, frames_from-AllHave version (suc sequence) records)

-- The bytes are the frames of the records, numbered from `sequence`.
abbrev pub Encodes : Hasher → ℕ → ℕ → List JournalRecord → Bytes → Type 0
Encodes crc version sequence [] bytes = bytes ≡ []
Encodes crc version sequence (journal_record ∷ records) bytes =
    (first : Bytes) × (others : Bytes) × (encode_frame_for_version crc sequence journal_record
        sequence version
      ≡ ok first)
    × Encodes crc version (suc sequence) records others
    × (first ++ others ≡ bytes)

pub encode_loop-Encodes :
    (crc : Hasher) (sequence : ℕ) (records : List JournalRecord) (bytes : Bytes)
    → encode_loop crc sequence records ≡ ok bytes
    → Encodes crc journal_schema_version sequence records bytes
unfolding encode_loop encode_frame
encode_loop-Encodes crc sequence [] bytes e = sym (ok_injective e)
encode_loop-Encodes crc sequence (journal_record ∷ records) bytes e =
    let (first, e1, f1) = >>=-eq-ok _ _ e in
    let (others, e2, f2) = >>=-eq-ok _ _ f1 in
    (first, others, e1, encode_loop-Encodes crc (suc sequence) records others e2, ok_injective f2)

module _ (crc : Hasher) (bound : (hash : crc.Hash) → crc.finalize hash < 2 ^ 32) where
  -- The loop reads encoded records, whatever bytes follow them.
  pub encoded_run :
      (version : ℕ) (frames : List JournalFrame) (records : List JournalRecord) (bytes rest : Bytes)
      → (1 ≤ version) × (version ≤ 6)
      → AllHave version frames
      → length frames + length records ≤ 2 ^ 64
      → All (IsStored version) records
      → Encodes crc version (length frames) records bytes
      → Chain crc
          (length records)
          frames
          (bytes ++ rest)
          (frames ++ frames_from version (length frames) records)
          rest
  encoded_run version frames [] bytes rest range same small stored e =
      subst (λ b. Chain crc zero frames (b ++ rest) (frames ++ []) rest) (sym e)
        (subst (λ last. Chain crc zero frames rest last rest) (sym (append-nil frames)) stop)
  encoded_run version frames (journal_record ∷ records) bytes rest range same small (h, stored)
        (first, others, written, e, joined) =
      let frame : JournalFrame = record {
        schema_version = version;
        sequence = length frames;
        journal_record = journal_record;
      } in
      let longer : length (frames ++ frame ∷ []) ≡ suc (length frames) =
        length-append frames (frame ∷ []) ∙ omega arith in
      let decoded : decode_frame crc frames (first ++ (others ++ rest))
          ≡ ok (frame, others ++ rest) =
        decode_frame-encode_frame_for_version crc bound frames version journal_record first
          (others ++ rest) range same (omega arith) h written in
      let tail_run : Chain crc (length records) (frames ++ frame ∷ []) (others ++ rest)
          ((frames ++ frame ∷ []) ++ frames_from version (length (frames ++ frame ∷ [])) records)
          rest =
        encoded_run version (frames ++ frame ∷ []) records others rest range
          (All-append _ frames (frame ∷ []) same (refl, tt)) (omega arith) stored
          (subst (λ n. Encodes crc version n records others) (sym longer) e) in
      let renamed : ((frames ++ frame ∷ [])
            ++ frames_from version (length (frames ++ frame ∷ [])) records)
          ≡ frames ++ (frame ∷ frames_from version (suc (length frames)) records) =
        append_assoc frames (frame ∷ []) _
        ∙ ap (λ n. frames ++ frame ∷ frames_from version n records) longer in
      subst
        (λ b.
          Chain crc (suc (length records)) frames b
            (frames ++ frames_from version (length frames) (journal_record ∷ records)) rest)
        (sym (append_assoc first others rest) ∙ ap (λ b. b ++ rest) joined)
        (step frame decoded (
          subst
            (λ last. Chain crc (length records) (frames ++ frame ∷ []) (others ++ rest) last rest)
            renamed tail_run))

  -- Bytes of frames decode to them.
  pub decode_journal-Encodes :
      (version : ℕ) (records : List JournalRecord) (bytes : Bytes)
      → (1 ≤ version) × (version ≤ 6)
      → length records ≤ 2 ^ 64
      → All (IsStored version) records
      → Encodes crc version 0 records bytes
      → decode_journal crc bytes ≡ ok (frames_from version 0 records)
  unfolding decode_journal
  decode_journal-Encodes version records bytes range small stored e =
      let run : Chain crc (length records) [] (bytes ++ []) (frames_from version 0 records) [] =
        encoded_run version [] records bytes [] range tt (omega arith) stored e in
      let (remaining, enough, same) = loop_follows crc (length bytes) (omega arith) (
        subst (λ b. Chain crc (length records) [] b (frames_from version 0 records) [])
          (append-nil bytes) run) in
      same ∙ loop_done crc remaining _

  -- Where the checksum has 32 bits, for at most 2^64 records whose numbers and names can be stored:
  -- decoding the bytes that they were encoded to answers their frames, numbered from 0.
  pub decode_journal-encode_journal :
      (records : List JournalRecord) (bytes : Bytes)
      → length records ≤ 2 ^ 64
      → All (IsStored journal_schema_version) records
      → encode_journal crc records ≡ ok bytes
      → decode_journal crc bytes ≡ ok (frames_from journal_schema_version 0 records)
  unfolding encode_journal
  decode_journal-encode_journal records bytes small stored e =
      decode_journal-Encodes 6 records bytes (omega arith) small stored
        (encode_loop-Encodes crc 0 records bytes e)
