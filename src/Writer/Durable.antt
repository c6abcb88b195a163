-- ===== src/Writer/Durable.antt =====
-- What the file of a journal holds after any appends, failed ones included.
use renamewright.Common.{
  if_both, ℕ, suc, ◌+◌, ◌^◌, ◌<◌, ◌≡◌, refl, sym, ap, ◌∙◌, subst, List, [], ◌∷◌, ◌++◌, none, some,
  ◌⊎◌, inl, inr, Bool, true, false, err, ok, Result-cases, Option-cases, arith, length,
  length-append, append_assoc, append-nil, checked_add,
}
use native.Mathlib.Nat.{zero-add}
use renamewright.Execution.Journal.{JournalRecord}
use renamewright.Codec.{Bytes}
use renamewright.Codec.Frame.{Hasher, encode_frame_for_version}
use renamewright.Codec.Journals.{Encodes}
use renamewright.Codec.Stored.{IsStored}
use renamewright.Writer.{
  write_failed, sync_failed, IoErrorKind, JournalStorageErrorKind, JournalSink, DurableAppender,
  Appending, poison, advance, synchronized, write_record, append_record,
}

pub Encodes-append :
    (crc : Hasher) (version sequence : ℕ) (records : List JournalRecord) (bytes : Bytes)
    (journal_record : JournalRecord) (frame : Bytes)
    → Encodes crc version sequence records bytes
    → encode_frame_for_version crc
        (sequence + length records)
        journal_record
        (sequence + length records)
        version
      ≡ ok frame
    → Encodes crc version sequence (records ++ journal_record ∷ []) (bytes ++ frame)
Encodes-append crc version sequence [] bytes journal_record frame e written =
    let here : sequence + 0 ≡ sequence = omega arith in
    (
      frame,
      [],
      subst (λ n. encode_frame_for_version crc n journal_record n version ≡ ok frame) here written,
      refl,
      append-nil frame ∙ ap (λ b. b ++ frame) (sym e),
    )
Encodes-append crc version sequence (first ∷ records) bytes journal_record frame
      (front, others, e, rest, joined) written =
    let further : sequence + suc (length records) ≡ suc sequence + length records = omega arith in
    (
      front,
      others ++ frame,
      e,
      Encodes-append crc version (suc sequence) records others journal_record frame rest (
          subst (λ n. encode_frame_for_version crc n journal_record n version ≡ ok frame) further
            written),
      sym (append_assoc front others frame) ∙ ap (λ b. b ++ frame) joined,
    )

-- What the sink holds: a write that succeeds appends its bytes, one that fails some of them, and a
-- sync changes nothing.
pub record SinkLaws (journal_sink : JournalSink) : Type 0 where
  pub contents : journal_sink.Sink → Bytes
  pub write_appends :
      (sink : journal_sink.Sink) (bytes : Bytes)
      → (journal_sink.write_frame sink bytes).1 ≡ none
      → contents (journal_sink.write_frame sink bytes).0 ≡ contents sink ++ bytes
  pub write_cuts :
      (sink : journal_sink.Sink) (bytes : Bytes) (io_kind : IoErrorKind)
      → (journal_sink.write_frame sink bytes).1 ≡ some io_kind
      → (cut : Bytes) × (gone : Bytes) × (cut ++ gone ≡ bytes)
        × (contents (journal_sink.write_frame sink bytes).0 ≡ contents sink ++ cut)
  pub sync_keeps :
      (sink : journal_sink.Sink) → contents (journal_sink.sync_all sink).0 ≡ contents sink

module _ (crc : Hasher) (journal_sink : JournalSink) (laws : SinkLaws journal_sink) where
  -- The file holds the records, and nothing else.
  abbrev pub Intact : ℕ → List JournalRecord → DurableAppender crc journal_sink → Type 0
  Intact version records appender =
      (appender.schema_version ≡ version)
      × (appender.poisoned ≡ false)
      × (appender.next_sequence ≡ length records)
      × (length records < 2 ^ 64)
      × Encodes crc version 0 records (laws.contents appender.sink)

  -- The file holds the records and a part of the frame of another one, which may be all or nothing.
  abbrev pub Broken : ℕ → List JournalRecord → DurableAppender crc journal_sink → Type 0
  Broken version records appender =
      (appender.poisoned ≡ true)
      × (length records < 2 ^ 64)
      × (next : JournalRecord) × (bytes : Bytes) × (cut : Bytes) × (gone : Bytes) × IsStored version
          next
      × Encodes crc version 0 records bytes
      × (encode_frame_for_version crc (length records) next (length records) version
          ≡ ok (cut ++ gone))
      × (laws.contents appender.sink ≡ bytes ++ cut)

  abbrev pub Holds : ℕ → List JournalRecord → DurableAppender crc journal_sink → Type 0
  Holds version records appender = Intact version records appender ⊎ Broken version records appender

  -- After an append that was accepted the record is there.
  abbrev pub Appended : ℕ → List JournalRecord → JournalRecord → Appending crc journal_sink → Type 0
  Appended version records journal_record (appender, ok done) =
      Intact version (records ++ journal_record ∷ []) appender
  Appended version records journal_record (appender, err error) = Holds version records appender

  module _ (version : ℕ) (records : List JournalRecord) (journal_record : JournalRecord) where
    -- The frame of the next record.
    abbrev Frames : DurableAppender crc journal_sink → Bytes → Type 0
    Frames appender frame =
        encode_frame_for_version crc appender.next_sequence journal_record appender.next_sequence
          appender.schema_version
        ≡ ok frame

    unfoldable pub Goal : Appending crc journal_sink → Type 0
    Goal = Appended version records journal_record

    advance-Intact :
        (appender : DurableAppender crc journal_sink) (sink : journal_sink.Sink) (following : ℕ)
        (frame : Bytes)
        → Intact version records appender
        → following ≡ suc appender.next_sequence
        → following < 2 ^ 64
        → Frames appender frame
        → laws.contents sink ≡ laws.contents appender.sink ++ frame
        → Goal (advance crc journal_sink appender sink following journal_record)
    unfolding advance Goal
    advance-Intact appender sink following frame (same, sound, next, small, encoded) one_more fits
          written held =
        let longer : length (records ++ journal_record ∷ []) ≡ suc (length records) =
          length-append records (journal_record ∷ []) ∙ omega arith in
        (
          same,
          sound,
          omega (arith, one_more, next, longer),
          omega (arith, one_more, next, longer),
          subst (Encodes crc version 0 (records ++ journal_record ∷ [])) (sym held) (
              Encodes-append crc version 0 records _ journal_record frame encoded (
                subst (λ n. encode_frame_for_version crc n journal_record n version ≡ ok frame)
                  (sym (zero-add (length records))) (rw (same, next) at written))),
        )

    poison-Broken :
        (appender : DurableAppender crc journal_sink) (sink : journal_sink.Sink)
        (kind : JournalStorageErrorKind) (cut gone : Bytes)
        → Intact version records appender
        → IsStored version journal_record
        → Frames appender (cut ++ gone)
        → laws.contents sink ≡ laws.contents appender.sink ++ cut
        → Goal (poison crc journal_sink appender sink kind)
    unfolding poison Goal
    poison-Broken appender sink kind cut gone (same, sound, next, small, encoded) stored written
          held =
        inr (
          refl,
          small,
          journal_record,
          laws.contents appender.sink,
          cut,
          gone,
          stored,
          encoded,
          rw (same, next) at written,
          held,
        )

    synchronized-Appended :
        (appender : DurableAppender crc journal_sink) (sink : journal_sink.Sink) (following : ℕ)
        (frame : Bytes)
        → Intact version records appender
        → IsStored version journal_record
        → following ≡ suc appender.next_sequence
        → following < 2 ^ 64
        → Frames appender frame
        → laws.contents sink ≡ laws.contents appender.sink ++ frame
        → Goal (synchronized crc journal_sink appender sink following journal_record)
    unfolding synchronized
    synchronized-Appended appender sink following frame intact stored one_more fits written held =
        let synced : laws.contents (journal_sink.sync_all sink).0
            ≡ laws.contents appender.sink ++ frame =
          laws.sync_keeps sink ∙ held in
        elim (Option-cases (journal_sink.sync_all sink).1) [
          | inl e ↦
              rw (synchronized, e)
                (advance-Intact appender (journal_sink.sync_all sink).0 following frame intact
                  one_more fits written synced)
          | inr (io_kind, e) ↦
              rw (synchronized, e)
                (poison-Broken appender (journal_sink.sync_all sink).0 (sync_failed io_kind) frame
                  [] intact stored (rw (append-nil frame) written) synced)
        ]

    write_record-Appended :
        (appender : DurableAppender crc journal_sink) (frame : Bytes) (following : ℕ)
        (synchronize : Bool)
        → Intact version records appender
        → IsStored version journal_record
        → following ≡ suc appender.next_sequence
        → following < 2 ^ 64
        → Frames appender frame
        → Goal (write_record crc journal_sink appender frame following journal_record synchronize)
    unfolding write_record
    write_record-Appended appender frame following synchronize intact stored one_more fits written =
        let sink : journal_sink.Sink = (journal_sink.write_frame appender.sink frame).0 in
        elim (Option-cases (journal_sink.write_frame appender.sink frame).1) [
          | inl e ↦
              let held : laws.contents sink ≡ laws.contents appender.sink ++ frame =
                laws.write_appends appender.sink frame e in
              rw (write_record, e)
                (if_both Goal synchronize _ _
                  (synchronized-Appended appender sink following frame intact stored one_more fits
                    written held)
                  (advance-Intact appender sink following frame intact one_more fits written held))
          | inr (io_kind, e) ↦
              let (cut, gone, whole, held) = laws.write_cuts appender.sink frame io_kind e in
              rw (write_record, e)
                (poison-Broken appender sink (write_failed io_kind) cut gone intact stored
                  (subst (Frames appender) (sym whole) written) held)
        ]

    pub append_record-Appended :
        (appender : DurableAppender crc journal_sink) (synchronize : Bool)
        → Intact version records appender
        → IsStored version journal_record
        → Goal (append_record crc journal_sink appender journal_record synchronize)
    unfolding append_record Goal
    append_record-Appended appender synchronize intact stored =
        elim (Option-cases (checked_add appender.next_sequence 1)) [
          | inl e ↦ rw (append_record, e) (inl intact)
          | inr (following, e) ↦
              let next : (following ≡ suc appender.next_sequence) × (following < 2 ^ 64) =
                ground (arith, e) in
              elim (Result-cases (
                encode_frame_for_version crc appender.next_sequence journal_record
                  appender.next_sequence appender.schema_version)) [
                    | inl (frame, written) ↦
                        rw (append_record, e, written)
                          (write_record-Appended appender frame following synchronize intact stored
                            next.0 next.1 written)
                    | inr (error, refused) ↦ rw (append_record, e, refused) (inl intact)
                  ]
        ]
