-- ===== src/Writer/Reopen.antt =====
-- What a writer that resumes a journal goes on from.
use renamewright.Common.{
  suc, ℕ, ◌^◌, ◌≤◌, ◌<◌, ◌≡◌, refl, sym, ap, subst, List, [], ◌∷◌, none, inl, inr, true, false,
  ◌&&◌, leb, ok, arith, length, All,
}
use renamewright.Execution.Journal.{JournalRecord, JournalStatus}
use renamewright.Execution.Replay.{replay_journal}
use renamewright.Codec.{Bytes, journal_schema_version}
use renamewright.Codec.Frame.{Hasher, JournalFrame, decode_journal}
use renamewright.Codec.Journals.{Encodes, frames_from, decode_journal-Encodes}
use renamewright.Codec.Stored.{IsStored}
use renamewright.Writer.{JournalSink, DurableAppender, resumed_appender}
use renamewright.Writer.Durable.{SinkLaws}
use renamewright.Writer.Crash.{
  Request, Inspects, Written, Written-Inspects, write_journal, write_journal-Written, send_all,
  send_all-Written,
}
use renamewright.Writer.Resume.{
  JournalFile, max_journal_file_bytes, succeeded, or_read_failed, require, read_file, decoded,
  replayed, is_terminal_status, starts_with_authority, records_of, first_version, continue_after,
  resume,
}

records_of-frames_from :
    (version sequence : ℕ) (records : List JournalRecord)
    → records_of (frames_from version sequence records) ≡ records
records_of-frames_from version sequence [] = refl
records_of-frames_from version sequence (first ∷ records) =
    ap (λ rest. first ∷ rest) (records_of-frames_from version (suc sequence) records)

-- The file was opened, locked and read.
abbrev pub IsReadable : JournalFile → Bytes → Type 0
IsReadable file bytes =
    (file.opened ≡ none)
    × (file.locked ≡ none)
    × (size : ℕ) × (file.metadata ≡ ok (true, size))
    × (size ≤ max_journal_file_bytes)
    × (file.content ≡ ok bytes)
    × (length bytes ≤ max_journal_file_bytes)

read_file-IsReadable :
    (file : JournalFile) (bytes : Bytes) → IsReadable file bytes → read_file file ≡ ok bytes
unfolding read_file succeeded or_read_failed require
read_file-IsReadable file bytes (opened, locked, size, metadata, limit, content, small) =
    let fits : leb size max_journal_file_bytes ≡ true = ground (arith, limit) in
    rw (opened, locked, metadata, content, fits) refl

module _ (crc : Hasher) (journal_sink : JournalSink) where
  continues :
      (sink : journal_sink.Sink) (records : List JournalRecord) (version : ℕ)
      (status : JournalStatus)
      → replay_journal records ≡ ok status
      → is_terminal_status status ≡ false
      → continue_after crc journal_sink sink records version
        ≡ ok (resumed_appender crc journal_sink sink (length records) version, records)
  unfolding continue_after replayed
  continues sink records version status replay going =
      rw (continue_after, replayed, replay, going) refl

  decoded_ok :
      (bytes : Bytes) (frames : List JournalFrame)
      → decode_journal crc bytes ≡ ok frames
      → decoded crc bytes ≡ ok frames
  unfolding decoded
  decoded_ok bytes frames e = rw (decoded, e) refl

module _ (crc : Hasher) (bound : (hash : crc.Hash) → crc.finalize hash < 2 ^ 32)
    (journal_sink : JournalSink) where
  -- A readable file of records of a resumable version, with the identities of the parents and no
  -- terminal record, resumes: the writer goes on behind the records, and they are answered.
  pub resume-Encodes :
      (file : JournalFile) (sink : journal_sink.Sink) (version : ℕ) (first : JournalRecord)
      (records : List JournalRecord) (bytes : Bytes) (status : JournalStatus)
      → IsReadable file bytes
      → (5 ≤ version) × (version ≤ 6)
      → length (first ∷ records) ≤ 2 ^ 64
      → All (IsStored version) (first ∷ records)
      → Encodes crc version 0 (first ∷ records) bytes
      → starts_with_authority (first ∷ records) ≡ true
      → replay_journal (first ∷ records) ≡ ok status
      → is_terminal_status status ≡ false
      → resume crc journal_sink file sink
        ≡ ok (
          resumed_appender crc journal_sink sink (length (first ∷ records)) version,
          first ∷ records,
        )
  unfolding resume first_version require
  resume-Encodes file sink version first records bytes status readable (low, high) small stored e
        authority replay going =
      let same : records_of (frames_from version 1 records) ≡ records =
        records_of-frames_from version 1 records in
      let fits : leb (length bytes) max_journal_file_bytes ≡ true = ground (arith, readable.6) in
      let known-Reads : (leb 5 version && leb version 6) ≡ true = ground arith in
      rw
        (
          read_file-IsReadable file bytes readable,
          fits,
          decoded_ok crc journal_sink bytes _ (
              decode_journal-Encodes crc bound version (first ∷ records) bytes (omega arith) small
                stored e),
          known-Reads,
          same,
          authority,
          continues crc journal_sink sink (first ∷ records) version status replay going,
        )
        refl

  resume-records :
      (file : JournalFile) (sink : journal_sink.Sink) (records : List JournalRecord) (bytes : Bytes)
      (status : JournalStatus)
      → IsReadable file bytes
      → length records ≤ 2 ^ 64
      → All (IsStored journal_schema_version) records
      → Encodes crc journal_schema_version 0 records bytes
      → starts_with_authority records ≡ true
      → replay_journal records ≡ ok status
      → is_terminal_status status ≡ false
      → resume crc journal_sink file sink
        ≡ ok (
          resumed_appender crc journal_sink sink (length records) journal_schema_version,
          records,
        )
  unfolding starts_with_authority
  resume-records file sink [] bytes status readable small stored e authority replay going =
      absurd (cc)
  resume-records file sink (first ∷ records) bytes status readable small stored e authority replay
        going =
      resume-Encodes file sink journal_schema_version first records bytes status readable
        (omega arith, omega arith) small stored e authority replay going

  module _ (laws : SinkLaws journal_sink) where
    resumed-Written :
        (reopened : journal_sink.Sink) (records : List JournalRecord)
        (appender : DurableAppender crc journal_sink)
        → appender.poisoned ≡ false
        → laws.contents reopened ≡ laws.contents appender.sink
        → Written crc journal_sink laws journal_schema_version (appender, records)
        → (length records < 2 ^ 64)
          × Encodes crc journal_schema_version 0 records (laws.contents reopened)
          × Written crc journal_sink laws journal_schema_version (
            resumed_appender crc journal_sink reopened (length records) journal_schema_version,
            records,
          )
    unfolding resumed_appender
    resumed-Written reopened records appender healthy same
          (inl (version, sound, next, small, encoded), kept) =
        let holds : Encodes crc journal_schema_version 0 records (laws.contents reopened) =
          subst (Encodes crc journal_schema_version 0 records) (sym same) encoded in
        (small, holds, (inl (refl, refl, refl, small, holds), kept))
    resumed-Written reopened records appender healthy same (inr broken, kept) =
        absurd (cc (healthy, broken.0))

    -- Where the checksum has 32 bits: a journal is written to an empty sink, with any appends, of which none
    -- has failed in its write or sync, and with records whose numbers and names can be stored. Its file is
    -- reopened and can be read, and the accepted records start with the identities of the parents and
    -- replay to a status that is not terminal. Then resuming answers exactly the accepted records; and
    -- after any further appends to the resumed writer, failed ones included, inspecting the file yields
    -- the records of both writers that were accepted, followed by at most one more.
    pub write_journal-resume :
        (sink reopened : journal_sink.Sink) (header : JournalRecord)
        (requests later : List (Request crc journal_sink)) (file : JournalFile)
        (status : JournalStatus)
        → laws.contents sink ≡ []
        → IsStored journal_schema_version header
        → All (λ request. IsStored journal_schema_version request.0) requests
        → All (λ request. IsStored journal_schema_version request.0) later
        → (write_journal crc journal_sink sink header requests).0.poisoned ≡ false
        → laws.contents reopened
          ≡ laws.contents (write_journal crc journal_sink sink header requests).0.sink
        → IsReadable file (laws.contents reopened)
        → starts_with_authority (write_journal crc journal_sink sink header requests).1 ≡ true
        → replay_journal (write_journal crc journal_sink sink header requests).1 ≡ ok status
        → is_terminal_status status ≡ false
        → (resumed : DurableAppender crc journal_sink) × (resume crc journal_sink file reopened
            ≡ ok (resumed, (write_journal crc journal_sink sink header requests).1))
          × Inspects crc journal_sink laws (
              send_all crc journal_sink resumed
                (write_journal crc journal_sink sink header requests).1
                later)
    write_journal-resume sink reopened header requests later file status empty h stored stored_later
          healthy same readable authority replay going =
        let (appender, records) = write_journal crc journal_sink sink header requests in
        let written : Written crc journal_sink laws journal_schema_version
            (write_journal crc journal_sink sink header requests) =
          write_journal-Written crc journal_sink laws sink header requests empty h stored in
        let (small, encoded, again) =
          resumed-Written reopened records appender healthy same written in
        let resumed : DurableAppender crc journal_sink =
          resumed_appender crc journal_sink reopened (length records) journal_schema_version in
        let after : DurableAppender crc journal_sink × List JournalRecord =
          send_all crc journal_sink resumed records later in
        (
          resumed,
          resume-records file reopened records (laws.contents reopened) status readable
              (omega arith) written.1 encoded authority replay going,
          Written-Inspects crc journal_sink laws bound after.0 after.1 (
              send_all-Written crc journal_sink laws journal_schema_version resumed records later
                again stored_later),
        )
