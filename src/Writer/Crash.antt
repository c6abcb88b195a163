-- ===== src/Writer/Crash.antt =====
-- A journal that its writer left at any point, after failed writes and syncs too, still yields the
-- records that were accepted.
use renamewright.Common.{
  length-append, ℕ, ◌^◌, ◌≤◌, ◌<◌, ◌≡◌, refl, ap, List, [], ◌∷◌, ◌++◌, ◌⊎◌, inl, inr, Bool, true,
  false, if◌then◌else◌, if_both, err, ok, Result-cases, arith, length, append-nil, All, All-append,
}
use native.Mathlib.Nat.{zero-add}
use renamewright.Execution.Journal.{JournalRecord}
use renamewright.Codec.{Bytes, journal_schema_version}
use renamewright.Codec.Frame.{Hasher, encode_frame_for_version, inspect_journal}
use renamewright.Codec.Journals.{Encodes, frames_from, decode_journal-Encodes}
use renamewright.Codec.Inspect.{inspect_ok}
use renamewright.Codec.Torn.{inspect_journal_torn}
use renamewright.Codec.Stored.{IsStored}
use renamewright.Writer.{
  JournalSink, DurableAppender, Appending, new_appender, append_initial,
  initial_record_has_parent_authority, validate_append, append_validated, append,
  append_buffered_completion, is_completion,
}
use renamewright.Writer.Durable.{
  SinkLaws, Intact, Holds, Goal, append_record-Appended, Encodes-append,
}

module _ (crc : Hasher) (journal_sink : JournalSink) where
  -- A record and whether it goes through `append_buffered_completion`.
  abbrev pub Request : Type 0
  Request = JournalRecord × Bool

  unfoldable pub send : DurableAppender crc journal_sink → Request → Appending crc journal_sink
  send appender (journal_record, buffered) =
      if buffered
      then append_buffered_completion crc journal_sink appender journal_record
      else append crc journal_sink appender journal_record

  -- The appender and the accepted records after one append.
  abbrev pub accepted_after :
      List JournalRecord
      → JournalRecord
      → Appending crc journal_sink
      → DurableAppender crc journal_sink × List JournalRecord
  accepted_after accepted journal_record (appender, ok done) =
      (appender, accepted ++ journal_record ∷ [])
  accepted_after accepted journal_record (appender, err error) = (appender, accepted)

  unfoldable pub send_all :
      DurableAppender crc journal_sink
      → List JournalRecord
      → List Request
      → DurableAppender crc journal_sink × List JournalRecord
  unfolding send
  send_all appender accepted [] = (appender, accepted)
  send_all appender accepted (request ∷ requests) =
      let (next, records) = accepted_after accepted request.0 (send appender request) in
      send_all next records requests

  -- A new journal: `append_initial` on a sink, then the requests.
  unfoldable pub write_journal :
      journal_sink.Sink
      → JournalRecord
      → List Request
      → DurableAppender crc journal_sink × List JournalRecord
  unfolding send_all
  write_journal sink header requests =
      let (next, records) =
        accepted_after [] header
          (append_initial crc journal_sink (new_appender crc journal_sink sink) header) in
      send_all next records requests

  module _ (laws : SinkLaws journal_sink) (version : ℕ) where
    validated-Appended :
        (appender : DurableAppender crc journal_sink) (records : List JournalRecord)
        (journal_record : JournalRecord) (synchronize : Bool)
        → Holds crc journal_sink laws version records appender
        → IsStored version journal_record
        → Goal crc journal_sink laws version records journal_record
            (append_validated crc journal_sink appender journal_record synchronize)
    unfolding append_validated Goal
    validated-Appended appender records journal_record synchronize (inl intact) stored =
        elim (Result-cases (validate_append crc journal_sink appender journal_record)) [
          | inl (done, e) ↦
              rw (append_validated, e)
                (append_record-Appended crc journal_sink laws version records journal_record
                  appender synchronize intact stored)
          | inr (error, e) ↦ rw (append_validated, e) (inl intact)
        ]
    validated-Appended appender records journal_record synchronize (inr broken) stored =
        rw (append_validated, validate_append, broken.0) (inr broken)

    pub send-Appended :
        (appender : DurableAppender crc journal_sink) (records : List JournalRecord)
        (request : Request)
        → Holds crc journal_sink laws version records appender
        → IsStored version request.0
        → Goal crc journal_sink laws version records request.0 (send appender request)
    unfolding send append append_buffered_completion
    send-Appended appender records (journal_record, buffered) holds stored =
        if_both (Goal crc journal_sink laws version records journal_record) buffered _ _
          (if_both (Goal crc journal_sink laws version records journal_record)
            (is_completion journal_record) _ _
            (validated-Appended appender records journal_record false holds stored)
            (validated-Appended appender records journal_record true holds stored))
          (validated-Appended appender records journal_record true holds stored)

    -- The file holds the accepted records, which are all storable.
    abbrev pub Written : DurableAppender crc journal_sink × List JournalRecord → Type 0
    Written (appender, records) =
        Holds crc journal_sink laws version records appender × All (IsStored version) records

    pub after-Written :
        (records : List JournalRecord) (journal_record : JournalRecord)
        (answer : Appending crc journal_sink)
        → All (IsStored version) records
        → IsStored version journal_record
        → Goal crc journal_sink laws version records journal_record answer
        → Written (accepted_after records journal_record answer)
    unfolding Goal
    after-Written records journal_record (appender, ok done) kept h intact =
        (inl intact, All-append _ records (journal_record ∷ []) kept (h, tt))
    after-Written records journal_record (appender, err error) kept h held = (held, kept)

    pub send_all-Written :
        (appender : DurableAppender crc journal_sink) (records : List JournalRecord)
        (requests : List Request)
        → Written (appender, records)
        → All (λ request. IsStored version request.0) requests
        → Written (send_all appender records requests)
    unfolding send_all
    send_all-Written appender records [] written stored = written
    send_all-Written appender records (request ∷ requests) (holds, kept) (h, stored) =
        let after : DurableAppender crc journal_sink × List JournalRecord =
          accepted_after records request.0 (send appender request) in
        let next : Written after =
          after-Written records request.0 (send appender request) kept h
            (send-Appended appender records request holds h) in
        send_all-Written after.0 after.1 requests next stored

  module _ (laws : SinkLaws journal_sink) where
    pub write_journal-Written :
        (sink : journal_sink.Sink) (header : JournalRecord) (requests : List Request)
        → laws.contents sink ≡ []
        → IsStored journal_schema_version header
        → All (λ request. IsStored journal_schema_version request.0) requests
        → Written laws journal_schema_version (write_journal sink header requests)
    unfolding write_journal append_initial new_appender Goal
    write_journal-Written sink header requests empty h stored =
        let started : Intact crc journal_sink laws 6 [] (new_appender crc journal_sink sink) =
          (refl, refl, refl, omega arith, empty) in
        let first : Goal crc journal_sink laws 6 [] header
            (append_initial crc journal_sink (new_appender crc journal_sink sink) header) =
          if_both (Goal crc journal_sink laws 6 [] header)
            (initial_record_has_parent_authority header) _ _
            (append_record-Appended crc journal_sink laws 6 [] header
              (new_appender crc journal_sink sink) true started h)
            (inl started) in
        send_all-Written laws 6 _ _ requests (after-Written laws 6 [] header _ tt h first) stored

    -- The file of an appender yields the records, followed by at most one more.
    abbrev pub Inspects : DurableAppender crc journal_sink × List JournalRecord → Type 0
    Inspects (appender, records) =
        ((inspect_journal crc (laws.contents appender.sink)).frames
          ≡ frames_from journal_schema_version 0 records)
        ⊎ ((next : JournalRecord) × ((inspect_journal crc (laws.contents appender.sink)).frames
              ≡ frames_from journal_schema_version 0 (records ++ next ∷ [])))

    -- What a crash leaves of a file: the frames of these records.
    module _ (bound : (hash : crc.Hash) → crc.finalize hash < 2 ^ 32) where
      Recovers : Bytes → List JournalRecord → Type 0
      Recovers bytes records = (inspect_journal crc bytes).frames ≡ frames_from 6 0 records

      Recovers-encoded :
          (records : List JournalRecord) (bytes : Bytes)
          → length records ≤ 2 ^ 64
          → All (IsStored 6) records
          → Encodes crc 6 0 records bytes
          → Recovers bytes records
      unfolding Recovers
      Recovers-encoded records bytes small stored e =
          ap (λ inspection. inspection.frames)
            (inspect_ok crc bytes (frames_from 6 0 records)
              (decode_journal-Encodes crc bound 6 records bytes (omega arith) small stored e))

      Recovers-cut :
          (records : List JournalRecord) (next : JournalRecord) (bytes cut gone : Bytes)
          → length records < 2 ^ 64
          → All (IsStored 6) records
          → IsStored 6 next
          → Encodes crc 6 0 records bytes
          → encode_frame_for_version crc (length records) next (length records) 6 ≡ ok (cut ++ gone)
          → Recovers (bytes ++ cut) records ⊎ Recovers (bytes ++ cut) (records ++ next ∷ [])
      unfolding Recovers
      Recovers-cut records next bytes [] gone small stored h e written =
          inl (rw (append-nil bytes) (Recovers-encoded records bytes (omega arith) stored e))
      Recovers-cut records next bytes (b ∷ cut) [] small stored h e written = inr (
          Recovers-encoded (records ++ next ∷ []) (bytes ++ (b ∷ cut))
            (omega (arith, length-append records (next ∷ [])))
            (All-append _ records (next ∷ []) stored (h, tt))
            (Encodes-append crc 6 0 records bytes next (b ∷ cut) e
              (rw (zero-add (length records)) (rw (append-nil (b ∷ cut)) at written))))
      Recovers-cut records next bytes (b ∷ cut) (g ∷ gone) small stored h e written =
          inl
            (inspect_journal_torn crc bound 6 records next bytes (b ∷ cut) (g ∷ gone) (omega arith)
              small stored h e written (λ p. cc) (λ p. cc)).0

      pub Written-Inspects :
          (appender : DurableAppender crc journal_sink) (records : List JournalRecord)
          → Written laws journal_schema_version (appender, records)
          → Inspects (appender, records)
      unfolding Recovers
      Written-Inspects appender records (inl (same, sound, count, small, encoded), kept) =
          inl (Recovers-encoded records _ (omega arith) kept encoded)
      Written-Inspects appender records
            (
              inr (poisoned, small, next, bytes, cut, gone, stored_next, encoded, written, held),
              kept,
            ) =
          elim (Recovers-cut records next bytes cut gone small kept stored_next encoded written) [
            | inl r ↦ inl (rw held r)
            | inr r ↦ inr (next, rw held r)
          ]

      -- Where the checksum has 32 bits, for a new journal on an empty sink and records whose numbers and
      -- names can be stored: after any appends, failed ones included, inspecting the file yields the
      -- records that were accepted, followed by at most one more.
      pub write_journal-inspect_journal :
          (sink : journal_sink.Sink) (header : JournalRecord) (requests : List Request)
          → laws.contents sink ≡ []
          → IsStored journal_schema_version header
          → All (λ request. IsStored journal_schema_version request.0) requests
          → ((inspect_journal crc
                (laws.contents (write_journal sink header requests).0.sink)).frames
              ≡ frames_from journal_schema_version 0 (write_journal sink header requests).1)
            ⊎ ((next : JournalRecord) × ((inspect_journal crc
                    (laws.contents (write_journal sink header requests).0.sink)).frames
                  ≡ frames_from journal_schema_version 0
                      ((write_journal sink header requests).1 ++ next ∷ [])))
      write_journal-inspect_journal sink header requests empty h stored =
          Written-Inspects (write_journal sink header requests).0
            (write_journal sink header requests).1
            (write_journal-Written sink header requests empty h stored)
