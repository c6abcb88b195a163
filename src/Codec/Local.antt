-- ===== src/Codec/Local.antt =====
-- A frame decodes by its own bytes: those that follow it do not matter.
use renamewright.Common.{
  ap₂, ℕ, ◌+◌, ◌≤◌, ◌≡◌, sym, ap, ◌∙◌, subst, List, [], ◌∷◌, ◌++◌, ok, arith, length, take, drop,
  take-append-drop, length-append, drop-append, drop-before, take-before, length-drop, length-take,
}
use renamewright.Execution.Journal.{JournalRecord}
use renamewright.Codec.{Bytes, max_journal_payload_bytes, frame_header_bytes}
use renamewright.Codec.Record.{decode_record}
use renamewright.Codec.Cursor.{from_le_bytes}
use renamewright.Codec.Frame.{crc32_parts, Hasher, JournalFrame, slice, decode_frame}
use renamewright.Codec.Passes.{Passes, decode_frame-Passes, Passes-decode_frame}

-- The front is one frame by the length in its header.
abbrev pub IsWhole : Bytes → Type 0
IsWhole front =
    (from_le_bytes (slice 16 4 front) ≤ max_journal_payload_bytes)
    × (frame_header_bytes + from_le_bytes (slice 16 4 front) ≡ length front)

pub slice-before :
    (first count : ℕ) (front rest : Bytes)
    → first + count ≤ length front
    → slice first count (front ++ rest) ≡ slice first count front
slice-before first count front rest h = rw (drop-before first front rest (omega arith)) (
    take-before count (drop first front) rest
      (omega (arith, length-drop first front (omega arith))))

module _ (crc : Hasher) (frames : List JournalFrame) where
  Passes-elsewhere :
      (front rest other : Bytes) (version kind size : ℕ) (journal_record : JournalRecord)
      → frame_header_bytes + size ≡ length front
      → Passes crc frames (front ++ rest) version kind size journal_record
      → Passes crc frames (front ++ other) version kind size journal_record
  Passes-elsewhere front rest other version kind size journal_record whole
        (long, starts, v, range, agreed, k, f, s, l, limit, sum, decoded) =
      let same : (first count : ℕ)
          → first + count ≤ length front
          → slice first count (front ++ rest) ≡ slice first count (front ++ other) =
        λ first count h.
          slice-before first count front rest h ∙ sym (slice-before first count front other h) in
      let number : (first count : ℕ)
          → first + count ≤ length front
          → from_le_bytes (slice first count (front ++ other))
            ≡ from_le_bytes (slice first count (front ++ rest)) =
        λ first count h. ap from_le_bytes (sym (same first count h)) in
      let parts : (slice 4 16 (front ++ rest) ≡ slice 4 16 (front ++ other))
          × (slice frame_header_bytes size (front ++ rest)
              ≡ slice frame_header_bytes size (front ++ other)) =
        (same 4 16 (omega arith), same 24 size (omega arith)) in
      (
        omega (arith, length-append front other),
        sym (same 0 4 (omega arith)) ∙ starts,
        number 4 2 (omega arith) ∙ v,
        range,
        agreed,
        number 6 1 (omega arith) ∙ k,
        number 7 1 (omega arith) ∙ f,
        number 8 8 (omega arith) ∙ s,
        number 16 4 (omega arith) ∙ l,
        limit,
        number 20 4 (omega arith)
            ∙ subst
                (λ p.
                  from_le_bytes (slice 20 4 (front ++ rest))
                  ≡ crc32_parts crc (slice 4 16 (front ++ other) ∷ p ∷ []))
                (parts.1)
                (subst
                  (λ p.
                    from_le_bytes (slice 20 4 (front ++ rest))
                    ≡ crc32_parts crc (p ∷ slice 24 size (front ++ rest) ∷ []))
                  parts.0 sum),
        subst (λ p. decode_record kind p (length frames) version ≡ ok journal_record) parts.1
            decoded,
      )

  -- The bytes of a frame that decodes, and that it decodes in front of any others.
  pub decode_frame_local :
      (bytes : Bytes) (frame : JournalFrame) (rest : Bytes)
      → decode_frame crc frames bytes ≡ ok (frame, rest)
      → (front : Bytes) × (front ++ rest ≡ bytes)
        × IsWhole front
        × ((other : Bytes) → decode_frame crc frames (front ++ other) ≡ ok (frame, other))
  decode_frame_local bytes frame rest e =
      let (version, kind, size, journal_record, passed, made, left) =
        Passes-decode_frame crc frames bytes frame rest e in
      let front : Bytes = take (frame_header_bytes + size) bytes in
      let joined : front ++ rest ≡ bytes =
        ap (λ r. front ++ r) (sym left) ∙ take-append-drop (frame_header_bytes + size) bytes in
      let long : length front ≡ frame_header_bytes + size =
        length-take (frame_header_bytes + size) bytes passed.0 in
      let passed' : Passes crc frames (front ++ rest) version kind size journal_record =
        subst (λ b. Passes crc frames b version kind size journal_record) (sym joined) passed in
      let sized : from_le_bytes (slice 16 4 front) ≡ size =
        ap from_le_bytes (sym (slice-before 16 4 front rest (omega arith))) ∙ passed'.8 in
      (
        front,
        joined,
        (rw sized (passed.9), rw sized (sym long)),
        λ other.
            decode_frame-Passes crc frames (front ++ other) version kind size journal_record (
              Passes-elsewhere front rest other version kind size journal_record (sym long) passed')
            ∙ ap₂ (λ f r. ok (f, r)) made
                (subst (λ n. drop n (front ++ other) ≡ other) long (drop-append front other)),
      )
