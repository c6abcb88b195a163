-- ===== src/Codec/Inspect.antt =====
-- `inspect_journal` keeps every frame in front of the first that does not decode.
use renamewright.Common.{
  drop-add, ℕ, suc, ◌+◌, ◌≡◌, ◌≢◌, refl, sym, ap, ◌∙◌, subst, List, [], ◌++◌, none, some, err, ok,
  arith, length, take, drop, length-append, append_assoc, append-nil, drop-append, take-append,
}
use renamewright.Codec.{Bytes, Coded, JournalCodecError, frame_header_bytes}
use renamewright.Codec.Cursor.{from_le_bytes}
use renamewright.Codec.Frame.{
  complete_prefix_length, inspect_journal, JournalInspection, prefix_frames, Hasher, JournalFrame,
  slice, decode_frame, decode_loop, decode_journal, complete_prefix_loop,
}
use renamewright.Codec.Local.{IsWhole, slice-before, decode_frame_local}
use renamewright.Codec.Chain.{
  loop_fails_any, Chain, stop, step, Outcome, loop-Outcome, loop_follows, Chain-length,
}
use renamewright.Codec.Failures.{decode_frame-Names}

-- The frame that starts behind `pre`, as `complete_prefix_length` measures it.
prefix_step :
    (count : ℕ) (pre front rest : Bytes)
    → IsWhole front
    → complete_prefix_loop (suc count) (pre ++ (front ++ rest)) (length pre)
      ≡ complete_prefix_loop count (pre ++ (front ++ rest)) (length pre + length front)
unfolding complete_prefix_loop
prefix_step count pre front rest (limit, whole) =
    let total : length (pre ++ (front ++ rest)) ≡ length pre + (length front + length rest) =
      length-append pre (front ++ rest) ∙ ap (λ n. length pre + n) (length-append front rest) in
    let size : from_le_bytes (slice (length pre + 16) 4 (pre ++ (front ++ rest)))
        ≡ from_le_bytes (slice 16 4 front) =
      ap (λ b. from_le_bytes (take 4 b))
        (drop-add (length pre) 16 (pre ++ (front ++ rest))
          ∙ ap (drop 16) (drop-append pre (front ++ rest)))
      ∙ ap from_le_bytes (slice-before 16 4 front rest (omega arith)) in
    let following : length pre + frame_header_bytes + from_le_bytes (slice 16 4 front)
        ≡ length pre + length front =
      omega (arith, whole) in
    rw (size, following, total) (ground (arith, whole, limit))

module _ (crc : Hasher) where
  -- The bytes of a run, that it runs in front of any others, and their length by the headers.
  Chain-front :
      {count : ℕ} {frames last : List JournalFrame} {bytes left : Bytes}
      → Chain crc count frames bytes last left
      → (front : Bytes) × (front ++ left ≡ bytes)
        × ((other : Bytes) → Chain crc count frames (front ++ other) last other)
        × ((pre other : Bytes)
            → complete_prefix_loop count (pre ++ (front ++ other)) (length pre)
              ≡ some (length pre + length front))
  unfolding complete_prefix_loop
  Chain-front stop = ([], refl, λ other. stop, λ pre other. ap some (omega arith))
  Chain-front {frames} {last} {bytes} (step {count} {rest} frame e run) =
      let (first, joined, whole, alone) = decode_frame_local crc frames bytes frame rest e in
      let (front, joined', elsewhere, measured) = Chain-front run in
      (
        first ++ front,
        append_assoc first front _ ∙ ap (λ b. first ++ b) joined' ∙ joined,
        λ other.
            subst (λ b. Chain crc (suc count) frames b last other)
              (sym (append_assoc first front other))
              (step frame (alone (front ++ other)) (elsewhere other)),
        λ pre other.
            subst
              (λ b.
                complete_prefix_loop (suc count) (pre ++ b) (length pre)
                ≡ some (length pre + length (first ++ front)))
              (sym (append_assoc first front other))
              (prefix_step count pre first (front ++ other) whole
                ∙ subst
                    (λ b.
                      complete_prefix_loop count b (length pre + length first)
                      ≡ some (length pre + length (first ++ front)))
                    (append_assoc pre first (front ++ other))
                    (subst
                      (λ n.
                        complete_prefix_loop count ((pre ++ first) ++ (front ++ other)) n
                        ≡ some (length pre + length (first ++ front)))
                      (length-append pre first)
                      (measured (pre ++ first) other
                        ∙ ap some
                            (omega (arith, length-append pre first, length-append first front))))),
      )

  -- The frames of the inspection are a run from the start of the bytes. It ends at the last byte if
  -- there is no issue, and otherwise in front of the frame that fails with the issue, which has its
  -- index.
  abbrev pub LongestPrefix : Bytes → JournalInspection → Type 0
  LongestPrefix bytes inspection = elim inspection.issue [
    | none ↦ Chain crc (length inspection.frames) [] bytes inspection.frames []
    | some error ↦
        (left : Bytes) × Chain crc (length inspection.frames) [] bytes inspection.frames left
        × (left ≢ [])
        × (decode_frame crc inspection.frames left ≡ err error)
        × (error.frame_index ≡ length inspection.frames)
  ]

  prefix_decodes :
      (count : ℕ) (bytes left : Bytes) (last : List JournalFrame)
      → Chain crc count [] bytes last left
      → prefix_frames crc (complete_prefix_length bytes count) bytes ≡ last
  unfolding prefix_frames complete_prefix_length decode_journal
  prefix_decodes count bytes left last run =
      let (front, joined, elsewhere, measured) = Chain-front run in
      let size : complete_prefix_loop count bytes 0 ≡ some (length front) =
        subst (λ b. complete_prefix_loop count b 0 ≡ some (length front)) joined
          (measured [] left ∙ ap some (omega arith)) in
      let cut : take (length front) bytes ≡ front =
        subst (λ b. take (length front) b ≡ front) joined (take-append front left) in
      let alone : Chain crc count [] front last [] =
        subst (λ b. Chain crc count [] b last []) (append-nil front) (elsewhere []) in
      let (remaining, enough, same) = loop_follows crc (length front) (omega arith) alone in
      rw (size, cut, same) refl

  pub inspect_ok :
      (bytes : Bytes) (last : List JournalFrame)
      → decode_journal crc bytes ≡ ok last
      → inspect_journal crc bytes ≡ record { frames = last; issue = none }
  unfolding inspect_journal
  inspect_ok bytes last e = rw (inspect_journal, e) refl

  inspect_err :
      (bytes : Bytes) (error : JournalCodecError)
      → decode_journal crc bytes ≡ err error
      → inspect_journal crc bytes ≡ record {
        frames = prefix_frames crc (complete_prefix_length bytes error.frame_index) bytes;
        issue = some error;
      }
  unfolding inspect_journal
  inspect_err bytes error e = rw (inspect_journal, e) refl

  -- Inspecting any bytes keeps the longest prefix of them that is a run of valid frames, and tells why the
  -- frame behind it, if any, is not valid.
  pub inspect_journal-LongestPrefix :
      (bytes : Bytes) → LongestPrefix bytes (inspect_journal crc bytes)
  unfolding decode_journal Outcome
  inspect_journal-LongestPrefix bytes =
      let (count, outcome) = loop-Outcome crc (length bytes) [] bytes (omega arith) in
      go count (decode_loop crc (length bytes) [] bytes) refl outcome
    where
      go :
          (count : ℕ) (answer : Coded (List JournalFrame))
          → decode_loop crc (length bytes) [] bytes ≡ answer
          → Outcome crc count [] bytes answer
          → LongestPrefix bytes (inspect_journal crc bytes)
      go count (ok last) e run =
          subst (LongestPrefix bytes) (sym (inspect_ok bytes last e)) (
            subst (λ n. Chain crc n [] bytes last []) (sym (Chain-length crc run ∙ omega arith))
              run)
      go count (err error) e (last, left, run, more, failed) =
          let counted : length last ≡ count = Chain-length crc run ∙ omega arith in
          let index : error.frame_index ≡ length last =
            rw failed at (decode_frame-Names crc last left) in
          let kept : prefix_frames crc (complete_prefix_length bytes error.frame_index) bytes
              ≡ last =
            rw (index, counted) (prefix_decodes count bytes left last run) in
          subst (LongestPrefix bytes) (sym (inspect_err bytes error e)) (
            subst (λ fs. LongestPrefix bytes (record { frames = fs; issue = some error }))
              (sym kept)
              (
                left,
                subst (λ n. Chain crc n [] bytes last left) (sym counted) run,
                more,
                failed,
                index,
              ))

  -- A run that stops in front of a frame that fails.
  pub inspect_failed :
      (count : ℕ) (bytes left : Bytes) (last : List JournalFrame) (error : JournalCodecError)
      → Chain crc count [] bytes last left
      → left ≢ []
      → decode_frame crc last left ≡ err error
      → error.frame_index ≡ count
      → inspect_journal crc bytes ≡ record { frames = last; issue = some error }
  unfolding decode_journal
  inspect_failed count bytes left last error run more failed index =
      let (remaining, enough, same) = loop_follows crc (length bytes) (omega arith) run in
      inspect_err bytes error
        (same ∙ loop_fails_any crc remaining last left error enough more failed)
      ∙ ap (λ fs. record { frames = fs; issue = some error })
          (rw index (prefix_decodes count bytes left last run))
