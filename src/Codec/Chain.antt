-- ===== src/Codec/Chain.antt =====
-- The loop of `decode_journal` as a relation: a run of frames from the front of the bytes.
use renamewright.Common.{
  ◌≢◌, ℕ, zero, suc, ◌+◌, ◌≤◌, ◌<◌, ◌≡◌, refl, ap, ◌∙◌, List, [], ◌∷◌, ◌++◌, inl, inr, err, ok,
  Result-cases, arith, length, length-append,
}
use renamewright.Codec.{Bytes, Coded, JournalCodecError}
use renamewright.Codec.Frame.{Hasher, JournalFrame, decode_frame, decode_loop}
use renamewright.Codec.Local.{decode_frame_local}

module _ (crc : Hasher) where
  -- From these frames and bytes, so many rounds of the loop lead to those.
  pub data Chain : ℕ → List JournalFrame → Bytes → List JournalFrame → Bytes → Type 0 where
    stop : {frames : List JournalFrame} {bytes : Bytes} → Chain zero frames bytes frames bytes
    step :
        {count : ℕ} {frames last : List JournalFrame} {bytes rest left : Bytes}
        (frame : JournalFrame)
        → decode_frame crc frames bytes ≡ ok (frame, rest)
        → Chain count (frames ++ frame ∷ []) rest last left
        → Chain (suc count) frames bytes last left

  frame_shorter :
      (frames : List JournalFrame) (bytes : Bytes) (frame : JournalFrame) (rest : Bytes)
      → decode_frame crc frames bytes ≡ ok (frame, rest)
      → length rest < length bytes
  frame_shorter frames bytes frame rest e =
      let (front, joined, whole, elsewhere) = decode_frame_local crc frames bytes frame rest e in
      omega (arith, whole.1, ap length joined, length-append front rest)

  -- What the loop answers on enough fuel, and the run that it has made.
  unfoldable pub Outcome : ℕ → List JournalFrame → Bytes → Coded (List JournalFrame) → Type 0
  Outcome count frames bytes (ok last) = Chain count frames bytes last []
  Outcome count frames bytes (err error) =
      (last : List JournalFrame) × (left : Bytes) × Chain count frames bytes last left
      × (left ≢ [])
      × (decode_frame crc last left ≡ err error)

  loop_step :
      (fuel : ℕ) (frames : List JournalFrame) (bytes : Bytes) (frame : JournalFrame) (rest : Bytes)
      → bytes ≢ []
      → decode_frame crc frames bytes ≡ ok (frame, rest)
      → decode_loop crc (suc fuel) frames bytes ≡ decode_loop crc fuel (frames ++ frame ∷ []) rest
  unfolding decode_loop
  loop_step fuel frames [] frame rest h e = absurd (h refl)
  loop_step fuel frames (b ∷ bytes) frame rest h e = rw e refl

  loop_fails :
      (fuel : ℕ) (frames : List JournalFrame) (bytes : Bytes) (error : JournalCodecError)
      → bytes ≢ []
      → decode_frame crc frames bytes ≡ err error
      → decode_loop crc (suc fuel) frames bytes ≡ err error
  unfolding decode_loop
  loop_fails fuel frames [] error h e = absurd (h refl)
  loop_fails fuel frames (b ∷ bytes) error h e = rw e refl

  pub loop_done :
      (fuel : ℕ) (frames : List JournalFrame) → decode_loop crc fuel frames [] ≡ ok frames
  unfolding decode_loop
  loop_done zero frames = refl
  loop_done (suc fuel) frames = refl

  -- On enough fuel the loop ends at the end of the bytes or at the first frame that fails.
  pub loop-Outcome :
      (fuel : ℕ) (frames : List JournalFrame) (bytes : Bytes)
      → length bytes ≤ fuel
      → (count : ℕ) × Outcome count frames bytes (decode_loop crc fuel frames bytes)
  unfolding Outcome
  loop-Outcome fuel frames [] h = (zero, rw (loop_done fuel frames) stop)
  loop-Outcome zero frames (b ∷ bytes) h = absurd (omega arith)
  loop-Outcome (suc fuel) frames (b ∷ bytes) h =
      let some_bytes : (b ∷ bytes) ≢ [] = λ e. cc in
      elim (Result-cases (decode_frame crc frames (b ∷ bytes))) [
        | inl ((frame, rest), e) ↦
            let shorter : length rest < length (b ∷ bytes) =
              frame_shorter frames (b ∷ bytes) frame rest e in
            let (count, outcome) = loop-Outcome fuel (frames ++ frame ∷ []) rest (omega arith) in
            (
              suc count,
              rw (loop_step fuel frames (b ∷ bytes) frame rest some_bytes e)
                  (one_more count frames (b ∷ bytes) frame rest _ e outcome),
            )
        | inr (error, e) ↦ (
          zero,
          rw (loop_fails fuel frames (b ∷ bytes) error some_bytes e)
              (frames, b ∷ bytes, stop, some_bytes, e),
        )
      ]
    where
      one_more :
          (count : ℕ) (fs : List JournalFrame) (bs : Bytes) (frame : JournalFrame) (rest : Bytes)
          (answer : Coded (List JournalFrame))
          → decode_frame crc fs bs ≡ ok (frame, rest)
          → Outcome count (fs ++ frame ∷ []) rest answer
          → Outcome (suc count) fs bs answer
      one_more count fs bs frame rest (ok last) e o = step frame e o
      one_more count fs bs frame rest (err error) e (last, left, run, more, failed) =
          (last, left, step frame e run, more, failed)

  pub Chain-length :
      {count : ℕ} {frames last : List JournalFrame} {bytes left : Bytes}
      → Chain count frames bytes last left
      → length last ≡ length frames + count
  Chain-length stop = omega arith
  Chain-length (step {frames} frame e run) =
      omega (arith, Chain-length run, length-append frames (frame ∷ []))

  -- The loop follows every run.
  pub loop_follows :
      {count : ℕ} {frames last : List JournalFrame} {bytes left : Bytes} (fuel : ℕ)
      → length bytes ≤ fuel
      → Chain count frames bytes last left
      → (remaining : ℕ) × (length left ≤ remaining)
        × (decode_loop crc fuel frames bytes ≡ decode_loop crc remaining last left)
  loop_follows fuel h stop = (fuel, h, refl)
  loop_follows {frames} {bytes} zero h (step {rest} frame e run) =
      absurd (omega (arith, frame_shorter frames bytes frame rest e))
  loop_follows {frames} {bytes} (suc fuel) h (step {rest} frame e run) =
      let shorter : length rest < length bytes = frame_shorter frames bytes frame rest e in
      let some_bytes : bytes ≢ [] = λ empty. omega (arith, ap length empty) in
      let (remaining, enough, same) = loop_follows fuel (omega arith) run in
      (remaining, enough, loop_step fuel frames bytes frame rest some_bytes e ∙ same)

  pub loop_fails_any :
      (fuel : ℕ) (frames : List JournalFrame) (bytes : Bytes) (error : JournalCodecError)
      → length bytes ≤ fuel
      → bytes ≢ []
      → decode_frame crc frames bytes ≡ err error
      → decode_loop crc fuel frames bytes ≡ err error
  loop_fails_any fuel frames [] error h more e = absurd (more refl)
  loop_fails_any zero frames (b ∷ bytes) error h more e = absurd (omega arith)
  loop_fails_any (suc fuel) frames (b ∷ bytes) error h more e =
      loop_fails fuel frames (b ∷ bytes) error more e
