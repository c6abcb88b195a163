-- ===== src/Codec/Fields.antt =====
-- The readers of the fields undo their writers.
use renamewright.Common.{
  true, Bool, ok_injective, usize_max, ltb→lt, ℕ, ◌^◌, ◌<◌, ◌≡◌, refl, sym, subst, [], ◌∷◌, Option,
  none, some,
}
use renamewright.Common.{
  Bool, true, false, ltb→lt, usize_max, err, ok, leb, if◌then◌else◌, arith, >>=-eq-ok, append-nil,
}
use renamewright.Codec.{JournalCodecError, JournalCodecError, Bytes, Coded}
use renamewright.Codec.Cursor.{
  Reader, le_bytes, put_u64, put_usize, put_u32_len, put_optional, read_u8, read_u32, read_u64,
  read_u128, read_usize, read_optional,
}
use renamewright.Codec.Reads.{reads, Reads, Reads-then, Reads-map, read_number-Reads}
use renamewright.Codec.Stored.{IsU64, AllOf}

pub read_u8-Reads :
    (frame_index value : ℕ) → value < 256 → Reads (read_u8 frame_index) (value ∷ []) value
unfolding read_u8
read_u8-Reads frame_index value h =
    subst (λ b. Reads (read_u8 frame_index) (b ∷ []) value) (omega arith)
      (read_number-Reads 1 frame_index value (omega arith))

pub read_u64-Reads :
    (frame_index value : ℕ) → IsU64 value → Reads (read_u64 frame_index) (put_u64 value) value
unfolding read_u64 put_u64
read_u64-Reads frame_index value h = read_number-Reads 8 frame_index value (omega arith)

pub read_u128-Reads :
    (frame_index value : ℕ)
    → value < 2 ^ 128
    → Reads (read_u128 frame_index) (le_bytes 16 value) value
unfolding read_u128
read_u128-Reads frame_index value h = read_number-Reads 16 frame_index value (omega arith)

-- The reader of the value that the test lets through.
pub Reads-if :
    {A : Type 0} {read : Reader A} {bytes : Bytes} {value : A} (other : Reader A) (test : Bool)
    → test ≡ true
    → Reads read bytes value
    → Reads (if test then read else other) bytes value
Reads-if other true e h = h
Reads-if other false e h = cc

-- A writer that tests its value.
pub written_if :
    {bytes other : Bytes} (error : JournalCodecError) (test : Bool)
    → ◌≡◌ {A = Coded Bytes} (if test then ok bytes else err error) (ok other)
    → (test ≡ true) × (bytes ≡ other)
written_if error true e = (refl, ok_injective e)
written_if error false e = cc

pub read_usize-Reads :
    (frame_index value : ℕ) (bytes : Bytes)
    → put_usize value frame_index ≡ ok bytes
    → Reads (read_usize frame_index) bytes value
unfolding read_usize put_usize
read_usize-Reads frame_index value bytes e =
    let (fits, written) = written_if _ _ e in
    let small : value < 2 ^ 64 = ltb→lt value (2 ^ 64) fits in
    rw (sym written, sym (append-nil (put_u64 value)))
      (Reads-then _ (read_u64-Reads frame_index value small)
        (Reads-if _ (leb value usize_max) (ground arith) (reads λ rest. refl)))

pub read_u32-Reads :
    (frame_index value : ℕ) (bytes : Bytes)
    → put_u32_len value frame_index ≡ ok bytes
    → Reads (read_u32 frame_index) bytes value
unfolding read_u32 put_u32_len
read_u32-Reads frame_index value bytes e =
    let (fits, written) = written_if _ _ e in
    let small : value < 2 ^ 32 = ltb→lt value (2 ^ 32) fits in
    rw (sym written) (read_number-Reads 4 frame_index value (omega arith))

-- The tag and the value behind it.
pub read_optional-Reads :
    {A : Type 0} (frame_index : ℕ) (put : A → Coded Bytes) (read : Reader A) (value : Option A)
    (bytes : Bytes)
    → AllOf (λ a. (encoded : Bytes) → put a ≡ ok encoded → Reads read encoded a) value
    → put_optional put value ≡ ok bytes
    → Reads (read_optional frame_index read) bytes value
unfolding read_optional put_optional
read_optional-Reads frame_index put read none bytes h e =
    rw (sym (ok_injective e))
      (Reads-then _ (read_u8-Reads frame_index 0 (omega arith)) (reads λ rest. refl))
read_optional-Reads frame_index put read (some a) bytes h e =
    let (encoded, written, finished) = >>=-eq-ok (put a) (λ b. ok (1 ∷ b)) e in
    rw (sym (ok_injective finished))
      (Reads-then _ (read_u8-Reads frame_index 1 (omega arith)) (Reads-map _ (h encoded written)))

-- A writer that always succeeds, and the reader of what it wrote.
pub ok-Reads :
    {A : Type 0} {read : Reader A} {bytes : Bytes} {value : A}
    → Reads read bytes value
    → (encoded : Bytes) → ◌≡◌ {A = Coded Bytes} (ok bytes) (ok encoded)
    → Reads read encoded value
ok-Reads {read} {value} h encoded e = subst (λ b. Reads read b value) (ok_injective e) h

-- A test that a writer makes before it goes on.
pub admitted_if :
    {A : Type 0} {written : A} (next : Coded A) (error : JournalCodecError) (test : Bool)
    → (if test then next else err error) ≡ ok written
    → (test ≡ true) × (next ≡ ok written)
admitted_if next error true e = (refl, e)
admitted_if next error false e = cc

-- A test that a writer makes before it gives up.
pub refused_if :
    {A : Type 0} {written : A} (next : Coded A) (error : JournalCodecError) (test : Bool)
    → (if test then err error else next) ≡ ok written
    → (test ≡ false) × (next ≡ ok written)
refused_if next error true e = cc
refused_if next error false e = (refl, e)
