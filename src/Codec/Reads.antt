-- ===== src/Codec/Reads.antt =====
-- What a reader does on bytes that a writer wrote, whatever follows them.
use renamewright.Common.{ℕ, zero, suc, ◌/◌, ◌^◌, ◌≤◌, ◌<◌, ◌≡◌, refl, ap, subst, ◌++◌}
use renamewright.Common.{ok, arith, length, length-append, append_assoc, take-append, drop-append}
use renamewright.Codec.{Bytes}
use renamewright.Codec.Cursor.{
  Reader, pure, ◌>>=◌, le_bytes, from_le_bytes, take_bytes, read_number,
}

-- The reader answers the value and stands behind the bytes.
pub data Reads {A : Type 0} (read : Reader A) (bytes : Bytes) (value : A) : Type 0 where
  reads : ((rest : Bytes) → read (bytes ++ rest) ≡ ok (value, rest)) → Reads read bytes value

pub Reads-on :
    {A : Type 0} {read : Reader A} {bytes : Bytes} {value : A}
    → Reads read bytes value
    → (rest : Bytes) → read (bytes ++ rest) ≡ ok (value, rest)
Reads-on (reads h) = h

-- One reader after another.
pub Reads-then :
    {A B : Type 0} {read : Reader A} {front back : Bytes} {a : A} {b : B} (next : A → Reader B)
    → Reads read front a
    → Reads (next a) back b
    → Reads (read >>= next) (front ++ back) b
unfolding ◌>>=◌
Reads-then {front} {back} next first second = reads λ rest.
    rw (append_assoc front back rest, ◌>>=◌, Reads-on first (back ++ rest)) (Reads-on second rest)

-- A reader whose answer is passed through a function.
pub Reads-map :
    {A B : Type 0} {read : Reader A} {bytes : Bytes} {a : A} (make : A → B)
    → Reads read bytes a
    → Reads (read >>= λ value. pure (make value)) bytes (make a)
unfolding ◌>>=◌
Reads-map make first = reads λ rest. rw (◌>>=◌, Reads-on first rest) refl

-- The same, with the answer by another name.
pub Reads-as :
    {A B : Type 0} {read : Reader A} {bytes : Bytes} {a : A} {b : B} (make : A → B)
    → make a ≡ b
    → Reads read bytes a
    → Reads (read >>= λ value. pure (make value)) bytes b
Reads-as {read} {bytes} make e first = subst (Reads _ bytes) e (Reads-map make first)

length-le_bytes : (width value : ℕ) → length (le_bytes width value) ≡ width
length-le_bytes zero value = refl
length-le_bytes (suc width) value = ap suc (length-le_bytes width (value / 256))

pub from_le_bytes-le_bytes :
    (width value : ℕ) → value < 256 ^ width → from_le_bytes (le_bytes width value) ≡ value
from_le_bytes-le_bytes zero value h = omega arith
from_le_bytes-le_bytes (suc width) value h =
    omega (arith, from_le_bytes-le_bytes width (value / 256) (omega arith))

pub take_bytes-Reads :
    (frame_index : ℕ) (bytes : Bytes) → Reads (take_bytes frame_index (length bytes)) bytes bytes
unfolding take_bytes
take_bytes-Reads frame_index bytes = reads λ rest.
    let fits : length bytes ≤ length (bytes ++ rest) = omega (arith, length-append bytes rest) in
    rw (take-append bytes rest, drop-append bytes rest) (ground arith)

pub read_number-Reads :
    (width frame_index value : ℕ)
    → value < 256 ^ width
    → Reads (read_number width frame_index) (le_bytes width value) value
unfolding read_number
read_number-Reads width frame_index value h =
    let exact : Reads (take_bytes frame_index width) (le_bytes width value) (le_bytes width value) =
      subst (λ n. Reads (take_bytes frame_index n) (le_bytes width value) (le_bytes width value))
        (length-le_bytes width value) (take_bytes-Reads frame_index (le_bytes width value)) in
    subst (λ v. Reads (read_number width frame_index) (le_bytes width value) v)
      (from_le_bytes-le_bytes width value h) (Reads-map from_le_bytes exact)
