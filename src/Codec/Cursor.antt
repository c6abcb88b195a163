-- ===== src/Codec/Cursor.antt =====
-- crates/renamewright-platform/src/journal.rs: `PayloadCursor` and the `put_` helpers. The cursor is
-- the bytes from its offset on, so that its end is the empty list; `offset + length` cannot overflow,
-- since a slice is shorter than 2 ^ 63 and a length is at most a `u32`. `usize` has 64 bits.
use renamewright.Common.{ℕ, zero, suc, ◌+◌, ◌*◌, ◌/◌, ◌%◌, ◌^◌, List, [], ◌∷◌, ◌++◌}
use renamewright.Common.{Option, none, some, err, ok, ◌==◌, ltb, leb, if◌then◌else◌}
use renamewright.Common.{usize_max, length, take, drop, ◌>>=◌ as and_then}
use renamewright.Codec.{Bytes, Coded, codec_error, invalid_payload, integer_out_of_range}

abbrev pub Reader : Type 0 → Type 0
Reader A = Bytes → Coded (A × Bytes)

abbrev pub pure : {A : Type 0} → A → Reader A
pure value rest = ok (value, rest)

infixl 5 ◌>>=◌
unfoldable pub ◌>>=◌ : {A B : Type 0} → Reader A → (A → Reader B) → Reader B
◌>>=◌ read next bytes = elim (read bytes) [ err e ↦ err e | ok (value, rest) ↦ next value rest ]

-- `to_le_bytes` of a number of `width` bytes, and `from_le_bytes`.
abbrev pub le_bytes : ℕ → ℕ → Bytes
le_bytes zero value = []
le_bytes (suc width) value = value % 256 ∷ le_bytes width (value / 256)

abbrev pub from_le_bytes : Bytes → ℕ
from_le_bytes [] = 0
from_le_bytes (b ∷ bs) = b + 256 * from_le_bytes bs

-- `bytes.get(offset..offset + length)`.
unfoldable pub take_bytes : ℕ → ℕ → Reader Bytes
take_bytes frame_index count bytes =
    if leb count (length bytes)
    then ok (take count bytes, drop count bytes)
    else codec_error frame_index invalid_payload

unfoldable pub read_number : ℕ → ℕ → Reader ℕ
read_number width frame_index = do bytes ← take_bytes frame_index width; pure (from_le_bytes bytes)

unfoldable pub read_u8 : ℕ → Reader ℕ
read_u8 = read_number 1

unfoldable pub read_u32 : ℕ → Reader ℕ
read_u32 = read_number 4

unfoldable pub read_u64 : ℕ → Reader ℕ
read_u64 = read_number 8

unfoldable pub read_u128 : ℕ → Reader ℕ
read_u128 = read_number 16

unfoldable pub read_usize : ℕ → Reader ℕ
read_usize frame_index = do
  value ← read_u64 frame_index
  if leb value usize_max then pure value else λ rest. codec_error frame_index integer_out_of_range

-- `PayloadCursor::finish`.
unfoldable pub finish : ℕ → Bytes → Coded (Unit {0})
finish frame_index [] = ok tt
finish frame_index (b ∷ bs) = codec_error frame_index invalid_payload

-- The bytes of successive writes.
abbrev pub join : List Bytes → Bytes
join [] = []
join (part ∷ []) = part
join (part ∷ second ∷ parts) = part ++ join (second ∷ parts)

unfoldable pub put_u64 : ℕ → Bytes
put_u64 value = le_bytes 8 value

unfoldable pub put_usize : ℕ → ℕ → Coded Bytes
unfolding put_u64
put_usize value frame_index =
    if ltb value (2 ^ 64) then ok (put_u64 value) else codec_error frame_index integer_out_of_range

unfoldable pub put_u32_len : ℕ → ℕ → Coded Bytes
put_u32_len value frame_index =
    if ltb value (2 ^ 32)
    then ok (le_bytes 4 value)
    else codec_error frame_index integer_out_of_range

-- A one-byte tag, then the value if there is one.
unfoldable pub put_optional : {A : Type 0} → (A → Coded Bytes) → Option A → Coded Bytes
put_optional put none = ok (0 ∷ [])
put_optional put (some value) = and_then (put value) λ bytes. ok (1 ∷ bytes)

unfoldable pub read_optional : {A : Type 0} → ℕ → Reader A → Reader (Option A)
read_optional frame_index read = do
  tag ← read_u8 frame_index
  if tag == 0 then pure none else if tag == 1 then (do value ← read; pure (some value)) else λ rest.
      codec_error frame_index invalid_payload
