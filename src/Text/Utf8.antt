-- ===== src/Text/Utf8.antt =====
-- `OsString::from_vec` on Unix: the chunks of a byte string. A chunk is a character or the bytes that
-- begin no character, as far as they could have begun one.
use renamewright.Common.{
  if_cases, ℕ, zero, suc, ◌+◌, ◌-◌, ◌*◌, ◌≤◌, ◌<◌, ◌≡◌, refl, ap, List, [], ◌∷◌, ◌++◌,
}
use renamewright.Common.{Bool, true, ◌&&◌, ltb, leb, ◌==◌, if◌then◌else◌, arith, length}
use renamewright.Text.{OsUnit, scalar, raw, OsString, unit_bytes, char_bytes, os_bytes}

abbrev within : ℕ → ℕ → ℕ → Bool
within low high b = leb low b && leb b high

abbrev continues : ℕ → Bool
continues b = within 0x80 0xbf b

-- The second bytes that may follow a leading byte of three or four.
abbrev is_second : ℕ → ℕ → Bool
is_second lead b =
    if lead == 0xe0
    then within 0xa0 0xbf b
    else if lead == 0xed
    then within 0x80 0x9f b
    else if lead == 0xf0
    then within 0x90 0xbf b
    else if lead == 0xf4
    then within 0x80 0x8f b
    else continues b

abbrev unit_of_two : ℕ → List ℕ → OsUnit × List ℕ
unit_of_two a [] = (raw (a ∷ []), [])
unit_of_two a (b ∷ rest) =
    if continues b then (scalar ((a - 0xc0) * 64 + (b - 0x80)), rest) else (raw (a ∷ []), b ∷ rest)

abbrev unit_of_three : ℕ → List ℕ → OsUnit × List ℕ
unit_of_three a [] = (raw (a ∷ []), [])
unit_of_three a (b ∷ []) = if is_second a b then (raw (a ∷ b ∷ []), []) else (raw (a ∷ []), b ∷ [])
unit_of_three a (b ∷ c ∷ rest) =
    if is_second a b
    then (if continues c
        then (scalar ((a - 0xe0) * 4096 + (b - 0x80) * 64 + (c - 0x80)), rest)
        else (raw (a ∷ b ∷ []), c ∷ rest))
    else (raw (a ∷ []), b ∷ c ∷ rest)

abbrev unit_of_four : ℕ → List ℕ → OsUnit × List ℕ
unit_of_four a [] = (raw (a ∷ []), [])
unit_of_four a (b ∷ []) = if is_second a b then (raw (a ∷ b ∷ []), []) else (raw (a ∷ []), b ∷ [])
unit_of_four a (b ∷ c ∷ []) =
    if is_second a b
    then (if continues c then (raw (a ∷ b ∷ c ∷ []), []) else (raw (a ∷ b ∷ []), c ∷ []))
    else (raw (a ∷ []), b ∷ c ∷ [])
unit_of_four a (b ∷ c ∷ d ∷ rest) =
    if is_second a b
    then (if continues c
        then (if continues d
            then (
              scalar ((a - 0xf0) * 262144 + (b - 0x80) * 4096 + (c - 0x80) * 64 + (d - 0x80)),
              rest,
            )
            else (raw (a ∷ b ∷ c ∷ []), d ∷ rest))
        else (raw (a ∷ b ∷ []), c ∷ d ∷ rest))
    else (raw (a ∷ []), b ∷ c ∷ d ∷ rest)

-- The first chunk and the bytes behind it.
unfoldable pub next_unit : ℕ → List ℕ → OsUnit × List ℕ
next_unit a rest =
    if ltb a 0x80
    then (scalar a, rest)
    else if within 0xc2 0xdf a
    then unit_of_two a rest
    else if within 0xe0 0xef a
    then unit_of_three a rest
    else if within 0xf0 0xf4 a
    then unit_of_four a rest
    else (raw (a ∷ []), rest)

unfoldable pub from_vec_loop : ℕ → List ℕ → OsString
unfolding next_unit
from_vec_loop zero bytes = []
from_vec_loop (suc fuel) [] = []
from_vec_loop (suc fuel) (a ∷ rest) =
    let (unit, after) = next_unit a rest in unit ∷ from_vec_loop fuel after

unfoldable pub from_vec : List ℕ → OsString
unfolding from_vec_loop
from_vec bytes = from_vec_loop (length bytes) bytes

abbrev Splits : List ℕ → OsUnit × List ℕ → Type 0
Splits bytes (unit, after) = (unit_bytes unit ++ after ≡ bytes) × (length after < length bytes)

two-Splits :
    (a : ℕ) (rest : List ℕ) → within 0xc2 0xdf a ≡ true → Splits (a ∷ rest) (unit_of_two a rest)
two-Splits a [] h = ground arith
two-Splits a (b ∷ rest) h = ground arith

three-Splits :
    (a : ℕ) (rest : List ℕ) → within 0xe0 0xef a ≡ true → Splits (a ∷ rest) (unit_of_three a rest)
three-Splits a [] h = ground arith
three-Splits a (b ∷ []) h = ground arith
three-Splits a (b ∷ c ∷ rest) h = ground arith

char_four :
    (a b c d : ℕ)
    → within 0xf0 0xf4 a ≡ true
    → is_second a b ≡ true
    → continues c ≡ true
    → continues d ≡ true
    → char_bytes ((a - 0xf0) * 262144 + (b - 0x80) * 4096 + (c - 0x80) * 64 + (d - 0x80))
      ≡ a ∷ b ∷ c ∷ d ∷ []
char_four a b c d first second third fourth =
    let bounds : (0x80 ≤ b) × (b ≤ 0xbf) × (a ≡ 0xf0 → 0x90 ≤ b) = ground arith in ground arith

four-Splits :
    (a : ℕ) (rest : List ℕ) → within 0xf0 0xf4 a ≡ true → Splits (a ∷ rest) (unit_of_four a rest)
four-Splits a [] h = ground arith
four-Splits a (b ∷ []) h = ground arith
four-Splits a (b ∷ c ∷ []) h = ground arith
four-Splits a (b ∷ c ∷ d ∷ rest) h =
    let P : OsUnit × List ℕ → Type 0 = Splits (a ∷ b ∷ c ∷ d ∷ rest) in
    if_cases P (is_second a b) _ _
      (λ second.
        if_cases P (continues c) _ _
          (λ third.
            if_cases P (continues d) _ _
              (λ fourth.
                (ap (λ l. l ++ rest) (char_four a b c d h second third fourth), omega arith))
              (λ _. (refl, omega arith)))
          (λ _. (refl, omega arith)))
      (λ _. (refl, omega arith))

next-Splits : (a : ℕ) (rest : List ℕ) → Splits (a ∷ rest) (next_unit a rest)
unfolding next_unit
next-Splits a rest = ground (arith, two-Splits a rest, three-Splits a rest, four-Splits a rest)

loop_bytes :
    (fuel : ℕ) (bytes : List ℕ) → length bytes ≤ fuel → os_bytes (from_vec_loop fuel bytes) ≡ bytes
unfolding from_vec_loop os_bytes
loop_bytes zero [] h = refl
loop_bytes zero (b ∷ bytes) h = absurd (omega arith)
loop_bytes (suc fuel) [] h = refl
loop_bytes (suc fuel) (a ∷ rest) h =
    let (joined, shorter) = next-Splits a rest in
    rw (loop_bytes fuel (next_unit a rest).1 (omega arith)) joined

-- The chunks of a byte string hold its bytes.
pub os_bytes-from_vec : (bytes : List ℕ) → os_bytes (from_vec bytes) ≡ bytes
unfolding from_vec
os_bytes-from_vec bytes = loop_bytes (length bytes) bytes (omega arith)
