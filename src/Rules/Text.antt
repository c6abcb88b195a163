-- ===== src/Rules/Text.antt =====
-- crates/renamewright-core/src/rules.rs: the operations on text. Positions in a text count its
-- characters, where the source counts bytes up to the same character boundary.
use renamewright.Common.{
  ℕ, zero, suc, ◌+◌, ◌-◌, min, Bool, true, false, ◌&&◌, ◌||◌, not, Option, none, some, List, [],
  ◌∷◌, ◌++◌, ◌==◌, ltb, leb, if◌then◌else◌, length, is_empty, take, drop, checked_add,
  saturating_add, ok, err, ◌>>=◌,
}
use renamewright.Text.{
  Str, OsString, scalar, raw, from_str, to_str, str_len, strip_prefix, rsplit_once,
}
use renamewright.Rules.Types.{
  max_rule_output_bytes, FilenamePart, whole_name, stem, extension, ExtensionOperation,
  drop_extension, replace_with, RangeOperation, keep_range, remove_range, RangeOrigin, from_start,
  from_end, CharacterClassOperation, keep_class, remove_class, Span, Applied, unsupported_encoding,
  output_too_long,
}

-- The new output, `String` being passed by `&mut`.
unfoldable pub append_bounded : Str → Str → Applied Str
append_bounded output value = elim (checked_add (str_len output) (str_len value)) [
  | none ↦ err output_too_long
  | some next_len ↦
      if ltb max_rule_output_bytes next_len then err output_too_long else ok (output ++ value)
]

-- `&text[start..end]`.
abbrev pub slice : Str → ℕ → ℕ → Str
slice text start end = take (end - start) (drop start text)

abbrev pub is_prefix : Str → Str → Bool
is_prefix prefix text = elim (strip_prefix prefix text) [ none ↦ false | some rest ↦ true ]

-- `str::match_indices`: the positions of the non-overlapping matches from the left. `skip`
-- characters still belong to the last match.
unfoldable pub match_indices_from : Str → ℕ → ℕ → Str → List ℕ
unfolding strip_prefix
match_indices_from search (suc skip) offset [] = []
match_indices_from search zero offset [] = if is_empty search then offset ∷ [] else []
match_indices_from search (suc skip) offset (c ∷ text) =
    match_indices_from search skip (suc offset) text
match_indices_from search zero offset (c ∷ text) =
    if is_prefix search (c ∷ text)
    then offset ∷ match_indices_from search (length search - 1) (suc offset) text
    else match_indices_from search zero (suc offset) text

unfoldable pub match_indices : Str → Str → List ℕ
unfolding match_indices_from
match_indices text search = match_indices_from search 0 0 text

unfoldable pub replace_literal_loop : Str → Str → Str → Str → ℕ → List ℕ → Applied Str
replace_literal_loop input search replacement output consumed [] =
    append_bounded output (drop consumed input)
replace_literal_loop input search replacement output consumed (offset ∷ offsets) = do
  before ← append_bounded output (slice input consumed offset)
  replaced ← append_bounded before replacement
  replace_literal_loop input search replacement replaced (offset + length search) offsets

unfoldable pub replace_literal_bounded : Str → Str → Str → Applied OsString
unfolding match_indices replace_literal_loop
replace_literal_bounded input search replacement = do
  output ← replace_literal_loop input search replacement [] 0 (match_indices input search)
  ok (from_str output)

-- `char::is_whitespace`: the property White_Space.
unfoldable pub is_whitespace : ℕ → Bool
is_whitespace c =
    leb 0x9 c && leb c 0xd
    || c == 0x20
    || c == 0x85
    || c == 0xa0
    || c == 0x1680
    || leb 0x2000 c && leb c 0x200a
    || c == 0x2028
    || c == 0x2029
    || c == 0x202f
    || c == 0x205f
    || c == 0x3000

unfoldable pub cleanup_loop : Str → Str → Bool → Str → Str
cleanup_loop replacement result pending [] = result
cleanup_loop replacement result pending (c ∷ text) =
    if is_whitespace c
    then cleanup_loop replacement result (not (is_empty result)) text
    else cleanup_loop replacement ((if pending then result ++ replacement else result) ++ c ∷ [])
        false text

unfoldable pub cleanup_whitespace : Str → Str → Str
unfolding cleanup_loop is_whitespace
cleanup_whitespace text replacement = cleanup_loop replacement [] false text

abbrev pub saturating_end : Option ℕ → ℕ → ℕ → ℕ
saturating_end none start count = count
saturating_end (some len) start count = min (saturating_add start len) count

abbrev pub saturating_start : Option ℕ → ℕ → ℕ
saturating_start none end = 0
saturating_start (some len) end = end - len

-- The start and the end of the range, as `apply_range` computes them.
unfoldable pub range_bounds : RangeOrigin → ℕ → Option ℕ → ℕ → ℕ × ℕ
range_bounds from_start offset len count =
    let start = min offset count in (start, saturating_end len start count)
range_bounds from_end offset len count = let end = count - offset in (saturating_start len end, end)

-- `character_byte_offset`: the position of a character, or the end of the text.
abbrev pub character_offset : Str → ℕ → ℕ
character_offset text index = min index (length text)

unfoldable pub apply_range : Str → RangeOperation → RangeOrigin → ℕ → Option ℕ → Str
unfolding range_bounds
apply_range text operation origin offset len =
    let (first, last) = range_bounds origin offset len (length text) in
    let start = character_offset text first in
    let end = character_offset text last in
    elim operation [
      | keep_range ↦ slice text start end
      | remove_range ↦ take start text ++ drop end text
    ]

unfoldable pub character_class_loop : Str → CharacterClassOperation → Str → ℕ → List Span → Str
character_class_loop text keep_class result previous [] = result
character_class_loop text remove_class result previous [] = result ++ drop previous text
character_class_loop text keep_class result previous (m ∷ ms) =
    character_class_loop text keep_class (result ++ slice text m.start m.end) m.end ms
character_class_loop text remove_class result previous (m ∷ ms) =
    character_class_loop text remove_class (result ++ slice text previous m.start) m.end ms

-- The part before the last dot and the part behind it, where the dot is not the first character.
abbrev pub final_dot : Str → Option (Str × Str)
final_dot name = elim (rsplit_once b'.' name) [
  | none ↦ none
  | some (before, after) ↦ if is_empty before then none else some (before, after)
]

unfoldable pub transform_filename_part : Str → FilenamePart → (Str → Str) → Str
unfolding rsplit_once
transform_filename_part name whole_name transform = transform name
transform_filename_part name stem transform = elim (final_dot name) [
  | none ↦ transform name
  | some (before, after) ↦ transform before ++ (b'.' ∷ after)
]
transform_filename_part name extension transform = elim (final_dot name) [
  | none ↦ name
  | some (before, after) ↦ before ++ (b'.' ∷ transform after)
]

unfoldable pub apply_unicode_part : OsString → FilenamePart → (Str → Str) → Applied OsString
unfolding transform_filename_part to_str
apply_unicode_part name target transform = elim (to_str name) [
  | none ↦ err unsupported_encoding
  | some text ↦ ok (from_str (transform_filename_part text target transform))
]

-- `stem_before_final_dot` on the units of the name: what stands before the last dot, if the dot is
-- not the first unit.
unfoldable pub before_last_dot : OsString → Option OsString
before_last_dot [] = none
before_last_dot (raw bytes ∷ name) = elim (before_last_dot name) [
  | none ↦ none
  | some before ↦ some (raw bytes ∷ before)
]
before_last_dot (scalar c ∷ name) = elim (before_last_dot name) [
  | none ↦ if c == b'.' then some [] else none
  | some before ↦ some (scalar c ∷ before)
]

unfoldable pub stem_before_final_dot : OsString → Option OsString
unfolding before_last_dot
stem_before_final_dot name = elim (before_last_dot name) [
  | none ↦ none
  | some before ↦ if is_empty before then none else some before
]

abbrev pub dot_and : Str → OsString
dot_and value = scalar b'.' ∷ from_str value

unfoldable pub apply_extension : OsString → ExtensionOperation → OsString
unfolding stem_before_final_dot
apply_extension name drop_extension = elim (stem_before_final_dot name) [
  | none ↦ name
  | some before ↦ before
]
apply_extension name (replace_with value) = elim (stem_before_final_dot name) [
  | none ↦ name ++ dot_and value
  | some before ↦ before ++ dot_and value
]
