-- ===== src/Rules/Parts.antt =====
-- Ranges, filename parts and extensions: which part of a name each operation touches.
use renamewright.Common.{
  ℕ, ◌+◌, ◌-◌, ◌≤◌, ◌≡◌, ◌≢◌, refl, ap₂, false, Option, none, some, [], ◌∷◌, ◌++◌, append_assoc,
  arith, length, length-append, is_empty, drop, min, All, usize_max, drop-append, take-append,
}
use renamewright.Text.{Str, OsString, scalar, raw, from_str, rsplit_once}
use renamewright.Rules.Types.{
  stem, extension, drop_extension, replace_with, keep_range, remove_range, RangeOrigin, from_start,
  from_end,
}
use renamewright.Rules.Text.{
  character_offset, slice, range_bounds, apply_range, transform_filename_part, before_last_dot,
  stem_before_final_dot, apply_extension, dot_and,
}

-- How many characters a range takes of the `room` that is there.
abbrev pub range_length : Option ℕ → ℕ → ℕ
range_length none room = room
range_length (some len) room = min len room

-- How many characters stand in front of the range, of `count`.
abbrev pub range_front : RangeOrigin → ℕ → Option ℕ → ℕ → ℕ
range_front from_start offset len count = min offset count
range_front from_end offset len count = count - offset - range_length len (count - offset)

bounds_exact :
    (origin : RangeOrigin) (offset count : ℕ) (len : Option ℕ)
    → count ≤ usize_max
    → ((range_bounds origin offset len count).0 ≡ range_front origin offset len count)
      × ((range_bounds origin offset len count).1
          ≡ range_front origin offset len count + range_length len (count - offset))
unfolding range_bounds
bounds_exact from_start offset count none h = omega arith
bounds_exact from_start offset count (some len) h = omega arith
bounds_exact from_end offset count none h = omega arith
bounds_exact from_end offset count (some len) h = omega arith

front_fits :
    (origin : RangeOrigin) (offset count : ℕ) (len : Option ℕ)
    → range_front origin offset len count + range_length len (count - offset) ≤ count
front_fits from_start offset count none = omega arith
front_fits from_start offset count (some len) = omega arith
front_fits from_end offset count none = omega arith
front_fits from_end offset count (some len) = omega arith

slice_middle :
    (front middle back : Str)
    → slice (front ++ (middle ++ back)) (length front) (length front + length middle) ≡ middle
slice_middle front middle back =
    let n : length front + length middle - length front ≡ length middle = omega arith in
    rw (drop-append front (middle ++ back), n) (take-append middle back)

drop_back :
    (front middle back : Str)
    → drop (length front + length middle) (front ++ (middle ++ back)) ≡ back
drop_back front middle back =
    rw (← append_assoc front middle back, ← length-append front middle)
      (drop-append (front ++ middle) back)

-- A range splits a text of at most `usize::MAX` characters in three: `Keep` gives the middle and `Remove` the two outer parts. The
-- middle is as long as asked for, as far as there are characters behind the offset, counted from the
-- start or from the end.
pub apply_range_lem :
    (front middle back : Str) (origin : RangeOrigin) (offset : ℕ) (len : Option ℕ)
    → let count = length (front ++ (middle ++ back)) in
      count ≤ usize_max
      → length front ≡ range_front origin offset len count
      → length middle ≡ range_length len (count - offset)
      → (apply_range (front ++ (middle ++ back)) keep_range origin offset len ≡ middle)
        × (apply_range (front ++ (middle ++ back)) remove_range origin offset len ≡ front ++ back)
unfolding apply_range
apply_range_lem front middle back origin offset len bound f m =
    let text = front ++ (middle ++ back) in
    let count = length text in
    let (first, last) = bounds_exact origin offset count len bound in
    let fits = front_fits origin offset count len in
    let a : character_offset text (range_bounds origin offset len count).0 ≡ length front =
      omega arith in
    let b : character_offset text (range_bounds origin offset len count).1
        ≡ length front + length middle =
      omega arith in
    rw (a, b)
      (
        slice_middle front middle back,
        ap₂ (λ s t. s ++ t) (take-append front (middle ++ back)) (drop_back front middle back),
      )

-- No character of the text is `c`.
abbrev pub Lacks : ℕ → Str → Type 0
Lacks c = All (λ d. d ≢ c)

rsplit_once-Lacks : (c : ℕ) (s : Str) → Lacks c s → rsplit_once c s ≡ none
unfolding rsplit_once
rsplit_once-Lacks c [] h = refl
rsplit_once-Lacks c (d ∷ s) h = ground (arith, rsplit_once-Lacks c s h.1)

rsplit_once-append :
    (c : ℕ) (before after : Str)
    → Lacks c after
    → rsplit_once c (before ++ c ∷ after) ≡ some (before, after)
unfolding rsplit_once
rsplit_once-append c [] after h = ground (arith, rsplit_once-Lacks c after h)
rsplit_once-append c (d ∷ before) after h = rw (rsplit_once-append c before after h)

-- The text operations act on one part of the name. With `before` not empty and no dot in `after`, the
-- stem of `before.after` is `before` and the extension `after`; a text with no dot is all stem.
pub transform_filename_part_lem :
    (f : Str → Str) (before after : Str)
    → is_empty before ≡ false
    → Lacks b'.' after
    → (transform_filename_part (before ++ b'.' ∷ after) stem f ≡ f before ++ b'.' ∷ after)
      × (transform_filename_part (before ++ b'.' ∷ after) extension f ≡ before ++ b'.' ∷ f after)
      × (transform_filename_part after stem f ≡ f after)
      × (transform_filename_part after extension f ≡ after)
unfolding transform_filename_part
transform_filename_part_lem f before after some_text plain =
    let e = rsplit_once-append b'.' before after plain in
    let n = rsplit_once-Lacks b'.' after plain in
    (ground (arith, e), ground (arith, e), ground (arith, n), ground (arith, n))

before_last_dot-Lacks : (s : Str) → Lacks b'.' s → before_last_dot (from_str s) ≡ none
unfolding before_last_dot
before_last_dot-Lacks [] h = refl
before_last_dot-Lacks (d ∷ s) h = ground (arith, before_last_dot-Lacks s h.1)

before_last_dot-append :
    (name : OsString) (value : Str)
    → Lacks b'.' value
    → before_last_dot (name ++ dot_and value) ≡ some name
unfolding before_last_dot
before_last_dot-append [] value h = ground (arith, before_last_dot-Lacks value h)
before_last_dot-append (raw bytes ∷ name) value h = rw (before_last_dot-append name value h)
before_last_dot-append (scalar c ∷ name) value h = rw (before_last_dot-append name value h)

stem_before_final_dot-append :
    (name : OsString) (value : Str)
    → is_empty name ≡ false
    → Lacks b'.' value
    → stem_before_final_dot (name ++ dot_and value) ≡ some name
unfolding stem_before_final_dot
stem_before_final_dot-append name value some_name h =
    ground (arith, before_last_dot-append name value h)

-- A name `name.value` whose extension has no dot, whatever bytes `name` holds: removing the extension
-- gives `name`, and replacing it puts the new extension in its place.
pub apply_extension_lem :
    (name : OsString) (value new_value : Str)
    → is_empty name ≡ false
    → Lacks b'.' value
    → (apply_extension (name ++ dot_and value) drop_extension ≡ name)
      × (apply_extension (name ++ dot_and value) (replace_with new_value)
          ≡ name ++ dot_and new_value)
unfolding apply_extension
apply_extension_lem name value new_value some_name h =
    let e = stem_before_final_dot-append name value some_name h in
    (ground (arith, e), ground (arith, e))
