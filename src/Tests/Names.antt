-- ===== src/Tests/Names.antt =====
-- The theorems on names at concrete names (crates/renamewright-core/src/windows.rs and rules.rs).
use renamewright.Common.{
  ◌+◌, ℕ, Bool, ◌≡◌, ◌↔◌, ◌≤◌, refl, false, some, [], ◌∷◌, ◌++◌, map, All, arith, length,
  if◌then◌else◌, ltb, err, ok,
}
use renamewright.Text.{Str, codes, from_str, str_len}
use renamewright.Windows.{
  dot, ascii_upper, comparison_key, ends_with_trailing, is_reserved, is_trailing, utf16_len,
  validate_name,
}
use renamewright.Windows.Valid.{IsLegal, EndsPlain, validate_name-accepts}
use renamewright.Windows.Reserved.{is_reserved_lem}
use renamewright.Windows.Key.{comparison_key-trailing}
use renamewright.Rules.Types.{
  stem, extension, keep_range, remove_range, from_end, drop_extension, replace_with,
  max_rule_output_bytes, output_too_long,
}
use renamewright.Rules.Text.{
  replace_literal_bounded, cleanup_whitespace, apply_range, transform_filename_part,
  apply_extension, dot_and,
}
use renamewright.Rules.Literal.{replaced, replace_literal_bounded_lem}
use renamewright.Rules.Whitespace.{IsWord, join, words, cleanup_whitespace-words}
use renamewright.Rules.Parts.{apply_range_lem, transform_filename_part_lem, apply_extension_lem}
use renamewright.Rules.Decimal.{IsDecimal, IsPlaced, apply_compiled-sequence}
use renamewright.Rules.Types.{CompiledRule, all_sources, source, as_suffix}
use renamewright.Tests.Samples.{literal_libraries}
use renamewright.Rules.Apply.{apply_compiled}
use renamewright.Text.{OsString}
use renamewright.Common.{max, replicate}

validate_name-accepts_example : (validate_name (codes "a.txt") ≡ []) ↔ (
    All IsLegal (codes "a.txt")
    × EndsPlain (codes "a.txt")
    × (is_reserved (codes "a.txt") ≡ false)
    × (utf16_len (codes "a.txt") ≤ 255))
validate_name-accepts_example = validate_name-accepts (codes "a.txt")

is_reserved_lem_example :
    (is_reserved (codes "con" ++ dot ∷ codes "txt") ≡ is_reserved (codes "con"))
    × (is_reserved (map ascii_upper (codes "con")) ≡ is_reserved (codes "con"))
is_reserved_lem_example = is_reserved_lem (codes "con") (codes "txt")

trailing_tail : All (λ c. is_trailing c ≡ Bool.true) (codes ". ")
unfolding is_trailing
trailing_tail = (refl, (refl, tt))

plain_end : ends_with_trailing (codes "ab") ≡ false
unfolding ends_with_trailing is_trailing
plain_end = refl

comparison_key-trailing_example :
    (comparison_key (map ascii_upper) (codes "ab" ++ codes ". ")
      ≡ comparison_key (map ascii_upper) (codes "ab"))
    × (comparison_key (map ascii_upper) (codes "ab" ++ codes ". ") ≡ map ascii_upper (codes "ab"))
comparison_key-trailing_example =
    comparison_key-trailing (map ascii_upper) (codes "ab") (codes ". ") trailing_tail plain_end

replace_literal_bounded_lem_example :
    replace_literal_bounded (codes "banana") (codes "an") (codes "-") ≡ (
      if ltb max_rule_output_bytes (str_len (replaced (codes "an") (codes "-") 0 (codes "banana")))
      then err output_too_long
      else ok (from_str (replaced (codes "an") (codes "-") 0 (codes "banana"))))
replace_literal_bounded_lem_example =
    replace_literal_bounded_lem (codes "banana") (codes "an") (codes "-") refl

cleanup_whitespace-words_example :
    (cleanup_whitespace (codes " a  b ") (codes "_") ≡ join (codes "_") (words (codes " a  b ")))
    × All IsWord (words (codes " a  b "))
cleanup_whitespace-words_example = cleanup_whitespace-words (codes " a  b ") (codes "_")

apply_range_lem_example :
    (apply_range (codes "abcd") keep_range from_end 1 (some 2) ≡ codes "bc")
    × (apply_range (codes "abcd") remove_range from_end 1 (some 2) ≡ codes "ad")
apply_range_lem_example =
    apply_range_lem (codes "a") (codes "bc") (codes "d") from_end 1 (some 2) (omega arith) refl refl

transform_filename_part_lem_example :
    (transform_filename_part (codes "a.b" ++ b'.' ∷ codes "gz") stem (map ascii_upper)
      ≡ map ascii_upper (codes "a.b") ++ b'.' ∷ codes "gz")
    × (transform_filename_part (codes "a.b" ++ b'.' ∷ codes "gz") extension (map ascii_upper)
        ≡ codes "a.b" ++ b'.' ∷ map ascii_upper (codes "gz"))
    × (transform_filename_part (codes "gz") stem (map ascii_upper) ≡ map ascii_upper (codes "gz"))
    × (transform_filename_part (codes "gz") extension (map ascii_upper) ≡ codes "gz")
transform_filename_part_lem_example =
    transform_filename_part_lem (map ascii_upper) (codes "a.b") (codes "gz") refl
      (λ e. omega arith, (λ e. omega arith, tt))

apply_extension_lem_example :
    (apply_extension (from_str (codes "a.b") ++ dot_and (codes "gz")) drop_extension
      ≡ from_str (codes "a.b"))
    × (apply_extension (from_str (codes "a.b") ++ dot_and (codes "gz")) (replace_with (codes "xz"))
        ≡ from_str (codes "a.b") ++ dot_and (codes "xz"))
apply_extension_lem_example =
    apply_extension_lem (from_str (codes "a.b")) (codes "gz") (codes "xz") refl
      (λ e. omega arith, (λ e. omega arith, tt))

apply_compiled-sequence_example :
    (zeros : ℕ) × (digits : Str) × (proposed : OsString) × (apply_compiled literal_libraries
        (CompiledRule.sequence all_sources source 1 1 4 as_suffix (codes "-"))
        (from_str (codes "a"))
        (some 42)
      ≡ ok proposed)
    × IsDecimal 42 digits
    × (zeros + length digits ≡ max 4 (length digits))
    × IsPlaced as_suffix
        (from_str (replicate zeros b'0' ++ digits))
        (from_str (codes "-"))
        (from_str (codes "a"))
        proposed
apply_compiled-sequence_example =
    apply_compiled-sequence literal_libraries all_sources source 1 1 4 as_suffix (codes "-")
      (from_str (codes "a")) 42 (omega arith)
