-- ===== src/Windows.antt =====
-- Windows file names (crates/renamewright-core/src/windows.rs). Lowercasing by the Unicode tables is a
-- parameter; the ASCII case, the reserved names and the lengths are written out.
pub mod Valid
pub mod Key
pub mod Reserved
use renamewright.Common.{
  ℕ, ◌+◌, ◌-◌, Bool, false, ◌&&◌, ◌||◌, none, some, List, [], ◌∷◌, ◌++◌, map, ◌==◌, ltb, leb,
  if◌then◌else◌, any,
}
use renamewright.Text.{
  Str, OsString, codes, from_str, to_str, list_eq, trim_end, split_once, strip_prefix,
}
use renamewright.Model.Diagnostic.{
  DiagnosticCode, Diagnostic, blocked_diagnostic, illegal_character, trailing_dot_or_space,
  reserved_name, name_too_long,
}

abbrev pub contains : Str → ℕ → Bool
contains s c = any (λ d. d == c) s

abbrev pub dot : ℕ
dot = b'.'

abbrev pub illegal_characters : Str
illegal_characters = codes "<>:\"/\\|?*"

unfoldable pub is_illegal : ℕ → Bool
is_illegal c = leb c 0x1f || contains illegal_characters c

-- The characters that Windows drops at the end of a name.
unfoldable pub is_trailing : ℕ → Bool
is_trailing c = c == b' ' || c == dot

unfoldable pub ends_with_trailing : Str → Bool
ends_with_trailing [] = false
ends_with_trailing (c ∷ []) = is_trailing c
ends_with_trailing (c ∷ d ∷ s) = ends_with_trailing (d ∷ s)

-- `str::encode_utf16().count()`.
unfoldable pub utf16_len : Str → ℕ
utf16_len [] = 0
utf16_len (c ∷ s) = (if ltb c 0x10000 then 1 else 2) + utf16_len s

unfoldable pub ascii_upper : ℕ → ℕ
ascii_upper c = if leb b'a' c && leb c b'z' then c - 32 else c

-- The digits of a device number: 1 to 9, and superscript 1, 2 and 3.
unfoldable pub is_device_digit : Str → Bool
is_device_digit (c ∷ []) = leb b'1' c && leb c b'9' || c == 0xb9 || c == 0xb2 || c == 0xb3
is_device_digit _ = false

unfoldable pub numbered_device : Str → Str → Bool
unfolding is_device_digit strip_prefix
numbered_device name prefix = elim (strip_prefix prefix name) [
  | none ↦ false
  | some suffix ↦ is_device_digit suffix
]

abbrev pub before_dot : Str → Str
before_dot name = elim (split_once dot name) [ none ↦ name | some (before, after) ↦ before ]

unfoldable pub reserved_stem : Str → Bool
unfolding numbered_device list_eq
reserved_stem stem =
    list_eq stem (codes ".")
    || list_eq stem (codes "..")
    || list_eq stem (codes "CON")
    || list_eq stem (codes "PRN")
    || list_eq stem (codes "AUX")
    || list_eq stem (codes "NUL")
    || numbered_device stem (codes "COM")
    || numbered_device stem (codes "LPT")

unfoldable pub is_reserved : Str → Bool
unfolding reserved_stem split_once trim_end ascii_upper is_trailing
is_reserved name = reserved_stem (map ascii_upper (trim_end is_trailing (before_dot name)))

abbrev pub when : Bool → DiagnosticCode → List Diagnostic
when test code = if test then blocked_diagnostic code ∷ [] else []

unfoldable pub validate_name : Str → List Diagnostic
unfolding blocked_diagnostic
validate_name name =
    when (any is_illegal name) illegal_character
    ++ (when (ends_with_trailing name) trailing_dot_or_space
        ++ (when (is_reserved name) reserved_name ++ when (ltb 255 (utf16_len name)) name_too_long))

module _ (to_lowercase : Str → Str) where
  unfoldable pub comparison_key : Str → Str
  unfolding trim_end is_trailing
  comparison_key name = to_lowercase (trim_end is_trailing name)

  unfoldable pub windows_name_comparison_key : OsString → OsString
  windows_name_comparison_key name = elim (to_str name) [
    | none ↦ name
    | some text ↦ from_str (comparison_key text)
  ]
