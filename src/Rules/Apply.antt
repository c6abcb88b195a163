-- ===== src/Rules/Apply.antt =====
-- crates/renamewright-core/src/rules.rs: the application of a compiled rule to a name.
use renamewright.Common.{
  ℕ, zero, suc, ◌+◌, ◌-◌, ◌/◌, ◌%◌, Option, none, some, [], ◌∷◌, ◌++◌, ltb, if◌then◌else◌, length,
  get_elem?, replicate, Result, ok, err, ◌>>=◌,
}
use renamewright.Text.{Str, OsString, from_str, to_str, os_len}
use renamewright.Rules.Types.{
  max_rule_output_bytes, CaseMode, lowercase, uppercase, SequencePlacement, as_prefix, as_suffix,
  CompiledRule, prefix, suffix, literal_replace, regex_replace, sequence, extension_rule, case_rule,
  whitespace_cleanup, unicode_normalization, range, character_class, SequenceAllocation,
  RulePipeline, Libraries, Applied, unsupported_encoding, sequence_overflow, output_too_long,
}
use renamewright.Rules.Text.{
  replace_literal_bounded, cleanup_whitespace, apply_range, character_class_loop,
  apply_unicode_part, apply_extension,
}
use renamewright.Rules.Regex.{replace_regex_bounded}

-- The decimal digits in front of `out`; a `u64` has at most twenty.
unfoldable pub decimal_loop : ℕ → ℕ → Str → Str
decimal_loop zero n out = out
decimal_loop (suc fuel) n out =
    let rest = decimal_loop fuel (n / 10) ((b'0' + n % 10) ∷ out) in
    if ltb n 10 then (b'0' + n) ∷ out else rest

-- `format!("{value:0width$}")`.
unfoldable pub format_padded : ℕ → ℕ → Str
unfolding decimal_loop
format_padded value width =
    let digits = decimal_loop 20 value [] in replicate (width - length digits) b'0' ++ digits

abbrev pub ok_or {ℓ} : {A : Type 0} {E : Type ℓ} → Option A → E → Result E A
ok_or none e = err e
ok_or (some a) e = ok a

abbrev pub place : SequencePlacement → Str → Str → OsString → OsString
place as_prefix number separator name = from_str number ++ (from_str separator ++ name)
place as_suffix number separator name = name ++ (from_str separator ++ from_str number)

abbrev pub case_mapping : Libraries → CaseMode → Str → Str
case_mapping lib lowercase = lib.to_lowercase
case_mapping lib uppercase = lib.to_uppercase

module _ (lib : Libraries) where
  -- The `match` of `apply_rule`, before the length of the result is checked.
  unfoldable pub apply_compiled : CompiledRule lib.Regex → OsString → Option ℕ → Applied OsString
  unfolding to_str replace_literal_bounded replace_regex_bounded format_padded apply_extension
      apply_unicode_part cleanup_whitespace apply_range character_class_loop
  apply_compiled (prefix value) name sequence_value = ok (from_str value ++ name)
  apply_compiled (suffix value) name sequence_value = ok (name ++ from_str value)
  apply_compiled (literal_replace search replacement) name sequence_value = do
    text ← ok_or (to_str name) unsupported_encoding
    replace_literal_bounded text search replacement
  apply_compiled (regex_replace regex replacement) name sequence_value = do
    text ← ok_or (to_str name) unsupported_encoding
    replace_regex_bounded text (lib.captures_iter regex text) replacement
  apply_compiled (sequence scope order start step padding placement separator) name sequence_value =
      do
        value ← ok_or sequence_value sequence_overflow
        ok (place placement (format_padded value padding) separator name)
  apply_compiled (extension_rule operation) name sequence_value =
      ok (apply_extension name operation)
  apply_compiled (case_rule target mode) name sequence_value =
      apply_unicode_part name target (case_mapping lib mode)
  apply_compiled (whitespace_cleanup target replacement) name sequence_value =
      apply_unicode_part name target (λ text. cleanup_whitespace text replacement)
  apply_compiled (unicode_normalization target form) name sequence_value =
      apply_unicode_part name target (lib.normal_form form)
  apply_compiled (range target operation origin offset len) name sequence_value =
      apply_unicode_part name target (λ text. apply_range text operation origin offset len)
  apply_compiled (character_class target operation matcher) name sequence_value =
      apply_unicode_part name target
        (λ text. character_class_loop text operation [] 0 (lib.find_iter matcher text))

  unfoldable pub apply_rule : RulePipeline lib.Regex → ℕ → OsString → Option ℕ → Applied OsString
  unfolding apply_compiled os_len
  apply_rule pipeline index name sequence_value =
      if ltb max_rule_output_bytes (os_len name)
      then err output_too_long
      else elim (get_elem? pipeline.compiled index) [
        | none ↦ ok name
        | some rule ↦ do
          proposed ← apply_compiled rule name sequence_value
          if ltb max_rule_output_bytes (os_len proposed) then err output_too_long else ok proposed
      ]

  unfoldable pub sequence_allocation : RulePipeline lib.Regex → ℕ → Option SequenceAllocation
  sequence_allocation pipeline index = elim (get_elem? pipeline.compiled index) [
    | some (sequence scope order start step padding placement separator) ↦
        some (record { scope = scope; order = order; start = start; step = step })
    | _ ↦ none
  ]
