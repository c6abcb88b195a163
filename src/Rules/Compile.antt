-- ===== src/Rules/Compile.antt =====
-- crates/renamewright-core/src/rules.rs: the validation and the compilation of a pipeline.
use renamewright.Common.{
  ℕ, suc, Bool, false, ◌&&◌, ◌||◌, not, Option, none, some, List, [], ◌∷◌, ◌==◌, ltb, leb,
  if◌then◌else◌, length, is_empty, any, Result, ok, err, ◌>>=◌, ◌>>◌,
}
use renamewright.Text.{Str, codes, str_len}
use renamewright.Rules.Types.{
  max_rules, max_rule_text_bytes, max_sequence_padding, CharacterClass, decimal_number, letter,
  whitespace, punctuation, symbol, drop_extension, replace_with, RenameRule,
  RuleValidationErrorKind, too_many_rules, rule_text_too_long, empty_literal_search, invalid_regex,
  invalid_sequence_step, invalid_sequence_padding, invalid_extension_replacement,
  invalid_range_length, RuleValidationError, CompiledRule, RulePipeline, Libraries,
}

abbrev pub Validated {ℓ} : Type ℓ → Type ℓ
Validated = Result RuleValidationError

abbrev pub invalid : {A : Type 0} → ℕ → RuleValidationErrorKind → Validated A
invalid index kind = err (record { rule_index = some index; kind = kind })

unfoldable pub validate_text : ℕ → Bool → Validated (Unit {0})
validate_text index bad = if bad then invalid index rule_text_too_long else ok tt

abbrev pub invalid_text : List Str → Bool
invalid_text values = any (λ value. ltb max_rule_text_bytes (str_len value)) values

unfoldable pub character_class_pattern : CharacterClass → Str
character_class_pattern decimal_number = codes "\\p{Decimal_Number}"
character_class_pattern letter = codes "\\p{Letter}"
character_class_pattern whitespace = codes "\\p{White_Space}"
character_class_pattern punctuation = codes "\\p{Punctuation}"
character_class_pattern symbol = codes "\\p{Symbol}"

abbrev pub or_invalid : {A : Type 0} → ℕ → Option A → Validated A
or_invalid index none = invalid index invalid_regex
or_invalid index (some a) = ok a

abbrev pub starts_with_dot : Str → Bool
starts_with_dot [] = false
starts_with_dot (c ∷ s) = c == b'.'

abbrev pub is_zero_length : Option ℕ → Bool
is_zero_length none = false
is_zero_length (some n) = n == 0

module _ (lib : Libraries) where
  unfoldable pub compile_rule : ℕ → RenameRule → Validated (CompiledRule lib.Regex)
  unfolding validate_text character_class_pattern
  compile_rule index (RenameRule.prefix value) = do
    validate_text index (invalid_text (value ∷ []))
    ok (CompiledRule.prefix value)
  compile_rule index (RenameRule.suffix value) = do
    validate_text index (invalid_text (value ∷ []))
    ok (CompiledRule.suffix value)
  compile_rule index (RenameRule.literal_replace search_text replacement) = do
    validate_text index (invalid_text (search_text ∷ replacement ∷ []))
    (if is_empty search_text
        then invalid index empty_literal_search
        else ok (CompiledRule.literal_replace search_text replacement))
  compile_rule index (RenameRule.regex_replace pattern' replacement) = do
    validate_text index (invalid_text (pattern' ∷ replacement ∷ []))
    regex ← or_invalid index (lib.build_limited pattern')
    ok (CompiledRule.regex_replace regex replacement)
  compile_rule index (RenameRule.sequence scope order start step padding placement separator) = do
    validate_text index (invalid_text (separator ∷ []))
    (if step == 0
        then invalid index invalid_sequence_step
        else if not (leb 1 padding && leb padding max_sequence_padding)
        then invalid index invalid_sequence_padding
        else ok (CompiledRule.sequence scope order start step padding placement separator))
  compile_rule index (RenameRule.extension_rule drop_extension) =
      ok (CompiledRule.extension_rule drop_extension)
  compile_rule index (RenameRule.extension_rule (replace_with value)) = do
    validate_text index (invalid_text (value ∷ []))
    (if is_empty value || starts_with_dot value
        then invalid index invalid_extension_replacement
        else ok (CompiledRule.extension_rule (replace_with value)))
  compile_rule index (RenameRule.case_rule target mode) = ok (CompiledRule.case_rule target mode)
  compile_rule index (RenameRule.whitespace_cleanup target replacement) = do
    validate_text index (invalid_text (replacement ∷ []))
    ok (CompiledRule.whitespace_cleanup target replacement)
  compile_rule index (RenameRule.unicode_normalization target form) =
      ok (CompiledRule.unicode_normalization target form)
  compile_rule index (RenameRule.range target operation origin offset len) =
      if is_zero_length len
      then invalid index invalid_range_length
      else ok (CompiledRule.range target operation origin offset len)
  compile_rule index (RenameRule.character_class target operation class) = do
    matcher ← or_invalid index (lib.new_regex (character_class_pattern class))
    ok (CompiledRule.character_class target operation matcher)

  -- The loop over the rules, `index` being the position that `enumerate` gives.
  unfoldable pub compile_rules : ℕ → List RenameRule → Validated (List (CompiledRule lib.Regex))
  compile_rules index [] = ok []
  compile_rules index (rule ∷ rules) = do
    first ← compile_rule index rule
    rest ← compile_rules (suc index) rules
    ok (first ∷ rest)

  unfoldable pub compile : List RenameRule → Validated (RulePipeline lib.Regex)
  unfolding compile_rules
  compile rules =
      if ltb max_rules (length rules)
      then err (record { rule_index = none; kind = too_many_rules })
      else (do compiled ← compile_rules 0 rules; ok (record { rules = rules; compiled = compiled }))
