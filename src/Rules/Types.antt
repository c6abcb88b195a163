-- ===== src/Rules/Types.antt =====
-- crates/renamewright-core/src/rules.rs: the rules, their compiled forms and the errors.
use renamewright.Common.{ℕ, Bool, true, false, Option, List, Result}
use renamewright.Text.{Str}

abbrev pub max_rules : ℕ
max_rules = 32

abbrev pub max_rule_text_bytes : ℕ
max_rule_text_bytes = 4096

abbrev pub max_rule_output_bytes : ℕ
max_rule_output_bytes = 4096

abbrev pub max_sequence_padding : ℕ
max_sequence_padding = 20

pub data SequenceScope : Type 0 where
  all_sources per_parent : SequenceScope

pub data SequenceOrder : Type 0 where
  source name_ascending : SequenceOrder

pub data SequencePlacement : Type 0 where
  as_prefix as_suffix : SequencePlacement

pub data FilenamePart : Type 0 where
  whole_name stem extension : FilenamePart

pub data ExtensionOperation : Type 0 where
  drop_extension : ExtensionOperation
  replace_with : Str → ExtensionOperation

pub data CaseMode : Type 0 where
  lowercase uppercase : CaseMode

pub data UnicodeNormalizationForm : Type 0 where
  nfc nfd nfkc nfkd : UnicodeNormalizationForm

pub data RangeOperation : Type 0 where
  keep_range remove_range : RangeOperation

pub data RangeOrigin : Type 0 where
  from_start from_end : RangeOrigin

pub data CharacterClass : Type 0 where
  decimal_number letter whitespace punctuation symbol : CharacterClass

pub data CharacterClassOperation : Type 0 where
  keep_class remove_class : CharacterClassOperation

-- The arguments stand in the order of the source's fields.
pub data RenameRule : Type 0 where
  prefix : Str → RenameRule
  suffix : Str → RenameRule
  -- search, replacement
  literal_replace : Str → Str → RenameRule
  -- pattern, replacement
  regex_replace : Str → Str → RenameRule
  -- scope, order, start, step, padding, placement, separator
  sequence : SequenceScope → SequenceOrder → ℕ → ℕ → ℕ → SequencePlacement → Str → RenameRule
  extension_rule : ExtensionOperation → RenameRule
  case_rule : FilenamePart → CaseMode → RenameRule
  -- target, replacement
  whitespace_cleanup : FilenamePart → Str → RenameRule
  unicode_normalization : FilenamePart → UnicodeNormalizationForm → RenameRule
  -- target, operation, origin, offset, length
  range : FilenamePart → RangeOperation → RangeOrigin → ℕ → Option ℕ → RenameRule
  character_class : FilenamePart → CharacterClassOperation → CharacterClass → RenameRule

unfoldable pub applies_to_directories : RenameRule → Bool
applies_to_directories (extension_rule operation) = false
applies_to_directories _ = true

pub data RuleValidationErrorKind : Type 0 where
  too_many_rules rule_text_too_long empty_literal_search invalid_regex invalid_sequence_step
        invalid_sequence_padding invalid_extension_replacement invalid_range_length :
      RuleValidationErrorKind

pub record RuleValidationError : Type 0 where
  pub rule_index : Option ℕ
  pub kind : RuleValidationErrorKind

pub data RuleApplicationError : Type 0 where
  unsupported_encoding sequence_overflow output_too_long : RuleApplicationError

abbrev pub Applied : Type 0 → Type 0
Applied = Result RuleApplicationError

-- The compiled forms, over the type of compiled regular expressions.
pub data CompiledRule (Regex : Type 0) : Type 0 where
  prefix : Str → CompiledRule Regex
  suffix : Str → CompiledRule Regex
  literal_replace : Str → Str → CompiledRule Regex
  regex_replace : Regex → Str → CompiledRule Regex
  sequence :
      SequenceScope → SequenceOrder → ℕ → ℕ → ℕ → SequencePlacement → Str → CompiledRule Regex
  extension_rule : ExtensionOperation → CompiledRule Regex
  case_rule : FilenamePart → CaseMode → CompiledRule Regex
  whitespace_cleanup : FilenamePart → Str → CompiledRule Regex
  unicode_normalization : FilenamePart → UnicodeNormalizationForm → CompiledRule Regex
  range : FilenamePart → RangeOperation → RangeOrigin → ℕ → Option ℕ → CompiledRule Regex
  character_class : FilenamePart → CharacterClassOperation → Regex → CompiledRule Regex

pub record SequenceAllocation : Type 0 where
  pub scope : SequenceScope
  pub order : SequenceOrder
  pub start : ℕ
  pub step : ℕ

pub record RulePipeline (Regex : Type 0) : Type 0 where
  pub rules : List RenameRule
  pub compiled : List (CompiledRule Regex)

-- A match, by the numbers of characters in front of its start and of its end.
pub record Span : Type 0 where
  pub start : ℕ
  pub end : ℕ

-- `regex::Captures`: the groups by number, the whole match being number 0, and by name.
pub record Captures : Type 0 where
  pub group : ℕ → Option Span
  pub named : Str → Option Span

-- What the rules use of the crates `regex` and `unicode_normalization`, and of the Unicode tables of
-- the standard library: the builder with the size limits, `Regex::new`, the two match iterators, the
-- normal forms and the case mappings.
pub record Libraries : Type 1 where
  pub Regex : Type 0
  pub build_limited : Str → Option Regex
  pub new_regex : Str → Option Regex
  pub captures_iter : Regex → Str → List Captures
  pub find_iter : Regex → Str → List Span
  pub normal_form : UnicodeNormalizationForm → Str → Str
  pub to_lowercase : Str → Str
  pub to_uppercase : Str → Str
