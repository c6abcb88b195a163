-- ===== src/Rules/Outputs.antt =====
-- What each rule makes of a name, whatever its length (crates/renamewright-core/src/rules.rs).
use renamewright.Common.{
  if_cases, if◌then◌else◌, refl, ◌<◌, ◌++◌, ltb, ltb→lt, ℕ, ◌≡◌, Option, none, some, [], false,
  is_empty, ok, err, Option-cases, inl, inr,
}
use renamewright.Text.{from_str, os_len, os_len-from_str, str_len, to_str, OsString, Str}
use renamewright.Rules.Types.{
  unsupported_encoding, sequence_overflow, output_too_long, CompiledRule, prefix, suffix,
  literal_replace, regex_replace, sequence, extension_rule, case_rule, whitespace_cleanup,
  unicode_normalization, range, character_class, Libraries, FilenamePart, max_rule_output_bytes,
  Applied,
}
use renamewright.Rules.Text.{
  apply_unicode_part, transform_filename_part, cleanup_whitespace, apply_range,
  character_class_loop, apply_extension,
}
use renamewright.Rules.Apply.{apply_compiled, place, case_mapping, format_padded}
use renamewright.Rules.Literal.{replaced, replace_literal_bounded_lem}
use renamewright.Rules.Rewriting.{Rewrites, replace_regex_bounded-Rewrites}

-- The rule reads the name as text.
abbrev pub ReadsText : {R : Type 0} → CompiledRule R → Type 0
ReadsText (prefix v) = ⊥
ReadsText (suffix v) = ⊥
ReadsText (sequence scope order start step padding placement separator) = ⊥
ReadsText (extension_rule operation) = ⊥
ReadsText rule = Unit

abbrev pub IsSequence : {R : Type 0} → CompiledRule R → Type 0
IsSequence (sequence scope order start step padding placement separator) = Unit
IsSequence rule = ⊥

-- A literal replacement searches for something.
abbrev pub HasSearch : {R : Type 0} → CompiledRule R → Type 0
HasSearch (literal_replace search_text replacement) = is_empty search_text ≡ false
HasSearch rule = Unit

-- The name is a text, in which the rule changes a part.
abbrev pub Transforms : OsString → FilenamePart → (Str → Str) → OsString → Type 0
Transforms name target f proposed =
    (text : Str) × (to_str name ≡ some text)
    × (proposed ≡ from_str (transform_filename_part text target f))

module _ (lib : Libraries) where
  -- What a rule makes of a name and of a sequence value, whatever its length.
  abbrev pub Outputs : CompiledRule lib.Regex → OsString → Option ℕ → OsString → Type 0
  Outputs (prefix v) name value proposed = proposed ≡ from_str v ++ name
  Outputs (suffix v) name value proposed = proposed ≡ name ++ from_str v
  Outputs (literal_replace search_text replacement) name value proposed =
      (text : Str) × (to_str name ≡ some text)
      × (proposed ≡ from_str (replaced search_text replacement 0 text))
  Outputs (regex_replace regex replacement) name value proposed =
      (text : Str) × (to_str name ≡ some text)
      × (out : Str) × Rewrites text replacement 0 (lib.captures_iter regex text) out
      × (proposed ≡ from_str out)
  Outputs (sequence scope order start step padding placement separator) name value proposed =
      (v : ℕ) × (value ≡ some v)
      × (proposed ≡ place placement (format_padded v padding) separator name)
  Outputs (extension_rule operation) name value proposed = proposed ≡ apply_extension name operation
  Outputs (case_rule target mode) name value proposed =
      Transforms name target (case_mapping lib mode) proposed
  Outputs (whitespace_cleanup target replacement) name value proposed =
      Transforms name target (λ text. cleanup_whitespace text replacement) proposed
  Outputs (unicode_normalization target form) name value proposed =
      Transforms name target (lib.normal_form form) proposed
  Outputs (range target operation origin offset len) name value proposed =
      Transforms name target (λ text. apply_range text operation origin offset len) proposed
  Outputs (character_class target operation matcher) name value proposed =
      Transforms name target
        (λ text. character_class_loop text operation [] 0 (lib.find_iter matcher text)) proposed

  abbrev pub Yields : CompiledRule lib.Regex → OsString → Option ℕ → Applied OsString → Type 0
  Yields rule name value (ok proposed) = Outputs rule name value proposed
  Yields rule name value (err output_too_long) =
      (proposed : OsString) × Outputs rule name value proposed
      × (max_rule_output_bytes < os_len proposed)
  Yields rule name value (err unsupported_encoding) = ReadsText rule × (to_str name ≡ none)
  Yields rule name value (err sequence_overflow) = IsSequence rule × (value ≡ none)

  bounded-Yields :
      (rule : CompiledRule lib.Regex) (name : OsString) (value : Option ℕ) (out : Str)
      → Outputs rule name value (from_str out)
      → Yields rule name value (
          if ltb max_rule_output_bytes (str_len out)
          then err output_too_long
          else ok (from_str out))
  bounded-Yields rule name value out h =
      if_cases (Yields rule name value) (ltb max_rule_output_bytes (str_len out)) _ _
        (λ long. (from_str out, h, rw (os_len-from_str out) (ltb→lt _ _ long))) (λ short. h)

  part-Yields :
      (rule : CompiledRule lib.Regex) (name : OsString) (value : Option ℕ) (target : FilenamePart)
      (f : Str → Str)
      → ReadsText rule
      → ((text : Str)
          → to_str name ≡ some text
          → Outputs rule name value (from_str (transform_filename_part text target f)))
      → Yields rule name value (apply_unicode_part name target f)
  unfolding apply_unicode_part
  part-Yields rule name value target f reads outputs = elim (Option-cases (to_str name)) [
    | inl e ↦ rw (e, apply_unicode_part) (reads, e)
    | inr (text, e) ↦ rw (e, apply_unicode_part) (outputs text e)
  ]

  pub apply_compiled-Yields :
      (rule : CompiledRule lib.Regex) (name : OsString) (value : Option ℕ)
      → HasSearch rule
      → Yields rule name value (apply_compiled lib rule name value)
  unfolding apply_compiled
  apply_compiled-Yields (prefix v) name value searching = refl
  apply_compiled-Yields (suffix v) name value searching = refl
  apply_compiled-Yields (literal_replace search_text replacement) name value searching =
      elim (Option-cases (to_str name)) [
        | inl e ↦ rw e (tt, e)
        | inr (text, e) ↦
            rw (e, replace_literal_bounded_lem text search_text replacement searching)
              (bounded-Yields (literal_replace search_text replacement) name value
                (replaced search_text replacement 0 text) (text, e, refl))
      ]
  apply_compiled-Yields (regex_replace regex replacement) name value searching =
      elim (Option-cases (to_str name)) [
        | inl e ↦ rw e (tt, e)
        | inr (text, e) ↦
            let (out, rewrites, same) =
              replace_regex_bounded-Rewrites text (lib.captures_iter regex text) replacement in
            rw (e, same)
              (bounded-Yields (regex_replace regex replacement) name value out
                (text, e, out, rewrites, refl))
      ]
  apply_compiled-Yields (sequence scope order start step padding placement separator) name none
        searching =
      (tt, refl)
  apply_compiled-Yields (sequence scope order start step padding placement separator) name (some v)
        searching =
      (v, refl, refl)
  apply_compiled-Yields (extension_rule operation) name value searching = refl
  apply_compiled-Yields (case_rule target mode) name value searching =
      part-Yields (case_rule target mode) name value target _ tt (λ text e. (text, e, refl))
  apply_compiled-Yields (whitespace_cleanup target replacement) name value searching =
      part-Yields (whitespace_cleanup target replacement) name value target _ tt
        (λ text e. (text, e, refl))
  apply_compiled-Yields (unicode_normalization target form) name value searching =
      part-Yields (unicode_normalization target form) name value target _ tt
        (λ text e. (text, e, refl))
  apply_compiled-Yields (range target operation origin offset len) name value searching =
      part-Yields (range target operation origin offset len) name value target _ tt
        (λ text e. (text, e, refl))
  apply_compiled-Yields (character_class target operation matcher) name value searching =
      part-Yields (character_class target operation matcher) name value target _ tt
        (λ text e. (text, e, refl))
