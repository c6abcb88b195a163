-- ===== src/Rules/Bounds.antt =====
-- What applying a rule gives, and what each of its errors says (crates/renamewright-core/src/rules.rs).
use renamewright.Common.{
  length, ◌⊎◌, if_cases, if◌then◌else◌, refl, subst, Bool-cases, ◌≤◌, ◌<◌, ltb, ltb→lt, get_elem?,
  ℕ, zero, suc, ◌≡◌, Option, none, some, List, [], ◌∷◌, All, arith, ok, err, ◌>>=◌, >>=-eq-ok,
  Option-cases, inl, inr, ok_injective,
}
use renamewright.Text.{os_len, to_str, OsString}
use renamewright.Rules.Types.{
  unsupported_encoding, sequence_overflow, output_too_long, CompiledRule, RenameRule, RulePipeline,
  Libraries, drop_extension, replace_with, max_rules, max_rule_output_bytes, Applied,
}
use renamewright.Rules.Compile.{Validated, compile_rule, compile_rules, compile}
use renamewright.Rules.Apply.{apply_compiled, apply_rule}
use renamewright.Rules.Outputs.{
  ReadsText, IsSequence, HasSearch, Outputs, Yields, apply_compiled-Yields,
}

module _ (lib : Libraries) where
  abbrev Searching : Validated (CompiledRule lib.Regex) → Type 0
  Searching (ok rule) = HasSearch rule
  Searching (err error) = Unit

  compile_rule-Searching : (index : ℕ) (rule : RenameRule) → Searching (compile_rule lib index rule)
  unfolding compile_rule
  compile_rule-Searching index (RenameRule.prefix value) = ground arith
  compile_rule-Searching index (RenameRule.suffix value) = ground arith
  compile_rule-Searching index (RenameRule.literal_replace search_text replacement) = ground arith
  compile_rule-Searching index (RenameRule.regex_replace pattern' replacement) = ground arith
  compile_rule-Searching index
        (RenameRule.sequence scope order start step padding placement separator) =
      ground arith
  compile_rule-Searching index (RenameRule.extension_rule drop_extension) = tt
  compile_rule-Searching index (RenameRule.extension_rule (replace_with value)) = ground arith
  compile_rule-Searching index (RenameRule.case_rule target mode) = tt
  compile_rule-Searching index (RenameRule.whitespace_cleanup target replacement) = ground arith
  compile_rule-Searching index (RenameRule.unicode_normalization target form) = tt
  compile_rule-Searching index (RenameRule.range target operation origin offset len) = ground arith
  compile_rule-Searching index (RenameRule.character_class target operation class) = ground arith

  compile_rules-Searching :
      (index : ℕ) (rules : List RenameRule) (compiled : List (CompiledRule lib.Regex))
      → compile_rules lib index rules ≡ ok compiled
      → All HasSearch compiled
  unfolding compile_rules
  compile_rules-Searching index [] compiled e = subst (All HasSearch) (ok_injective e) tt
  compile_rules-Searching index (rule ∷ rules) compiled e =
      let (first, e1, f1) = >>=-eq-ok (compile_rule lib index rule) _ e in
      let (rest, e2, f2) = >>=-eq-ok (compile_rules lib (suc index) rules) _ f1 in
      subst (All HasSearch) (ok_injective f2) (
        subst Searching e1 (compile_rule-Searching index rule),
        compile_rules-Searching (suc index) rules rest e2,
      )

  compile-Searching :
      (rules : List RenameRule) (pipeline : RulePipeline lib.Regex)
      → compile lib rules ≡ ok pipeline
      → All HasSearch pipeline.compiled
  unfolding compile
  compile-Searching rules pipeline e = elim (Bool-cases (ltb max_rules (length rules))) [
    | inl long ↦ let clash = rw long at e in absurd (cc)
    | inr short ↦
        let (compiled, made, same) = >>=-eq-ok (compile_rules lib 0 rules) _ (rw short at e) in
        subst (λ p. All HasSearch p.compiled) (ok_injective same)
          (compile_rules-Searching 0 rules compiled made)
  ]

  -- What a pipeline makes of a name at an index: without a rule there, the name.
  abbrev pub Makes : Option (CompiledRule lib.Regex) → OsString → Option ℕ → OsString → Type 0
  Makes none name value proposed = proposed ≡ name
  Makes (some rule) name value proposed = Outputs lib rule name value proposed

  -- What a result says.
  abbrev pub Explains :
      Option (CompiledRule lib.Regex) → OsString → Option ℕ → Applied OsString → Type 0
  Explains found name value (ok proposed) =
      (os_len name ≤ max_rule_output_bytes)
      × (os_len proposed ≤ max_rule_output_bytes)
      × Makes found name value proposed
  Explains found name value (err output_too_long) =
      (max_rule_output_bytes < os_len name)
      ⊎ ((proposed : OsString) × Makes found name value proposed
          × (max_rule_output_bytes < os_len proposed))
  Explains found name value (err unsupported_encoding) =
      (rule : CompiledRule lib.Regex) × (found ≡ some rule) × ReadsText rule × (to_str name ≡ none)
  Explains found name value (err sequence_overflow) =
      (rule : CompiledRule lib.Regex) × (found ≡ some rule) × IsSequence rule × (value ≡ none)

  -- The check of the length behind the rule.
  checked_length :
      (rule : CompiledRule lib.Regex) (name : OsString) (value : Option ℕ) (r : Applied OsString)
      → os_len name ≤ max_rule_output_bytes
      → Yields lib rule name value r
      → Explains (some rule) name value (
          r >>= λ proposed.
          if ltb max_rule_output_bytes (os_len proposed) then err output_too_long else ok proposed)
  checked_length rule name value (ok proposed) fits h =
      if_cases (Explains (some rule) name value) (ltb max_rule_output_bytes (os_len proposed)) _ _
        (λ long. inr (proposed, h, ltb→lt _ _ long)) (λ short. (fits, ground arith, h))
  checked_length rule name value (err output_too_long) fits h = inr h
  checked_length rule name value (err unsupported_encoding) fits h = (rule, refl, h.0, h.1)
  checked_length rule name value (err sequence_overflow) fits h = (rule, refl, h.0, h.1)

  All-get_elem? :
      {A : Type 0} (P : A → Type 0) (xs : List A) (i : ℕ) (x : A)
      → All P xs
      → get_elem? xs i ≡ some x
      → P x
  All-get_elem? P [] i x h e = absurd (cc)
  All-get_elem? P (y ∷ ys) zero x h e = let same : y ≡ x = cc in subst P same h.0
  All-get_elem? P (y ∷ ys) (suc i) x h e = All-get_elem? P ys i x h.1 e

  -- For a pipeline that was compiled: a rule that is applied takes and gives a name of at most 4,096
  -- bytes, and the new name is what the rule makes of the old one, or the old one where there is no rule.
  -- The output is too long only if the name is, or if what the rule makes of it is. The encoding is
  -- unsupported only for a rule that reads text and a name that is none, and the sequence overflows
  -- only for a sequence rule without a value.
  pub apply_rule-Explains :
      (rules : List RenameRule) (pipeline : RulePipeline lib.Regex) (index : ℕ) (name : OsString)
      (value : Option ℕ)
      → compile lib rules ≡ ok pipeline
      → Explains
          (get_elem? pipeline.compiled index)
          name
          value
          (apply_rule lib pipeline index name value)
  unfolding apply_rule
  apply_rule-Explains rules pipeline index name value compiles =
      elim (Bool-cases (ltb max_rule_output_bytes (os_len name))) [
        | inl long ↦ rw long (inl (ltb→lt _ _ long))
        | inr short ↦
            let fits : os_len name ≤ max_rule_output_bytes = ground arith in
            rw short (elim (Option-cases (get_elem? pipeline.compiled index)) [
              | inl e ↦ rw e (fits, fits, refl)
              | inr (rule, e) ↦ rw e (
                  checked_length rule name value (apply_compiled lib rule name value) fits (
                    apply_compiled-Yields lib rule name value (
                      All-get_elem? HasSearch pipeline.compiled index rule
                        (compile-Searching rules pipeline compiles) e)))
            ])
      ]
