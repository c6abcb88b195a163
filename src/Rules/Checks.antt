-- ===== src/Rules/Checks.antt =====
-- Which pipelines compile.
use renamewright.Common.{
  ltb→lt, ◌⊎◌, get_elem?, ℕ, suc, ◌+◌, ◌≤◌, ◌<◌, ◌≡◌, ◌≢◌, refl, ap, ◌∙◌, false, Option, none, some,
  List, [], ◌∷◌, arith, ltb, length, is_empty, All, ok, err, Result-cases, inl, inr, Bool-cases,
  take, subst,
}
use renamewright.Text.{Str, str_len}
use renamewright.Rules.Types.{
  max_rules, max_rule_text_bytes, max_sequence_padding, drop_extension, replace_with, RenameRule,
  too_many_rules, CompiledRule, RulePipeline, Libraries,
}
use renamewright.Rules.Compile.{
  Validated, starts_with_dot, character_class_pattern, compile_rule, compile_rules, compile,
}

abbrev pub Fits : Str → Type 0
Fits text = str_len text ≤ max_rule_text_bytes

abbrev pub Builds : {A : Type 0} → Option A → Type 0
Builds none = ⊥
Builds (some a) = Unit

module _ (lib : Libraries) where
  -- What a rule has to satisfy, rule by rule.
  abbrev pub IsValidRule : RenameRule → Type 0
  IsValidRule (RenameRule.prefix value) = Fits value
  IsValidRule (RenameRule.suffix value) = Fits value
  IsValidRule (RenameRule.literal_replace search_text replacement) =
      Fits search_text × Fits replacement × (is_empty search_text ≡ false)
  IsValidRule (RenameRule.regex_replace pattern' replacement) =
      Fits pattern' × Fits replacement × Builds (lib.build_limited pattern')
  IsValidRule (RenameRule.sequence scope order start step padding placement separator) =
      Fits separator × (0 < step) × (1 ≤ padding) × (padding ≤ max_sequence_padding)
  IsValidRule (RenameRule.extension_rule drop_extension) = Unit
  IsValidRule (RenameRule.extension_rule (replace_with value)) =
      Fits value × (is_empty value ≡ false) × (starts_with_dot value ≡ false)
  IsValidRule (RenameRule.case_rule target mode) = Unit
  IsValidRule (RenameRule.whitespace_cleanup target replacement) = Fits replacement
  IsValidRule (RenameRule.unicode_normalization target form) = Unit
  IsValidRule (RenameRule.range target operation origin offset len) = len ≢ some 0
  IsValidRule (RenameRule.character_class target operation class) =
      Builds (lib.new_regex (character_class_pattern class))

  -- A rule compiles exactly if it is valid, and an error names its position.
  abbrev RuleOutcome : ℕ → RenameRule → Validated (CompiledRule lib.Regex) → Type 0
  RuleOutcome index rule (ok compiled) = IsValidRule rule
  RuleOutcome index rule (err e) = (¬ IsValidRule rule) × (e.rule_index ≡ some index)

  compile_rule_outcome :
      (index : ℕ) (rule : RenameRule) → RuleOutcome index rule (compile_rule lib index rule)
  unfolding compile_rule
  compile_rule_outcome index (RenameRule.prefix value) = ground arith
  compile_rule_outcome index (RenameRule.suffix value) = ground arith
  compile_rule_outcome index (RenameRule.literal_replace search_text replacement) = ground arith
  compile_rule_outcome index (RenameRule.regex_replace pattern' replacement) = ground arith
  compile_rule_outcome index
        (RenameRule.sequence scope order start step padding placement separator) =
      ground arith
  compile_rule_outcome index (RenameRule.extension_rule drop_extension) = tt
  compile_rule_outcome index (RenameRule.extension_rule (replace_with value)) = ground arith
  compile_rule_outcome index (RenameRule.case_rule target mode) = tt
  compile_rule_outcome index (RenameRule.whitespace_cleanup target replacement) = ground arith
  compile_rule_outcome index (RenameRule.unicode_normalization target form) = tt
  compile_rule_outcome index (RenameRule.range target operation origin offset len) = ground arith
  compile_rule_outcome index (RenameRule.character_class target operation class) = ground arith

  -- The rule at the position is not valid, and those in front of it are.
  abbrev pub FirstInvalid : List RenameRule → ℕ → Type 0
  FirstInvalid rules i =
      All IsValidRule (take i rules)
      × (rule : RenameRule) × (get_elem? rules i ≡ some rule)
      × (¬ IsValidRule rule)

  abbrev RulesOutcome : ℕ → List RenameRule → Validated (List (CompiledRule lib.Regex)) → Type 0
  RulesOutcome index rules (ok compiled) = All IsValidRule rules × (length compiled ≡ length rules)
  RulesOutcome index rules (err e) =
      (i : ℕ) × (e.rule_index ≡ some (index + i)) × FirstInvalid rules i

  compile_rules_outcome :
      (index : ℕ) (rules : List RenameRule)
      → RulesOutcome index rules (compile_rules lib index rules)
  unfolding compile_rules
  compile_rules_outcome index [] = (tt, refl)
  compile_rules_outcome index (rule ∷ rules) = elim (Result-cases (compile_rule lib index rule)) [
    | inr (e, h) ↦
        let bad = subst (RuleOutcome index rule) h (compile_rule_outcome index rule) in
        rw h (0, bad.1 ∙ ap some (omega arith), (tt, rule, refl, bad.0))
    | inl (first, h) ↦
        let valid = subst (RuleOutcome index rule) h (compile_rule_outcome index rule) in
        rw h (elim (Result-cases (compile_rules lib (suc index) rules)) [
          | inr (e, h') ↦
              let (i, at, first_bad) =
                subst (RulesOutcome (suc index) rules) h'
                  (compile_rules_outcome (suc index) rules) in
              rw h' (
                suc i,
                at ∙ ap some (omega arith),
                ((valid, first_bad.0), first_bad.1, first_bad.2, first_bad.3),
              )
          | inl (rest, h') ↦
              let (all_valid, n) =
                subst (RulesOutcome (suc index) rules) h'
                  (compile_rules_outcome (suc index) rules) in
              rw h' ((valid, all_valid), ap suc n)
        ])
  ]

  -- The outcomes of `compile`.
  abbrev pub CompileOutcome : List RenameRule → Validated (RulePipeline lib.Regex) → Type 0
  CompileOutcome rules (ok pipeline) =
      (length rules ≤ max_rules)
      × All IsValidRule rules
      × (pipeline.rules ≡ rules)
      × (length pipeline.compiled ≡ length rules)
  CompileOutcome rules (err e) =
      ((max_rules < length rules) × (e.rule_index ≡ none) × (e.kind ≡ too_many_rules))
      ⊎ ((i : ℕ) × (e.rule_index ≡ some i) × FirstInvalid rules i)

  -- A list of rules compiles only if it has at most 32 rules, all of them valid, and the pipeline then
  -- keeps the rules with one compiled form for each. Otherwise the error names no rule and the list is
  -- too long, or it names the first rule that is not valid.
  pub compile_outcome : (rules : List RenameRule) → CompileOutcome rules (compile lib rules)
  unfolding compile
  compile_outcome rules = elim (Bool-cases (ltb max_rules (length rules))) [
    | inl long ↦ rw long (inl (ltb→lt _ _ long, refl, refl))
    | inr short ↦
        let fits : length rules ≤ max_rules = ground arith in
        rw short (elim (Result-cases (compile_rules lib 0 rules)) [
          | inr (e, h) ↦
              let (i, at, first) = subst (RulesOutcome 0 rules) h (compile_rules_outcome 0 rules) in
              rw h (inr (i, at ∙ ap some (omega arith), first))
          | inl (compiled, h) ↦
              let (valid, n) = subst (RulesOutcome 0 rules) h (compile_rules_outcome 0 rules) in
              rw h (fits, valid, refl, n)
        ])
  ]
