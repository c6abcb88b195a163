-- ===== src/Rules/Grammar.antt =====
-- The grammar of replacements: references to captures among plain text
-- (crates/renamewright-core/src/rules.rs).
use mathlib.Core.Option
use renamewright.Common.{
  ◌-◌, ◌≢◌, ◌⊎◌, ◌++◌, ap, All, take, drop, ℕ, ◌≡◌, refl, ◌∙◌, none, some, [], ◌∷◌, Option-cases,
  inl, inr,
}
use renamewright.Text.{Str}
use renamewright.Rules.Types.{Span, Captures}
use renamewright.Rules.Regex.{find_capture, captured_text, parse_usize}
use renamewright.Rules.References.{IsWordChar, NoWordChar}

module _ (input : Str) (captures : Captures) where
  abbrev pub Numbered : Str → Span → Type 0
  Numbered name span = (n : ℕ) × (parse_usize name ≡ some n) × (captures.group n ≡ some span)

  -- What a name stands for: the group of that number, or else the group of that name, or else nothing.
  pub data Stands (name value : Str) : Type 0 where
    by_number :
        (span : Span)
        → Numbered name span
        → value ≡ take (span.end - span.start) (drop span.start input)
        → Stands name value
    by_name :
        (span : Span)
        → ((other : Span) → ¬ Numbered name other)
        → captures.named name ≡ some span
        → value ≡ take (span.end - span.start) (drop span.start input)
        → Stands name value
    by_nothing :
        ((other : Span) → ¬ Numbered name other)
        → captures.named name ≡ none
        → value ≡ []
        → Stands name value

  -- What a replacement expands to, read from the left.
  pub data Expands : Str → Str → Type 0 where
    ended : Expands [] []
    plain : (c : ℕ) (s out : Str) → c ≢ b'$' → Expands s out → Expands (c ∷ s) (c ∷ out)
    escaped : (s out : Str) → Expands s out → Expands (b'$' ∷ b'$' ∷ s) (b'$' ∷ out)
    braced :
        (name value s out : Str)
        → All (λ c. c ≢ b'}') name
        → Stands name value
        → Expands s out
        → Expands (b'$' ∷ b'{' ∷ (name ++ b'}' ∷ s)) (value ++ out)
    unclosed :
        (s out : Str)
        → All (λ c. c ≢ b'}') s
        → Expands (b'{' ∷ s) out
        → Expands (b'$' ∷ b'{' ∷ s) (b'$' ∷ out)
    unbraced :
        (c : ℕ) (name value s out : Str)
        → All IsWordChar (c ∷ name)
        → NoWordChar s
        → Stands (c ∷ name) value
        → Expands s out
        → Expands (b'$' ∷ ((c ∷ name) ++ s)) (value ++ out)
    alone :
        (s out : Str)
        → NoWordChar s
        → ((rest : Str) → s ≢ b'$' ∷ rest)
        → ((rest : Str) → s ≢ b'{' ∷ rest)
        → Expands s out
        → Expands (b'$' ∷ s) (b'$' ∷ out)

module _ (input : Str) (captures : Captures) where
  pub find_capture-Stands :
      (name : Str)
      → (value : Str) × Stands input captures name value
        × ((captured_text input (find_capture captures name) ≡ some value)
            ⊎ ((captured_text input (find_capture captures name) ≡ none) × (value ≡ [])))
  unfolding find_capture
  find_capture-Stands name = elim (Option-cases (Option.bind (parse_usize name) captures.group)) [
    | inr (span, found) ↦
        let value : Str = take (span.end - span.start) (drop span.start input) in
        let by_its_number : find_capture captures name ≡ some span =
          rw (find_capture, found) refl in
        (
          value,
          by_number span (bound_group span found) refl,
          inl (ap (captured_text input) by_its_number),
        )
    | inl missing ↦
        let unnumbered : (other : Span) → ¬ Numbered input captures name other =
          λ other (n, parsed, group). absurd (clash other n parsed group missing) in
        let at_name : find_capture captures name ≡ captures.named name =
          rw (find_capture, missing) refl in
        elim (Option-cases (captures.named name)) [
          | inr (span, named) ↦
              let value : Str = take (span.end - span.start) (drop span.start input) in
              (
                value,
                by_name span unnumbered named refl,
                inl (ap (captured_text input) (at_name ∙ named)),
              )
          | inl unnamed ↦ (
            [],
            by_nothing unnumbered unnamed refl,
            inr (ap (captured_text input) (at_name ∙ unnamed), refl),
          )
        ]
  ]
    where
      bound_group :
          (span : Span)
          → Option.bind (parse_usize name) captures.group ≡ some span
          → Numbered input captures name span
      bound_group span found = (Option.bind-eq-some_iff (parse_usize name) captures.group).0 found

      clash :
          (other : Span) (n : ℕ)
          → parse_usize name ≡ some n
          → captures.group n ≡ some other
          → Option.bind (parse_usize name) captures.group ≡ none
          → ⊥
      clash other n parsed group missing =
          let found =
            (Option.bind-eq-some_iff (parse_usize name) captures.group).1 (n, parsed, group) in
          cc
