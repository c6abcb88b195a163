-- ===== src/Rules/References.antt =====
-- The references of a replacement, as they are split off (crates/renamewright-core/src/rules.rs).

use renamewright.Common.{
  true, false, ◌≢◌, ◌⊎◌, ◌++◌, Option, subst, ap, All, ℕ, ◌≤◌, ◌<◌, ◌≡◌, refl, ◌∙◌, none, some, [],
  ◌∷◌, arith, length, Option-cases, inl, inr, Bool-cases, ◌==◌,
}
use renamewright.Text.{Str, split_once}
use renamewright.Rules.Types.{Captures}
use renamewright.Rules.Regex.{span_reference, is_digit, is_reference, capture_reference, expand_one}

pub split_once-shorter :
    (c : ℕ) (s : Str) {before after : Str}
    → split_once c s ≡ some (before, after)
    → length after < length s
unfolding split_once
split_once-shorter c [] h = absurd (ground arith)
split_once-shorter c (d ∷ s) {before} {after} h = elim (Option-cases (split_once c s)) [
  | inl e ↦ ground (arith, e)
  | inr (p, e) ↦ ground (arith, split_once-shorter c s {before = p.0} {after = p.1} e)
]

span_reference-shorter : (s : Str) → length (span_reference s).1 ≤ length s
unfolding span_reference
span_reference-shorter [] = omega arith
span_reference-shorter (c ∷ s) = ground (arith, span_reference-shorter s)

capture_reference-shorter :
    (s : Str) {reference rest : Str}
    → capture_reference s ≡ some (reference, rest)
    → length rest ≤ length s
unfolding capture_reference
capture_reference-shorter [] h = absurd (ground arith)
capture_reference-shorter (c ∷ s) {reference} {rest} h = elim (Bool-cases (c == b'{')) [
  | inl brace ↦
      let h' : split_once b'}' s ≡ some (reference, rest) = rw brace at h in
      omega (arith, split_once-shorter b'}' s h')
  | inr plain ↦ ground (arith, span_reference-shorter (c ∷ s))
]

pub expand_one-shorter :
    (input : Str) (captures : Captures) (s : Str)
    → length (expand_one input captures s).1 ≤ length s
unfolding expand_one
expand_one-shorter input captures [] = omega arith
expand_one-shorter input captures (c ∷ s) = elim (Option-cases (capture_reference (c ∷ s))) [
  | inl e ↦ ground (arith, e)
  | inr (p, e) ↦ ground (arith, capture_reference-shorter (c ∷ s) {reference = p.0} {rest = p.1} e)
]

-- The text in front of a separator, which does not hold it.
pub split_once_parts :
    (sep : ℕ) (s before behind : Str)
    → split_once sep s ≡ some (before, behind)
    → (s ≡ before ++ sep ∷ behind) × All (λ c. c ≢ sep) before
unfolding split_once
split_once_parts sep [] before behind e = absurd (ground arith)
split_once_parts sep (c ∷ s) before behind e = elim (Bool-cases (c == sep)) [
  | inl found ↦
      let (nothing, rest) = some_pair [] s before behind (rw found at e) in
      let same : c ≡ sep = ground arith in
      (rw (← nothing, ← rest, same) refl, subst (All (λ d. d ≢ sep)) nothing tt)
  | inr missing ↦ elim (Option-cases (split_once sep s)) [
    | inl none_left ↦ absurd (ground (arith, none_left, missing, e))
    | inr (p, more) ↦
        let (front, rest) = some_pair (c ∷ p.0) p.1 before behind (rw (missing, more) at e) in
        let (joined, clean) = split_once_parts sep s p.0 p.1 more in
        (
          subst (λ b. c ∷ s ≡ b ++ sep ∷ behind) front
              (ap (λ t. c ∷ t) (joined ∙ ap (λ t. p.0 ++ sep ∷ t) rest)),
          subst (All (λ d. d ≢ sep)) front ((λ same. ground (arith, missing, same)), clean),
        )
  ]
]
  where
    some_pair :
        (a b x y : Str)
        → ◌≡◌ {A = Option (Str × Str)} (some (a, b)) (some (x, y))
        → (a ≡ x) × (b ≡ y)
    some_pair a b x y p = (cc, cc)

pub split_once_missing : (sep : ℕ) (s : Str) → split_once sep s ≡ none → All (λ c. c ≢ sep) s
unfolding split_once
split_once_missing sep [] e = tt
split_once_missing sep (c ∷ s) e = elim (Bool-cases (c == sep)) [
  | inl found ↦ absurd (ground (arith, found, e))
  | inr missing ↦ elim (Option-cases (split_once sep s)) [
    | inl none_left ↦ ((λ same. ground (arith, missing, same)), split_once_missing sep s none_left)
    | inr (p, more) ↦ absurd (ground (arith, more, missing, e))
  ]
]

-- The characters of a name behind a dollar: digits, letters and the underscore.
abbrev pub IsWordChar : ℕ → Type 0
IsWordChar c =
    ((b'0' ≤ c) × (c ≤ b'9'))
    ⊎ (((b'A' ≤ c) × (c ≤ b'Z')) ⊎ (((b'a' ≤ c) × (c ≤ b'z')) ⊎ (c ≡ b'_')))

-- No name goes on here.
abbrev pub NoWordChar : Str → Type 0
NoWordChar [] = Unit
NoWordChar (c ∷ s) = ¬ IsWordChar c

pub is_reference-IsWordChar : (c : ℕ) → is_reference c ≡ true → IsWordChar c
unfolding is_reference is_digit
is_reference-IsWordChar c h = ground arith

pub not-IsWordChar : (c : ℕ) → is_reference c ≡ false → ¬ IsWordChar c
unfolding is_reference is_digit
not-IsWordChar c h = ground arith

-- The longest front part of characters of a name.
abbrev pub IsSpan : Str → Str × Str → Type 0
IsSpan s (name, rest) = (s ≡ name ++ rest) × All IsWordChar name × NoWordChar rest

pub span_reference-IsSpan : (s : Str) → IsSpan s (span_reference s)
unfolding span_reference
span_reference-IsSpan [] = (refl, tt, tt)
span_reference-IsSpan (c ∷ s) =
    let (joined, words, behind_word) = span_reference-IsSpan s in
    elim (Bool-cases (is_reference c)) [
      | inl word ↦
          rw word (ap (λ t. c ∷ t) joined, (is_reference-IsWordChar c word, words), behind_word)
      | inr other ↦ rw other (refl, tt, not-IsWordChar c other)
    ]
