-- ===== src/Rules/Expansion.antt =====
-- What a replacement expands to (crates/renamewright-core/src/rules.rs). The fuel of an expansion, the length of
-- the replacement, is enough.

use renamewright.Common.{
  append-nil, append_assoc, false, sym, ◌≢◌, ◌⊎◌, ◌++◌, Option, subst, ap, All, ℕ, zero, suc, ◌≤◌,
  ◌≡◌, ◌∙◌, none, some, [], ◌∷◌, arith, length, ◌>>=◌, Option-cases, inl, inr, Bool-cases, ◌==◌,
}
use renamewright.Text.{Str, split_once}
use renamewright.Rules.Types.{Captures, Applied}
use renamewright.Rules.Literal.{bounded, bounded-append, append_bounded-bounded}
use renamewright.Rules.Regex.{
  dollar, span_reference, is_reference, capture_reference, expand_one, append_some, expand_loop,
}
use renamewright.Rules.References.{
  split_once-shorter, expand_one-shorter, split_once_parts, split_once_missing,
  is_reference-IsWordChar, not-IsWordChar, span_reference-IsSpan,
}
use renamewright.Rules.Grammar.{
  Expands, ended, plain, escaped, braced, unclosed, unbraced, alone, find_capture-Stands,
}

module _ (input : Str) (captures : Captures) where
  -- What a round writes for the text behind a dollar.
  abbrev written : Option Str → Str
  written none = []
  written (some value) = value

  captured-written :
      (captured : Option Str) (value : Str)
      → (captured ≡ some value) ⊎ ((captured ≡ none) × (value ≡ []))
      → written captured ≡ value
  captured-written captured value (inl e) = ap written e
  captured-written captured value (inr (e, empty)) = ap written e ∙ sym empty

  abbrev Continues : Str → Option Str × Str → Type 0
  Continues behind (captured, rest) =
      (out : Str)
      → Expands input captures rest out
      → Expands input captures (b'$' ∷ behind) (written captured ++ out)

  braced-Continues : (s : Str) → Continues (b'{' ∷ s) (expand_one input captures (b'{' ∷ s))
  unfolding expand_one capture_reference
  braced-Continues s = elim (Option-cases (split_once b'}' s)) [
    | inl unclosed_brace ↦
        rw unclosed_brace (λ out h. unclosed s out (split_once_missing b'}' s unclosed_brace) h)
    | inr ((name, rest), split) ↦
        let (joined, clean) = split_once_parts b'}' s name rest split in
        let (value, stands, captured) = find_capture-Stands input captures name in
        rw (split, captured-written _ value captured)
          (λ out h.
            subst (λ t. Expands input captures (b'$' ∷ b'{' ∷ t) (value ++ out)) (sym joined)
              (braced name value rest out clean stands h))
  ]

  plain-Continues :
      (c : ℕ) (s : Str)
      → (c == b'$') ≡ false
      → (c == b'{') ≡ false
      → Continues (c ∷ s) (expand_one input captures (c ∷ s))
  unfolding expand_one capture_reference span_reference
  plain-Continues c s no_dollar no_brace = elim (Bool-cases (is_reference c)) [
    | inr other ↦
        rw (no_dollar, no_brace, other)
          (λ out h.
            alone (c ∷ s) out (not-IsWordChar c other) (λ rest p. ground (arith, no_dollar, p))
              (λ rest p. ground (arith, no_brace, p)) h)
    | inl word ↦
        let (joined, words, behind_word) = span_reference-IsSpan s in
        let (value, stands, captured) =
          find_capture-Stands input captures (c ∷ (span_reference s).0) in
        rw (no_dollar, no_brace, word, captured-written _ value captured)
          (λ out h.
            subst (λ t. Expands input captures (b'$' ∷ c ∷ t) (value ++ out)) (sym joined)
              (unbraced c (span_reference s).0 value (span_reference s).1 out
                (is_reference-IsWordChar c word, words) behind_word stands h))
  ]

  expand_one-Continues : (s : Str) → Continues s (expand_one input captures s)
  unfolding expand_one
  expand_one-Continues [] = λ out h. alone [] out tt (λ rest p. cc) (λ rest p. cc) h
  expand_one-Continues (c ∷ s) = elim (Bool-cases (c == b'$')) [
    | inl twice ↦ let same : c ≡ b'$' = ground arith in rw same (λ out h. escaped s out h)
    | inr no_dollar ↦ elim (Bool-cases (c == b'{')) [
      | inl brace ↦
          let same : c ≡ b'{' = ground arith in
          subst (λ d. Continues (d ∷ s) (expand_one input captures (d ∷ s))) (sym same)
            (braced-Continues s)
      | inr no_brace ↦ plain-Continues c s no_dollar no_brace
    ]
  ]

  -- The characters in front of the first dollar stand for themselves.
  plain-Expands :
      (before rest out : Str)
      → All (λ c. c ≢ b'$') before
      → Expands input captures rest out
      → Expands input captures (before ++ rest) (before ++ out)
  plain-Expands [] rest out clean h = h
  plain-Expands (c ∷ before) rest out (other, clean) h =
      plain c (before ++ rest) (before ++ out) other (plain-Expands before rest out clean h)

  append_some-written :
      (captured : Option Str) (output out : Str) (k : Str → Applied Str)
      → ((u : Str) → k u ≡ bounded (u ++ out))
      → (append_some output captured >>= k) ≡ bounded (output ++ (written captured ++ out))
  append_some-written none output out k h = h output
  append_some-written (some value) output out k h =
      ap (λ r. r >>= k) (append_bounded-bounded output value)
      ∙ bounded-append (output ++ value) out h
      ∙ ap bounded (append_assoc output value out)

  pub expand_loop-Expands :
      (fuel : ℕ) (remaining : Str)
      → length remaining ≤ fuel
      → (out : Str) × Expands input captures remaining out
        × ((output : Str)
            → expand_loop fuel input captures output remaining ≡ bounded (output ++ out))
  unfolding expand_loop
  expand_loop-Expands zero [] h = ([], ended, λ output. append_bounded-bounded output [])
  expand_loop-Expands zero (c ∷ s) h = absurd (omega arith)
  expand_loop-Expands (suc fuel) remaining h = elim (Option-cases (split_once dollar remaining)) [
    | inl no_dollar ↦ (
      remaining,
      subst (λ t. Expands input captures t t) (append-nil remaining)
          (plain-Expands remaining [] [] (split_once_missing dollar remaining no_dollar) ended),
      λ output. rw (expand_loop, no_dollar) (append_bounded-bounded output remaining),
    )
    | inr ((before, behind), split) ↦
        let (joined, clean) = split_once_parts dollar remaining before behind split in
        let step : Option Str × Str = expand_one input captures behind in
        let shorter : length step.1 ≤ fuel = omega (
          arith,
          split_once-shorter dollar remaining split,
          expand_one-shorter input captures behind,
        ) in
        let (out, expands, runs) = expand_loop-Expands fuel step.1 shorter in
        (
          before ++ (written step.0 ++ out),
          subst (λ t. Expands input captures t (before ++ (written step.0 ++ out))) (sym joined)
              (plain-Expands before (b'$' ∷ behind) (written step.0 ++ out) clean
                (expand_one-Continues behind out expands)),
          λ output.
              rw (expand_loop, split)
                (ap
                    (λ r. r >>= λ copied. append_some copied step.0 >>= λ expanded.
                      expand_loop fuel input captures expanded step.1)
                    (append_bounded-bounded output before)
                  ∙ bounded-append (output ++ before) (written step.0 ++ out)
                      (λ u. append_some-written step.0 u out _ runs)
                  ∙ ap bounded (append_assoc output before (written step.0 ++ out))),
        )
  ]
