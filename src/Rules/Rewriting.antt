-- ===== src/Rules/Rewriting.antt =====
-- What the replacement of regular expression matches writes (crates/renamewright-core/src/rules.rs).

use renamewright.Common.{
  List, ltb, if◌then◌else◌, ok, err, append_assoc, ◌-◌, ◌++◌, ap, take, drop, ℕ, ◌≡◌, ◌∙◌, none,
  some, [], ◌∷◌, arith, length, ◌>>=◌, Option-cases, inl, inr,
}
use renamewright.Text.{str_len, from_str, Str}
use renamewright.Rules.Types.{max_rule_output_bytes, output_too_long, Span, Captures}
use renamewright.Rules.Literal.{bounded, bounded-append, append_bounded-bounded}
use renamewright.Rules.Regex.{
  replace_regex_loop, replace_regex_bounded, expand_loop, expand_regex_replacement_bounded,
}
use renamewright.Rules.Grammar.{Expands}
use renamewright.Rules.Expansion.{expand_loop-Expands}

-- What the matches make of the text: the replacement of each, expanded, and the text between them. A match
-- without its whole group is passed over.
pub data Rewrites (input replacement : Str) : ℕ → List Captures → Str → Type 0 where
  finished : (consumed : ℕ) → Rewrites input replacement consumed [] (drop consumed input)
  passed :
      (consumed : ℕ) (captures : Captures) (rest : List Captures) (out : Str)
      → captures.group 0 ≡ none
      → Rewrites input replacement consumed rest out
      → Rewrites input replacement consumed (captures ∷ rest) out
  replaced :
      (consumed : ℕ) (captures : Captures) (matched : Span) (rest : List Captures) (value out : Str)
      → captures.group 0 ≡ some matched
      → Expands input captures replacement value
      → Rewrites input replacement matched.end rest out
      → Rewrites input replacement consumed
          (captures ∷ rest)
          (take (matched.start - consumed) (drop consumed input) ++ (value ++ out))

replace_regex_loop-Rewrites :
    (input replacement : Str) (consumed : ℕ) (matches : List Captures)
    → (out : Str) × Rewrites input replacement consumed matches out
      × ((output : Str)
          → replace_regex_loop input replacement output consumed matches ≡ bounded (output ++ out))
unfolding replace_regex_loop expand_regex_replacement_bounded
replace_regex_loop-Rewrites input replacement consumed [] = (
  drop consumed input,
  finished consumed,
  λ output. append_bounded-bounded output (drop consumed input),
)
replace_regex_loop-Rewrites input replacement consumed (captures ∷ rest) =
    elim (Option-cases (captures.group 0)) [
      | inl missing ↦
          let (out, rewrites, runs) = replace_regex_loop-Rewrites input replacement consumed rest in
          (
            out,
            passed consumed captures rest out missing rewrites,
            λ output. rw (replace_regex_loop, missing) (runs output),
          )
      | inr (matched, found) ↦
          let (out, rewrites, runs) =
            replace_regex_loop-Rewrites input replacement matched.end rest in
          let (value, expands, expanding) =
            expand_loop-Expands input captures (length replacement) replacement (omega arith) in
          let before : Str = take (matched.start - consumed) (drop consumed input) in
          (
            before ++ (value ++ out),
            replaced consumed captures matched rest value out found expands rewrites,
            λ output.
                rw (replace_regex_loop, found)
                  (ap
                      (λ r. r >>= λ copied.
                        expand_loop (length replacement) input captures copied replacement
                        >>= λ expanded.
                            replace_regex_loop input replacement expanded matched.end rest)
                      (append_bounded-bounded output before)
                    ∙ bounded-append (output ++ before) (value ++ out) (λ u.
                      ap
                        (λ r. r >>= λ expanded.
                          replace_regex_loop input replacement expanded matched.end rest)
                        (expanding u)
                      ∙ bounded-append (u ++ value) out runs
                      ∙ ap bounded (append_assoc u value out))
                    ∙ ap bounded (append_assoc output before (value ++ out))),
          )
    ]

-- Replacing matches with the running bound gives the text in which each match is replaced by the expansion
-- of the replacement, if that text has at most 4,096 bytes, and the error "output too long" otherwise. In
-- an expansion `$$` stands for a dollar, a name in braces or the longest name behind a dollar for the
-- group of that number, or else of that name, or else for nothing, and any other dollar for itself.
pub replace_regex_bounded-Rewrites :
    (input : Str) (matches : List Captures) (replacement : Str)
    → (out : Str) × Rewrites input replacement 0 matches out
      × (replace_regex_bounded input matches replacement ≡ (
          if ltb max_rule_output_bytes (str_len out)
          then err output_too_long
          else ok (from_str out)))
unfolding replace_regex_bounded
replace_regex_bounded-Rewrites input matches replacement =
    let (out, rewrites, runs) = replace_regex_loop-Rewrites input replacement 0 matches in
    (out, rewrites, rw (runs []) (ground arith))
