-- ===== src/Rules/Literal.antt =====
-- The literal replacement with its running bound, against a plain description.
use renamewright.Common.{
  ℕ, zero, suc, ◌+◌, ◌-◌, ◌≡◌, refl, sym, ap, ◌∙◌, false, List, [], ◌∷◌, ◌++◌, append_assoc, arith,
  ltb, if◌then◌else◌, length, is_empty, drop, drop-append, take-append, drop-past, length-append,
  ok, err, ◌>>=◌, Bool-cases, inl, inr,
}
use renamewright.Text.{Str, from_str, str_len, str_len-append}
use renamewright.Rules.Types.{max_rule_output_bytes, Applied, output_too_long}
use renamewright.Rules.Text.{
  append_bounded, slice, is_prefix, match_indices_from, match_indices, replace_literal_loop,
  replace_literal_bounded,
}

-- The text, if its bytes fit.
abbrev pub bounded : Str → Applied Str
bounded s = if ltb max_rule_output_bytes (str_len s) then err output_too_long else ok s

pub append_bounded-bounded :
    (output value : Str) → append_bounded output value ≡ bounded (output ++ value)
unfolding append_bounded
append_bounded-bounded output value = ground (arith, str_len-append output value)

-- Once a text is too long, so is every text that begins with it.
pub bounded-append :
    (s t : Str) {k : Str → Applied Str}
    → ((u : Str) → k u ≡ bounded (u ++ t))
    → (bounded s >>= k) ≡ bounded (s ++ t)
bounded-append s t h = ground (arith, str_len-append s t, h s)

-- The text with each match from the left replaced; `skip` characters still belong to a match.
unfoldable pub replaced : Str → Str → ℕ → Str → Str
replaced search_text replacement skip [] = []
replaced search_text replacement (suc skip) (c ∷ text) = replaced search_text replacement skip text
replaced search_text replacement zero (c ∷ text) =
    if is_prefix search_text (c ∷ text)
    then replacement ++ replaced search_text replacement (length search_text - 1) text
    else c ∷ replaced search_text replacement zero text

module _ (input search_text replacement : Str) where
  -- What the loop writes behind its output, with no bound.
  pieces : ℕ → List ℕ → Str
  pieces consumed [] = drop consumed input
  pieces consumed (offset ∷ offsets) =
      slice input consumed offset ++ (replacement ++ pieces (offset + length search_text) offsets)

  replace_literal_loop-pieces :
      (output : Str) (consumed : ℕ) (offsets : List ℕ)
      → replace_literal_loop input search_text replacement output consumed offsets
        ≡ bounded (output ++ pieces consumed offsets)
  unfolding replace_literal_loop pieces
  replace_literal_loop-pieces output consumed [] =
      append_bounded-bounded output (drop consumed input)
  replace_literal_loop-pieces output consumed (offset ∷ offsets) =
      let before = slice input consumed offset in
      let rest = pieces (offset + length search_text) offsets in
      rw (append_bounded-bounded output before) (
        bounded-append (output ++ before) (replacement ++ rest) (λ u.
          rw (append_bounded-bounded u replacement) (
            bounded-append (u ++ replacement) rest
              (λ v. replace_literal_loop-pieces v (offset + length search_text) offsets)
            ∙ ap bounded (append_assoc u replacement rest)))
        ∙ ap bounded (append_assoc output before (replacement ++ rest)))

  -- What the matches from a position on make of the rest of the text: with characters of the last
  -- match still to come, and without, where `mid` has been read since the last match.
  abbrev FromHere : Str → Type 0
  FromHere rest =
      ((pre mid : Str)
        → input ≡ pre ++ (mid ++ rest)
        → pieces (length pre) (match_indices_from search_text 0 (length pre + length mid) rest)
          ≡ mid ++ replaced search_text replacement 0 rest)
      × ((pre : Str) (skip : ℕ)
          → input ≡ pre ++ rest
          → pieces (length pre + suc skip)
              (match_indices_from search_text (suc skip) (length pre) rest)
            ≡ replaced search_text replacement (suc skip) rest)

  slice_mid :
      (pre mid rest : Str)
      → input ≡ pre ++ (mid ++ rest)
      → slice input (length pre) (length pre + length mid) ≡ mid
  slice_mid pre mid rest e =
      let n : length pre + length mid - length pre ≡ length mid = omega arith in
      rw (e, drop-append pre (mid ++ rest), n) (take-append mid rest)

  resume :
      (rest pre : Str) (skip : ℕ)
      → FromHere rest
      → input ≡ pre ++ rest
      → pieces (length pre + skip) (match_indices_from search_text skip (length pre) rest)
        ≡ replaced search_text replacement skip rest
  resume rest pre zero ih e =
      let n : length pre + 0 ≡ length pre = omega arith in let h = ih.0 pre [] e in rw n (rw n at h)
  resume rest pre (suc skip) ih e = ih.1 pre skip e

  -- One more character read, at the end of what has been read.
  grown :
      (pre mid : Str) (c : ℕ) (rest : Str)
      → input ≡ pre ++ (mid ++ c ∷ rest)
      → input ≡ (pre ++ (mid ++ c ∷ [])) ++ rest
  grown pre mid c rest e =
      e
      ∙ ap (λ t. pre ++ t) (sym (append_assoc mid (c ∷ []) rest))
      ∙ sym (append_assoc pre (mid ++ c ∷ []) rest)

  length-grown :
      (pre mid : Str) (c : ℕ) → length (pre ++ (mid ++ c ∷ [])) ≡ suc (length pre + length mid)
  length-grown pre mid c =
      omega (arith, length-append pre (mid ++ c ∷ []), length-append mid (c ∷ []))

  module _ (some_text : is_empty search_text ≡ false) where
    search_length : (n : ℕ) → n + length search_text ≡ suc n + (length search_text - 1)
    search_length n = ground arith

    FromHere-nil : FromHere []
    unfolding pieces match_indices_from replaced
    FromHere-nil = (
      λ pre mid e. rw (some_text, e) (drop-append pre (mid ++ [])),
      λ pre skip e.
          drop-past (length pre + suc skip) input
            (omega (arith, ap length e, length-append pre [])),
    )

    matched_here :
        (pre mid : Str) (c : ℕ) (rest : Str)
        → FromHere rest
        → input ≡ pre ++ (mid ++ c ∷ rest)
        → pieces (length pre) (
            (length pre + length mid)
            ∷ match_indices_from search_text
                (length search_text - 1)
                (suc (length pre + length mid))
                rest)
          ≡ mid ++ (replacement ++ replaced search_text replacement (length search_text - 1) rest)
    unfolding pieces
    matched_here pre mid c rest ih e =
        let h =
          resume rest (pre ++ (mid ++ c ∷ [])) (length search_text - 1) ih
            (grown pre mid c rest e) in
        let h' = rw (length-grown pre mid c) at h in
        rw (slice_mid pre mid (c ∷ rest) e, search_length (length pre + length mid), h')

    unmatched_here :
        (pre mid : Str) (c : ℕ) (rest : Str)
        → FromHere rest
        → input ≡ pre ++ (mid ++ c ∷ rest)
        → pieces
            (length pre)
            (match_indices_from search_text 0 (suc (length pre + length mid)) rest)
          ≡ mid ++ c ∷ replaced search_text replacement 0 rest
    unmatched_here pre mid c rest ih e =
        let n : length pre + length (mid ++ c ∷ []) ≡ suc (length pre + length mid) =
          omega (arith, length-append mid (c ∷ [])) in
        let h =
          ih.0 pre (mid ++ c ∷ [])
            (e ∙ ap (λ t. pre ++ t) (sym (append_assoc mid (c ∷ []) rest))) in
        (rw n at h) ∙ append_assoc mid (c ∷ []) (replaced search_text replacement 0 rest)

    from_here : (rest : Str) → FromHere rest
    unfolding match_indices_from replaced
    from_here [] = FromHere-nil
    from_here (c ∷ rest) =
        let ih = from_here rest in
        (
          λ pre mid e. elim (Bool-cases (is_prefix search_text (c ∷ rest))) [
            | inl found ↦ rw found (matched_here pre mid c rest ih e)
            | inr missing ↦ rw missing (unmatched_here pre mid c rest ih e)
          ],
          λ pre skip e.
              let h = resume rest (pre ++ c ∷ []) skip ih (grown pre [] c rest e) in
              let n : length (pre ++ c ∷ []) ≡ suc (length pre) =
                omega (arith, length-append pre (c ∷ [])) in
              let m : suc (length pre) + skip ≡ length pre + suc skip = omega arith in
              rw (← m) (rw n at h),
        )

-- Replacing a non-empty search text with the running bound gives the input with its matches from the left
-- replaced if that has at most 4,096 bytes, and the error "output too long" otherwise: the bound on
-- the parts refuses nothing that the whole would pass.
pub replace_literal_bounded_lem :
    (input search_text replacement : Str)
    → is_empty search_text ≡ false
    → replace_literal_bounded input search_text replacement ≡ (
        if ltb max_rule_output_bytes (str_len (replaced search_text replacement 0 input))
        then err output_too_long
        else ok (from_str (replaced search_text replacement 0 input)))
unfolding replace_literal_bounded match_indices
replace_literal_bounded_lem input search_text replacement h =
    let whole = (from_here input search_text replacement h input).0 [] [] refl in
    rw
      (
        replace_literal_loop-pieces input search_text replacement [] 0
            (match_indices_from search_text 0 0 input),
        whole,
      )
      (ground arith)
