-- ===== src/Rules/Regex.antt =====
-- crates/renamewright-core/src/rules.rs: the replacement of matches of a regular expression.
use renamewright.Common.{
  ℕ, zero, suc, ◌+◌, ◌-◌, ◌*◌, Bool, ◌&&◌, ◌||◌, Option, none, some, List, [], ◌∷◌, ◌==◌, leb,
  if◌then◌else◌, length, is_empty, drop, checked, ok, ◌>>=◌,
}
use mathlib.Core.Option
use renamewright.Text.{Str, OsString, from_str, split_once}
use renamewright.Rules.Types.{Span, Captures, Applied}
use renamewright.Rules.Text.{append_bounded, slice}

abbrev pub dollar : ℕ
dollar = b'$'

unfoldable pub is_digit : ℕ → Bool
is_digit c = leb b'0' c && leb c b'9'

-- The characters of an unbraced capture name: ASCII letters and digits, and `_`.
unfoldable pub is_reference : ℕ → Bool
unfolding is_digit
is_reference c = is_digit c || leb b'A' c && leb c b'Z' || leb b'a' c && leb c b'z' || c == b'_'

-- The longest front part whose characters are those of a name, and the rest.
unfoldable pub span_reference : Str → Str × Str
unfolding is_reference
span_reference [] = ([], [])
span_reference (c ∷ s) =
    let (name, rest) = span_reference s in if is_reference c then (c ∷ name, rest) else ([], c ∷ s)

-- `capture_reference` behind the dollar: the name, and what follows the reference.
unfoldable pub capture_reference : Str → Option (Str × Str)
capture_reference [] = none
capture_reference (c ∷ s) =
    if c == b'{'
    then split_once b'}' s
    else let (name, rest) = span_reference (c ∷ s) in
      if is_empty name then none else some (name, rest)

unfoldable pub parse_digits : ℕ → Str → Option ℕ
parse_digits n [] = some n
parse_digits n (c ∷ s) =
    if is_digit c
    then (elim (checked (n * 10 + (c - b'0'))) [ none ↦ none | some m ↦ parse_digits m s ])
    else none

abbrev pub non_empty_digits : Str → Option ℕ
non_empty_digits s = if is_empty s then none else parse_digits 0 s

-- `str::parse::<usize>`: an optional plus sign and at least one digit.
unfoldable pub parse_usize : Str → Option ℕ
unfolding parse_digits is_digit
parse_usize [] = none
parse_usize (c ∷ s) = if c == b'+' then non_empty_digits s else non_empty_digits (c ∷ s)

-- The captured group that a reference names: by its number, or else by its name.
unfoldable pub find_capture : Captures → Str → Option Span
unfolding parse_usize
find_capture captures reference = elim (Option.bind (parse_usize reference) captures.group) [
  | some span ↦ some span
  | none ↦ captures.named reference
]

abbrev pub captured_text : Str → Option Span → Option Str
captured_text input none = none
captured_text input (some span) = some (slice input span.start span.end)

-- What the loop appends for the text behind a dollar, if anything, and the text that is left.
unfoldable pub expand_one : Str → Captures → Str → Option Str × Str
expand_one input captures [] = (some (dollar ∷ []), [])
expand_one input captures (c ∷ s) =
    if c == dollar then (some (dollar ∷ []), s) else elim (capture_reference (c ∷ s)) [
      | none ↦ (some (dollar ∷ []), c ∷ s)
      | some (reference, rest) ↦ (captured_text input (find_capture captures reference), rest)
    ]

abbrev pub append_some : Str → Option Str → Applied Str
append_some output none = ok output
append_some output (some value) = append_bounded output value

-- `while let Some(dollar_offset) = remaining.find('$')`, a round for each unit of fuel.
unfoldable pub expand_loop : ℕ → Str → Captures → Str → Str → Applied Str
expand_loop zero input captures output remaining = append_bounded output remaining
expand_loop (suc fuel) input captures output remaining = elim (split_once dollar remaining) [
  | none ↦ append_bounded output remaining
  | some (before, behind) ↦ do
    output' ← append_bounded output before
    output'' ← append_some output' (expand_one input captures behind).0
    expand_loop fuel input captures output'' (expand_one input captures behind).1
]

-- Each round drops a dollar, so a replacement has at most as many rounds as characters.
unfoldable pub expand_regex_replacement_bounded : Str → Captures → Str → Str → Applied Str
expand_regex_replacement_bounded input captures output replacement =
    expand_loop (length replacement) input captures output replacement

unfoldable pub replace_regex_loop : Str → Str → Str → ℕ → List Captures → Applied Str
replace_regex_loop input replacement output consumed [] =
    append_bounded output (drop consumed input)
replace_regex_loop input replacement output consumed (captures ∷ rest) = elim (captures.group 0) [
  | none ↦ replace_regex_loop input replacement output consumed rest
  | some matched ↦ do
    before ← append_bounded output (slice input consumed matched.start)
    expanded ← expand_regex_replacement_bounded input captures before replacement
    replace_regex_loop input replacement expanded matched.end rest
]

unfoldable pub replace_regex_bounded : Str → List Captures → Str → Applied OsString
unfolding replace_regex_loop
replace_regex_bounded input matches replacement = do
  output ← replace_regex_loop input replacement [] 0 matches
  ok (from_str output)
