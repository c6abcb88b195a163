-- ===== src/Rules/Whitespace.antt =====
-- The whitespace cleanup against the words of the text.
use renamewright.Common.{
  ℕ, ◌≡◌, refl, sym, ap, ◌∙◌, Bool, true, false, List, [], ◌∷◌, ◌++◌, append-nil, append_assoc,
  if◌then◌else◌, is_empty, All, Bool-cases, inl, inr,
}
use renamewright.Text.{Str}
use renamewright.Rules.Text.{is_whitespace, cleanup_loop, cleanup_whitespace}

-- The text begins inside a word.
abbrev in_word : Str → Bool
in_word [] = false
in_word (c ∷ s) = if is_whitespace c then false else true

abbrev join_first : ℕ → List Str → List Str
join_first c [] = (c ∷ []) ∷ []
join_first c (w ∷ ws) = (c ∷ w) ∷ ws

-- The words of a text: its longest runs of characters that are not whitespace.
unfoldable pub words : Str → List Str
words [] = []
words (c ∷ s) =
    if is_whitespace c
    then words s
    else if in_word s
    then join_first c (words s)
    else (c ∷ []) ∷ words s

-- Each word behind a separator.
abbrev followed : Str → List Str → Str
followed separator [] = []
followed separator (w ∷ ws) = separator ++ (w ++ followed separator ws)

-- The words with the separator between them.
abbrev pub join : Str → List Str → Str
join separator [] = []
join separator (w ∷ ws) = w ++ followed separator ws

-- What is still to be written inside a word.
abbrev rest_of : Str → Bool → List Str → Str
rest_of separator true ws = join separator ws
rest_of separator false ws = followed separator ws

not_empty_append : (s : Str) (c : ℕ) → is_empty (s ++ c ∷ []) ≡ false
not_empty_append [] c = refl
not_empty_append (d ∷ s) c = refl

-- The words when a word begins or goes on with `c`.
abbrev with_char : ℕ → Bool → List Str → List Str
with_char c inside ws = if inside then join_first c ws else (c ∷ []) ∷ ws

module _ (separator : Str) where
  join-with_char :
      (c : ℕ) (inside : Bool) (ws : List Str)
      → join separator (with_char c inside ws) ≡ c ∷ rest_of separator inside ws
  join-with_char c true [] = refl
  join-with_char c true (w ∷ ws) = refl
  join-with_char c false ws = refl

  followed-with_char :
      (c : ℕ) (inside : Bool) (ws : List Str)
      → followed separator (with_char c inside ws) ≡ separator ++ c ∷ rest_of separator inside ws
  followed-with_char c true [] = refl
  followed-with_char c true (w ∷ ws) = refl
  followed-with_char c false ws = refl

  cleanup_inside :
      (text result : Str)
      → is_empty result ≡ false
      → (cleanup_loop separator result false text
          ≡ result ++ rest_of separator (in_word text) (words text))
        × (cleanup_loop separator result true text ≡ result ++ followed separator (words text))
  unfolding cleanup_loop words
  cleanup_inside [] result h = (sym (append-nil result), sym (append-nil result))
  cleanup_inside (c ∷ text) result h = elim (Bool-cases (is_whitespace c)) [
    | inl w ↦ let ih = (cleanup_inside text result h).1 in rw (w, h) (ih, ih)
    | inr n ↦
        let inside = in_word text in
        let ws = words text in
        let ih = λ (r : Str). (cleanup_inside text (r ++ c ∷ []) (not_empty_append r c)).0 in
        rw n (
          ih result
              ∙ append_assoc result (c ∷ []) (rest_of separator inside ws)
              ∙ ap (λ t. result ++ t) (sym (join-with_char c inside ws)),
          ih (result ++ separator)
              ∙ append_assoc (result ++ separator) (c ∷ []) (rest_of separator inside ws)
              ∙ append_assoc result separator (c ∷ rest_of separator inside ws)
              ∙ ap (λ t. result ++ t) (sym (followed-with_char c inside ws)),
        )
  ]

  cleanup_outside :
      (text : Str) → cleanup_loop separator [] false text ≡ join separator (words text)
  unfolding cleanup_loop words
  cleanup_outside [] = refl
  cleanup_outside (c ∷ text) = elim (Bool-cases (is_whitespace c)) [
    | inl w ↦ rw w (cleanup_outside text)
    | inr n ↦
        rw n (
          (cleanup_inside text (c ∷ []) refl).0
          ∙ sym (join-with_char c (in_word text) (words text)))
  ]

-- A word has a character, and no whitespace.
abbrev pub IsWord : Str → Type 0
IsWord w = (is_empty w ≡ false) × All (λ c. is_whitespace c ≡ false) w

join_first-IsWord :
    (c : ℕ) (ws : List Str) → is_whitespace c ≡ false → All IsWord ws → All IsWord (join_first c ws)
join_first-IsWord c [] h a = ((refl, (h, tt)), tt)
join_first-IsWord c (w ∷ ws) h a = ((refl, (h, a.0.1)), a.1)

words-IsWord : (text : Str) → All IsWord (words text)
unfolding words
words-IsWord [] = tt
words-IsWord (c ∷ text) = elim (Bool-cases (is_whitespace c)) [
  | inl w ↦ rw w (words-IsWord text)
  | inr n ↦ rw n (elim (Bool-cases (in_word text)) [
    | inl i ↦ rw i (join_first-IsWord c (words text) n (words-IsWord text))
    | inr o ↦ rw o ((refl, (n, tt)), words-IsWord text)
  ])
]

-- The cleanup joins the words of the text, its runs of characters other than whitespace, by the
-- replacement: nothing is written for whitespace at either end.
pub cleanup_whitespace-words :
    (text replacement : Str)
    → (cleanup_whitespace text replacement ≡ join replacement (words text))
      × All IsWord (words text)
unfolding cleanup_whitespace
cleanup_whitespace-words text replacement = (cleanup_outside replacement text, words-IsWord text)
