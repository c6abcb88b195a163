-- ===== src/Windows/Valid.antt =====
-- Which names `validate_name` accepts.
use renamewright.Common.{ℕ, ◌≤◌, ◌≡◌, ◌≢◌, ◌↔◌, refl, false, [], ◌∷◌, arith, All, any}
use renamewright.Text.{Str}
use renamewright.Windows.{
  illegal_characters, is_illegal, is_trailing, ends_with_trailing, utf16_len, is_reserved,
  validate_name,
}

-- A printable character that is none of `<>:"/\|?*`.
abbrev pub IsLegal : ℕ → Type 0
IsLegal c = (0x20 ≤ c) × All (λ d. c ≢ d) illegal_characters

-- The last character, if there is one, is neither a space nor a dot.
abbrev pub EndsPlain : Str → Type 0
EndsPlain [] = Unit
EndsPlain (c ∷ []) = (c ≢ b' ') × (c ≢ b'.')
EndsPlain (c ∷ d ∷ s) = EndsPlain (d ∷ s)

IsLegal-iff : (c : ℕ) → (is_illegal c ≡ false) ↔ IsLegal c
unfolding is_illegal
IsLegal-iff c = (λ h. ground arith, λ h. ground arith)

any_illegal_iff : (name : Str) → (any is_illegal name ≡ false) ↔ All IsLegal name
any_illegal_iff [] = (λ _. tt, λ _. refl)
any_illegal_iff (c ∷ s) = go (IsLegal-iff c) (any_illegal_iff s)
  where
    go :
        (is_illegal c ≡ false) ↔ IsLegal c
        → (any is_illegal s ≡ false) ↔ All IsLegal s
        → (any is_illegal (c ∷ s) ≡ false) ↔ All IsLegal (c ∷ s)
    go p q = (λ h. (p.0 (ground arith), q.0 (ground arith)), λ h. ground (arith, p.1 h.0, q.1 h.1))

EndsPlain-iff : (name : Str) → (ends_with_trailing name ≡ false) ↔ EndsPlain name
unfolding ends_with_trailing is_trailing
EndsPlain-iff [] = (λ _. tt, λ _. refl)
EndsPlain-iff (c ∷ []) = (λ h. ground arith, λ h. ground arith)
EndsPlain-iff (c ∷ d ∷ s) = EndsPlain-iff (d ∷ s)

-- A name passes the Windows checks exactly when all its characters are legal, it does not end in a
-- space or a dot, it is not reserved, and it has at most 255 UTF-16 units.
pub validate_name-accepts :
    (name : Str)
    → (validate_name name ≡ [])
      ↔ (All IsLegal name × EndsPlain name × (is_reserved name ≡ false) × (utf16_len name ≤ 255))
unfolding validate_name
validate_name-accepts name =
    let p = any_illegal_iff name in
    let q = EndsPlain-iff name in
    (
      λ h. (p.0 (ground arith), q.0 (ground arith), ground arith, ground arith),
      λ h. ground (arith, p.1 h.0, q.1 h.1),
    )
