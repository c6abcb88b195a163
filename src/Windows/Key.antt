-- ===== src/Windows/Key.antt =====
-- What the comparison key forgets: the trailing spaces and dots that Windows drops.
use renamewright.Common.{ℕ, ◌≡◌, refl, ap, ◌∙◌, Bool, true, false, [], ◌∷◌, ◌++◌, arith, All}
use renamewright.Text.{Str, trim_end}
use renamewright.Windows.{is_trailing, ends_with_trailing, comparison_key}

trim_end-All : (p : ℕ → Bool) (tail : Str) → All (λ c. p c ≡ true) tail → trim_end p tail ≡ []
unfolding trim_end
trim_end-All p [] h = refl
trim_end-All p (c ∷ s) h = ground (arith, trim_end-All p s h.1)

pub trim_end-append :
    (p : ℕ → Bool) (s tail : Str)
    → All (λ c. p c ≡ true) tail
    → trim_end p (s ++ tail) ≡ trim_end p s
unfolding trim_end
trim_end-append p [] tail h = trim_end-All p tail h
trim_end-append p (c ∷ s) tail h = ground (arith, trim_end-append p s tail h)

trim_end_plain : (s : Str) → ends_with_trailing s ≡ false → trim_end is_trailing s ≡ s
unfolding trim_end ends_with_trailing
trim_end_plain [] h = refl
trim_end_plain (c ∷ []) h = rw h
trim_end_plain (c ∷ d ∷ s) h = rw (trim_end_plain (d ∷ s) h, trim_end)

-- A name and the same name with more spaces and dots at its end have one key, and the key of a name
-- with no such end is its lowercase form.
pub comparison_key-trailing :
    (to_lowercase : Str → Str) (name tail : Str)
    → All (λ c. is_trailing c ≡ true) tail
    → ends_with_trailing name ≡ false
    → (comparison_key to_lowercase (name ++ tail) ≡ comparison_key to_lowercase name)
      × (comparison_key to_lowercase (name ++ tail) ≡ to_lowercase name)
unfolding comparison_key
comparison_key-trailing to_lowercase name tail h e =
    let same = ap to_lowercase (trim_end-append is_trailing name tail h) in
    (same, same ∙ ap to_lowercase (trim_end_plain name e))
