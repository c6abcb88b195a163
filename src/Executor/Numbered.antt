-- ===== src/Executor/Numbered.antt =====
-- Numbered schedules and their first steps in reverse (crates/renamewright-platform/src/executor.rs).
use renamewright.Common.{
  ℕ, zero, suc, ◌≤◌, ◌≡◌, refl, ap, ◌∙◌, List, [], ◌∷◌, map, reverse, arith, length, take,
  range_from, countdown, reverse-range_from,
}
use mathlib.Core.List.{reverse_aux}
use renamewright.Execution.Schedule.{ExecutionStep}

abbrev pub indices : List ExecutionStep → List ℕ
indices = map (λ step. step.index)

-- The steps are numbered from 0.
abbrev pub IsNumbered : List ExecutionStep → Type 0
IsNumbered schedule = indices schedule ≡ range_from 0 (length schedule)

pub countdown_parts :
    (first left : ℕ) (others : List ℕ)
    → ◌≡◌ {A = List ℕ} (first ∷ others) (countdown (suc left))
    → (first ≡ left) × (others ≡ countdown left)
countdown_parts first left others e = (cc, cc)

take-range_from :
    (first count total : ℕ)
    → count ≤ total
    → take count (range_from first total) ≡ range_from first count
take-range_from first zero total h = refl
take-range_from first (suc count) zero h = absurd (omega arith)
take-range_from first (suc count) (suc total) h =
    ap (λ l. first ∷ l) (take-range_from (suc first) count total (omega arith))

map-take :
    {A B : Type 0} (f : A → B) (count : ℕ) (xs : List A)
    → map f (take count xs) ≡ take count (map f xs)
map-take f zero xs = refl
map-take f (suc count) [] = refl
map-take f (suc count) (x ∷ xs) = ap (λ l. f x ∷ l) (map-take f count xs)

map-reverse_aux :
    {A B : Type 0} (f : A → B) (xs ys : List A)
    → map f (reverse_aux xs ys) ≡ reverse_aux (map f xs) (map f ys)
map-reverse_aux f [] ys = refl
map-reverse_aux f (x ∷ xs) ys = map-reverse_aux f xs (x ∷ ys)

-- The first steps of a numbered schedule in reverse count down.
pub undo_order :
    (schedule : List ExecutionStep) (count : ℕ)
    → IsNumbered schedule
    → count ≤ length schedule
    → indices (reverse (take count schedule)) ≡ countdown count
undo_order schedule count numbered within =
    map-reverse_aux (λ step. step.index) (take count schedule) []
    ∙ ap reverse (
        map-take (λ step. step.index) count schedule
        ∙ ap (take count) numbered
        ∙ take-range_from 0 count (length schedule) within)
    ∙ reverse-range_from count
