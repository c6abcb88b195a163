-- ===== src/Execution/Schedule/Order.antt =====
-- The sorting of the source ids, and what the search for a duplicate finds in a sorted list.
use renamewright.Common.{
  count, ℕ, suc, ◌+◌, ◌≤◌, ◌<◌, ◌≡◌, refl, none, some, List, [], ◌∷◌, arith, ◌==◌, if◌then◌else◌,
  length, All,
}
use renamewright.Execution.Schedule.{insert_sorted, sort_unstable, first_duplicate}

-- No element occurs twice.
abbrev pub Distinct : List ℕ → Type 0
Distinct xs = (a : ℕ) → count a xs ≤ 1

abbrev pub IsSorted : List ℕ → Type 0
IsSorted [] = Unit
IsSorted (a ∷ as') = All (λ b. a ≤ b) as' × IsSorted as'

abbrev pub IsStrict : List ℕ → Type 0
IsStrict [] = Unit
IsStrict (a ∷ as') = All (λ b. a < b) as' × IsStrict as'

count-insert_sorted :
    (a b : ℕ) (xs : List ℕ) → count a (insert_sorted b xs) ≡ (if a == b then 1 else 0) + count a xs
unfolding insert_sorted
count-insert_sorted a b [] = ground arith
count-insert_sorted a b (x ∷ xs) = ground (arith, count-insert_sorted a b xs)

-- Sorting neither loses nor adds an occurrence.
pub count-sort_unstable : (a : ℕ) (xs : List ℕ) → count a (sort_unstable xs) ≡ count a xs
unfolding sort_unstable
count-sort_unstable a [] = refl
count-sort_unstable a (x ∷ xs) =
    ground (arith, count-insert_sorted a x (sort_unstable xs), count-sort_unstable a xs)

length-insert_sorted : (b : ℕ) (xs : List ℕ) → length (insert_sorted b xs) ≡ suc (length xs)
unfolding insert_sorted
length-insert_sorted b [] = refl
length-insert_sorted b (x ∷ xs) = ground (arith, length-insert_sorted b xs)

pub length-sort_unstable : (xs : List ℕ) → length (sort_unstable xs) ≡ length xs
unfolding sort_unstable
length-sort_unstable [] = refl
length-sort_unstable (x ∷ xs) =
    omega (arith, length-insert_sorted x (sort_unstable xs), length-sort_unstable xs)

All-le_trans : (a b : ℕ) (xs : List ℕ) → a ≤ b → All (λ c. b ≤ c) xs → All (λ c. a ≤ c) xs
All-le_trans a b [] h p = tt
All-le_trans a b (x ∷ xs) h p = (omega arith, All-le_trans a b xs h p.1)

All-insert_sorted :
    (a b : ℕ) (xs : List ℕ) → a ≤ b → All (λ c. a ≤ c) xs → All (λ c. a ≤ c) (insert_sorted b xs)
unfolding insert_sorted
All-insert_sorted a b [] h p = (h, tt)
All-insert_sorted a b (x ∷ xs) h p = ground (arith, All-insert_sorted a b xs h p.1)

insert_sorted-IsSorted : (b : ℕ) (xs : List ℕ) → IsSorted xs → IsSorted (insert_sorted b xs)
unfolding insert_sorted
insert_sorted-IsSorted b [] s = (tt, tt)
insert_sorted-IsSorted b (x ∷ xs) s =
    ground (arith, insert_sorted-IsSorted b xs s.1, All-insert_sorted x b xs, All-le_trans b x xs)

pub sort_unstable-IsSorted : (xs : List ℕ) → IsSorted (sort_unstable xs)
unfolding sort_unstable
sort_unstable-IsSorted [] = tt
sort_unstable-IsSorted (x ∷ xs) =
    insert_sorted-IsSorted x (sort_unstable xs) (sort_unstable-IsSorted xs)

All-lt : (a b : ℕ) (xs : List ℕ) → a < b → All (λ c. b ≤ c) xs → All (λ c. a < c) xs
All-lt a b [] h p = tt
All-lt a b (x ∷ xs) h p = (omega arith, All-lt a b xs h p.1)

-- In a sorted list with no equal neighbours every element is below the later ones.
pub first_duplicate-none : (xs : List ℕ) → IsSorted xs → first_duplicate xs ≡ none → IsStrict xs
unfolding first_duplicate
first_duplicate-none [] s h = tt
first_duplicate-none (x ∷ []) s h = (tt, tt)
first_duplicate-none (x ∷ y ∷ xs) s h =
    ground (arith, first_duplicate-none (y ∷ xs) s.1, All-lt x y xs)

-- An element reported as a duplicate occurs at least twice.
pub first_duplicate-some : (xs : List ℕ) (d : ℕ) → first_duplicate xs ≡ some d → 2 ≤ count d xs
unfolding first_duplicate
first_duplicate-some [] d h = absurd (ground arith)
first_duplicate-some (x ∷ []) d h = absurd (ground arith)
first_duplicate-some (x ∷ y ∷ xs) d h = ground (arith, first_duplicate-some (y ∷ xs) d)

count_below : (a : ℕ) (xs : List ℕ) → All (λ b. a < b) xs → count a xs ≡ 0
count_below a [] h = refl
count_below a (x ∷ xs) h = ground (arith, count_below a xs h.1)

pub IsStrict-Distinct : (xs : List ℕ) → IsStrict xs → Distinct xs
IsStrict-Distinct [] s a = omega arith
IsStrict-Distinct (x ∷ xs) s a = ground (arith, IsStrict-Distinct xs s.1 a, count_below x xs s.0)
