-- ===== src/Planner/Indexed.antt =====
-- Blocking by index, in crates/renamewright-core/src/planner.rs, as one pass over the rows.
use renamewright.Common.{
  ℕ, zero, suc, ◌+◌, ◌≡◌, refl, sym, ap, ap₂, ◌∙◌, Bool, true, false, ◌&&◌, ◌||◌, some, List, [],
  ◌∷◌, ◌==◌, ltb, if◌then◌else◌, any, length, get_elem?, arith,
}
use renamewright.Model.Diagnostic.{duplicate_destination}
use renamewright.Model.Row.{PlanRow, block}
use renamewright.Model.Blocking.{block-idempotent}
use renamewright.Planner.Marks.{Destination, block_where, block_at, block_indices, block_groups}

abbrev block_if : Bool → PlanRow → PlanRow
block_if test row = if test then block row duplicate_destination else row

-- The rows at the indices that the test picks, counted from `i`, are blocked.
abbrev pub mark_at : (ℕ → Bool) → ℕ → List PlanRow → List PlanRow
mark_at test i [] = []
mark_at test i (row ∷ rows) = block_if (test i) row ∷ mark_at test (suc i) rows

abbrev pub mem : List ℕ → ℕ → Bool
mem indices j = any (λ k. j == k) indices

-- Some group of at least two indices holds `j`.
abbrev pub in_groups : List (Destination × List ℕ) → ℕ → Bool
in_groups [] j = false
in_groups ((d, indices) ∷ groups) j = ltb 1 (length indices) && mem indices j || in_groups groups j

mark_at-cong :
    (t u : ℕ → Bool) (i : ℕ) (rows : List PlanRow)
    → ((k : ℕ) → t (i + k) ≡ u (i + k))
    → mark_at t i rows ≡ mark_at u i rows
mark_at-cong t u i [] h = refl
mark_at-cong t u i (row ∷ rows) h =
    ap₂ ◌∷◌ (ap (λ b. block_if b row) (ap t (omega arith) ∙ h 0 ∙ ap u (omega arith)))
      (mark_at-cong t u (suc i) rows (λ k. ap t (omega arith) ∙ h (suc k) ∙ ap u (omega arith)))

mark_at-none : (i : ℕ) (rows : List PlanRow) → mark_at (λ j. false) i rows ≡ rows
mark_at-none i [] = refl
mark_at-none i (row ∷ rows) = ap (λ l. row ∷ l) (mark_at-none (suc i) rows)

block_at-mark_at :
    (rows : List PlanRow) (k i : ℕ)
    → block_at rows k duplicate_destination ≡ mark_at (λ j. j == i + k) i rows
unfolding block_at
block_at-mark_at [] k i = refl
block_at-mark_at (row ∷ rows) zero i =
    let here : true ≡ (i == i + 0) = ground arith in
    ap₂ ◌∷◌ (ap (λ b. block_if b row) here) (
      sym (mark_at-none (suc i) rows)
      ∙ mark_at-cong (λ j. false) (λ j. j == i + 0) (suc i) rows (λ k. ground arith))
block_at-mark_at (row ∷ rows) (suc k) i =
    let before : false ≡ (i == i + suc k) = ground arith in
    ap₂ ◌∷◌ (ap (λ b. block_if b row) before) (
      block_at-mark_at rows k (suc i)
      ∙ mark_at-cong (λ j. j == suc i + k) (λ j. j == i + suc k) (suc i) rows (λ m. ground arith))

block_if-twice : (a b : Bool) (row : PlanRow) → block_if b (block_if a row) ≡ block_if (a || b) row
block_if-twice false b row = refl
block_if-twice true false row = refl
block_if-twice true true row = block-idempotent row duplicate_destination

mark_at-mark_at :
    (t u : ℕ → Bool) (i : ℕ) (rows : List PlanRow)
    → mark_at u i (mark_at t i rows) ≡ mark_at (λ j. t j || u j) i rows
mark_at-mark_at t u i [] = refl
mark_at-mark_at t u i (row ∷ rows) =
    ap₂ ◌∷◌ (block_if-twice (t i) (u i) row) (mark_at-mark_at t u (suc i) rows)

block_indices-mark_at :
    (indices : List ℕ) (rows : List PlanRow)
    → block_indices indices duplicate_destination rows ≡ mark_at (mem indices) 0 rows
unfolding block_indices
block_indices-mark_at [] rows = sym (mark_at-none 0 rows)
block_indices-mark_at (k ∷ indices) rows =
    block_indices-mark_at indices (block_at rows k duplicate_destination)
    ∙ ap (mark_at (mem indices) 0) (block_at-mark_at rows k 0)
    ∙ mark_at-mark_at (λ j. j == 0 + k) (mem indices) 0 rows
    ∙ mark_at-cong (λ j. j == 0 + k || mem indices j) (mem (k ∷ indices)) 0 rows
        (λ m. ap (λ n. 0 + m == n || mem indices (0 + m)) (omega arith))

block_some-mark_at :
    (test : Bool) (indices : List ℕ) (rows : List PlanRow)
    → (if test then block_indices indices duplicate_destination rows else rows)
      ≡ mark_at (λ j. test && mem indices j) 0 rows
block_some-mark_at true indices rows = block_indices-mark_at indices rows
block_some-mark_at false indices rows = sym (mark_at-none 0 rows)

pub block_groups-mark_at :
    (groups : List (Destination × List ℕ)) (rows : List PlanRow)
    → block_groups groups rows ≡ mark_at (in_groups groups) 0 rows
unfolding block_groups
block_groups-mark_at [] rows = sym (mark_at-none 0 rows)
block_groups-mark_at ((d, indices) ∷ groups) rows =
    let big = ltb 1 (length indices) in
    block_groups-mark_at groups
      (if big then block_indices indices duplicate_destination rows else rows)
    ∙ ap (mark_at (in_groups groups) 0) (block_some-mark_at big indices rows)
    ∙ mark_at-mark_at (λ j. big && mem indices j) (in_groups groups) 0 rows

-- A test of the indices that agrees with a test of the rows.
pub mark_at-block_where :
    (t : ℕ → Bool) (test : PlanRow → Bool) (i : ℕ) (rows : List PlanRow)
    → ((k : ℕ) (row : PlanRow) → get_elem? rows k ≡ some row → t (i + k) ≡ test row)
    → mark_at t i rows ≡ block_where test duplicate_destination rows
unfolding block_where
mark_at-block_where t test i [] h = refl
mark_at-block_where t test i (row ∷ rows) h =
    ap₂ ◌∷◌ (ap (λ b. block_if b row) (ap t (omega arith) ∙ h 0 row refl))
      (mark_at-block_where t test (suc i) rows (λ k r e. ap t (omega arith) ∙ h (suc k) r e))
