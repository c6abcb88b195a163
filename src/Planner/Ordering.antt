-- ===== src/Planner/Ordering.antt =====
-- The order in which a sequence numbers the sources (crates/renamewright-core/src/planner.rs).
use Prim.Native.Nat.{compare, Ordering}
use renamewright.Common.{
  ◌<◌, ◌++◌, ◌⊎◌, ◌⊎◌, ◌++◌, length, range_from, subst, count, if_both, ℕ, suc, ◌+◌, ◌≡◌, refl, sym,
  ap, ◌∙◌, true, false, some, List, [], ◌∷◌, get_elem?, arith, All, Bool-cases, inl, inr,
}
use renamewright.Text.{list_cmp, os_bytes}
use renamewright.Model.Source.{SourceSnapshot}
use renamewright.Rules.Types.{SequenceOrder, name_ascending}
use renamewright.Planner.Sequence.{
  then_with, compare_sources, is_greater, enumerate_from, insert_source, sort_sources,
  ordered_source_indices,
}
use renamewright.Planner.Values.{entry_indices, count-sort_sources}

-- Where the texts first differ the first has the smaller byte, or it ends there.
abbrev pub IsLexLess : List ℕ → List ℕ → Type 0
IsLexLess xs ys =
    (front : List ℕ) × (y : ℕ) × (behind : List ℕ) × (ys ≡ front ++ y ∷ behind)
    × ((xs ≡ front) ⊎ ((x : ℕ) × (others : List ℕ) × (xs ≡ front ++ x ∷ others) × (x < y)))

-- The first source stands in front of the second: by id, or by the bytes of the name and then by id, and
-- in the order of the list where these are equal.
abbrev pub Before : SequenceOrder → ℕ × SourceSnapshot → ℕ × SourceSnapshot → Type 0
Before SequenceOrder.source (i, a) (j, b) = (a.id < b.id) ⊎ ((a.id ≡ b.id) × (i < j))
Before name_ascending (i, a) (j, b) =
    IsLexLess (os_bytes a.native_name) (os_bytes b.native_name)
    ⊎ ((os_bytes a.native_name ≡ os_bytes b.native_name)
        × ((a.id < b.id) ⊎ ((a.id ≡ b.id) × (i < j))))

-- Every entry stands in front of the next.
abbrev pub IsOrdered : SequenceOrder → List (ℕ × SourceSnapshot) → Type 0
IsOrdered order [] = Unit
IsOrdered order (entry ∷ []) = Unit
IsOrdered order (entry ∷ other ∷ rest) = Before order entry other × IsOrdered order (other ∷ rest)

abbrev Compares : List ℕ → List ℕ → Ordering → Type 0
Compares xs ys Ordering.lt = IsLexLess xs ys
Compares xs ys Ordering.eq = xs ≡ ys
Compares xs ys Ordering.gt = IsLexLess ys xs

IsLexLess-cons : (x : ℕ) (xs ys : List ℕ) → IsLexLess xs ys → IsLexLess (x ∷ xs) (x ∷ ys)
IsLexLess-cons x xs ys (front, y, behind, e, inl ended) =
    (x ∷ front, y, behind, ap (λ l. x ∷ l) e, inl (ap (λ l. x ∷ l) ended))
IsLexLess-cons x xs ys (front, y, behind, e, inr (z, others, e', less)) =
    (x ∷ front, y, behind, ap (λ l. x ∷ l) e, inr (z, others, ap (λ l. x ∷ l) e', less))

Compares-cons :
    (x : ℕ) (xs ys : List ℕ) (o : Ordering) → Compares xs ys o → Compares (x ∷ xs) (x ∷ ys) o
Compares-cons x xs ys Ordering.lt h = IsLexLess-cons x xs ys h
Compares-cons x xs ys Ordering.eq h = ap (λ l. x ∷ l) h
Compares-cons x xs ys Ordering.gt h = IsLexLess-cons x ys xs h

list_cmp-Compares : (xs ys : List ℕ) → Compares xs ys (list_cmp xs ys)
unfolding list_cmp
list_cmp-Compares [] [] = refl
list_cmp-Compares [] (y ∷ ys) = ([], y, ys, refl, inl refl)
list_cmp-Compares (x ∷ xs) [] = ([], x, xs, refl, inl refl)
list_cmp-Compares (x ∷ xs) (y ∷ ys) = go (list_cmp-Compares xs ys) (compare x y) refl
  where
    go :
        Compares xs ys (list_cmp xs ys)
        → (o : Ordering) → compare x y ≡ o
        → Compares (x ∷ xs) (y ∷ ys) (elim o [
          | Ordering.eq ↦ list_cmp xs ys
          | Ordering.lt ↦ Ordering.lt
          | Ordering.gt ↦ Ordering.gt
        ])
    go behind Ordering.eq e =
        let same : x ≡ y = ground arith in
        subst (λ z. Compares (x ∷ xs) (z ∷ ys) (list_cmp xs ys)) same
          (Compares-cons x xs ys (list_cmp xs ys) behind)
    go behind Ordering.lt e = ([], y, ys, refl, inr (x, xs, refl, ground arith))
    go behind Ordering.gt e = ([], x, xs, refl, inr (y, ys, refl, ground arith))

module _ (i j : ℕ) (a b : SourceSnapshot) where
  then_with-Before :
      (o : Ordering)
      → Compares (os_bytes a.native_name) (os_bytes b.native_name) o
      → (is_greater (then_with o (compare a.id b.id)) ≡ true → Before name_ascending (j, b) (i, a))
        × (is_greater (then_with o (compare a.id b.id)) ≡ false
            → i < j
            → Before name_ascending (i, a) (j, b))
  then_with-Before Ordering.lt h = (λ p. cc, λ p less. inl h)
  then_with-Before Ordering.gt h = (λ p. inl h, λ p less. cc)
  then_with-Before Ordering.eq h =
      (λ p. inr (sym h, inl (ground arith)), λ p less. inr (h, ground arith))

  compare_sources-Before :
      (order : SequenceOrder)
      → (is_greater (compare_sources order a b) ≡ true → Before order (j, b) (i, a))
        × (is_greater (compare_sources order a b) ≡ false → i < j → Before order (i, a) (j, b))
  unfolding compare_sources
  compare_sources-Before SequenceOrder.source = (λ p. inl (ground arith), λ p less. ground arith)
  compare_sources-Before name_ascending =
      then_with-Before (list_cmp (os_bytes a.native_name) (os_bytes b.native_name))
        (list_cmp-Compares (os_bytes a.native_name) (os_bytes b.native_name))

IsOrdered-cons :
    (order : SequenceOrder) (other entry : ℕ × SourceSnapshot) (rest : List (ℕ × SourceSnapshot))
    → Before order other entry
    → IsOrdered order (other ∷ rest)
    → IsOrdered order (insert_source order entry rest)
    → IsOrdered order (other ∷ insert_source order entry rest)
unfolding insert_source
IsOrdered-cons order other entry [] first h ih = (first, tt)
IsOrdered-cons order other entry (next ∷ rest) first (h, hs) ih =
    elim (Bool-cases (is_greater (compare_sources order entry.1 next.1))) [
      | inl t ↦ rw t (h, rw t at ih)
      | inr f ↦ rw f (first, rw f at ih)
    ]

insert_source-IsOrdered :
    (order : SequenceOrder) (entry : ℕ × SourceSnapshot) (entries : List (ℕ × SourceSnapshot))
    → All (λ e. entry.0 < e.0) entries
    → IsOrdered order entries
    → IsOrdered order (insert_source order entry entries)
unfolding insert_source
insert_source-IsOrdered order entry [] above h = tt
insert_source-IsOrdered order entry (other ∷ rest) (less, above) h =
    let (greater, not_greater) = compare_sources-Before entry.0 other.0 entry.1 other.1 order in
    elim (Bool-cases (is_greater (compare_sources order entry.1 other.1))) [
      | inl t ↦ rw t (
          IsOrdered-cons order other entry rest (greater t) h
            (insert_source-IsOrdered order entry rest above (IsOrdered-tail order other rest h)))
      | inr f ↦ rw f (not_greater f less, h)
    ]
  where
    IsOrdered-tail :
        (o : SequenceOrder) (first : ℕ × SourceSnapshot) (entries : List (ℕ × SourceSnapshot))
        → IsOrdered o (first ∷ entries)
        → IsOrdered o entries
    IsOrdered-tail o first [] p = tt
    IsOrdered-tail o first (next ∷ entries) p = p.1

module _ (P : ℕ × SourceSnapshot → Type 0) where
  insert_source-All :
      (order : SequenceOrder) (entry : ℕ × SourceSnapshot) (entries : List (ℕ × SourceSnapshot))
      → P entry
      → All P entries
      → All P (insert_source order entry entries)
  unfolding insert_source
  insert_source-All order entry [] p _ = (p, tt)
  insert_source-All order entry (other ∷ rest) p (q, qs) =
      if_both (All P) (is_greater (compare_sources order entry.1 other.1)) _ _
        (q, insert_source-All order entry rest p qs) (p, (q, qs))

  sort_sources-All :
      (order : SequenceOrder) (entries : List (ℕ × SourceSnapshot))
      → All P entries
      → All P (sort_sources order entries)
  unfolding sort_sources
  sort_sources-All order [] _ = tt
  sort_sources-All order (entry ∷ rest) (p, ps) =
      insert_source-All order entry (sort_sources order rest) p (sort_sources-All order rest ps)

enumerate_from-above :
    (first i : ℕ) (sources : List SourceSnapshot)
    → first < i
    → All (λ e. first < e.0) (enumerate_from i sources)
unfolding enumerate_from
enumerate_from-above first i [] h = tt
enumerate_from-above first i (s ∷ sources) h =
    (h, enumerate_from-above first (suc i) sources (omega arith))

sort_sources-IsOrdered :
    (order : SequenceOrder) (i : ℕ) (sources : List SourceSnapshot)
    → IsOrdered order (sort_sources order (enumerate_from i sources))
unfolding sort_sources enumerate_from
sort_sources-IsOrdered order i [] = tt
sort_sources-IsOrdered order i (s ∷ sources) =
    insert_source-IsOrdered order (i, s) (sort_sources order (enumerate_from (suc i) sources))
      (sort_sources-All (λ e. i < e.0) order (enumerate_from (suc i) sources)
        (enumerate_from-above i (suc i) sources (omega arith)))
      (sort_sources-IsOrdered order (suc i) sources)

enumerate_from-range_from :
    (i : ℕ) (sources : List SourceSnapshot)
    → entry_indices (enumerate_from i sources) ≡ range_from i (length sources)
unfolding enumerate_from
enumerate_from-range_from i [] = refl
enumerate_from-range_from i (s ∷ sources) =
    ap (λ l. i ∷ l) (enumerate_from-range_from (suc i) sources)

-- The entry is a source with its index.
abbrev pub IsEntryOf : List SourceSnapshot → ℕ × SourceSnapshot → Type 0
IsEntryOf sources entry = get_elem? sources entry.0 ≡ some entry.1

enumerate_from-IsEntryOf :
    (all sources : List SourceSnapshot) (i : ℕ)
    → ((k : ℕ) → get_elem? all (i + k) ≡ get_elem? sources k)
    → All (IsEntryOf all) (enumerate_from i sources)
unfolding enumerate_from
enumerate_from-IsEntryOf all [] i h = tt
enumerate_from-IsEntryOf all (s ∷ sources) i h = (
  ap (get_elem? all) (omega arith) ∙ h 0,
  enumerate_from-IsEntryOf all sources (suc i) (λ k. ap (get_elem? all) (omega arith) ∙ h (suc k)),
)

-- The order in which the sources are numbered: its entries are the sources with their indices, each index
-- as often as it stands among the sources, and each entry stands in front of the next, by id, or by the
-- bytes of the name (the smaller byte where the names first differ, or the name that ends there) and then
-- by id; where these are equal, as in the list.
pub ordered_source_indices_lem :
    (sources : List SourceSnapshot) (order : SequenceOrder)
    → (entries : List (ℕ × SourceSnapshot)) × (ordered_source_indices sources order
        ≡ entry_indices entries)
      × IsOrdered order entries
      × All (IsEntryOf sources) entries
      × ((j : ℕ) → count j (entry_indices entries) ≡ count j (range_from 0 (length sources)))
unfolding ordered_source_indices
ordered_source_indices_lem sources order =
    let listed = enumerate_from 0 sources in
    (
      sort_sources order listed,
      refl,
      sort_sources-IsOrdered order 0 sources,
      sort_sources-All (IsEntryOf sources) order listed
          (enumerate_from-IsEntryOf sources sources 0 (λ k. ap (get_elem? sources) (omega arith))),
      λ j. count-sort_sources order j listed ∙ ap (count j) (enumerate_from-range_from 0 sources),
    )
