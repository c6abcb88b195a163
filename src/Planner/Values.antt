-- ===== src/Planner/Values.antt =====
-- The order of the sources and the sequence value of each (crates/renamewright-core/src/planner.rs).
use mathlib.Core.Option
use renamewright.Common.{
  false, inr, inl, ◌*◌, leb, if◌then◌else◌, Bool-cases, count, subst, ==_self, ℕ, suc, ◌+◌, ◌≤◌,
  ◌<◌, ◌≡◌, ◌≢◌, refl, sym, ap, ◌∙◌, true, Option, none, some, List, [], ◌∷◌, ◌++◌, ◌==◌, if_both,
  length, get_elem?, replicate, map, arith, All, usize_max,
}
use renamewright.Model.Source.{SourceSnapshot}
use renamewright.Rules.Types.{
  SequenceOrder, SequenceAllocation, SequenceScope, all_sources, per_parent,
}
use renamewright.Planner.Sequence.{
  sequence_value, allocate_sequence, enumerate_from, insert_source, sort_sources,
  ordered_source_indices, is_greater, compare_sources, next_ordinal, allocate_loop,
}
use renamewright.Planner.Ordinals.{
  length-replicate, get_elem?-lt-length, earlier, counter, allocate_loop_lem,
}

abbrev pub entry_indices : List (ℕ × SourceSnapshot) → List ℕ
entry_indices entries = map (λ e. e.0) entries

count-insert_source :
    (order : SequenceOrder) (j : ℕ) (entry : ℕ × SourceSnapshot)
    (entries : List (ℕ × SourceSnapshot))
    → count j (entry_indices (insert_source order entry entries))
      ≡ count j (entry.0 ∷ entry_indices entries)
unfolding insert_source
count-insert_source order j entry [] = refl
count-insert_source order j entry (other ∷ rest) =
    let ih = count-insert_source order j entry rest in
    if_both (λ l. count j (entry_indices l) ≡ count j (entry.0 ∷ entry_indices (other ∷ rest)))
      (is_greater (compare_sources order entry.1 other.1)) (other ∷ insert_source order entry rest)
      (entry ∷ other ∷ rest) (omega (arith, ih)) refl

pub count-sort_sources :
    (order : SequenceOrder) (j : ℕ) (entries : List (ℕ × SourceSnapshot))
    → count j (entry_indices (sort_sources order entries)) ≡ count j (entry_indices entries)
unfolding sort_sources
count-sort_sources order j [] = refl
count-sort_sources order j (entry ∷ rest) =
    count-insert_source order j entry (sort_sources order rest)
    ∙ omega (arith, count-sort_sources order j rest)

-- Counting from `i`, an index below `i` does not occur, and no index occurs twice.
count-enumerate_from :
    (j i : ℕ) (sources : List SourceSnapshot)
    → (count j (entry_indices (enumerate_from i sources)) ≤ 1)
      × (j < i → count j (entry_indices (enumerate_from i sources)) ≡ 0)
unfolding enumerate_from
count-enumerate_from j i [] = (omega arith, λ h. refl)
count-enumerate_from j i (s ∷ sources) =
    let (once, below) = count-enumerate_from j (suc i) sources in
    (ground (arith, once, below), λ h. ground (arith, below))

count-append : (j : ℕ) (xs ys : List ℕ) → count j (xs ++ ys) ≡ count j xs + count j ys
count-append j [] ys = omega arith
count-append j (x ∷ xs) ys = omega (arith, count-append j xs ys)

absent : (j : ℕ) (xs : List ℕ) → count j xs ≡ 0 → All (λ i. i ≢ j) xs
absent j [] h = tt
absent j (x ∷ xs) h = (λ e. ground arith, absent j xs (ground arith))

absent_behind :
    (sources : List SourceSnapshot) (order : SequenceOrder) (pre post : List ℕ) (j : ℕ)
    → ordered_source_indices sources order ≡ pre ++ j ∷ post
    → All (λ i. i ≢ j) post
unfolding ordered_source_indices
absent_behind sources order pre post j h =
    let once = count-enumerate_from j 0 sources in
    let sorted = count-sort_sources order j (enumerate_from 0 sources) in
    let split = ap (count j) h ∙ count-append j pre (j ∷ post) in
    let self : (j == j) ≡ true = ==_self j in
    absent j post (ground (arith, once, sorted, split, self))

counter_start :
    (scope : SequenceScope) (parent : ℕ) (values : List (Option ℕ))
    → counter scope (record { global_ordinal = 0; parent_ordinals = []; values = values }) parent
      ≡ 0
unfolding next_ordinal
counter_start all_sources parent values = refl
counter_start per_parent parent values = refl

-- `start + step * n`, if a `u64` holds it.
abbrev pub numbered_from : SequenceAllocation → ℕ → Option ℕ
numbered_from allocation n =
    if leb (allocation.start + allocation.step * n) usize_max
    then some (allocation.start + allocation.step * n)
    else none

sequence_value_lem :
    (allocation : SequenceAllocation) (n : ℕ)
    → sequence_value allocation n ≡ numbered_from allocation n
unfolding sequence_value Option.bind
sequence_value_lem allocation n = elim (Bool-cases (leb (allocation.step * n) usize_max)) [
  | inl fits ↦ rw fits refl
  | inr large ↦
      let larger : leb (allocation.start + allocation.step * n) usize_max ≡ false =
        ground (arith, large) in
      rw (large, larger) refl
]

-- A sequence numbers the sources in their order: the source at `j` is given `start + step * n`, or no
-- value if that overflows, where `n` is the number of sources in front of it, or, per parent, of those
-- of its parent; at most `usize::MAX` sources stand in front of it.
pub allocate_sequence_lem :
    (sources : List SourceSnapshot) (allocation : SequenceAllocation) (pre post : List ℕ) (j : ℕ)
    (s : SourceSnapshot)
    → ordered_source_indices sources allocation.order ≡ pre ++ j ∷ post
    → get_elem? sources j ≡ some s
    → length pre ≤ usize_max
    → get_elem?
        (allocate_sequence sources (ordered_source_indices sources allocation.order) allocation)
        j
      ≡ some (numbered_from allocation (earlier sources allocation.scope pre s.parent_id))
unfolding allocate_sequence
allocate_sequence_lem sources allocation pre post j s h at small =
    let none_yet : List (Option ℕ) = replicate (length sources) none in
    let zero_yet = counter_start allocation.scope s.parent_id none_yet in
    ap
      (λ l.
        get_elem?
          (allocate_loop sources allocation l
            (record { global_ordinal = 0; parent_ordinals = []; values = none_yet })).values
          j)
      h
    ∙ allocate_loop_lem sources allocation pre post j s
        (record { global_ordinal = 0; parent_ordinals = []; values = none_yet }) at
        (subst (λ n. j < n) (sym (length-replicate (length sources) none))
          (get_elem?-lt-length sources j at))
        (absent_behind sources allocation.order pre post j h) (omega (arith, zero_yet))
    ∙ ap (λ n. some (sequence_value allocation n)) (omega (arith, zero_yet))
    ∙ ap (λ v. some v)
        (sequence_value_lem allocation (earlier sources allocation.scope pre s.parent_id))
