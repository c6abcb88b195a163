-- ===== src/Planner/Sequence.antt =====
-- crates/renamewright-core/src/planner.rs: the order of the sources and the sequence values.
-- `sort_by` is stable, and insertion from the back computes its one result.
use Prim.Native.Nat.{compare, Ordering}
use mathlib.Core.Option
use renamewright.Common.{
  ℕ, suc, Bool, true, false, Option, none, some, List, [], ◌∷◌, ◌==◌, if◌then◌else◌, length,
  get_elem?, set, replicate, map, checked_add, checked_mul, saturating_add,
}
use renamewright.Text.{os_bytes, list_cmp}
use renamewright.Model.Source.{ParentId, SourceSnapshot}
use renamewright.Rules.Types.{
  SequenceScope, all_sources, per_parent, SequenceOrder, source, name_ascending, SequenceAllocation,
}

abbrev pub then_with : Ordering → Ordering → Ordering
then_with Ordering.eq o = o
then_with Ordering.lt o = Ordering.lt
then_with Ordering.gt o = Ordering.gt

unfoldable pub compare_sources : SequenceOrder → SourceSnapshot → SourceSnapshot → Ordering
unfolding list_cmp
compare_sources source left right = compare left.id right.id
compare_sources name_ascending left right =
    then_with (list_cmp (os_bytes left.native_name) (os_bytes right.native_name))
      (compare left.id right.id)

abbrev pub is_greater : Ordering → Bool
is_greater Ordering.gt = true
is_greater Ordering.lt = false
is_greater Ordering.eq = false

unfoldable pub enumerate_from : ℕ → List SourceSnapshot → List (ℕ × SourceSnapshot)
enumerate_from i [] = []
enumerate_from i (s ∷ sources) = (i, s) ∷ enumerate_from (suc i) sources

unfoldable pub insert_source :
    SequenceOrder → ℕ × SourceSnapshot → List (ℕ × SourceSnapshot) → List (ℕ × SourceSnapshot)
insert_source order entry [] = entry ∷ []
insert_source order entry (other ∷ rest) =
    if is_greater (compare_sources order entry.1 other.1)
    then other ∷ insert_source order entry rest
    else entry ∷ other ∷ rest

unfoldable pub sort_sources : SequenceOrder → List (ℕ × SourceSnapshot) → List (ℕ × SourceSnapshot)
unfolding insert_source compare_sources
sort_sources order [] = []
sort_sources order (entry ∷ rest) = insert_source order entry (sort_sources order rest)

unfoldable pub ordered_source_indices : List SourceSnapshot → SequenceOrder → List ℕ
unfolding sort_sources enumerate_from
ordered_source_indices sources order =
    map (λ e. e.0) (sort_sources order (enumerate_from 0 sources))

-- The `BTreeMap` of the next ordinal of each parent.
unfoldable pub next_ordinal : List (ParentId × ℕ) → ParentId → ℕ
next_ordinal [] parent = 0
next_ordinal ((p, n) ∷ ordinals) parent = if p == parent then n else next_ordinal ordinals parent

unfoldable pub set_ordinal : List (ParentId × ℕ) → ParentId → ℕ → List (ParentId × ℕ)
set_ordinal [] parent n = (parent, n) ∷ []
set_ordinal ((p, m) ∷ ordinals) parent n =
    if p == parent then (p, n) ∷ ordinals else (p, m) ∷ set_ordinal ordinals parent n

pub record Allocating : Type 0 where
  pub global_ordinal : ℕ
  pub parent_ordinals : List (ParentId × ℕ)
  pub values : List (Option ℕ)

-- The ordinal of the source, and the counters behind it.
unfoldable pub take_ordinal : SequenceScope → ParentId → Allocating → ℕ × Allocating
unfolding next_ordinal set_ordinal
take_ordinal all_sources parent st =
    (st.global_ordinal, record st { global_ordinal = saturating_add st.global_ordinal 1 })
take_ordinal per_parent parent st =
    let current = next_ordinal st.parent_ordinals parent in
    (
      current,
      record st {
        parent_ordinals = set_ordinal st.parent_ordinals parent (saturating_add current 1);
      },
    )

-- `start + step * ordinal`, if it fits.
unfoldable pub sequence_value : SequenceAllocation → ℕ → Option ℕ
sequence_value allocation ordinal =
    Option.bind (checked_mul allocation.step ordinal)
      (λ offset. checked_add allocation.start offset)

unfoldable pub allocate_one : List SourceSnapshot → SequenceAllocation → ℕ → Allocating → Allocating
unfolding take_ordinal sequence_value
allocate_one sources allocation index st = elim (get_elem? sources index) [
  | none ↦ st
  | some s ↦
      let (ordinal, st') = take_ordinal allocation.scope s.parent_id st in
      record st' { values = set st'.values index (sequence_value allocation ordinal) }
]

unfoldable pub allocate_loop :
    List SourceSnapshot → SequenceAllocation → List ℕ → Allocating → Allocating
unfolding allocate_one
allocate_loop sources allocation [] st = st
allocate_loop sources allocation (index ∷ indices) st =
    allocate_loop sources allocation indices (allocate_one sources allocation index st)

unfoldable pub allocate_sequence :
    List SourceSnapshot → List ℕ → SequenceAllocation → List (Option ℕ)
unfolding allocate_loop
allocate_sequence sources ordered_indices allocation =
    (allocate_loop sources allocation ordered_indices (record {
      global_ordinal = 0;
      parent_ordinals = [];
      values = replicate (length sources) none;
    })).values
