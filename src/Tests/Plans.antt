-- ===== src/Tests/Plans.antt =====
-- The theorems on the parts of the planner at concrete inputs (crates/renamewright-core/src/planner.rs).
use renamewright.Common.{◌≡◌, map, true, List, [], ◌∷◌}
use renamewright.Text.{codes, from_str}
use renamewright.Windows.{ascii_upper}
use renamewright.Model.Source.{TargetPolicy}
use renamewright.Model.Diagnostic.{duplicate_destination}
use renamewright.Model.Row.{PlanRow, new_row}
use renamewright.Planner.Marks.{block_where, mark_duplicates}
use renamewright.Planner.Overrides.{NameOverride, validate_overrides}
use renamewright.Planner.Validation.{OverridesOutcome, validate_overrides_outcome}
use renamewright.Planner.Duplicates.{shares_destination, mark_duplicates_lem}
use renamewright.Common.{some, get_elem?, refl, arith}
use renamewright.Rules.Types.{SequenceOrder, SequenceAllocation, all_sources}
use renamewright.Planner.Sequence.{
  ordered_source_indices, sort_sources, insert_source, enumerate_from, compare_sources,
  allocate_sequence,
}
use renamewright.Planner.Values.{allocate_sequence_lem}
use renamewright.Common.{ℕ, All, count, range_from}
use renamewright.Model.Source.{SourceSnapshot}
use renamewright.Rules.Types.{name_ascending}
use renamewright.Planner.Values.{entry_indices}
use renamewright.Planner.Ordering.{IsOrdered, IsEntryOf, ordered_source_indices_lem}
use renamewright.Tests.Samples.{photo, note}

abbrev windows : TargetPolicy
windows = record { windows_names = true }

-- Two names that differ in case and in a dot at the end only.
abbrev clashing : List PlanRow
clashing =
    new_row photo (from_str (codes "Todo")) [] []
    ∷ new_row note (from_str (codes "todo.")) [] []
    ∷ []

mark_duplicates_lem_example :
    mark_duplicates (map ascii_upper) windows clashing
    ≡ block_where
        (shares_destination (map ascii_upper) windows clashing)
        duplicate_destination
        clashing
mark_duplicates_lem_example = mark_duplicates_lem (map ascii_upper) windows clashing

abbrev overrides : List NameOverride
overrides =
    record { source_id = 9; proposed_name = codes "todo" }
    ∷ record { source_id = 4; proposed_name = codes "pic" }
    ∷ []

validate_overrides_outcome_example :
    OverridesOutcome
      (photo ∷ note ∷ [])
      overrides
      (validate_overrides (photo ∷ note ∷ []) overrides)
validate_overrides_outcome_example = validate_overrides_outcome (photo ∷ note ∷ []) overrides

abbrev by_two : SequenceAllocation
by_two = record { scope = all_sources; order = SequenceOrder.source; start = 10; step = 2 }

in_order : ordered_source_indices (photo ∷ note ∷ []) SequenceOrder.source ≡ 0 ∷ 1 ∷ []
unfolding ordered_source_indices sort_sources insert_source enumerate_from compare_sources
in_order = refl

allocate_sequence_lem_example :
    get_elem?
      (allocate_sequence
        (photo ∷ note ∷ [])
        (ordered_source_indices (photo ∷ note ∷ []) SequenceOrder.source)
        by_two)
      1
    ≡ some (some 12)
allocate_sequence_lem_example =
    allocate_sequence_lem (photo ∷ note ∷ []) by_two (0 ∷ []) [] 1 note in_order refl (omega arith)

ordered_source_indices_lem_example :
    (entries : List (ℕ × SourceSnapshot)) × (ordered_source_indices
        (note ∷ photo ∷ [])
        name_ascending
      ≡ entry_indices entries)
    × IsOrdered name_ascending entries
    × All (IsEntryOf (note ∷ photo ∷ [])) entries
    × ((j : ℕ) → count j (entry_indices entries) ≡ count j (range_from 0 2))
ordered_source_indices_lem_example = ordered_source_indices_lem (note ∷ photo ∷ []) name_ascending
