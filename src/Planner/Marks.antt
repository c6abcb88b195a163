-- ===== src/Planner/Marks.antt =====
-- crates/renamewright-core/src/planner.rs: the marks that block rows of a plan. The `BTreeMap` of the
-- destinations is the list of its groups, each with its indices in ascending order; every group blocks
-- rows of its own, so the order of the groups makes no difference.
use renamewright.Common.{
  ℕ, zero, suc, Bool, ◌&&◌, Option, none, some, List, [], ◌∷◌, ◌++◌, map, ◌==◌, ltb, if◌then◌else◌,
  any, length,
}
use renamewright.Text.{Str, OsString, to_str, list_eq}
use renamewright.Model.Source.{
  ParentId, OccupiedName, ValidationEnvironment, TargetPolicy, contains_id,
}
use renamewright.Model.Diagnostic.{
  DiagnosticCode, duplicate_destination, stale_source, ancestor_descendant_conflict,
  parent_unavailable, occupied_destination,
}
use renamewright.Model.Row.{PlanRow, block}
use renamewright.Windows.{comparison_key}

abbrev pub Destination : Type 0
Destination = ParentId × Str

unfoldable pub destination_eq : Destination → Destination → Bool
unfolding list_eq
destination_eq (p, s) (q, t) = p == q && list_eq s t

-- Every row that the test picks is blocked.
unfoldable pub block_where : (PlanRow → Bool) → DiagnosticCode → List PlanRow → List PlanRow
block_where test code rows = map (λ row. if test row then block row code else row) rows

unfoldable pub mark_stale_sources : List PlanRow → ValidationEnvironment → List PlanRow
unfolding block_where
mark_stale_sources rows env =
    block_where (λ row. contains_id env.stale_sources row.source_id) stale_source rows

unfoldable pub mark_ancestor_conflicts : List PlanRow → ValidationEnvironment → List PlanRow
unfolding block_where
mark_ancestor_conflicts rows env =
    block_where (λ row. contains_id env.ancestor_conflicts row.source_id)
      ancestor_descendant_conflict rows

unfoldable pub mark_unavailable_parents : List PlanRow → ValidationEnvironment → List PlanRow
unfolding block_where
mark_unavailable_parents rows env =
    block_where (λ row. contains_id env.unavailable_parents row.parent_id) parent_unavailable rows

-- `entry(destination).or_default().push(index)`.
unfoldable pub push_index :
    Destination → ℕ → List (Destination × List ℕ) → List (Destination × List ℕ)
unfolding destination_eq
push_index destination index [] = (destination, index ∷ []) ∷ []
push_index destination index ((d, indices) ∷ groups) =
    if destination_eq d destination
    then (d, indices ++ index ∷ []) ∷ groups
    else (d, indices) ∷ push_index destination index groups

-- `rows[index].block(code)`.
unfoldable pub block_at : List PlanRow → ℕ → DiagnosticCode → List PlanRow
block_at [] index code = []
block_at (row ∷ rows) zero code = block row code ∷ rows
block_at (row ∷ rows) (suc index) code = row ∷ block_at rows index code

unfoldable pub block_indices : List ℕ → DiagnosticCode → List PlanRow → List PlanRow
unfolding block_at
block_indices [] code rows = rows
block_indices (index ∷ indices) code rows = block_indices indices code (block_at rows index code)

unfoldable pub block_groups : List (Destination × List ℕ) → List PlanRow → List PlanRow
unfolding block_indices
block_groups [] rows = rows
block_groups ((d, indices) ∷ groups) rows =
    block_groups groups
      (if ltb 1 (length indices) then block_indices indices duplicate_destination rows else rows)

module _ (to_lowercase : Str → Str) (policy : TargetPolicy) where
  -- The destination a name stands for, if the name is Unicode.
  unfoldable pub destination_key : ParentId → OsString → Option Destination
  unfolding comparison_key
  destination_key parent name = elim (to_str name) [
    | none ↦ none
    | some text ↦
        some (parent, if policy.windows_names then comparison_key to_lowercase text else text)
  ]

  unfoldable pub group_rows :
      ℕ → List PlanRow → List (Destination × List ℕ) → List (Destination × List ℕ)
  unfolding destination_key push_index
  group_rows index [] groups = groups
  group_rows index (row ∷ rows) groups =
      group_rows (suc index) rows (elim (destination_key row.parent_id row.proposed_name) [
        | none ↦ groups
        | some destination ↦ push_index destination index groups
      ])

  unfoldable pub mark_duplicates : List PlanRow → List PlanRow
  unfolding group_rows block_groups
  mark_duplicates rows = block_groups (group_rows 0 rows []) rows

  unfoldable pub occupied_keys : List OccupiedName → List Destination
  unfolding destination_key
  occupied_keys [] = []
  occupied_keys (entry ∷ entries) = elim (destination_key entry.parent_id entry.native_name) [
    | none ↦ occupied_keys entries
    | some destination ↦ destination ∷ occupied_keys entries
  ]

  unfoldable pub is_occupied : List Destination → PlanRow → Bool
  unfolding destination_key destination_eq
  is_occupied occupied row = elim (destination_key row.parent_id row.proposed_name) [
    | none ↦ Bool.false
    | some destination ↦ any (λ d. destination_eq d destination) occupied
  ]

  unfoldable pub mark_occupied_destinations : List PlanRow → ValidationEnvironment → List PlanRow
  unfolding occupied_keys is_occupied block_where
  mark_occupied_destinations rows env =
      block_where (is_occupied (occupied_keys env.occupied_names)) occupied_destination rows
