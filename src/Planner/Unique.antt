-- ===== src/Planner/Unique.antt =====
-- No two unblocked rows share a destination, however the later marks of
-- crates/renamewright-core/src/planner.rs go on.
use renamewright.Planner.Stable.{Stable, Guarded-Advances, Guarded-agree, block_where-Guarded}
use renamewright.Common.{some, Option, ap₂, subst, ◌≡◌, ap, sym, List, [], ◌∷◌, All}
use renamewright.Text.{Str}
use renamewright.Model.Source.{TargetPolicy}
use renamewright.Model.Diagnostic.{DiagnosticCode}
use renamewright.Model.Row.{PlanRow}
use renamewright.Planner.Marks.{destination_key, Destination, mark_duplicates}
use renamewright.Planner.Advance.{
  Advances, AllAdvance, AllAdvance-trans, Guarded, mark_duplicates-Advances,
}
use renamewright.Planner.Groups.{is_for, key_of, count_for}
use renamewright.Planner.Duplicates.{is_shared, shares_destination, mark_duplicates_lem}
use renamewright.Common.{refl, none, some, ltb, if◌then◌else◌, ◌+◌}

module _ (to_lowercase : Str → Str) (policy : TargetPolicy) where
  key_of-Advances :
      (before after : PlanRow)
      → Advances before after
      → key_of to_lowercase policy after ≡ key_of to_lowercase policy before
  key_of-Advances before after a =
      ap₂ (destination_key to_lowercase policy) a.parent_id a.proposed_name

  shares_destination-Stable :
      (rows : List PlanRow) → Stable (shares_destination to_lowercase policy rows)
  shares_destination-Stable rows before after a =
      ap (is_shared to_lowercase policy rows) (key_of-Advances before after a)

  count_for-Advances :
      (e : Destination) (before after : List PlanRow)
      → AllAdvance before after
      → count_for to_lowercase policy e after ≡ count_for to_lowercase policy e before
  count_for-Advances e [] [] _ = refl
  count_for-Advances e (x ∷ xs) (y ∷ ys) (a, as') =
      ap₂ (λ k n. (if is_for e k then 1 else 0) + n) (key_of-Advances x y a)
        (count_for-Advances e xs ys as')
  count_for-Advances e [] (y ∷ ys) h = absurd h
  count_for-Advances e (x ∷ xs) [] h = absurd h

  is_shared-Advances :
      (before after : List PlanRow)
      → AllAdvance before after
      → (key : Option Destination)
      → is_shared to_lowercase policy after key ≡ is_shared to_lowercase policy before key
  is_shared-Advances before after h none = refl
  is_shared-Advances before after h (some e) = ap (ltb 1) (count_for-Advances e before after h)

  -- The rows that share a destination are blocked by `mark_duplicates`, and stay so.
  pub shares_destination-Guarded :
      (rows later : List PlanRow)
      → AllAdvance (mark_duplicates to_lowercase policy rows) later
      → All (Guarded (shares_destination to_lowercase policy later)) later
  shares_destination-Guarded rows later h =
      let marked = mark_duplicates to_lowercase policy rows in
      let shares = shares_destination to_lowercase policy rows in
      let guarded =
        subst (All (Guarded shares)) (sym (mark_duplicates_lem to_lowercase policy rows))
          (block_where-Guarded shares DiagnosticCode.duplicate_destination
            (shares_destination-Stable rows) rows).1 in
      let advances =
        AllAdvance-trans rows marked later (mark_duplicates-Advances to_lowercase policy rows) h in
      Guarded-agree shares (shares_destination to_lowercase policy later)
        (λ row. is_shared-Advances rows later advances (key_of to_lowercase policy row)) later
        (Guarded-Advances shares (shares_destination-Stable rows) marked later h guarded)
