-- ===== src/Planner/Duplicates.antt =====
-- `mark_duplicates` (crates/renamewright-core/src/planner.rs): which rows it blocks.
use renamewright.Planner.Sound.{
  in_groups-indices_of, IsSound, in_groups-IsSound, group_rows-IsSound,
}
use renamewright.Common.{
  subst, ltb→lt, ℕ, ◌+◌, ◌<◌, ◌≡◌, refl, sym, ap, ◌∙◌, Bool, true, false, Option, none, some, List,
  [], ltb, length, get_elem?, arith, All, Bool-cases, Option-cases, inl, inr,
}
use renamewright.Text.{Str}
use renamewright.Model.Source.{TargetPolicy}
use renamewright.Model.Diagnostic.{duplicate_destination}
use renamewright.Model.Row.{PlanRow}
use renamewright.Planner.Marks.{Destination, group_rows, block_where, mark_duplicates}
use renamewright.Planner.Indexed.{mem, in_groups, block_groups-mark_at, mark_at-block_where}
use renamewright.Planner.Groups.{
  destination_eq_iff, is_for, key_of, count_for, positions, indices_of-group_rows, length-positions,
  mem-positions,
}

module _ (to_lowercase : Str → Str) (policy : TargetPolicy) where
  -- At least two of the rows go to the destination.
  abbrev pub is_shared : List PlanRow → Option Destination → Bool
  is_shared rows none = false
  is_shared rows (some e) = ltb 1 (count_for to_lowercase policy e rows)

  -- At least two of the rows go where this one goes.
  abbrev pub shares_destination : List PlanRow → PlanRow → Bool
  shares_destination rows row = is_shared rows (key_of to_lowercase policy row)

  abbrev groups_of : List PlanRow → List (Destination × List ℕ)
  groups_of rows = group_rows to_lowercase policy 0 rows []

  in_groups-shared :
      (rows : List PlanRow) (j : ℕ) (row : PlanRow) (e : Destination)
      → get_elem? rows j ≡ some row
      → key_of to_lowercase policy row ≡ some e
      → 1 < count_for to_lowercase policy e rows
      → in_groups (groups_of rows) j ≡ true
  in_groups-shared rows j row e at key big =
      let eq = indices_of-group_rows to_lowercase policy e 0 rows [] in
      let self : is_for e (key_of to_lowercase policy row) ≡ true =
        ap (is_for e) key ∙ (destination_eq_iff e e).1 refl in
      let held : mem (positions to_lowercase policy e 0 rows) j ≡ true =
        subst (λ n. mem (positions to_lowercase policy e 0 rows) n ≡ true) (omega arith)
          (mem-positions to_lowercase policy e 0 j rows row at self) in
      in_groups-indices_of e j (groups_of rows)
        (subst (λ l. 1 < length l) (sym eq)
          (omega (arith, length-positions to_lowercase policy e 0 rows)))
        (subst (λ l. mem l j ≡ true) (sym eq) held)

  owned :
      (rows : List PlanRow)
      → All
          (IsSound
            (λ d. 0 + count_for to_lowercase policy d rows)
            (λ j d.
              (row : PlanRow)
              → get_elem? rows j ≡ some row
              → is_for d (key_of to_lowercase policy row) ≡ true))
          (groups_of rows)
  owned rows =
      group_rows-IsSound to_lowercase policy (λ d. 0)
        (λ j d.
          (row : PlanRow)
          → get_elem? rows j ≡ some row
          → is_for d (key_of to_lowercase policy row) ≡ true)
        0 rows []
        (λ k row d at h r at'.
          let there : get_elem? rows k ≡ some r =
            subst (λ n. get_elem? rows n ≡ some r) (omega arith) at' in
          let same : row ≡ r = cc in
          subst (λ x. is_for d (key_of to_lowercase policy x) ≡ true) same h)
        tt

  shared-in_groups :
      (rows : List PlanRow) (j : ℕ) (row : PlanRow)
      → get_elem? rows j ≡ some row
      → in_groups (groups_of rows) j ≡ true
      → shares_destination rows row ≡ true
  shared-in_groups rows j row at h =
      let (d, big, own) =
        in_groups-IsSound (λ d. 0 + count_for to_lowercase policy d rows)
          (λ j d.
            (row : PlanRow)
            → get_elem? rows j ≡ some row
            → is_for d (key_of to_lowercase policy row) ≡ true)
          j (groups_of rows) (owned rows) h in
      let is : is_for d (key_of to_lowercase policy row) ≡ true = own row at in
      elim (Option-cases (key_of to_lowercase policy row)) [
        | inl e ↦ absurd (let no : is_for d none ≡ true = subst (λ k. is_for d k ≡ true) e is in cc)
        | inr (c, e) ↦
            let same : d ≡ c = (destination_eq_iff d c).0 (subst (λ k. is_for d k ≡ true) e is) in
            let big' : 1 < count_for to_lowercase policy c rows =
              subst (λ x. 1 < count_for to_lowercase policy x rows) same (omega arith) in
            ap (is_shared rows) e ∙ ground arith
      ]

  in_groups-shares :
      (rows : List PlanRow) (j : ℕ) (row : PlanRow)
      → get_elem? rows j ≡ some row
      → in_groups (groups_of rows) j ≡ shares_destination rows row
  in_groups-shares rows j row at = elim (Bool-cases (in_groups (groups_of rows) j)) [
    | inl h ↦ h ∙ sym (shared-in_groups rows j row at h)
    | inr f ↦
        f
        ∙ sym (elim (Option-cases (key_of to_lowercase policy row)) [
          | inl e ↦ ap (is_shared rows) e
          | inr (c, e) ↦ elim (Bool-cases (ltb 1 (count_for to_lowercase policy c rows))) [
            | inl big ↦ absurd (let t = in_groups-shared rows j row c at e (ltb→lt _ _ big) in cc)
            | inr small ↦ ap (is_shared rows) e ∙ small
          ]
        ])
  ]

  -- Marking the duplicates blocks, as duplicate destinations, exactly the rows whose destination at
  -- least two of the rows have, and leaves every other row as it is. The destination of a row is its
  -- parent with its proposed name, for Windows names with the comparison key of that name; a row whose
  -- name is no Unicode has none.
  pub mark_duplicates_lem :
      (rows : List PlanRow)
      → mark_duplicates to_lowercase policy rows
        ≡ block_where (shares_destination rows) duplicate_destination rows
  unfolding mark_duplicates
  mark_duplicates_lem rows =
      block_groups-mark_at (groups_of rows) rows
      ∙ mark_at-block_where (in_groups (groups_of rows)) (shares_destination rows) 0 rows
          (λ k row at.
            ap (in_groups (groups_of rows)) (omega arith) ∙ in_groups-shares rows k row at)
