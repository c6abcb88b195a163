-- ===== src/Model/Counters.antt =====
-- What the counters of a plan say of its rows.
use renamewright.Common.{ℕ, ◌+◌, ◌<◌, ◌≡◌, ◌↔◌, ◌≢◌, ◌⊎◌, refl, true, List, [], ◌∷◌, arith, All}
use renamewright.Model.Source.{PlanId}
use renamewright.Model.Row.{NameStatus, PlanRow}
use renamewright.Model.Plan.{
  Counters, changed_one, blocked_one, count_row, count_rows, no_counts, new_plan, can_apply,
}

-- The number of rows with the status that `one` picks.
abbrev pub count_status : (NameStatus → ℕ) → List PlanRow → ℕ
count_status one [] = 0
count_status one (row ∷ rows) = one row.status + count_status one rows

pub count_rows_exact :
    (c : Counters) (rows : List PlanRow)
    → ((count_rows c rows).changed_count ≡ c.changed_count + count_status changed_one rows)
      × ((count_rows c rows).blocked_count ≡ c.blocked_count + count_status blocked_one rows)
unfolding count_rows count_row
count_rows_exact c [] = omega arith
count_rows_exact c (row ∷ rows) = omega (arith, count_rows_exact (count_row c row) rows)

none_blocked :
    (rows : List PlanRow)
    → (count_status blocked_one rows ≡ 0) ↔ All (λ row. row.status ≢ NameStatus.blocked) rows
none_blocked [] = (λ _. tt, λ _. refl)
none_blocked (row ∷ rows) = go (none_blocked rows)
  where
    go :
        (count_status blocked_one rows ≡ 0) ↔ All (λ r. r.status ≢ NameStatus.blocked) rows
        → (count_status blocked_one (row ∷ rows) ≡ 0)
          ↔ All (λ r. r.status ≢ NameStatus.blocked) (row ∷ rows)
    go ih = (λ h. (ground arith, ih.0 (ground arith)), λ h. ground (arith, ih.1 h.1))

-- Some row has the status `changed`.
abbrev pub SomeChanged : List PlanRow → Type 0
SomeChanged [] = ⊥
SomeChanged (row ∷ rows) = (row.status ≡ NameStatus.changed) ⊎ SomeChanged rows

some_changed : (rows : List PlanRow) → (0 < count_status changed_one rows) ↔ SomeChanged rows
some_changed [] = (λ h. omega arith, λ h. absurd h)
some_changed (row ∷ rows) = go (some_changed rows)
  where
    go :
        (0 < count_status changed_one rows) ↔ SomeChanged rows
        → (0 < count_status changed_one (row ∷ rows)) ↔ SomeChanged (row ∷ rows)
    go ih = (λ h. ground (arith, ih.0), λ h. ground (arith, ih.1))

-- The counters of a plan are the numbers of its changed and of its blocked rows, and a plan can be
-- applied exactly when some row is changed and no row is blocked.
pub can_apply-new_plan :
    (id : PlanId) (generation : ℕ) (rows : List PlanRow)
    → let plan = new_plan id generation rows in
      (plan.changed_count ≡ count_status changed_one rows)
      × (plan.blocked_count ≡ count_status blocked_one rows)
      × ((can_apply plan ≡ true)
          ↔ (SomeChanged rows × All (λ row. row.status ≢ NameStatus.blocked) rows))
unfolding can_apply new_plan
can_apply-new_plan id generation rows =
    let e = count_rows_exact no_counts rows in
    let s = some_changed rows in
    let b = none_blocked rows in
    (
      omega arith,
      omega arith,
      (λ h. (s.0 (ground arith), b.0 (ground arith)), λ h. ground (arith, s.1 h.0, b.1 h.1)),
    )
