-- ===== src/Model/Plan.antt =====
-- crates/renamewright-core/src/model.rs: the rename plan and its counters. A counter is at most the
-- number of rows, which a `Vec` keeps below `usize::MAX`, so `+= 1` is written without wrap-around.
use renamewright.Common.{
  ℕ, ◌+◌, Bool, ◌&&◌, List, [], ◌∷◌, if◌then◌else◌, ltb, ◌==◌, saturating_add,
}
use renamewright.Model.Source.{PlanId}
use renamewright.Model.Row.{NameStatus, PlanRow, retained_trace_bytes}

pub record Counters : Type 0 where
  pub changed_count : ℕ
  pub blocked_count : ℕ
  pub retained_bytes : ℕ
  pub truncated_rows : ℕ

pub record RenamePlan : Type 0 where
  pub id : PlanId
  pub generation : ℕ
  pub rows : List PlanRow
  pub changed_count : ℕ
  pub blocked_count : ℕ
  pub retained_bytes : ℕ
  pub trace_truncated_row_count : ℕ

abbrev pub changed_one : NameStatus → ℕ
changed_one NameStatus.changed = 1
changed_one NameStatus.blocked = 0
changed_one NameStatus.unchanged = 0

abbrev pub blocked_one : NameStatus → ℕ
blocked_one NameStatus.changed = 0
blocked_one NameStatus.blocked = 1
blocked_one NameStatus.unchanged = 0

-- One round of the loop of `RenamePlan::new`.
unfoldable pub count_row : Counters → PlanRow → Counters
count_row c row = record {
  changed_count = c.changed_count + changed_one row.status;
  blocked_count = c.blocked_count + blocked_one row.status;
  retained_bytes = saturating_add c.retained_bytes (retained_trace_bytes row);
  truncated_rows = c.truncated_rows + (if row.trace_truncated then 1 else 0);
}

unfoldable pub count_rows : Counters → List PlanRow → Counters
count_rows c [] = c
count_rows c (row ∷ rows) = count_rows (count_row c row) rows

abbrev pub no_counts : Counters
no_counts = record { changed_count = 0; blocked_count = 0; retained_bytes = 0; truncated_rows = 0 }

unfoldable pub new_plan : PlanId → ℕ → List PlanRow → RenamePlan
new_plan id generation rows =
    let c = count_rows no_counts rows in
    record {
      id = id;
      generation = generation;
      rows = rows;
      changed_count = c.changed_count;
      blocked_count = c.blocked_count;
      retained_bytes = c.retained_bytes;
      trace_truncated_row_count = c.truncated_rows;
    }

unfoldable pub can_apply : RenamePlan → Bool
can_apply plan = ltb 0 plan.changed_count && plan.blocked_count == 0
