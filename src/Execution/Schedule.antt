-- ===== src/Execution/Schedule.antt =====
-- crates/renamewright-core/src/execution.rs: `build_two_phase_schedule`. `sort_unstable` on numbers
-- has one possible result, which insertion sort computes.
pub mod Order
pub mod Outcome
use renamewright.Common.{
  ℕ, Option, none, some, List, [], ◌∷◌, ◌++◌, ◌==◌, leb, if◌then◌else◌, length, is_empty,
  checked_mul, Result, ok, err,
}
use renamewright.Model.Source.{SourceId}

pub data ExecutionPhase : Type 0 where
  source_to_temporary temporary_to_final : ExecutionPhase

pub record ExecutionStep : Type 0 where
  pub index : ℕ
  pub source_id : SourceId
  pub phase : ExecutionPhase

pub data ScheduleError : Type 0 where
  empty_plan : ScheduleError
  duplicate_source : SourceId → ScheduleError
  too_many_sources : ScheduleError

pub insert_sorted : ℕ → List ℕ → List ℕ
insert_sorted a [] = a ∷ []
insert_sorted a (b ∷ bs) = if leb a b then a ∷ b ∷ bs else b ∷ insert_sorted a bs

unfoldable pub sort_unstable : List ℕ → List ℕ
unfolding insert_sorted
sort_unstable [] = []
sort_unstable (a ∷ as') = insert_sorted a (sort_unstable as')

-- `windows(2).find_map(…)`: the first element that equals its successor.
unfoldable pub first_duplicate : List ℕ → Option ℕ
first_duplicate (a ∷ b ∷ rest) = if a == b then some a else first_duplicate (b ∷ rest)
first_duplicate _ = none

-- The inner loop: one step of the phase for each source, numbered by the length so far.
unfoldable pub push_phase : ExecutionPhase → List SourceId → List ExecutionStep → List ExecutionStep
push_phase phase [] steps = steps
push_phase phase (id ∷ ids) steps =
    push_phase phase ids
      (steps ++ record { index = length steps; source_id = id; phase = phase } ∷ [])

unfoldable pub two_phases : List SourceId → List ExecutionStep
unfolding push_phase
two_phases ordered =
    push_phase temporary_to_final ordered (push_phase source_to_temporary ordered [])

unfoldable pub build_two_phase_schedule : List SourceId → Result ScheduleError (List ExecutionStep)
build_two_phase_schedule source_ids =
    if is_empty source_ids
    then err empty_plan
    else let ordered = sort_unstable source_ids in
      elim (first_duplicate ordered) [
        | some duplicate ↦ err (duplicate_source duplicate)
        | none ↦ elim (checked_mul (length ordered) 2) [
          | none ↦ err too_many_sources
          | some capacity ↦ ok (two_phases ordered)
        ]
      ]
