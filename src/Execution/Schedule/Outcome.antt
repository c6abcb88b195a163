-- ===== src/Execution/Schedule/Outcome.antt =====
-- What `build_two_phase_schedule` returns, on every branch.
use renamewright.Common.{
  count, ℕ, suc, ◌*◌, ◌≤◌, ◌<◌, ◌≡◌, ◌≢◌, inl, inr, refl, none, List, [], ◌∷◌, ◌++◌, append_assoc,
  arith, length, length-append, Option-cases, usize_max, ok, err, Result, sym, append-nil, leb,
  Bool-cases, true,
}
use mathlib.Core.List.{cons-ne-nil}
use renamewright.Model.Source.{SourceId}
use renamewright.Execution.Schedule.{
  ExecutionPhase, source_to_temporary, temporary_to_final, ExecutionStep, ScheduleError, empty_plan,
  duplicate_source, too_many_sources, sort_unstable, first_duplicate, push_phase, two_phases,
  build_two_phase_schedule,
}
use renamewright.Execution.Schedule.Order.{
  Distinct, IsStrict, count-sort_unstable, length-sort_unstable, sort_unstable-IsSorted,
  first_duplicate-none, first_duplicate-some, IsStrict-Distinct,
}

-- The steps of one phase, numbered from `first`.
abbrev pub numbered : ExecutionPhase → ℕ → List SourceId → List ExecutionStep
numbered phase first [] = []
numbered phase first (id ∷ ids) =
    record { index = first; source_id = id; phase = phase } ∷ numbered phase (suc first) ids

push_phase-numbered :
    (phase : ExecutionPhase) (ids : List SourceId) (steps : List ExecutionStep)
    → push_phase phase ids steps ≡ steps ++ numbered phase (length steps) ids
unfolding push_phase
push_phase-numbered phase [] steps = sym (append-nil steps)
push_phase-numbered phase (id ∷ ids) steps =
    let step : ExecutionStep = record { index = length steps; source_id = id; phase = phase } in
    let e : length (steps ++ step ∷ []) ≡ suc (length steps) =
      omega (arith, length-append steps (step ∷ [])) in
    rw (push_phase-numbered phase ids (steps ++ step ∷ []), e)
      (append_assoc steps (step ∷ []) (numbered phase (suc (length steps)) ids))

pub length-numbered :
    (phase : ExecutionPhase) (first : ℕ) (ids : List SourceId)
    → length (numbered phase first ids) ≡ length ids
length-numbered phase first [] = refl
length-numbered phase first (id ∷ ids) = omega (arith, length-numbered phase (suc first) ids)

-- First every source moves to its temporary name, then every source to its final name, in the same
-- order, and the steps are numbered from 0.
pub two_phases_lem :
    (ids : List SourceId)
    → two_phases ids
      ≡ numbered source_to_temporary 0 ids ++ numbered temporary_to_final (length ids) ids
unfolding two_phases
two_phases_lem ids = rw (
  push_phase-numbered source_to_temporary ids [],
  push_phase-numbered temporary_to_final ids (numbered source_to_temporary 0 ids),
  length-numbered source_to_temporary 0 ids,
)

-- A strictly ascending list with the elements of `ids`.
pub record IsOrderingOf (ids ordered : List SourceId) : Type 0 where
  pub ascending : IsStrict ordered
  pub same_elements : (a : SourceId) → count a ordered ≡ count a ids

-- The two phases over an ordering of the sources.
abbrev pub IsSchedule : List SourceId → List ExecutionStep → Type 0
IsSchedule ids steps =
    (ordered : List SourceId) × IsOrderingOf ids ordered
    × (steps
        ≡ numbered source_to_temporary 0 ordered
          ++ numbered temporary_to_final (length ids) ordered)

-- The four outcomes, each with the source ids that lead to it.
abbrev pub ScheduleOutcome : List SourceId → Result ScheduleError (List ExecutionStep) → Type 0
ScheduleOutcome ids (err empty_plan) = ids ≡ []
ScheduleOutcome ids (err (duplicate_source d)) = 2 ≤ count d ids
ScheduleOutcome ids (err too_many_sources) = Distinct ids × (usize_max < length ids * 2)
ScheduleOutcome ids (ok steps) =
    (ids ≢ []) × Distinct ids × (length ids * 2 ≤ usize_max) × IsSchedule ids steps

sorted_outcome :
    (ids : List SourceId)
    → ids ≢ []
    → first_duplicate (sort_unstable ids) ≡ none
    → IsOrderingOf ids (sort_unstable ids) × Distinct ids
sorted_outcome ids h e =
    let strict = first_duplicate-none (sort_unstable ids) (sort_unstable-IsSorted ids) e in
    (
      record { ascending = strict; same_elements = λ a. count-sort_unstable a ids },
      λ a. omega (arith, IsStrict-Distinct (sort_unstable ids) strict a, count-sort_unstable a ids),
    )

fits_outcome :
    (ids : List SourceId)
    → ids ≢ []
    → first_duplicate (sort_unstable ids) ≡ none
    → leb (length (sort_unstable ids) * 2) usize_max ≡ true
    → ScheduleOutcome ids (ok (two_phases (sort_unstable ids)))
fits_outcome ids h e fits =
    let (ordering, distinct) = sorted_outcome ids h e in
    (
      h,
      distinct,
      ground (arith, length-sort_unstable ids),
      (
        sort_unstable ids,
        ordering,
        rw (← length-sort_unstable ids) (two_phases_lem (sort_unstable ids)),
      ),
    )

-- The schedule of any list of source ids: it is refused as empty only if it is empty, the duplicate
-- that a refusal names occurs twice, it is refused as too large only if it has no duplicate and its
-- doubled length overflows; otherwise no id occurs twice, and the steps move every source, in
-- ascending order, first to its temporary name and then to its final name, numbered from 0.
pub build_two_phase_schedule_outcome :
    (ids : List SourceId) → ScheduleOutcome ids (build_two_phase_schedule ids)
unfolding build_two_phase_schedule
build_two_phase_schedule_outcome [] = refl
build_two_phase_schedule_outcome (id ∷ ids) =
    let all = id ∷ ids in
    let ordered = sort_unstable all in
    elim (Option-cases (first_duplicate ordered)) [
      | inr (d, e) ↦
          rw e (omega (arith, first_duplicate-some ordered d e, count-sort_unstable d all))
      | inl e ↦ rw e (elim (Bool-cases (leb (length ordered * 2) usize_max)) [
        | inl fits ↦ rw fits (fits_outcome all (cons-ne-nil id ids) e fits)
        | inr over ↦ rw over (
          (sorted_outcome all (cons-ne-nil id ids) e).1,
          ground (arith, length-sort_unstable all),
        )
      ])
    ]

-- What a schedule that was built is.
pub build_two_phase_schedule-ok :
    (ids : List SourceId) (steps : List ExecutionStep)
    → build_two_phase_schedule ids ≡ ok steps
    → (1 ≤ length ids) × (length ids * 2 ≤ usize_max) × (two_phases (sort_unstable ids) ≡ steps)
unfolding build_two_phase_schedule
build_two_phase_schedule-ok [] steps e = cc
build_two_phase_schedule-ok (id ∷ ids) steps e =
    let all = id ∷ ids in
    let ordered = sort_unstable all in
    elim (Option-cases (first_duplicate ordered)) [
      | inr (d, twice) ↦ absurd (ground (arith, twice, e))
      | inl distinct ↦ ground (arith, distinct, e, length-sort_unstable all)
    ]
