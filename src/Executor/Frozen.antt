-- ===== src/Executor/Frozen.antt =====
-- crates/renamewright-platform/src/executor.rs: what a plan that `from_entries` makes is like.
use native.Mathlib.Nat.{zero-add}
use renamewright.Common.{
  ok_injective, ℕ, zero, suc, ◌+◌, ◌*◌, ◌≤◌, ◌≡◌, refl, sym, ap, ap₂, ◌∙◌, subst, List, [], ◌∷◌,
  ◌++◌, map, map-append, ok, >>=-eq-ok, arith, length, length-append, length-map, range_from,
  usize_max,
}
use renamewright.Model.Source.{SourceId}
use renamewright.Execution.Schedule.{
  ExecutionPhase, source_to_temporary, temporary_to_final, sort_unstable, two_phases,
  build_two_phase_schedule,
}
use renamewright.Execution.Schedule.Order.{length-sort_unstable}
use renamewright.Execution.Schedule.Outcome.{
  numbered, length-numbered, two_phases_lem, build_two_phase_schedule-ok,
}
use renamewright.Executor.{
  FrozenExecutionEntry, FrozenExecutionPlan, insert_entry, sort_entries, from_entries,
}
use renamewright.Executor.Numbered.{indices, IsNumbered}

range_from-append :
    (first m n : ℕ) → range_from first m ++ range_from (first + m) n ≡ range_from first (m + n)
range_from-append first zero n = ap₂ range_from (omega arith) (omega arith)
range_from-append first (suc m) n =
    let further : first + suc m ≡ suc first + m = omega arith in
    let longer : suc m + n ≡ suc (m + n) = omega arith in
    ap (λ k. first ∷ (range_from (suc first) m ++ range_from k n)) further
    ∙ ap (λ l. first ∷ l) (range_from-append (suc first) m n)
    ∙ ap (range_from first) (sym longer)

indices-numbered :
    (phase : ExecutionPhase) (first : ℕ) (ids : List SourceId)
    → indices (numbered phase first ids) ≡ range_from first (length ids)
indices-numbered phase first [] = refl
indices-numbered phase first (id ∷ ids) =
    ap (λ l. first ∷ l) (indices-numbered phase (suc first) ids)

two_phases-IsNumbered :
    (ids : List SourceId) → IsNumbered (two_phases ids) × (length (two_phases ids) ≡ length ids * 2)
two_phases-IsNumbered ids =
    let size : length (two_phases ids) ≡ length ids * 2 =
      ap length (two_phases_lem ids)
      ∙ length-append (numbered source_to_temporary 0 ids)
          (numbered temporary_to_final (length ids) ids)
      ∙ omega (
        arith,
        length-numbered source_to_temporary 0 ids,
        length-numbered temporary_to_final (length ids) ids,
      ) in
    (
      ap indices (two_phases_lem ids)
          ∙ map-append (λ step. step.index) (numbered source_to_temporary 0 ids)
              (numbered temporary_to_final (length ids) ids)
          ∙ ap₂ (λ xs ys. xs ++ ys) (indices-numbered source_to_temporary 0 ids)
              (indices-numbered temporary_to_final (length ids) ids
                ∙ ap (λ n. range_from n (length ids)) (sym (zero-add (length ids))))
          ∙ range_from-append 0 (length ids) (length ids)
          ∙ ap (range_from 0) (omega (arith, size)),
      size,
    )

length-sort_entries :
    (entries : List FrozenExecutionEntry) → length (sort_entries entries) ≡ length entries
unfolding sort_entries
length-sort_entries [] = refl
length-sort_entries (entry ∷ entries) =
    length-insert_entry entry (sort_entries entries) ∙ ap suc (length-sort_entries entries)
  where
    length-insert_entry :
        (e : FrozenExecutionEntry) (es : List FrozenExecutionEntry)
        → length (insert_entry e es) ≡ suc (length es)
    length-insert_entry e [] = refl
    length-insert_entry e (f ∷ fs) = ground (arith, length-insert_entry e fs)

-- A frozen plan has a numbered schedule of two steps for each of its entries, of which there are some.
abbrev pub IsFrozen : FrozenExecutionPlan → Type 0
IsFrozen plan =
    IsNumbered plan.schedule
    × (length plan.schedule ≡ length plan.entries * 2)
    × (1 ≤ length plan.entries)
    × (length plan.schedule ≤ usize_max)

pub from_entries-IsFrozen :
    (plan_id generation : ℕ) (entries : List FrozenExecutionEntry) (plan : FrozenExecutionPlan)
    → from_entries plan_id generation entries ≡ ok plan
    → IsFrozen plan
unfolding from_entries
from_entries-IsFrozen plan_id generation entries plan e =
    let ids : List SourceId = map (λ entry. entry.journal_entry.source_id) (sort_entries entries) in
    let (schedule, built, made) = >>=-eq-ok (build_two_phase_schedule ids) _ e in
    let (present, fits, steps) = build_two_phase_schedule-ok ids schedule built in
    let (in_order, size) = two_phases-IsNumbered (sort_unstable ids) in
    let counted : length ids ≡ length (sort_entries entries) =
      length-map (sort_entries entries) _ in
    let twice : length schedule ≡ length (sort_entries entries) * 2 =
      ap length (sym steps) ∙ size ∙ omega (arith, length-sort_unstable ids, counted) in
    subst IsFrozen (ok_injective made) (
      subst IsNumbered steps in_order,
      twice,
      omega (arith, present, counted),
      omega (arith, twice, fits, counted),
    )
