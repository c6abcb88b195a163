-- ===== src/Executor/Advances.antt =====
-- How the records of a forward run advance the replay.
use renamewright.Common.{
  ℕ, zero, suc, ◌+◌, ◌≤◌, ◌≡◌, refl, sym, ap, ◌∙◌, List, [], ◌∷◌, ◌++◌, ok, arith, length, take,
  ◌==◌, range_from, range_from-suc, if◌then◌else◌, usize_max,
}
use native.Mathlib.Nat.{zero-add}
use renamewright.Execution.Schedule.{ExecutionStep}
use renamewright.Execution.Journal.{
  forward_step_failed, ExecutionIdentity, JournalRecord, forward_batch_prepared,
  forward_step_prepared, forward_step_completed, transaction_completed,
}
use renamewright.Execution.Replay.{
  ReplayMode, forwards, completed, apply_record, apply_forward_record, forward_batch_steps,
  require_step, admit_cause,
}
use renamewright.Executor.Numbered.{indices}

-- So many steps are completed, and so many behind them are prepared.
abbrev pub going_forward : ℕ → ℕ → ReplayMode
going_forward next prepared = forwards next (range_from 0 next) (range_from next prepared)

-- The two parts of a list of steps that are numbered from `first`.
pub numbered_parts :
    (first : ℕ) (xs ys : List ExecutionStep)
    → indices (xs ++ ys) ≡ range_from first (length (xs ++ ys))
    → (indices xs ≡ range_from first (length xs))
      × (indices ys ≡ range_from (first + length xs) (length ys))
numbered_parts first [] ys e = (refl, e ∙ ap (λ n. range_from n (length ys)) (omega arith))
numbered_parts first (x ∷ xs) ys e =
    let (head, others) = range_parts x.index first (length (xs ++ ys)) (indices (xs ++ ys)) e in
    let (front, back) = numbered_parts (suc first) xs ys others in
    (
      ap (λ l. x.index ∷ l) front ∙ ap (λ n. n ∷ range_from (suc first) (length xs)) head,
      back ∙ ap (λ n. range_from n (length ys)) (omega arith),
    )
  where
    range_parts :
        (index start left : ℕ) (rest : List ℕ)
        → ◌≡◌ {A = List ℕ} (index ∷ rest) (range_from start (suc left))
        → (index ≡ start) × (rest ≡ range_from (suc start) left)
    range_parts index start left rest p = (cc, cc)

pub first_numbered :
    (step : ExecutionStep) (next : ℕ) (steps : List ExecutionStep)
    → indices (step ∷ steps) ≡ range_from next (suc (length steps))
    → (step.index ≡ next) × (indices steps ≡ range_from (suc next) (length steps))
first_numbered step next steps e = (cc, cc)

pub batch_present :
    (size : ℕ) (step : ExecutionStep) (steps : List ExecutionStep)
    → 1 ≤ size
    → 1 ≤ length (take size (step ∷ steps))
batch_present zero step steps h = absurd (omega arith)
batch_present (suc size) step steps h = omega arith

pub admit_failed :
    (next prepared index : ℕ)
    → admit_cause (forward_step_failed next) next (range_from next (suc prepared)) index ≡ ok tt
unfolding admit_cause require_step
admit_failed next prepared index = ground arith

abbrev pub batch_record : ℕ → ℕ → JournalRecord
batch_record next size =
    if size == 1 then forward_step_prepared next else forward_batch_prepared next size

module _ (count : ℕ) (bound : count ≤ usize_max) where
  pub prepare_batch :
      (next size index : ℕ)
      → 1 ≤ size
      → next + size ≤ count
      → apply_record (going_forward next 0) count (batch_record next size) index
        ≡ ok (going_forward next size)
  unfolding apply_record apply_forward_record forward_batch_steps require_step
  prepare_batch next zero index some_steps fits = absurd (omega arith)
  prepare_batch next (suc zero) index some_steps fits = ground arith
  prepare_batch next (suc (suc more)) index some_steps fits = ground arith

  pub complete_next :
      (next prepared index : ℕ) (identity : ExecutionIdentity)
      → next + suc prepared ≤ count
      → apply_record
          (going_forward next (suc prepared))
          count
          (forward_step_completed next identity)
          index
        ≡ ok (going_forward (suc next) prepared)
  unfolding apply_record apply_forward_record
  complete_next next prepared index identity fits =
      let done : range_from 0 next ++ next ∷ [] ≡ range_from 0 (suc next) =
        ap (λ n. range_from 0 next ++ n ∷ []) (sym (zero-add next)) ∙ range_from-suc 0 next in
      ground (arith, done)

  pub commit_all :
      (index : ℕ)
      → apply_record (going_forward count 0) count transaction_completed index ≡ ok completed
  unfolding apply_record apply_forward_record
  commit_all index = ground arith
