-- ===== src/Executor/Undoing.antt =====
-- The rollback of a run leaves the journal rolled back, or open where recovery is required.
use renamewright.Common.{
  inr, inl, Option-cases, ℕ, zero, suc, ◌≤◌, ◌≡◌, refl, sym, subst, List, [], ◌∷◌, reverse, none,
  some, true, ok, err, Result, arith, length, take, ltb, if_both, range_from, countdown,
  reverse-range_from,
}
use renamewright.Execution.Schedule.{ExecutionStep}
use renamewright.Execution.Journal.{
  ExecutionDirection, RollbackCause, ExecutionIdentity, JournalRecord, rollback,
  rollback_step_failed,
}
use renamewright.Execution.Replay.{
  ReplayMode, forwards, backwards, rolled_back, apply_record, apply_forward_record,
  apply_rollback_record, admit_cause,
}
use renamewright.Executor.{
  ExecutionFileSystem, ExecutionFsErrorKind, ExecutionJournal, ExecutionPlanView,
  filesystem_error_is_ambiguous, recovery_outcome,
}
use renamewright.Executor.Steps.{World, Executed, Running, record_step, planned, rename}
use renamewright.Executor.Rollback.{
  undone, rollback_step, rollback_loop, complete_rollback, continue_rollback, roll_back,
  start_rollback,
}
use renamewright.Executor.Follow.{
  conclude-Ends, RunLaws, IsOpen, At, Ends, Goes, Goes-then, record_step-Goes,
  record_completion-Goes,
}
use renamewright.Executor.Numbered.{indices, IsNumbered, countdown_parts, undo_order}

module _ (filesystem : ExecutionFileSystem) (journal : ExecutionJournal) (plan : ExecutionPlanView)
    (laws : RunLaws filesystem journal) (header : JournalRecord) (count : ℕ) where
  abbrev pub Here : Type 0
  Here = World filesystem journal plan

  abbrev pub Stands : Here → ReplayMode → Type 0
  Stands = At filesystem journal plan laws header count

  abbrev pub Over : Executed filesystem journal plan → Type 0
  Over = Ends filesystem journal plan laws header count

  abbrev pub Runs : {A : Type 0} → ReplayMode → Running filesystem journal plan A → Type 0
  Runs mode = Goes filesystem journal plan laws header count (λ world value. Stands world mode)

  pub planned-Goes :
      (world : Here) (mode : ReplayMode) (step : ExecutionStep) (direction : ExecutionDirection)
      → IsOpen mode
      → Stands world mode
      → Runs mode (planned filesystem journal plan world step direction)
  unfolding planned recovery_outcome
  planned-Goes world mode step direction unfinished at =
      elim (Option-cases (plan.entry step.source_id)) [
        | inl e ↦ rw (planned, e) (mode, at, unfinished)
        | inr (found, e) ↦ elim (Option-cases found.0.parent_execution_identity) [
          | inl e' ↦ rw (planned, e, e') (mode, at, unfinished)
          | inr (identity, e') ↦ rw (planned, e, e') at
        ]
      ]

  module _ (cause : RollbackCause) (rest : List ℕ) where
    undone-Goes :
        (world : Here) (step : ExecutionStep)
        (result : Result ExecutionFsErrorKind ExecutionIdentity)
        → ((identity : ExecutionIdentity) → result ≡ ok identity → laws.Known identity)
        → Stands world (backwards cause (step.index ∷ rest) (some step.index))
        → Runs (backwards cause rest none) (undone filesystem journal plan world step result)
    unfolding undone recovery_outcome apply_record apply_rollback_record
    undone-Goes world step (ok identity) known at =
        record_completion-Goes filesystem journal plan laws header count world _ _ _ rollback
          (some step.index) tt (known identity refl) (λ index. ground arith) at
    undone-Goes world step (err kind) known at =
        if_both (Runs (backwards cause rest none)) (filesystem_error_is_ambiguous kind) _ _
          (backwards cause (step.index ∷ rest) (some step.index), at, tt)
          (Goes-then filesystem journal plan laws header count
            (λ w done. Stands w (ReplayMode.recovery cause step.index (step.index ∷ rest)))
            (λ w done. Stands w (backwards cause rest none))
            (record_step filesystem journal plan world (rollback_step_failed step.index) rollback
              (some step.index))
            _
            (record_step-Goes filesystem journal plan laws header count world _ _ _ rollback
              (some step.index) tt tt (λ index. ground arith) at)
            (λ w done h. (ReplayMode.recovery cause step.index (step.index ∷ rest), h, tt)))

    rollback_step-Goes :
        (world : Here) (step : ExecutionStep)
        → Stands world (backwards cause (step.index ∷ rest) none)
        → Runs (backwards cause rest none) (rollback_step filesystem journal plan world step)
    unfolding rollback_step rename apply_record apply_rollback_record
    rollback_step-Goes world step at =
        let open_mode : ReplayMode = backwards cause (step.index ∷ rest) (some step.index) in
        Goes-then filesystem journal plan laws header count (λ w done. Stands w open_mode)
          (λ w done. Stands w (backwards cause rest none)) _ _
          (record_step-Goes filesystem journal plan laws header count world _ open_mode _ rollback
            (some step.index) tt tt (λ index. ground arith) at)
          (λ w done h.
            Goes-then filesystem journal plan laws header count (λ v target. Stands v open_mode)
              (λ v d. Stands v (backwards cause rest none)) _ _
              (planned-Goes w open_mode step rollback tt h)
              (λ v target k.
                undone-Goes _ step _ (λ identity. laws.renames_known _ _ _ _ _ _ identity) k))

  rollback_loop-Goes :
      (cause : RollbackCause) (left : ℕ) (steps : List ExecutionStep) (world : Here)
      → indices steps ≡ countdown left
      → Stands world (backwards cause (countdown left) none)
      → Runs (backwards cause [] none) (rollback_loop filesystem journal plan steps world)
  unfolding rollback_loop
  rollback_loop-Goes cause zero [] world numbered at = at
  rollback_loop-Goes cause zero (step ∷ steps) world numbered at = absurd (cc)
  rollback_loop-Goes cause (suc left) [] world numbered at = absurd (cc)
  rollback_loop-Goes cause (suc left) (step ∷ steps) world numbered at =
      let (first, others) = countdown_parts step.index left (indices steps) numbered in
      Goes-then filesystem journal plan laws header count
        (λ w done. Stands w (backwards cause (countdown left) none))
        (λ w done. Stands w (backwards cause [] none)) _ _
        (rollback_step-Goes cause (countdown left) world step
          (subst (λ n. Stands world (backwards cause (n ∷ countdown left) none)) (sym first) at))
        (λ w done h. rollback_loop-Goes cause left steps w others h)

  pub complete_rollback-Ends :
      (cause : RollbackCause) (world : Here)
      → Stands world (backwards cause [] none)
      → Over (complete_rollback filesystem journal plan world cause)
  unfolding complete_rollback apply_record apply_rollback_record
  complete_rollback-Ends cause world at =
      conclude-Ends filesystem journal plan laws header count _ _ (rolled_back cause) refl (
        record_step-Goes filesystem journal plan laws header count world _ (rolled_back cause) _
          rollback none tt tt (λ index. refl) at)

  -- Undoing the first steps of a numbered schedule.
  roll_back-Ends :
      (cause : RollbackCause) (completed_count : ℕ) (world : Here)
      → IsNumbered plan.schedule
      → completed_count ≤ length plan.schedule
      → Stands world (backwards cause (countdown completed_count) none)
      → Over (roll_back filesystem journal plan completed_count world cause)
  unfolding roll_back continue_rollback
  roll_back-Ends cause zero world numbered within at = complete_rollback-Ends cause world at
  roll_back-Ends cause (suc next_step) world numbered within at =
      let inside : ltb next_step (length plan.schedule) ≡ true = ground (arith, within) in
      let steps : List ExecutionStep = reverse (take (suc next_step) plan.schedule) in
      let undoing : Runs (backwards cause [] none)
          (rollback_loop filesystem journal plan steps world) =
        rollback_loop-Goes cause (suc next_step) steps world
          (undo_order plan.schedule (suc next_step) numbered within) at in
      rw inside (after_loop-Ends (rollback_loop filesystem journal plan steps world) undoing)
    where
      after_loop-Ends :
          (running : Running filesystem journal plan (Unit {0}))
          → Runs (backwards cause [] none) running
          → Over (elim running [
            | ok (last, done) ↦ complete_rollback filesystem journal plan last cause
            | err executed ↦ executed
          ])
      after_loop-Ends (ok (last, done)) h = complete_rollback-Ends cause last h
      after_loop-Ends (err executed) h = h

  -- A rollback that the forward records admit, behind so many completed steps.
  pub start_rollback-Ends :
      (cause : RollbackCause) (completed_count : ℕ) (prepared : List ℕ) (world : Here)
      → IsNumbered plan.schedule
      → completed_count ≤ length plan.schedule
      → ((index : ℕ) → admit_cause cause completed_count prepared index ≡ ok tt)
      → Stands world (forwards completed_count (range_from 0 completed_count) prepared)
      → Over (start_rollback filesystem journal plan world completed_count cause)
  unfolding start_rollback apply_record apply_forward_record
  start_rollback-Ends cause completed_count prepared world numbered within admitted at =
      after_start-Ends _ (
        record_step-Goes filesystem journal plan laws header count world _
          (backwards cause (countdown completed_count) none) _ rollback none tt tt
          (λ index. rw (admitted index, reverse-range_from completed_count) refl) at)
    where
      after_start-Ends :
          (running : Running filesystem journal plan (Unit {0}))
          → Runs (backwards cause (countdown completed_count) none) running
          → Over (elim running [
            | ok (started, done) ↦ roll_back filesystem journal plan completed_count started cause
            | err executed ↦ executed
          ])
      after_start-Ends (ok (started, done)) h =
          roll_back-Ends cause completed_count started numbered within h
      after_start-Ends (err executed) h = h
