-- ===== src/Executor/Loops.antt =====
-- The loops of a forward run follow the replay, or end with what their outcome says.
use renamewright.Common.{
  ◌==◌, ℕ, zero, suc, ◌+◌, ◌≤◌, ◌≡◌, refl, sym, ap, ◌∙◌, subst, List, [], ◌∷◌, ◌++◌, some, Bool, ok,
  err, Result, arith, length, length-append, take, drop, take-append-drop, if_both, range_from,
  usize_max,
}
use renamewright.Execution.Schedule.{ExecutionStep}
use renamewright.Execution.Journal.{
  cancelled, forward_step_failed, ExecutionIdentity, JournalRecord, forward, forward_step_completed,
}
use renamewright.Execution.Replay.{apply_record, admit_cause}
use renamewright.Executor.{
  ExecutionFileSystem, ExecutionFsErrorKind, ExecutionJournal, ExecutionPlanView,
  filesystem_error_is_ambiguous, recovery_outcome,
}
use renamewright.Executor.Steps.{World, Running, record_step, rename}
use renamewright.Executor.Forward.{record_batch, done_forward, attempt_step, step_loop, batch_loop}
use renamewright.Executor.Follow.{
  RunLaws, Writes, At, Goes, Goes-then, record_step-Goes, record_completion-Goes,
}
use renamewright.Executor.Undoing.{planned-Goes, start_rollback-Ends}
use renamewright.Executor.Numbered.{indices, IsNumbered}
use renamewright.Executor.Advances.{
  going_forward, batch_record, numbered_parts, first_numbered, batch_present, admit_failed,
  prepare_batch, complete_next,
}

module _ (filesystem : ExecutionFileSystem) (journal : ExecutionJournal) (plan : ExecutionPlanView)
    (laws : RunLaws filesystem journal) (header : JournalRecord)
    (bound : length plan.schedule ≤ usize_max) (numbered : IsNumbered plan.schedule)
    (should_cancel : ℕ → Bool) where
  abbrev pub count : ℕ
  count = length plan.schedule

  abbrev pub W : Type 0
  W = World filesystem journal plan

  -- The code goes on with so many completed steps, and these prepared ones behind them.
  abbrev pub Advances : ℕ → ℕ → Running filesystem journal plan ℕ → Type 0
  Advances next prepared = Goes filesystem journal plan laws header count (λ world completed_count.
      (completed_count ≡ next)
      × At filesystem journal plan laws header count world (going_forward next prepared))

  abbrev pub Reached : W → ℕ → ℕ → Type 0
  Reached world next prepared =
      At filesystem journal plan laws header count world (going_forward next prepared)

  done_forward-Advances :
      (world : W) (step : ExecutionStep) (next prepared : ℕ)
      (result : Result ExecutionFsErrorKind ExecutionIdentity)
      → ((identity : ExecutionIdentity) → result ≡ ok identity → laws.Known identity)
      → step.index ≡ next
      → next + suc prepared ≤ count
      → Reached world next (suc prepared)
      → Advances
          (suc next)
          prepared
          (done_forward filesystem journal plan should_cancel world step next result)
  unfolding done_forward recovery_outcome
  done_forward-Advances world step next prepared (ok identity) known e fits at =
      Goes-then filesystem journal plan laws header count (λ w done. Reached w (suc next) prepared)
        (λ w c. (c ≡ suc next) × Reached w (suc next) prepared) _ _
        (record_completion-Goes filesystem journal plan laws header count world
          (going_forward next (suc prepared)) (going_forward (suc next) prepared) _ forward
          (some step.index) tt (known identity refl)
          (λ index.
            subst
              (λ n.
                apply_record (going_forward next (suc prepared)) count
                  (forward_step_completed n identity) index
                ≡ ok (going_forward (suc next) prepared))
              (sym e) (complete_next count bound next prepared index identity fits))
          at)
        (λ w done h. (refl, h))
  done_forward-Advances world step next prepared (err kind) known e fits at =
      if_both (Advances (suc next) prepared) (filesystem_error_is_ambiguous kind) _ _
        (going_forward next (suc prepared), at, tt)
        (start_rollback-Ends filesystem journal plan laws header count
          (forward_step_failed step.index) next (range_from next (suc prepared)) world numbered
          (omega arith)
          (λ index.
            subst
              (λ n.
                admit_cause (forward_step_failed n) next (range_from next (suc prepared)) index
                ≡ ok tt)
              (sym e) (admit_failed next prepared index))
          at)

  attempt_step-Advances :
      (world : W) (step : ExecutionStep) (next prepared : ℕ)
      → step.index ≡ next
      → next + suc prepared ≤ count
      → Reached world next (suc prepared)
      → Advances
          (suc next)
          prepared
          (attempt_step filesystem journal plan should_cancel world step next)
  unfolding attempt_step rename
  attempt_step-Advances world step next prepared e fits at =
      Goes-then filesystem journal plan laws header count
        (λ w target. Reached w next (suc prepared))
        (λ w c. (c ≡ suc next) × Reached w (suc next) prepared) _ _
        (planned-Goes filesystem journal plan laws header count world
          (going_forward next (suc prepared)) step forward tt at)
        (λ w target h.
          done_forward-Advances _ step next prepared _
            (λ identity. laws.renames_known _ _ _ _ _ _ identity) e fits h)

  step_loop-Advances :
      (steps : List ExecutionStep) (world : W) (next : ℕ)
      → indices steps ≡ range_from next (length steps)
      → next + length steps ≤ count
      → Reached world next (length steps)
      → Advances
          (next + length steps)
          0
          (step_loop filesystem journal plan should_cancel steps world next)
  unfolding step_loop admit_cause
  step_loop-Advances [] world next e fits at =
      let same : next ≡ next + 0 = omega arith in (same, subst (λ n. Reached world n 0) same at)
  step_loop-Advances (step ∷ steps) world next e fits at =
      let (first, others) = first_numbered step next steps e in
      let further : suc next + length steps ≡ next + suc (length steps) = omega arith in
      if_both (Advances (next + suc (length steps)) 0) (should_cancel world.polls) _ _
        (start_rollback-Ends filesystem journal plan laws header count cancelled next
          (range_from next (suc (length steps))) _ numbered (omega arith) (λ index. refl) at)
        (Goes-then filesystem journal plan laws header count
          (λ w c. (c ≡ suc next) × Reached w (suc next) (length steps))
          (λ w c. (c ≡ next + suc (length steps)) × Reached w (next + suc (length steps)) 0) _ _
          (attempt_step-Advances _ step next (length steps) first fits at)
          (λ w c (same, h).
            subst
              (λ n.
                Advances (next + suc (length steps)) 0
                  (step_loop filesystem journal plan should_cancel steps w n))
              (sym same)
              (subst
                (λ n.
                  Advances n 0 (step_loop filesystem journal plan should_cancel steps w (suc next)))
                further (step_loop-Advances steps w (suc next) others (omega arith) h))))

  pub batch_loop-Advances :
      (fuel size : ℕ) (steps : List ExecutionStep) (world : W) (next : ℕ)
      → 1 ≤ size
      → length steps ≤ fuel
      → indices steps ≡ range_from next (length steps)
      → next + length steps ≤ count
      → Reached world next 0
      → Advances
          (next + length steps)
          0
          (batch_loop filesystem journal plan should_cancel fuel size steps world next)
  unfolding batch_loop record_batch record_step
  batch_loop-Advances fuel size [] world next some_size enough e fits at =
      let same : next ≡ next + 0 = omega arith in (same, subst (λ n. Reached world n 0) same at)
  batch_loop-Advances zero size (step ∷ steps) world next some_size enough e fits at =
      absurd (omega arith)
  batch_loop-Advances (suc fuel) size (step ∷ steps) world next some_size enough e fits at =
      let batch : List ExecutionStep = take size (step ∷ steps) in
      let others : List ExecutionStep = drop size (step ∷ steps) in
      let joined : batch ++ others ≡ step ∷ steps = take-append-drop size (step ∷ steps) in
      let total : length batch + length others ≡ suc (length steps) =
        sym (length-append batch others) ∙ ap length joined in
      let present : 1 ≤ length batch = batch_present size step steps some_size in
      let (in_batch, behind) =
        numbered_parts next batch others
          (subst (λ l. indices l ≡ range_from next (length l)) (sym joined) e) in
      let (first, rest) = first_numbered step next steps e in
      let last : next + length batch + length others ≡ next + suc (length steps) =
        omega (arith, total) in
      Goes-then filesystem journal plan laws header count (λ w done. Reached w next (length batch))
        (λ w c. (c ≡ next + suc (length steps)) × Reached w (next + suc (length steps)) 0) _ _
        (record_step-Goes filesystem journal plan laws header count world (going_forward next 0)
          (going_forward next (length batch)) _ forward (some step.index) tt
          (if_both (Writes laws.Known) (length batch == 1) _ _ tt tt)
          (λ index.
            subst
              (λ n.
                apply_record (going_forward next 0) count (batch_record n (length batch)) index
                ≡ ok (going_forward next (length batch)))
              (sym first)
              (prepare_batch count bound next (length batch) index present (omega (arith, total))))
          at)
        (λ w done h.
          Goes-then filesystem journal plan laws header count
            (λ v c. (c ≡ next + length batch) × Reached v (next + length batch) 0)
            (λ v c. (c ≡ next + suc (length steps)) × Reached v (next + suc (length steps)) 0) _ _
            (step_loop-Advances batch w next in_batch (omega (arith, total)) h)
            (λ v c (same, k).
              subst
                (λ n.
                  Advances (next + suc (length steps)) 0
                    (batch_loop filesystem journal plan should_cancel fuel size others v n))
                (sym same)
                (subst
                  (λ n. Advances n 0 (
                    batch_loop filesystem journal plan should_cancel fuel size others v
                      (next + length batch)))
                  last
                  (batch_loop-Advances fuel size others v (next + length batch) some_size
                    (omega (arith, total, present)) behind (omega (arith, total)) k))))
