-- ===== src/Execution/Replay/Invariant.antt =====
-- What holds of the replay mode after every accepted record.
use renamewright.Common.{
  ℕ, suc, ◌+◌, ◌≤◌, ◌<◌, ◌≡◌, refl, sym, ap, ◌∙◌, Option, none, some, List, [], ◌∷◌, ◌++◌, reverse,
  arith, length, head?, tail, range_from, countdown, usize_max, subst, Result-cases, wrapping,
  Result, err, ok, range_from-suc, reverse-range_from, length-range_from, length-countdown,
  saturating_add, inl, inr,
}
use renamewright.Execution.Journal.{
  RollbackCause, JournalRecord, forward_batch_prepared, forward_step_prepared,
  forward_step_completed, forward_step_not_applied, rollback_started, rollback_step_prepared,
  rollback_step_completed, rollback_step_not_applied, rollback_step_failed,
  rollback_recovery_started, transaction_completed, transaction_rolled_back,
}
use renamewright.Execution.Replay.{
  ReplayMode, forwards, backwards, completed, rolled_back, recovery, forward_batch_steps,
  apply_forward_record, apply_rollback_record, apply_record, apply_records, start,
}

-- A prepared rollback step is the next one that remains.
abbrev pub IsFront : List ℕ → Option ℕ → Type 0
IsFront remaining none = Unit
IsFront remaining (some step) = head? remaining ≡ some step

-- The steps done are `0..next`; the prepared ones follow them without a gap and stay in the
-- schedule; what remains to roll back counts down to 0.
pub record IsForward (count next : ℕ) (done prepared : List ℕ) : Type 0 where
  pub done_below : done ≡ range_from 0 next
  pub prepared_next : prepared ≡ range_from next (length prepared)
  pub in_schedule : next + length prepared ≤ count

pub record IsBackward (count : ℕ) (remaining : List ℕ) (prepared : Option ℕ) : Type 0 where
  pub counts_down : remaining ≡ countdown (length remaining)
  pub within : length remaining ≤ count
  pub front : IsFront remaining prepared

abbrev pub IsWellFormed : ℕ → ReplayMode → Type 0
IsWellFormed count (forwards next done prepared) = IsForward count next done prepared
IsWellFormed count (backwards cause remaining prepared) = IsBackward count remaining prepared
IsWellFormed count completed = Unit
IsWellFormed count (rolled_back cause) = Unit
IsWellFormed count (recovery cause failed remaining) = IsBackward count remaining (some failed)

pub start-IsWellFormed : (count : ℕ) → IsWellFormed count start
start-IsWellFormed count = record {
  done_below = refl;
  prepared_next = refl;
  in_schedule = omega arith;
}

range_from-tail :
    (step : ℕ) (next : ℕ) (steps : List ℕ)
    → step ∷ steps ≡ range_from next (suc (length steps))
    → steps ≡ range_from (suc next) (length steps)
range_from-tail step next steps h = ap tail h

range_from_end : (n : ℕ) → range_from 0 n ++ n ∷ [] ≡ range_from 0 (suc n)
range_from_end n = ap (λ m. range_from 0 n ++ m ∷ []) (omega arith) ∙ range_from-suc 0 n

countdown-tail :
    (step : ℕ) (steps : List ℕ)
    → step ∷ steps ≡ countdown (suc (length steps))
    → steps ≡ countdown (length steps)
countdown-tail step steps h = ap tail h

-- The predicate holds of a successful result.
abbrev pub OnOk {ℓ} : {E A : Type 0} → (A → Type ℓ) → Result E A → Type ℓ
OnOk P (ok a) = P a
OnOk P (err e) = Unit

module _ (count : ℕ) (bound : count ≤ usize_max) where
  batch-IsForward :
      (next first prepared_count index : ℕ) (done : List ℕ)
      → done ≡ range_from 0 next
      → OnOk (IsForward count next done) (forward_batch_steps next first prepared_count count index)
  unfolding forward_batch_steps
  batch-IsForward next first prepared_count index done h =
      ground (arith, length-range_from first prepared_count)

  prepare-IsForward :
      (next step : ℕ) (done prepared : List ℕ)
      → IsForward count next done prepared
      → prepared ≡ []
      → next ≡ step
      → next < count
      → IsForward count next done (prepared ++ step ∷ [])
  prepare-IsForward next step done prepared w e q lt = record {
    done_below = w.done_below;
    prepared_next = rw (e, q);
    in_schedule = rw (e, q) (omega arith);
  }

  complete-IsForward :
      (next step : ℕ) (done prepared : List ℕ)
      → IsForward count next done (step ∷ prepared)
      → IsForward count (wrapping (next + 1)) (done ++ next ∷ []) prepared
  complete-IsForward next step done prepared w =
      let e : wrapping (next + 1) ≡ suc next = omega (arith, w.in_schedule) in
      rw e (record {
        done_below = ap (λ xs. xs ++ next ∷ []) w.done_below ∙ range_from_end next;
        prepared_next = range_from-tail step next prepared w.prepared_next;
        in_schedule = omega (arith, w.in_schedule);
      })

  rollback-IsBackward :
      (next : ℕ) (done prepared : List ℕ)
      → IsForward count next done prepared
      → IsBackward count (reverse done) none
  rollback-IsBackward next done prepared w =
      let e : reverse done ≡ countdown next = ap reverse w.done_below ∙ reverse-range_from next in
      rw e (record {
        counts_down = ap countdown (sym (length-countdown next));
        within = omega (arith, w.in_schedule, length-countdown next);
        front = tt;
      })

  forward-IsWellFormed :
      (next : ℕ) (done prepared : List ℕ) (r : JournalRecord) (index : ℕ)
      → IsForward count next done prepared
      → OnOk (IsWellFormed count) (apply_forward_record next done prepared count r index)
  unfolding apply_forward_record
  forward-IsWellFormed next done prepared (forward_batch_prepared first n) index w =
      ground (arith, batch-IsForward next first n index done w.done_below)
  forward-IsWellFormed next done prepared (forward_step_prepared step) index w =
      ground (arith, prepare-IsForward next step done prepared w)
  forward-IsWellFormed next done [] (forward_step_completed step identity) index w = tt
  forward-IsWellFormed next done (first ∷ prepared) (forward_step_completed step identity) index w =
      ground (arith, complete-IsForward next first done prepared w)
  forward-IsWellFormed next done prepared (forward_step_not_applied step) index w = ground arith
  forward-IsWellFormed next done prepared (rollback_started cause) index w =
      ground (arith, rollback-IsBackward next done prepared w)
  forward-IsWellFormed next done prepared transaction_completed index w = ground arith
  forward-IsWellFormed next done prepared _ index w = tt

  backward-IsWellFormed :
      (cause : RollbackCause) (remaining : List ℕ) (prepared : Option ℕ) (r : JournalRecord)
      (index : ℕ)
      → IsBackward count remaining prepared
      → OnOk (IsWellFormed count) (apply_rollback_record cause remaining prepared r index)
  unfolding apply_rollback_record
  backward-IsWellFormed cause remaining prepared (rollback_step_prepared step) index w =
      ground arith
  backward-IsWellFormed cause [] prepared (rollback_step_completed step identity) index w =
      ground arith
  backward-IsWellFormed cause (next ∷ remaining) prepared (rollback_step_completed step identity)
        index w =
      ground (arith, countdown-tail next remaining w.counts_down)
  backward-IsWellFormed cause remaining prepared (rollback_step_not_applied step) index w =
      ground arith
  backward-IsWellFormed cause remaining prepared (rollback_step_failed step) index w = ground arith
  backward-IsWellFormed cause remaining prepared transaction_rolled_back index w = ground arith
  backward-IsWellFormed cause remaining prepared _ index w = tt

  -- Every accepted record keeps the mode well formed.
  pub apply_record-IsWellFormed :
      (mode : ReplayMode) (r : JournalRecord) (index : ℕ)
      → IsWellFormed count mode
      → OnOk (IsWellFormed count) (apply_record mode count r index)
  unfolding apply_record
  apply_record-IsWellFormed (forwards next done prepared) r index w =
      forward-IsWellFormed next done prepared r index w
  apply_record-IsWellFormed (backwards cause remaining prepared) r index w =
      backward-IsWellFormed cause remaining prepared r index w
  apply_record-IsWellFormed completed r index w = tt
  apply_record-IsWellFormed (rolled_back cause) r index w = tt
  apply_record-IsWellFormed (recovery cause failed remaining) (rollback_recovery_started step) index
        w =
      ground arith
  apply_record-IsWellFormed (recovery cause failed remaining) _ index w = tt

  pub apply_records-IsWellFormed :
      (mode : ReplayMode) (offset : ℕ) (rs : List JournalRecord)
      → IsWellFormed count mode
      → OnOk (IsWellFormed count) (apply_records mode count offset rs)
  unfolding apply_records
  apply_records-IsWellFormed mode offset [] w = w
  apply_records-IsWellFormed mode offset (r ∷ rs) w =
      elim (Result-cases (apply_record mode count r (saturating_add offset 1))) [
        | inr (e, h) ↦ rw h tt
        | inl (mode', h) ↦ rw h (
            apply_records-IsWellFormed mode' (suc offset) rs
              (subst (OnOk (IsWellFormed count)) h (apply_record-IsWellFormed mode r _ w)))
      ]
