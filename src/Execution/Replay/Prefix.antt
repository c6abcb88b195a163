-- ===== src/Execution/Replay/Prefix.antt =====
-- Journals and what is appended to them (crates/renamewright-core/src/execution.rs).
use renamewright.Common.{
  ◌*◌, ◌≤◌, ◌<◌, none, some, ℕ, suc, ◌+◌, ◌≡◌, refl, ap, ◌∙◌, List, [], ◌∷◌, ◌++◌, arith, length,
  true, Bool-cases, inl, inr, ◌⊎◌, ok, err, ◌>>=◌, >>=-eq-ok, Result-cases, saturating_add, min,
  usize_max,
}
use renamewright.Execution.Journal.{
  RollbackCause, JournalRecord, JournalEntry, transaction_started, JournalStatus,
  JournalReplayError, record_after_terminal, forward_step_prepared,
}
use renamewright.Execution.Replay.{
  ReplayMode, forwards, backwards, recovery, completed, rolled_back, Replay, apply_record,
  apply_records, status_for, start, is_valid_count, replay_journal,
}

pub apply_records-append :
    (mode : ReplayMode) (count offset : ℕ) (xs ys : List JournalRecord)
    → apply_records mode count offset (xs ++ ys)
      ≡ (apply_records mode count offset xs >>= λ m. apply_records m count (offset + length xs) ys)
unfolding apply_records
apply_records-append mode count offset [] ys = ap (λ n. apply_records mode count n ys) (omega arith)
apply_records-append mode count offset (x ∷ xs) ys =
    elim (Result-cases (apply_record mode count x (saturating_add offset 1))) [
      | inr (e, h) ↦ rw h
      | inl (mode', h) ↦ rw h (
          apply_records-append mode' count (suc offset) xs ys
          ∙ ap (λ n. apply_records mode' count (suc offset) xs >>= λ m. apply_records m count n ys)
              (omega arith))
    ]

-- How an accepted journal comes to its status: a valid header, and records that lead from the first
-- mode to one with this status.
pub record Accepted (journal : List JournalRecord) (status : JournalStatus) : Type 0 where
  pub plan_id : ℕ
  pub generation : ℕ
  pub count : ℕ
  pub entries : List JournalEntry
  pub rest : List JournalRecord
  pub mode : ReplayMode
  pub shape : journal ≡ transaction_started plan_id generation count entries ∷ rest
  pub valid : is_valid_count (length entries) count ≡ true
  pub runs : apply_records start count 0 rest ≡ ok mode
  pub reached : status_for mode count ≡ status

-- An accepted journal that begins with a header: the header is valid and the records run.
pub replay_journal-header :
    (plan_id generation count : ℕ) (entries : List JournalEntry) (rs : List JournalRecord)
    {status : JournalStatus}
    → replay_journal (transaction_started plan_id generation count entries ∷ rs) ≡ ok status
    → (mode : ReplayMode) × (is_valid_count (length entries) count ≡ true)
      × (apply_records start count 0 rs ≡ ok mode)
      × (status_for mode count ≡ status)
unfolding replay_journal
replay_journal-header p g count entries rs h =
    elim (Bool-cases (is_valid_count (length entries) count)) [
      | inr bad ↦ absurd (ground arith)
      | inl valid ↦
          let h' = rw valid at h in
          let (mode, e, f) =
            >>=-eq-ok (apply_records start count 0 rs) (λ m. ok (status_for m count)) h' in
          (mode, valid, e, ground (arith, f))
    ]

pub replay_journal-Accepted :
    (journal : List JournalRecord) {status : JournalStatus}
    → replay_journal journal ≡ ok status
    → Accepted journal status
unfolding replay_journal
replay_journal-Accepted [] h = absurd (ground arith)
replay_journal-Accepted (transaction_started p g count entries ∷ rs) h =
    let (mode, valid, runs, reached) = replay_journal-header p g count entries rs h in
    record {
      plan_id = p;
      generation = g;
      count = count;
      entries = entries;
      rest = rs;
      mode = mode;
      shape = refl;
      valid = valid;
      runs = runs;
      reached = reached;
    }
replay_journal-Accepted (_ ∷ rs) h = absurd (ground arith)

pub is_valid_count-bound :
    (entries count : ℕ)
    → is_valid_count entries count ≡ true
    → (count ≡ entries * 2) × (count ≤ usize_max) × (0 < entries)
is_valid_count-bound entries count h = ground arith

-- What an accepted journal becomes when records are appended.
pub replay_journal-extend :
    (journal ys : List JournalRecord) {status : JournalStatus} (a : Accepted journal status)
    → replay_journal (journal ++ ys)
      ≡ (apply_records a.mode a.count (length a.rest) ys >>= λ m. ok (status_for m a.count))
unfolding replay_journal
replay_journal-extend journal ys a =
    rw (a.shape, a.valid, apply_records-append start a.count 0 a.rest ys, a.runs)
      (ap (λ n. apply_records a.mode a.count n ys >>= λ m. ok (status_for m a.count)) (omega arith))

-- A bind that fails before its last step fails at its first.
refused_records :
    (count : ℕ) (k : ReplayMode → Replay ReplayMode) {e : JournalReplayError}
    (run : Replay ReplayMode)
    → (run >>= λ mode. ok (status_for mode count)) ≡ err e
    → ((run >>= k) >>= λ mode. ok (status_for mode count)) ≡ err e
refused_records count k (err e') h = h
refused_records count k (ok mode) h = absurd (ground arith)

-- A journal that is refused, the empty one aside, stays refused with the same error at the same
-- record, whatever is appended to it.
pub replay_journal-append-err :
    (r : JournalRecord) (xs ys : List JournalRecord) {e : JournalReplayError}
    → replay_journal (r ∷ xs) ≡ err e
    → replay_journal (r ∷ xs ++ ys) ≡ err e
unfolding replay_journal
replay_journal-append-err (transaction_started p g count entries) xs ys {e} h =
    elim (Bool-cases (is_valid_count (length entries) count)) [
      | inr bad ↦ rw bad (rw bad at h)
      | inl valid ↦
          rw (valid, apply_records-append start count 0 xs ys)
            (refused_records count (λ m. apply_records m count (0 + length xs) ys)
              (apply_records start count 0 xs) (rw valid at h))
    ]
replay_journal-append-err (forward_step_prepared step) xs ys h = h
replay_journal-append-err _ xs ys h = h

-- The statuses after which nothing may follow.
abbrev pub IsTerminal : JournalStatus → Type 0
IsTerminal status =
    (status ≡ JournalStatus.completed)
    ⊎ ((cause : RollbackCause) × (status ≡ JournalStatus.rolled_back cause))

terminal_refuses :
    (mode : ReplayMode) (count : ℕ) (r : JournalRecord) (index : ℕ)
    → IsTerminal (status_for mode count)
    → apply_record mode count r index
      ≡ err (record { record_index = index; kind = record_after_terminal })
unfolding apply_record status_for
terminal_refuses completed count r index t = refl
terminal_refuses (rolled_back cause) count r index t = refl
terminal_refuses (forwards next done []) count r index t = absurd (ground arith)
terminal_refuses (forwards next done (step ∷ prepared)) count r index t = absurd (ground arith)
terminal_refuses (backwards cause [] none) count r index t = absurd (ground arith)
terminal_refuses (backwards cause (next ∷ remaining) none) count r index t = absurd (ground arith)
terminal_refuses (backwards cause remaining (some step)) count r index t = absurd (ground arith)
terminal_refuses (recovery cause failed remaining) count r index t = absurd (ground arith)

-- Whatever is appended to a completed or rolled-back journal is refused, at the first record that is
-- appended, as a record after the end.
pub replay_journal-terminal :
    (journal : List JournalRecord) (r : JournalRecord) (rs : List JournalRecord)
    {status : JournalStatus}
    → replay_journal journal ≡ ok status
    → IsTerminal status
    → replay_journal (journal ++ r ∷ rs)
      ≡ err (record { record_index = min (length journal) usize_max; kind = record_after_terminal })
unfolding apply_records
replay_journal-terminal journal r rs h t =
    let a = replay_journal-Accepted journal h in
    let index : saturating_add (length a.rest) 1 ≡ min (length journal) usize_max =
      omega (arith, ap length a.shape) in
    replay_journal-extend journal (r ∷ rs) a
    ∙ rw (
      terminal_refuses a.mode a.count r (saturating_add (length a.rest) 1) (rw (a.reached) t),
      index,
    )
