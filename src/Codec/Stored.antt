-- ===== src/Codec/Stored.antt =====
-- The values that a journal of a given schema version holds: numbers of their width, names that a byte
-- string spells, and only the fields that the version has.
use renamewright.Common.{ℕ, ◌^◌, ◌≤◌, ◌<◌, ◌≡◌, Option, none, some, All, length}
use renamewright.Text.{OsString, os_bytes}
use renamewright.Text.Utf8.{from_vec}
use renamewright.Model.Source.{directory, EntryIdentitySignal, SourceFingerprint}
use renamewright.Execution.Journal.{
  ExecutionIdentity, JournalEntry, JournalRecord, transaction_started, forward_step_completed,
  rollback_step_completed,
}

abbrev pub IsU64 : ℕ → Type 0
IsU64 n = n < 2 ^ 64

abbrev pub AllOf : {A : Type 0} → (A → Type 0) → Option A → Type 0
AllOf P none = Unit
AllOf P (some a) = P a

-- What `from_vec` makes of the bytes of a name is the name, as of every `OsString` on Unix.
abbrev pub IsNative : OsString → Type 0
IsNative name = from_vec (os_bytes name) ≡ name

abbrev pub IsIdentity : ExecutionIdentity → Type 0
IsIdentity identity = IsU64 identity.volume_serial_number × (length identity.file_id ≡ 16)

abbrev pub IsSignal : EntryIdentitySignal → Type 0
IsSignal signal = IsU64 signal.primary × IsU64 signal.secondary

-- Directories came with version 4.
abbrev pub IsFingerprint : ℕ → SourceFingerprint → Type 0
IsFingerprint version fingerprint =
    (fingerprint.entry_kind ≡ directory → 4 ≤ version)
    × AllOf IsSignal fingerprint.entry_identity_signal
    × IsU64 fingerprint.byte_len
    × AllOf (λ nanos. nanos < 2 ^ 128) fingerprint.modified_nanos

-- The parent came with version 2 and its identity with version 5, which only a parent has.
abbrev pub IsParent : ℕ → Option OsString → Option ExecutionIdentity → Type 0
IsParent version none none = Unit
IsParent version none (some identity) = ⊥
IsParent version (some parent) none = IsNative parent × (2 ≤ version)
IsParent version (some parent) (some identity) =
    IsNative parent × IsIdentity identity × (5 ≤ version)

abbrev pub IsEntry : ℕ → JournalEntry → Type 0
IsEntry version entry =
    IsU64 entry.source_id
    × IsU64 entry.parent_id
    × IsNative entry.names.original_name
    × IsNative entry.names.temporary_name
    × IsNative entry.names.final_name
    × IsFingerprint version entry.admission_fingerprint
    × IsIdentity entry.execution_identity
    × IsParent version entry.native_parent entry.parent_execution_identity
    × AllOf IsU64 entry.undo_of_plan_id

-- The step indices need no bound of their own: the writer refuses what has more than 64 bits.
abbrev pub IsStored : ℕ → JournalRecord → Type 0
IsStored version (transaction_started plan_id source_generation step_count entries) =
    IsU64 plan_id × IsU64 source_generation × All (IsEntry version) entries
IsStored version (forward_step_completed step identity) = IsIdentity identity
IsStored version (rollback_step_completed step identity) = IsIdentity identity
IsStored version journal_record = Unit

pub AllOf-map :
    {A : Type 0} (P Q : A → Type 0) (o : Option A) → ((a : A) → P a → Q a) → AllOf P o → AllOf Q o
AllOf-map P Q none step h = tt
AllOf-map P Q (some a) step h = step a h
