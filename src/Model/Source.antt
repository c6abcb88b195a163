-- ===== src/Model/Source.antt =====
-- crates/renamewright-core/src/model.rs: identifiers, admitted sources and the validation
-- environment. A `u64` newtype is its number, a `BTreeSet` of them the list of its elements, which
-- the code only asks for membership.
use renamewright.Common.{ℕ, Bool, true, List, [], Option, none, some, ◌==◌, any}
use renamewright.Text.{OsString}
use mathlib.Core.Option

abbrev pub SourceId : Type 0
SourceId = ℕ

abbrev pub ParentId : Type 0
ParentId = ℕ

abbrev pub PlanId : Type 0
PlanId = ℕ

pub data EntryKind : Type 0 where
  file directory symlink : EntryKind

pub record EntryIdentitySignal : Type 0 where
  pub primary : ℕ
  pub secondary : ℕ

pub record SourceFingerprint : Type 0 where
  pub entry_kind : EntryKind
  pub entry_identity_signal : Option EntryIdentitySignal
  pub byte_len : ℕ
  pub modified_nanos : Option ℕ

pub record SourceSnapshot : Type 0 where
  pub id : SourceId
  pub parent_id : ParentId
  pub native_name : OsString
  pub fingerprint : Option SourceFingerprint

unfoldable pub new_snapshot : SourceId → ParentId → OsString → SourceSnapshot
new_snapshot id parent_id native_name = record {
  id = id;
  parent_id = parent_id;
  native_name = native_name;
  fingerprint = none;
}

unfoldable pub snapshot_with_fingerprint :
    SourceId → ParentId → OsString → SourceFingerprint → SourceSnapshot
snapshot_with_fingerprint id parent_id native_name fingerprint = record {
  id = id;
  parent_id = parent_id;
  native_name = native_name;
  fingerprint = some fingerprint;
}

unfoldable pub source_kind : SourceSnapshot → Option EntryKind
source_kind source = Option.map (λ f. f.entry_kind) source.fingerprint

pub record OccupiedName : Type 0 where
  pub parent_id : ParentId
  pub native_name : OsString

pub record ValidationEnvironment : Type 0 where
  pub stale_sources : List SourceId
  pub unavailable_parents : List ParentId
  pub occupied_names : List OccupiedName
  pub ancestor_conflicts : List SourceId

unfoldable pub new_environment :
    List SourceId → List ParentId → List OccupiedName → ValidationEnvironment
new_environment stale unavailable occupied = record {
  stale_sources = stale;
  unavailable_parents = unavailable;
  occupied_names = occupied;
  ancestor_conflicts = [];
}

unfoldable pub with_ancestor_conflicts :
    ValidationEnvironment → List SourceId → ValidationEnvironment
with_ancestor_conflicts env conflicts = record env { ancestor_conflicts = conflicts }

-- `ValidationEnvironment::default()`.
unfoldable pub default_environment : ValidationEnvironment
unfolding new_environment
default_environment = new_environment [] [] []

pub record TargetPolicy : Type 0 where
  pub windows_names : Bool

unfoldable pub windows_policy : TargetPolicy
windows_policy = record { windows_names = true }

-- `BTreeSet::contains` at identifiers.
abbrev pub contains_id : List ℕ → ℕ → Bool
contains_id ids id = any (λ j. j == id) ids
