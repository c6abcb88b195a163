-- ===== src/Codec/Entries.antt =====
-- The reader of a journal entry undoes its writer.
use renamewright.Common.{
  false, true, inr, inl, Bool-cases, ℕ, ◌≤◌, ◌≡◌, refl, subst, [], ◌∷◌, Option, none, some,
}
use renamewright.Common.{ok, leb, if◌then◌else◌, arith, >>=-eq-ok}
use renamewright.Text.{OsString, os_bytes}
use renamewright.Text.Utf8.{from_vec}
use renamewright.Model.Source.{
  PlanId, EntryKind, file, directory, symlink, EntryIdentitySignal, SourceFingerprint,
}
use renamewright.Execution.Journal.{
  JournalNameGraph, into_undo_of, new_entry, entry_with_native_parent,
  entry_with_native_parent_identity, RollbackCause, cancelled, forward_step_failed,
  recovery_requested, ExecutionIdentity, JournalEntry,
}
use renamewright.Codec.{invalid_payload, codec_error, Bytes, Coded}
use renamewright.Codec.Cursor.{read_u64, take_bytes, pure, put_optional, read_optional}
use renamewright.Codec.Entry.{
  decode_entry, encode_entry, with_undo, build_entry, encode_undo, encode_native_name,
  decode_native_name, encode_execution_identity, decode_execution_identity, kind_byte, signal_bytes,
  encode_fingerprint, read_kind, read_signal, decode_fingerprint, encode_rollback_cause,
  decode_rollback_cause,
}
use renamewright.Codec.Reads.{Reads, reads, Reads-then, Reads-map, Reads-as, take_bytes-Reads}
use renamewright.Codec.Stored.{
  IsEntry, IsParent, AllOf-map, IsU64, AllOf, IsNative, IsIdentity, IsSignal, IsFingerprint,
}
use renamewright.Codec.Fields.{
  ok-Reads, read_u8-Reads, read_u64-Reads, read_u128-Reads, read_u32-Reads, read_usize-Reads,
  read_optional-Reads, Reads-if,
}

pub decode_native_name-Reads :
    (frame_index : ℕ) (name : OsString) (bytes : Bytes)
    → IsNative name
    → encode_native_name name frame_index ≡ ok bytes
    → Reads (decode_native_name frame_index) bytes name
unfolding encode_native_name decode_native_name
decode_native_name-Reads frame_index name bytes native e =
    let (count, counted, written) = >>=-eq-ok _ _ e in
    ok-Reads
      (Reads-then _ (read_u8-Reads frame_index 1 (omega arith)) (
        Reads-then _ (read_u32-Reads frame_index _ count counted) (
          subst (Reads _ _) native
            (Reads-map from_vec (take_bytes-Reads frame_index (os_bytes name))))))
      bytes written

pub decode_execution_identity-Reads :
    (frame_index : ℕ) (identity : ExecutionIdentity)
    → IsIdentity identity
    → Reads (decode_execution_identity frame_index) (encode_execution_identity identity) identity
unfolding encode_execution_identity decode_execution_identity
decode_execution_identity-Reads frame_index identity (volume, sixteen) =
    Reads-then _ (read_u64-Reads frame_index identity.volume_serial_number volume) (
      Reads-map _ (
        subst (λ n. Reads (take_bytes frame_index n) identity.file_id identity.file_id) sixteen
          (take_bytes-Reads frame_index identity.file_id)))

read_kind-Reads :
    (frame_index version : ℕ) (kind : EntryKind)
    → (kind ≡ directory → 4 ≤ version)
    → Reads (read_kind frame_index version) (kind_byte kind ∷ []) kind
unfolding read_kind
read_kind-Reads frame_index version file h =
    Reads-then _ (read_u8-Reads frame_index 1 (omega arith)) (reads λ rest. refl)
read_kind-Reads frame_index version symlink h =
    Reads-then _ (read_u8-Reads frame_index 2 (omega arith)) (reads λ rest. refl)
read_kind-Reads frame_index version directory h =
    let known-Reads : leb 4 version ≡ true = ground (arith, h refl) in
    Reads-then _ (read_u8-Reads frame_index 3 (omega arith))
      (Reads-if _ _ known-Reads (reads λ rest. refl))

read_signal-Reads :
    (frame_index : ℕ) (signal : EntryIdentitySignal)
    → IsSignal signal
    → Reads (read_signal frame_index) (signal_bytes signal) signal
unfolding read_signal
read_signal-Reads frame_index signal (primary, secondary) =
    Reads-then _ (read_u64-Reads frame_index signal.primary primary)
      (Reads-map _ (read_u64-Reads frame_index signal.secondary secondary))

pub decode_fingerprint-Reads :
    (frame_index version : ℕ) (fingerprint : SourceFingerprint) (bytes : Bytes)
    → IsFingerprint version fingerprint
    → encode_fingerprint fingerprint ≡ ok bytes
    → Reads (decode_fingerprint frame_index version) bytes fingerprint
unfolding encode_fingerprint decode_fingerprint
decode_fingerprint-Reads frame_index version fingerprint bytes (kind, signal, byte_len, nanos) e =
    let (signal', put_signal, e') = >>=-eq-ok _ _ e in
    let (modified, put_modified, written) = >>=-eq-ok _ _ e' in
    ok-Reads
      (Reads-then _ (read_kind-Reads frame_index version fingerprint.entry_kind kind) (
        Reads-then _
          (read_optional-Reads frame_index _ _ fingerprint.entry_identity_signal signal'
            (AllOf-map _ _ fingerprint.entry_identity_signal
              (λ s h. ok-Reads (read_signal-Reads frame_index s h)) signal)
            put_signal)
          (Reads-then _ (read_u64-Reads frame_index fingerprint.byte_len byte_len) (
            Reads-map _ (
              read_optional-Reads frame_index _ _ fingerprint.modified_nanos modified
                (AllOf-map _ _ fingerprint.modified_nanos
                  (λ n h. ok-Reads (read_u128-Reads frame_index n h)) nanos)
                put_modified)))))
      bytes written

pub decode_rollback_cause-Reads :
    (frame_index : ℕ) (cause : RollbackCause) (bytes : Bytes)
    → encode_rollback_cause cause frame_index ≡ ok bytes
    → Reads (decode_rollback_cause frame_index) bytes cause
unfolding encode_rollback_cause decode_rollback_cause
decode_rollback_cause-Reads frame_index cancelled bytes e =
    ok-Reads (Reads-then _ (read_u8-Reads frame_index 1 (omega arith)) (reads λ rest. refl)) bytes e
decode_rollback_cause-Reads frame_index (forward_step_failed step) bytes e =
    let (index, put, written) = >>=-eq-ok _ _ e in
    ok-Reads
      (Reads-then _ (read_u8-Reads frame_index 2 (omega arith))
        (Reads-map forward_step_failed (read_usize-Reads frame_index step index put)))
      bytes written
decode_rollback_cause-Reads frame_index recovery_requested bytes e =
    ok-Reads (Reads-then _ (read_u8-Reads frame_index 3 (omega arith)) (reads λ rest. refl)) bytes e

-- The fields that the version decides about.
native_parent-Reads :
    (frame_index version : ℕ) (parent : Option OsString) (identity : Option ExecutionIdentity)
    (bytes : Bytes)
    → IsParent version parent identity
    → (if leb 2 version
        then put_optional (λ name. encode_native_name name frame_index) parent
        else ok [])
      ≡ ok bytes
    → Reads
        (if leb 2 version
          then read_optional frame_index (decode_native_name frame_index)
          else pure none)
        bytes
        parent
native_parent-Reads frame_index version parent identity bytes h e =
    elim (Bool-cases (leb 2 version)) [
      | inl present ↦ rw present (
          read_optional-Reads frame_index _ _ parent bytes (native_of parent identity h)
            (rw present at e))
      | inr absent ↦
          rw absent (ok-Reads (absent_of parent identity absent h) bytes (rw absent at e))
    ]
  where
    native_of :
        (p : Option OsString) (i : Option ExecutionIdentity)
        → IsParent version p i
        → AllOf
            (λ name.
              (encoded : Bytes)
              → encode_native_name name frame_index ≡ ok encoded
              → Reads (decode_native_name frame_index) encoded name)
            p
    native_of none i k = tt
    native_of (some name) none k = λ encoded. decode_native_name-Reads frame_index name encoded k.0
    native_of (some name) (some i) k =
        λ encoded. decode_native_name-Reads frame_index name encoded k.0

    absent_of :
        (p : Option OsString) (i : Option ExecutionIdentity)
        → leb 2 version ≡ false
        → IsParent version p i
        → Reads (pure none) [] p
    absent_of none i a k = reads λ rest. refl
    absent_of (some name) none a k = absurd (ground (arith, k.1))
    absent_of (some name) (some j) a k = absurd (ground (arith, k.2))

undo-Reads :
    (frame_index version : ℕ) (undo : Option PlanId) (bytes : Bytes)
    → AllOf IsU64 undo
    → encode_undo undo frame_index version ≡ ok bytes
    → Reads
        (if leb 3 version then read_optional frame_index (read_u64 frame_index) else pure none)
        bytes
        undo
unfolding encode_undo
undo-Reads frame_index version undo bytes h e = elim (Bool-cases (leb 3 version)) [
  | inl present ↦ rw present (
      read_optional-Reads frame_index _ _ undo bytes
        (AllOf-map _ _ undo (λ n k. ok-Reads (read_u64-Reads frame_index n k)) h) (rw present at e))
  | inr absent ↦ rw absent (absent_of undo (rw absent at e))
]
  where
    absent_of :
        (u : Option PlanId)
        → ◌≡◌ {A = Coded Bytes}
            (elim u [ none ↦ ok [] | some plan_id ↦ codec_error frame_index invalid_payload ])
            (ok bytes)
        → Reads (pure none) bytes u
    absent_of none k = ok-Reads (reads λ rest. refl) bytes k
    absent_of (some plan_id) k = cc

parent_identity-Reads :
    (frame_index version : ℕ) (parent : Option OsString) (identity : Option ExecutionIdentity)
    (bytes : Bytes)
    → IsParent version parent identity
    → (if leb 5 version
        then put_optional (λ i. ok (encode_execution_identity i)) identity
        else ok [])
      ≡ ok bytes
    → Reads
        (if leb 5 version
          then read_optional frame_index (decode_execution_identity frame_index)
          else pure none)
        bytes
        identity
parent_identity-Reads frame_index version parent identity bytes h e =
    elim (Bool-cases (leb 5 version)) [
      | inl present ↦ rw present (
          read_optional-Reads frame_index _ _ identity bytes
            (AllOf-map _ _ identity
              (λ i k. ok-Reads (decode_execution_identity-Reads frame_index i k))
              (identity_of parent identity h))
            (rw present at e))
      | inr absent ↦
          rw absent (ok-Reads (absent_of parent identity absent h) bytes (rw absent at e))
    ]
  where
    identity_of :
        (p : Option OsString) (i : Option ExecutionIdentity)
        → IsParent version p i
        → AllOf IsIdentity i
    identity_of p none k = tt
    identity_of none (some i) k = absurd k
    identity_of (some name) (some i) k = k.1

    absent_of :
        (p : Option OsString) (i : Option ExecutionIdentity)
        → leb 5 version ≡ false
        → IsParent version p i
        → Reads (pure none) [] i
    absent_of p none a k = reads λ rest. refl
    absent_of none (some i) a k = absurd k
    absent_of (some name) (some i) a k = absurd (ground (arith, k.2))

-- The constructors that the decoder calls rebuild the entry.
module _ (version source parent : ℕ) (names : JournalNameGraph) (fingerprint : SourceFingerprint)
    (identity : ExecutionIdentity) where
  rebuilt :
      (native_parent : Option OsString) (parent_identity : Option ExecutionIdentity)
      (undo : Option PlanId)
      → IsParent version native_parent parent_identity
      → with_undo undo
          (build_entry source parent names fingerprint identity native_parent parent_identity)
        ≡ record {
          source_id = source;
          parent_id = parent;
          names = names;
          admission_fingerprint = fingerprint;
          execution_identity = identity;
          parent_execution_identity = parent_identity;
          native_parent = native_parent;
          undo_of_plan_id = undo;
        }
  unfolding build_entry entry_with_native_parent_identity entry_with_native_parent new_entry
      into_undo_of
  rebuilt (some name) (some i) none h = refl
  rebuilt (some name) (some i) (some plan) h = refl
  rebuilt (some name) none none h = refl
  rebuilt (some name) none (some plan) h = refl
  rebuilt none none none h = refl
  rebuilt none none (some plan) h = refl
  rebuilt none (some i) undo h = absurd h

pub decode_entry-Reads :
    (frame_index version : ℕ) (entry : JournalEntry) (bytes : Bytes)
    → IsEntry version entry
    → encode_entry entry frame_index version ≡ ok bytes
    → Reads (decode_entry frame_index version) bytes entry
unfolding encode_entry decode_entry
decode_entry-Reads frame_index version entry bytes
      (source, parent, original, temporary, final, fingerprint, identity, has_parent, undo) e =
    let (b1, e1, f1) = >>=-eq-ok _ _ e in
    let (b2, e2, f2) = >>=-eq-ok _ _ f1 in
    let (b3, e3, f3) = >>=-eq-ok _ _ f2 in
    let (b4, e4, f4) = >>=-eq-ok _ _ f3 in
    let (b5, e5, f5) = >>=-eq-ok _ _ f4 in
    let (b6, e6, f6) = >>=-eq-ok _ _ f5 in
    let (b7, e7, written) = >>=-eq-ok _ _ f6 in
    ok-Reads
      (Reads-then _ (read_u64-Reads frame_index entry.source_id source) (
        Reads-then _ (read_u64-Reads frame_index entry.parent_id parent) (
          Reads-then _
            (decode_native_name-Reads frame_index entry.names.original_name b1 original e1)
            (Reads-then _
              (decode_native_name-Reads frame_index entry.names.temporary_name b2 temporary e2)
              (Reads-then _
                (decode_native_name-Reads frame_index entry.names.final_name b3 final e3)
                (Reads-then _
                  (decode_fingerprint-Reads frame_index version entry.admission_fingerprint b4
                    fingerprint e4)
                  (Reads-then _
                    (decode_execution_identity-Reads frame_index entry.execution_identity identity)
                    (Reads-then _
                      (native_parent-Reads frame_index version entry.native_parent
                        entry.parent_execution_identity b5 has_parent e5)
                      (Reads-then _
                        (undo-Reads frame_index version entry.undo_of_plan_id b6 undo e6)
                        (Reads-as _
                          (rebuilt version entry.source_id entry.parent_id entry.names
                            entry.admission_fingerprint entry.execution_identity entry.native_parent
                            entry.parent_execution_identity entry.undo_of_plan_id has_parent)
                          (parent_identity-Reads frame_index version entry.native_parent
                            entry.parent_execution_identity b7 has_parent e7)))))))))))
      bytes written
