-- ===== src/Tests/Samples.antt =====
-- Sample data for crates/renamewright-core: a journal entry, libraries whose patterns are literal text,
-- and sources.
use renamewright.Common.{ℕ, ◌+◌, ◌&&◌, none, some, List, [], ◌∷◌, map, leb, if◌then◌else◌, length}
use renamewright.Text.{Str, codes, from_str}
use renamewright.Model.Source.{SourceFingerprint, EntryKind, SourceSnapshot}
use renamewright.Rules.Types.{Captures, Libraries, Span}
use renamewright.Rules.Text.{match_indices}
use renamewright.Execution.Journal.{ExecutionIdentity, JournalEntry}

abbrev pub identity : ExecutionIdentity
identity = record { volume_serial_number = 7; file_id = 1 ∷ 2 ∷ [] }

abbrev pub fingerprint : SourceFingerprint
fingerprint = record {
  entry_kind = EntryKind.file;
  entry_identity_signal = none;
  byte_len = 10;
  modified_nanos = none;
}

abbrev pub entry : JournalEntry
entry = record {
  source_id = 4;
  parent_id = 1;
  names = record {
    original_name = from_str (codes "a");
    temporary_name = from_str (codes "t");
    final_name = from_str (codes "b");
  };
  admission_fingerprint = fingerprint;
  execution_identity = identity;
  parent_execution_identity = none;
  native_parent = none;
  undo_of_plan_id = none;
}

abbrev lower : ℕ → ℕ
lower c = if leb b'A' c && leb c b'Z' then c + 32 else c

abbrev spans : Str → Str → List Span
spans pattern' text =
    map (λ i. record { start = i; end = i + length pattern' }) (match_indices text pattern')

abbrev captures_of : Span → Captures
captures_of span = record { group = λ n. if leb n 0 then some span else none; named = λ name. none }

-- A pattern matches itself.
abbrev pub literal_libraries : Libraries
literal_libraries = record {
  Regex = Str;
  build_limited = λ p. some p;
  new_regex = λ p. some p;
  captures_iter = λ p text. map captures_of (spans p text);
  find_iter = spans;
  normal_form = λ form text. text;
  to_lowercase = map lower;
  to_uppercase = λ text. text;
}

abbrev pub photo : SourceSnapshot
photo = record {
  id = 4;
  parent_id = 1;
  native_name = from_str (codes "IMG 1.jpg");
  fingerprint = some fingerprint;
}

abbrev pub note : SourceSnapshot
note = record { id = 9; parent_id = 1; native_name = from_str (codes "note"); fingerprint = none }
