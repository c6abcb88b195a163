-- ===== src/Model/Diagnostic.antt =====
-- crates/renamewright-core/src/model.rs: diagnostics.
use renamewright.Common.{ℕ, ◌≡◌, Bool, true, false, List, ◌==◌, ==_self, any}

pub data DiagnosticSeverity : Type 0 where
  information blocked : DiagnosticSeverity

pub data DiagnosticCode : Type 0 where
  unchanged empty_name illegal_character trailing_dot_or_space reserved_name name_too_long
        duplicate_destination unsupported_encoding occupied_destination stale_source
        parent_unavailable invalid_rule sequence_overflow ancestor_descendant_conflict :
      DiagnosticCode

-- The discriminant, which the derived `==` compares.
unfoldable pub code_index : DiagnosticCode → ℕ
code_index unchanged = 0
code_index empty_name = 1
code_index illegal_character = 2
code_index trailing_dot_or_space = 3
code_index reserved_name = 4
code_index name_too_long = 5
code_index duplicate_destination = 6
code_index unsupported_encoding = 7
code_index occupied_destination = 8
code_index stale_source = 9
code_index parent_unavailable = 10
code_index invalid_rule = 11
code_index sequence_overflow = 12
code_index ancestor_descendant_conflict = 13

unfoldable pub code_eq : DiagnosticCode → DiagnosticCode → Bool
unfolding code_index
code_eq a b = code_index a == code_index b

pub record Diagnostic : Type 0 where
  pub code : DiagnosticCode
  pub severity : DiagnosticSeverity

unfoldable pub information_diagnostic : DiagnosticCode → Diagnostic
information_diagnostic code = record { code = code; severity = DiagnosticSeverity.information }

unfoldable pub blocked_diagnostic : DiagnosticCode → Diagnostic
blocked_diagnostic code = record { code = code; severity = DiagnosticSeverity.blocked }

abbrev pub is_blocked : DiagnosticSeverity → Bool
is_blocked DiagnosticSeverity.blocked = true
is_blocked DiagnosticSeverity.information = false

-- `Diagnostic`s with a code.
abbrev pub has_code : DiagnosticCode → List Diagnostic → Bool
has_code code = any (λ d. code_eq d.code code)

pub code_eq_self : (code : DiagnosticCode) → code_eq code code ≡ true
unfolding code_eq
code_eq_self code = ==_self (code_index code)
