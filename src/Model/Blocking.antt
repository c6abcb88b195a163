-- ===== src/Model/Blocking.antt =====
-- Laws of `PlanRow::block`.
use renamewright.Common.{◌≡◌, true, [], ◌∷◌, ◌++◌, if◌then◌else◌, arith, any-append}
use renamewright.Model.Diagnostic.{
  DiagnosticCode, blocked_diagnostic, has_code, code_eq, code_eq_self,
}
use renamewright.Model.Row.{NameStatus, PlanRow, block}

pub block-code :
    (row : PlanRow) (code : DiagnosticCode)
    → ((block row code).status ≡ NameStatus.blocked)
      × (has_code code (block row code).diagnostics ≡ true)
unfolding block blocked_diagnostic
block-code row code = ground (
  arith,
  any-append (λ d. code_eq d.code code) row.diagnostics (blocked_diagnostic code ∷ []),
  code_eq_self code,
)

pub block-keeps :
    (row : PlanRow) (code other : DiagnosticCode)
    → has_code other row.diagnostics ≡ true
    → has_code other (block row code).diagnostics ≡ true
unfolding block
block-keeps row code other h =
    ground
      (arith, any-append (λ d. code_eq d.code other) row.diagnostics (blocked_diagnostic code ∷ []))

-- Blocking a row twice for one reason is blocking it once.
pub block-idempotent :
    (row : PlanRow) (code : DiagnosticCode) → block (block row code) code ≡ block row code
unfolding block
block-idempotent row code =
    let b = block row code in
    let e : (if has_code code b.diagnostics
          then b.diagnostics
          else b.diagnostics ++ blocked_diagnostic code ∷ [])
        ≡ b.diagnostics =
      rw ((block-code row code).1) in
    λ i. record b { diagnostics = e i }
