-- ===== src/Rules.antt =====
-- The rename rules (crates/renamewright-core/src/rules.rs): one module for the types, the text
-- operations, the regular expressions, the compilation and the application, and the laws of each.
pub mod Types
pub mod Text
pub mod Regex
pub mod Compile
pub mod Apply
pub mod Literal
pub mod Parts
pub mod Whitespace
pub mod Outputs
pub mod Bounds
pub mod Checks
pub mod Decimal
pub mod References
pub mod Grammar
pub mod Expansion
pub mod Rewriting
