-- ===== src/Examples.antt =====
-- Concrete inputs for the theorems on the code, and tests that evaluate the definitions.
pub mod Types
pub mod Passes
pub mod Ast
pub mod Returns
pub mod Assignment
pub mod Scopes
pub mod Strings
pub mod JsonSort
pub mod Json
pub mod EditDistance
pub mod CodePoints
pub mod Suggestions
pub mod Coercions
