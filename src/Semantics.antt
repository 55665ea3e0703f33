-- ===== src/Semantics.antt =====
-- The passes of qumir/semantics that check names and assignments.
pub mod Scopes
pub mod Nodes
pub mod Assignment
pub mod EditDistance
pub mod CodePoints
pub mod Suggestions
pub mod Coercions
