-- ===== src/Ast.antt =====
-- Types of the AST and what the compiler reads from them.
pub mod Types
pub mod FromAst
pub mod Represents
pub mod Lifetime
pub mod Lowering
pub mod Finding
pub mod Integers
pub mod Exprs
pub mod Returns
