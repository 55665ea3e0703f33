-- ===== src/Ir.antt =====
-- The intermediate representation, qumir/ir.
pub mod Types
pub mod Instr
pub mod TmpTypes
pub mod Alu
pub mod Compare
pub mod Passes
