-- ===== src/Ir/Passes.antt =====
-- The passes over the intermediate representation, qumir/ir/passes.
pub mod Renumber
pub mod Cfg
pub mod DeSsa
pub mod ConstFold
