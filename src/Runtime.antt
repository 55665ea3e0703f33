-- ===== src/Runtime.antt =====
-- The runtime library, qumir/runtime.
pub mod Utf8
pub mod Strings
pub mod Comparing
