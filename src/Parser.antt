-- ===== src/Parser.antt =====
-- Parsers, qumir/parser.
pub mod Json
