-- ===== src/Runtime/Strings/Edits.antt =====
-- `str_delete_symbols` and `str_insert_symbols`, by the text that a string holds.
use qumir.Prelude.{List, Eq-nat}
