-- ===== src/Semantics/Coercions.antt =====
-- `WideningInt`, qumir/semantics/type_annotation/coercions.cpp: the conversions of integers that are
-- made without being asked for.
use qumir.Prelude.{Bool, true, false, not, ◌&&◌, leb, ltb, if◌then◌else◌}
use qumir.Ast.Types.{AstType, integer_type, bit_width, is_signed_kind}
pub mod Ranges

abbrev pub same_sign : Bool → Bool → Bool
same_sign true b = b
same_sign false b = not b

-- `WideningInt`
unfoldable pub widening_int : AstType → AstType → Bool
widening_int (integer_type s) (integer_type d) =
    if same_sign (is_signed_kind s) (is_signed_kind d)
    then leb (bit_width s) (bit_width d)
    else if not (is_signed_kind s) && is_signed_kind d
    then ltb (bit_width s) (bit_width d)
    else false
widening_int _ _ = false
