-- ===== src/Examples/Coercions.antt =====
-- Conversions of integers.
use qumir.Prelude.{ℤ, true, false, ◌≡◌, ◌↔◌, refl}
use qumir.Ast.Types.{integer_type, int32, uint32, int64, float_type, bit_width, is_signed_kind}
use qumir.Semantics.Coercions.{widening_int}
use qumir.Semantics.Coercions.Ranges.{IsValue, widening_int_iff}

unsigned_to_same_width : widening_int (integer_type uint32) (integer_type int32) ≡ false
unfolding widening_int bit_width is_signed_kind
unsigned_to_same_width = refl

integer_to_float : widening_int (integer_type int32) float_type ≡ false
unfolding widening_int
integer_to_float = refl

widening_int_iff_example :
    (widening_int (integer_type uint32) (integer_type int64) ≡ true)
    ↔ ((v : ℤ) → IsValue uint32 v → IsValue int64 v)
widening_int_iff_example = widening_int_iff uint32 int64
