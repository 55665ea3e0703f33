-- ===== src/Examples/Ast.antt =====
-- Small types of the AST, and a comparison, for the theorems on qumir/ir/type.cpp,
-- qumir/semantics/lifetime/type_traits.cpp and the comparisons of the interpreter.
use qumir.Prelude.{
  ◌/◌, ℕ, ◌≤◌, ◌-◌, ◌^◌, pos, true, false, not, some, [], ◌∷◌, ◌≡◌, ◌↔◌, refl, arith, lookup,
  insert,
}
use qumir.Ir.Types.{TypeTable, primitive, pointer_to, structure_of, f64}
use qumir.Ir.Types.Classes.{is_signed, is_float, is_unsigned, get_kind}
use qumir.Ir.Types.Describe.{scalar, pointer, structure, shape_at, request}
use qumir.Ir.Types.Interning.{IsInterned}
use qumir.Ir.Alu.{is_128bit_integer}
use qumir.Ir.Compare.{lt, DoubleOrder}
use qumir.Ir.Compare.Order.{rank, IsCompared, compared, compared_lem}
use qumir.Ast.Types.{
  bit_width, is_signed_kind, AstType, int8, int64, integer_type, float_type, array_type,
  struct_type, no_fields, and_field,
}
use qumir.Ast.Integers.{from_ast_integer}
use qumir.Ir.Types.Layout.{size_in_bytes}
use qumir.Ast.FromAst.{from_ast}
use qumir.Ast.Represents.{Keeps, Represents}
use qumir.Ast.Lowering.{from_ast_lem}
use qumir.Ast.Finding.{from_ast_represented}
use qumir.Ast.Lifetime.{
  LifetimeTraits, aggregate, classify, holds, is_owner, is_array, classify_lem,
}
use qumir.Examples.Types.{requests, byte_and_long, byte_and_long-IsInterned}

-- A structure of a real and an array of reals.
abbrev samples : AstType
samples =
    struct_type (and_field "sum" float_type (and_field "all" (array_type float_type 1) no_fields))

abbrev with_samples : TypeTable
with_samples =
    requests (scalar f64 ∷ pointer (pos 3) ∷ structure (pos 3 ∷ pos 4 ∷ []) ∷ []) byte_and_long

from_ast_lem_example :
    IsInterned with_samples
    × Keeps byte_and_long with_samples
    × Represents with_samples (pos 5) samples
unfolding from_ast request primitive pointer_to structure_of lookup insert
from_ast_lem_example =
    from_ast_lem samples byte_and_long with_samples (pos 5) byte_and_long-IsInterned refl

-- The structure that `byte_and_long` has.
abbrev pair : AstType
pair =
    struct_type
      (and_field "byte" (integer_type int8) (and_field "long" (integer_type int64) no_fields))

from_ast_represented_example : from_ast pair byte_and_long ≡ some (byte_and_long, pos 2)
unfolding Represents shape_at request primitive structure_of lookup insert
from_ast_represented_example =
    from_ast_represented pair byte_and_long (pos 2) byte_and_long-IsInterned
      (pos 0 ∷ pos 1 ∷ [], (2, refl, refl), ((0, refl, refl), ((1, refl, refl), tt)))

abbrev owning : LifetimeTraits
owning = record { kind = aggregate; can_copy = false; needs_destroy = true }

classify_lem_example : (true ≡ holds is_owner samples) × (false ≡ not (holds is_array samples))
unfolding classify
classify_lem_example = classify_lem samples owning refl

abbrev no_double_order : DoubleOrder
no_double_order = record {
  fless_bits = λ a b. false;
  fequal_bits = λ a b. false;
  fless_equal_bits = λ a b. false;
}

-- `-1 < 5` on `i64`.
compared_lem_example :
    (v : ℕ) × (compared no_double_order byte_and_long (pos 1) (pos 1) lt (2 ^ 64 - 1) 5 ≡ some v)
    × ((v ≡ 1)
        ↔ IsCompared lt (rank byte_and_long (pos 1) (2 ^ 64 - 1)) (rank byte_and_long (pos 1) 5))
    × (v ≤ 1)
unfolding is_float is_unsigned is_128bit_integer get_kind request primitive structure_of lookup
    insert
compared_lem_example =
    compared_lem no_double_order byte_and_long (pos 1) (pos 1) lt (2 ^ 64 - 1) 5 refl refl refl refl
      refl (omega arith) (omega arith)

from_ast_integer_example :
    (size_in_bytes byte_and_long (pos 1) ≡ some (bit_width int64 / 8))
    × (is_signed byte_and_long (pos 1) ≡ is_signed_kind int64)
    × (is_unsigned byte_and_long (pos 1) ≡ not (is_signed_kind int64))
unfolding from_ast request primitive structure_of lookup insert
from_ast_integer_example =
    from_ast_integer int64 byte_and_long byte_and_long (pos 1) byte_and_long-IsInterned refl
