-- ===== src/Ast/Integers.antt =====
-- The integer types of the AST, qumir/parser/type.h, and those that they are lowered to.
use qumir.Prelude.{
  ℕ, ◌/◌, ℤ, pos, negsuc, not, Option, some, ◌≡◌, refl, arith, get_elem?, Option-cases, inl, inr,
  length,
}
use qumir.Ir.Types.{Kind, ptr, func, struct, IrType, TypeTable, type_at, Eq-kind}
use qumir.Ir.Types.Classes.{is_signed, is_unsigned, kind_test, signed_kind, unsigned_kind}
use qumir.Ir.Types.Describe.{scalar, kind_shape, shape_at}
use qumir.Ir.Types.Interning.{IsInterned}
use qumir.Ir.Types.Layout.{size_in_bytes, size_fuel, kind_size}
use qumir.Ast.Types.{IntegerKind, int8, integer_type, bit_width, is_signed_kind}
use qumir.Ast.FromAst.{integer_kind_of, from_ast}
use qumir.Ast.Represents.{Represents}
use qumir.Ast.Lowering.{from_ast_lem}

kind_shape_scalar :
    (t : TypeTable) (j k : Kind) (a : ℤ) → kind_shape t j a ≡ some (scalar k) → j ≡ k
kind_shape_scalar t ptr k a h = absurd (ground arith)
kind_shape_scalar t func k (negsuc i) h = absurd (ground arith)
kind_shape_scalar t func k (pos i) h = elim (Option-cases (get_elem? t.func_sigs i)) [
  | inl e ↦ absurd (ground arith)
  | inr (g, e) ↦ absurd (ground arith)
]
kind_shape_scalar t struct k (negsuc i) h = absurd (ground arith)
kind_shape_scalar t struct k (pos i) h = elim (Option-cases (get_elem? t.structs i)) [
  | inl e ↦ absurd (ground arith)
  | inr (g, e) ↦ absurd (ground arith)
]
kind_shape_scalar t _ k a h = cc

-- An entry with the shape of a scalar has its kind.
scalar_entry :
    (t : TypeTable) (n : ℕ) (k : Kind)
    → shape_at t n ≡ some (scalar k)
    → (x : IrType) × (type_at t (pos n) ≡ some x) × (x.kind ≡ k)
unfolding shape_at
scalar_entry t n k h = elim (Option-cases (get_elem? t.types n)) [
  | inl e ↦ absurd (ground arith)
  | inr (x, e) ↦ (x, e, kind_shape_scalar t x.kind k x.aux (rw e at h))
]

integer_kinds :
    (t : TypeTable) (size : ℤ → Option ℕ) (k : IntegerKind) (a : ℤ)
    → (kind_size t size (integer_kind_of k) a ≡ some (bit_width k / 8))
      × (signed_kind (integer_kind_of k) ≡ is_signed_kind k)
      × (unsigned_kind (integer_kind_of k) ≡ not (is_signed_kind k))
unfolding kind_size bit_width is_signed_kind
integer_kinds t size int8 a = (refl, refl, refl)
integer_kinds t size _ a = (refl, refl, refl)

-- An integer type of the AST is lowered, in an interned table, to a type with its width and its
-- signedness.
pub from_ast_integer :
    (k : IntegerKind) (t u : TypeTable) (id : ℤ)
    → IsInterned t
    → from_ast (integer_type k) t ≡ some (u, id)
    → (size_in_bytes u id ≡ some (bit_width k / 8))
      × (is_signed u id ≡ is_signed_kind k)
      × (is_unsigned u id ≡ not (is_signed_kind k))
unfolding Represents size_in_bytes size_fuel is_signed is_unsigned
from_ast_integer k t u id v h =
    let (v', keep, (n, e, s)) = from_ast_lem (integer_type k) t u id v h in
    let (x, at, kind) = scalar_entry u n (integer_kind_of k) s in
    let (size, signed, unsigned) = integer_kinds u (size_fuel u (length u.types)) k x.aux in
    (
      rw (e, at, kind) size,
      rw (e, at, kind_test, kind) signed,
      rw (e, at, kind_test, kind) unsigned,
    )
