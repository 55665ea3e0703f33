-- ===== src/Ast/FromAst.antt =====
-- `FromAstType`, qumir/ir/type.cpp: the id of a type of the AST in the table. A throw is `none`.
use qumir.Prelude.{ℤ, negsuc, Option, none, some, List, [], ◌∷◌, ◌>>=◌}
use qumir.Ir.Types.{
  Kind, i1, i8, i16, i32, i64, i128, u8, u16, u32, u64, u128, f64, void, TypeTable, primitive,
  pointer_to, function_of, structure_of,
}
use qumir.Ast.Types.{
  IntegerKind, int8, int16, int32, int64, int128, uint8, uint16, uint32, uint64, uint128, AstType,
  null_type, integer_type, float_type, bool_type, string_type, symbol_type, void_type,
  function_type, future_type, array_type, pointer_type, reference_type, named_type, struct_type,
  AstTypes, no_types, and_type, AstFields, no_fields, and_field,
}

-- The switch on the kind of an integer.
abbrev pub integer_kind_of : IntegerKind → Kind
integer_kind_of int8 = i8
integer_kind_of int16 = i16
integer_kind_of int32 = i32
integer_kind_of int64 = i64
integer_kind_of int128 = i128
integer_kind_of uint8 = u8
integer_kind_of uint16 = u16
integer_kind_of uint32 = u32
integer_kind_of uint64 = u64
integer_kind_of uint128 = u128

-- The test of a named type's underlying type against null.
abbrev pub is_resolved : AstType → Option AstType
is_resolved null_type = none
is_resolved ty = some ty

unfoldable mutual
  pub from_ast : AstType → TypeTable → Option (TypeTable × ℤ)
  from_ast (named_type name ty) t = do _ ← is_resolved ty; from_ast ty t
  from_ast (future_type ty) t = none
  from_ast (integer_type k) t = some (primitive (integer_kind_of k) t)
  from_ast float_type t = some (primitive f64 t)
  from_ast bool_type t = some (primitive i1 t)
  from_ast void_type t = some (primitive void t)
  from_ast symbol_type t = some (primitive i32 t)
  from_ast string_type t = let (t', to) = primitive i8 t in some (pointer_to to t')
  from_ast (array_type ty arity) t = do (t', to) ← from_ast ty t; some (pointer_to to t')
  from_ast (pointer_type ty) t = do (t', to) ← from_ast ty t; some (pointer_to to t')
  from_ast (reference_type ty) t = do (t', to) ← from_ast ty t; some (pointer_to to t')
  from_ast (struct_type fields) t = do (t', fs) ← from_fields fields t; some (structure_of fs t')
  from_ast (function_type params result) t = do
    (t', ps) ← from_params params t
    (t'', r) ← from_ast result t'
    some (function_of ps r t'')
  from_ast null_type t = some (t, negsuc 0)

  -- The loop over the fields of a structure.
  pub from_fields : AstFields → TypeTable → Option (TypeTable × List ℤ)
  from_fields no_fields t = some (t, [])
  from_fields (and_field name ty fields) t = do
    (t', f) ← from_ast ty t
    (t'', fs) ← from_fields fields t'
    some (t'', f ∷ fs)

  -- The loop over the parameters of a function.
  pub from_params : AstTypes → TypeTable → Option (TypeTable × List ℤ)
  from_params no_types t = some (t, [])
  from_params (and_type ty tys) t = do
    (t', p) ← from_ast ty t
    (t'', ps) ← from_params tys t'
    some (t'', p ∷ ps)
