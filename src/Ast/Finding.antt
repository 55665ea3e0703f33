-- ===== src/Ast/Finding.antt =====
-- `FromAstType`, qumir/ir/type.cpp, on a type that the table has.
use qumir.Prelude.{ℤ, pos, some, List, [], ◌∷◌, ◌≡◌, refl, ap}
use qumir.Ir.Types.{i1, i8, i32, f64, void, TypeTable}
use qumir.Ir.Types.Describe.{Shape, scalar, pointer, function, structure, request}
use qumir.Ir.Types.Growing.{request_hit}
use qumir.Ir.Types.Interning.{IsInterned}
use qumir.Ast.Types.{
  AstType, null_type, integer_type, float_type, bool_type, string_type, symbol_type, void_type,
  function_type, future_type, array_type, pointer_type, reference_type, named_type, struct_type,
  AstTypes, no_types, and_type, AstFields, no_fields, and_field,
}
use qumir.Ast.FromAst.{integer_kind_of, from_ast, from_fields, from_params}
use qumir.Ast.Represents.{HasShape, Represents, RepresentsFields, RepresentsAll}

-- A request for a shape that the table has leaves the table as it is.
HasShape-request :
    (t : TypeTable) (id : ℤ) (s : Shape) → IsInterned t → HasShape t id s → request s t ≡ (t, id)
HasShape-request t id s v (n, e, h) = rw e (request_hit t s (pos n) (v.found n s h))

mutual
  unfolding from_ast Represents request

  Represents-from_ast :
      (ty : AstType) (t : TypeTable) (id : ℤ)
      → IsInterned t
      → Represents t id ty
      → from_ast ty t ≡ some (t, id)
  Represents-from_ast null_type t id v h = rw h refl
  Represents-from_ast (integer_type k) t id v h =
      ap some (HasShape-request t id (scalar (integer_kind_of k)) v h)
  Represents-from_ast float_type t id v h = ap some (HasShape-request t id (scalar f64) v h)
  Represents-from_ast bool_type t id v h = ap some (HasShape-request t id (scalar i1) v h)
  Represents-from_ast void_type t id v h = ap some (HasShape-request t id (scalar void) v h)
  Represents-from_ast symbol_type t id v h = ap some (HasShape-request t id (scalar i32) v h)
  Represents-from_ast string_type t id v (to, h, g) =
      rw (HasShape-request t to (scalar i8) v g) (ap some (HasShape-request t id (pointer to) v h))
  Represents-from_ast (array_type ty arity) t id v (to, h, g) =
      rw (Represents-from_ast ty t to v g) (ap some (HasShape-request t id (pointer to) v h))
  Represents-from_ast (pointer_type ty) t id v (to, h, g) =
      rw (Represents-from_ast ty t to v g) (ap some (HasShape-request t id (pointer to) v h))
  Represents-from_ast (reference_type ty) t id v (to, h, g) =
      rw (Represents-from_ast ty t to v g) (ap some (HasShape-request t id (pointer to) v h))
  Represents-from_ast (named_type name ty) t id v (e, h) = rw e (Represents-from_ast ty t id v h)
  Represents-from_ast (future_type ty) t id v h = absurd h
  Represents-from_ast (struct_type fields) t id v (ids, h, g) =
      rw (RepresentsFields-from_fields fields t ids v g)
        (ap some (HasShape-request t id (structure ids) v h))
  Represents-from_ast (function_type params result) t id v (ids, r, h, g, q) =
      rw (RepresentsAll-from_params params t ids v g, Represents-from_ast result t r v q)
        (ap some (HasShape-request t id (function (record { params = ids; result = r })) v h))

  RepresentsFields-from_fields :
      (fs : AstFields) (t : TypeTable) (ids : List ℤ)
      → IsInterned t
      → RepresentsFields t ids fs
      → from_fields fs t ≡ some (t, ids)
  RepresentsFields-from_fields no_fields t [] v h = refl
  RepresentsFields-from_fields (and_field name ty fs) t (id ∷ ids) v (h, hs) =
      rw (Represents-from_ast ty t id v h, RepresentsFields-from_fields fs t ids v hs) refl
  RepresentsFields-from_fields no_fields t (id ∷ ids) v h = absurd h
  RepresentsFields-from_fields (and_field name ty fs) t [] v h = absurd h

  RepresentsAll-from_params :
      (tys : AstTypes) (t : TypeTable) (ids : List ℤ)
      → IsInterned t
      → RepresentsAll t ids tys
      → from_params tys t ≡ some (t, ids)
  RepresentsAll-from_params no_types t [] v h = refl
  RepresentsAll-from_params (and_type ty tys) t (id ∷ ids) v (h, hs) =
      rw (Represents-from_ast ty t id v h, RepresentsAll-from_params tys t ids v hs) refl
  RepresentsAll-from_params no_types t (id ∷ ids) v h = absurd h
  RepresentsAll-from_params (and_type ty tys) t [] v h = absurd h

-- In an interned table in which an id stands for a type, lowering the type finds that id and adds
-- nothing.
pub from_ast_represented :
    (ty : AstType) (t : TypeTable) (id : ℤ)
    → IsInterned t
    → Represents t id ty
    → from_ast ty t ≡ some (t, id)
from_ast_represented ty t id v h = Represents-from_ast ty t id v h
