-- ===== src/Ast/Represents.antt =====
-- What the ids of `FromAstType`, qumir/ir/type.cpp, stand for.
use qumir.Prelude.{ℕ, ℤ, pos, negsuc, some, List, [], ◌∷◌, ◌≡◌}
use qumir.Ir.Types.{i1, i8, i32, f64, void, TypeTable}
use qumir.Ir.Types.Describe.{Shape, scalar, pointer, function, structure, shape_at}
use qumir.Ast.Types.{
  AstType, null_type, integer_type, float_type, bool_type, string_type, symbol_type, void_type,
  function_type, future_type, array_type, pointer_type, reference_type, named_type, struct_type,
  AstTypes, no_types, and_type, AstFields, no_fields, and_field,
}
use qumir.Ast.FromAst.{integer_kind_of, is_resolved}

-- The id is that of an entry with the shape.
abbrev pub HasShape : TypeTable → ℤ → Shape → Type 0
HasShape t id s = (n : ℕ) × (id ≡ pos n) × (shape_at t n ≡ some s)

-- The table still says of every id what it said.
abbrev pub Keeps : TypeTable → TypeTable → Type 0
Keeps t t' = (n : ℕ) (s : Shape) → shape_at t n ≡ some s → shape_at t' n ≡ some s

-- The id stands for the type: arrays, pointers and references are pointers to what stands for their
-- element, a name is its underlying type, and no type at all is -1.
unfoldable mutual
  pub Represents : TypeTable → ℤ → AstType → Type 0
  Represents t id null_type = id ≡ negsuc 0
  Represents t id (integer_type k) = HasShape t id (scalar (integer_kind_of k))
  Represents t id float_type = HasShape t id (scalar f64)
  Represents t id bool_type = HasShape t id (scalar i1)
  Represents t id void_type = HasShape t id (scalar void)
  Represents t id symbol_type = HasShape t id (scalar i32)
  Represents t id string_type = (to : ℤ) × HasShape t id (pointer to) × HasShape t to (scalar i8)
  Represents t id (array_type ty arity) = (to : ℤ) × HasShape t id (pointer to) × Represents t to ty
  Represents t id (pointer_type ty) = (to : ℤ) × HasShape t id (pointer to) × Represents t to ty
  Represents t id (reference_type ty) = (to : ℤ) × HasShape t id (pointer to) × Represents t to ty
  Represents t id (named_type name ty) = (is_resolved ty ≡ some ty) × Represents t id ty
  Represents t id (future_type ty) = ⊥
  Represents t id (struct_type fields) =
      (ids : List ℤ) × HasShape t id (structure ids) × RepresentsFields t ids fields
  Represents t id (function_type params result) =
      (ids : List ℤ) × (r : ℤ) × HasShape t id (function (record { params = ids; result = r }))
      × RepresentsAll t ids params
      × Represents t r result

  pub RepresentsFields : TypeTable → List ℤ → AstFields → Type 0
  RepresentsFields t [] no_fields = Unit
  RepresentsFields t (id ∷ ids) (and_field name ty fields) =
      Represents t id ty × RepresentsFields t ids fields
  RepresentsFields t _ _ = ⊥

  pub RepresentsAll : TypeTable → List ℤ → AstTypes → Type 0
  RepresentsAll t [] no_types = Unit
  RepresentsAll t (id ∷ ids) (and_type ty tys) = Represents t id ty × RepresentsAll t ids tys
  RepresentsAll t _ _ = ⊥

pub HasShape-Keeps :
    (t t' : TypeTable) (id : ℤ) (s : Shape) → Keeps t t' → HasShape t id s → HasShape t' id s
HasShape-Keeps t t' id s k (n, e, h) = (n, e, k n s h)

mutual
  unfolding Represents

  pub Represents-Keeps :
      (t t' : TypeTable) (id : ℤ) (ty : AstType)
      → Keeps t t'
      → Represents t id ty
      → Represents t' id ty
  Represents-Keeps t t' id null_type k h = h
  Represents-Keeps t t' id (integer_type i) k h =
      HasShape-Keeps t t' id (scalar (integer_kind_of i)) k h
  Represents-Keeps t t' id float_type k h = HasShape-Keeps t t' id (scalar f64) k h
  Represents-Keeps t t' id bool_type k h = HasShape-Keeps t t' id (scalar i1) k h
  Represents-Keeps t t' id void_type k h = HasShape-Keeps t t' id (scalar void) k h
  Represents-Keeps t t' id symbol_type k h = HasShape-Keeps t t' id (scalar i32) k h
  Represents-Keeps t t' id string_type k (to, h, g) =
      (to, HasShape-Keeps t t' id (pointer to) k h, HasShape-Keeps t t' to (scalar i8) k g)
  Represents-Keeps t t' id (array_type ty arity) k (to, h, g) =
      (to, HasShape-Keeps t t' id (pointer to) k h, Represents-Keeps t t' to ty k g)
  Represents-Keeps t t' id (pointer_type ty) k (to, h, g) =
      (to, HasShape-Keeps t t' id (pointer to) k h, Represents-Keeps t t' to ty k g)
  Represents-Keeps t t' id (reference_type ty) k (to, h, g) =
      (to, HasShape-Keeps t t' id (pointer to) k h, Represents-Keeps t t' to ty k g)
  Represents-Keeps t t' id (named_type name ty) k (e, h) = (e, Represents-Keeps t t' id ty k h)
  Represents-Keeps t t' id (future_type ty) k h = h
  Represents-Keeps t t' id (struct_type fields) k (ids, h, g) =
      (ids, HasShape-Keeps t t' id (structure ids) k h, RepresentsFields-Keeps t t' ids fields k g)
  Represents-Keeps t t' id (function_type params result) k (ids, r, h, g, q) = (
    ids,
    r,
    HasShape-Keeps t t' id (function (record { params = ids; result = r })) k h,
    RepresentsAll-Keeps t t' ids params k g,
    Represents-Keeps t t' r result k q,
  )

  pub RepresentsFields-Keeps :
      (t t' : TypeTable) (ids : List ℤ) (fs : AstFields)
      → Keeps t t'
      → RepresentsFields t ids fs
      → RepresentsFields t' ids fs
  RepresentsFields-Keeps t t' [] no_fields k h = tt
  RepresentsFields-Keeps t t' (id ∷ ids) (and_field name ty fs) k (h, hs) =
      (Represents-Keeps t t' id ty k h, RepresentsFields-Keeps t t' ids fs k hs)
  RepresentsFields-Keeps t t' [] (and_field name ty fs) k h = absurd h
  RepresentsFields-Keeps t t' (id ∷ ids) no_fields k h = absurd h

  pub RepresentsAll-Keeps :
      (t t' : TypeTable) (ids : List ℤ) (tys : AstTypes)
      → Keeps t t'
      → RepresentsAll t ids tys
      → RepresentsAll t' ids tys
  RepresentsAll-Keeps t t' [] no_types k h = tt
  RepresentsAll-Keeps t t' (id ∷ ids) (and_type ty tys) k (h, hs) =
      (Represents-Keeps t t' id ty k h, RepresentsAll-Keeps t t' ids tys k hs)
  RepresentsAll-Keeps t t' [] (and_type ty tys) k h = absurd h
  RepresentsAll-Keeps t t' (id ∷ ids) no_types k h = absurd h
