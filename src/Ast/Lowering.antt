-- ===== src/Ast/Lowering.antt =====
-- `FromAstType`, qumir/ir/type.cpp, on any type: the table and the id that it returns.
use qumir.Prelude.{
  ℤ, negsuc, none, some, List, [], ◌∷◌, ◌≡◌, refl, arith, subst, true, Option-cases, inl, inr,
}
use qumir.Ir.Types.{Kind, i1, i8, i32, f64, void, TypeTable, primitive}
use qumir.Ir.Types.Describe.{
  Shape, scalar, pointer, function, structure, request, IsShape, is_scalar,
}
use qumir.Ir.Types.Interning.{IsInterned, request-IsInterned, request_lem, request-shape_at}
use qumir.Ast.Types.{
  IntegerKind, int8, AstType, null_type, integer_type, float_type, bool_type, string_type,
  symbol_type, void_type, function_type, future_type, array_type, pointer_type, reference_type,
  named_type, struct_type, AstTypes, no_types, and_type, AstFields, no_fields, and_field,
}
use qumir.Ast.FromAst.{integer_kind_of, is_resolved, from_ast, from_fields, from_params}
use qumir.Ast.Represents.{
  HasShape, Keeps, Represents, RepresentsFields, RepresentsAll, Represents-Keeps,
  RepresentsFields-Keeps, RepresentsAll-Keeps,
}

none-some {ℓ} : {A : Type ℓ} {a : A} → none ≡ some a → ⊥
none-some h = cc

resolved : (ty x : AstType) → is_resolved ty ≡ some x → is_resolved ty ≡ some ty
resolved null_type x h = absurd (ground arith)
resolved _ x h = refl

some_injective {ℓ} : {A : Type ℓ} (a b : A) → some a ≡ some b → a ≡ b
some_injective a b h = cc

integer_kind_of-scalar : (k : IntegerKind) → is_scalar (integer_kind_of k) ≡ true
integer_kind_of-scalar int8 = refl
integer_kind_of-scalar _ = refl

-- The table is interned and says of the ids of `t` what `t` said.
abbrev Follows : TypeTable → TypeTable → Type 0
Follows t u = IsInterned u × Keeps t u

-- A request in a table that follows `t`.
request-Follows :
    (t t' u : TypeTable) (s : Shape) (id : ℤ)
    → Follows t t'
    → IsShape s
    → some (request s t') ≡ some (u, id)
    → Follows t u × Keeps t' u × HasShape u id s
request-Follows t t' u s id (v, k) ok h =
    let keep : Keeps t' (request s t').0 = λ n r g. request-shape_at t' s n r v ok g in
    subst
      (λ (w : TypeTable × ℤ). (IsInterned w.0 × Keeps t w.0) × Keeps t' w.0 × HasShape w.0 w.1 s)
      (some_injective (request s t') (u, id) h)
      ((request-IsInterned t' s v ok, λ n r g. keep n r (k n r g)), keep, (request_lem t' s v ok).0)

scalar-Follows :
    (t u : TypeTable) (k : Kind) (id : ℤ)
    → IsInterned t
    → is_scalar k ≡ true
    → some (request (scalar k) t) ≡ some (u, id)
    → Follows t u × HasShape u id (scalar k)
scalar-Follows t u k id v ok h =
    let (f, keep, shape) = request-Follows t t u (scalar k) id (v, λ n s g. g) ok h in (f, shape)

pointer-Follows :
    (t t' u : TypeTable) (to id : ℤ) (ty : AstType)
    → Follows t t' × Represents t' to ty
    → some (request (pointer to) t') ≡ some (u, id)
    → Follows t u × ((x : ℤ) × HasShape u id (pointer x) × Represents u x ty)
pointer-Follows t t' u to id ty (f, r) h =
    let (g, keep, shape) = request-Follows t t' u (pointer to) id f tt h in
    (g, (to, shape, Represents-Keeps t' u to ty keep r))

Follows-trans : (a b c : TypeTable) → Follows a b → Follows b c → Follows a c
Follows-trans a b c f g = (g.0, λ n s h. g.1 n s (f.1 n s h))

mutual
  unfolding from_ast Represents request

  from_ast-Follows :
      (ty : AstType) (t u : TypeTable) (id : ℤ)
      → IsInterned t
      → from_ast ty t ≡ some (u, id)
      → Follows t u × Represents u id ty
  from_ast-Follows null_type t u id v h =
      let e = some_injective (t, negsuc 0) (u, id) h in
      subst (λ (w : TypeTable × ℤ). Follows t w.0 × (w.1 ≡ negsuc 0)) e ((v, λ n s g. g), refl)
  from_ast-Follows (integer_type k) t u id v h =
      scalar-Follows t u (integer_kind_of k) id v (integer_kind_of-scalar k) h
  from_ast-Follows float_type t u id v h = scalar-Follows t u f64 id v refl h
  from_ast-Follows bool_type t u id v h = scalar-Follows t u i1 id v refl h
  from_ast-Follows void_type t u id v h = scalar-Follows t u void id v refl h
  from_ast-Follows symbol_type t u id v h = scalar-Follows t u i32 id v refl h
  from_ast-Follows string_type t u id v h =
      pointer-Follows t (primitive i8 t).0 u (primitive i8 t).1 id (integer_type int8)
        (scalar-Follows t (primitive i8 t).0 i8 (primitive i8 t).1 v refl refl) h
  from_ast-Follows (future_type ty) t u id v h = absurd (ground arith)
  from_ast-Follows (named_type name ty) t u id v h = elim (Option-cases (is_resolved ty)) [
    | inl e ↦ absurd (ground (arith, e, h))
    | inr (x, e) ↦
        let (f, r) = from_ast-Follows ty t u id v (rw e at h) in (f, (resolved ty x e, r))
  ]
  from_ast-Follows (array_type ty arity) t u id v h = elim (Option-cases (from_ast ty t)) [
    | inl e ↦ absurd (none-some (rw e at h))
    | inr ((t', to), e) ↦
        pointer-Follows t t' u to id ty (from_ast-Follows ty t t' to v e) (rw e at h)
  ]
  from_ast-Follows (pointer_type ty) t u id v h = elim (Option-cases (from_ast ty t)) [
    | inl e ↦ absurd (none-some (rw e at h))
    | inr ((t', to), e) ↦
        pointer-Follows t t' u to id ty (from_ast-Follows ty t t' to v e) (rw e at h)
  ]
  from_ast-Follows (reference_type ty) t u id v h = elim (Option-cases (from_ast ty t)) [
    | inl e ↦ absurd (none-some (rw e at h))
    | inr ((t', to), e) ↦
        pointer-Follows t t' u to id ty (from_ast-Follows ty t t' to v e) (rw e at h)
  ]
  from_ast-Follows (struct_type fields) t u id v h = elim (Option-cases (from_fields fields t)) [
    | inl e ↦ absurd (none-some (rw e at h))
    | inr ((t', fs), e) ↦
        let (f, r) = from_fields-Follows fields t t' fs v e in
        let (g, keep, shape) = request-Follows t t' u (structure fs) id f tt (rw e at h) in
        (g, (fs, shape, RepresentsFields-Keeps t' u fs fields keep r))
  ]
  from_ast-Follows (function_type params result) t u id v h =
      elim (Option-cases (from_params params t)) [
        | inl e ↦ absurd (none-some (rw e at h))
        | inr ((t', ps), e) ↦
            let (f, r) = from_params-Follows params t t' ps v e in
            elim (Option-cases (from_ast result t')) [
              | inl e' ↦ absurd (none-some (rw (e, e') at h))
              | inr ((t'', q), e') ↦
                  let (f', r') = from_ast-Follows result t' t'' q f.0 e' in
                  let s = function (record { params = ps; result = q }) in
                  let (g, keep, shape) =
                    request-Follows t t'' u s id (Follows-trans t t' t'' f f') tt
                      (rw (e, e') at h) in
                  (
                    g,
                    (
                      ps,
                      q,
                      shape,
                      RepresentsAll-Keeps t' u ps params (λ n x w. keep n x (f'.1 n x w)) r,
                      Represents-Keeps t'' u q result keep r',
                    ),
                  )
            ]
      ]

  from_fields-Follows :
      (fs : AstFields) (t u : TypeTable) (ids : List ℤ)
      → IsInterned t
      → from_fields fs t ≡ some (u, ids)
      → Follows t u × RepresentsFields u ids fs
  from_fields-Follows no_fields t u ids v h =
      subst (λ (w : TypeTable × List ℤ). Follows t w.0 × RepresentsFields w.0 w.1 no_fields)
        (some_injective (t, []) (u, ids) h) ((v, λ n s g. g), tt)
  from_fields-Follows (and_field name ty fs) t u ids v h = elim (Option-cases (from_ast ty t)) [
    | inl e ↦ absurd (none-some (rw e at h))
    | inr ((t', i), e) ↦
        let (f, r) = from_ast-Follows ty t t' i v e in
        elim (Option-cases (from_fields fs t')) [
          | inl e' ↦ absurd (none-some (rw (e, e') at h))
          | inr ((t'', is), e') ↦
              let (f', rs) = from_fields-Follows fs t' t'' is f.0 e' in
              let w = some_injective (t'', i ∷ is) (u, ids) (rw (e, e') at h) in
              subst
                (λ (w : TypeTable × List ℤ).
                  Follows t w.0 × RepresentsFields w.0 w.1 (and_field name ty fs))
                w (Follows-trans t t' t'' f f', (Represents-Keeps t' t'' i ty f'.1 r, rs))
        ]
  ]

  from_params-Follows :
      (tys : AstTypes) (t u : TypeTable) (ids : List ℤ)
      → IsInterned t
      → from_params tys t ≡ some (u, ids)
      → Follows t u × RepresentsAll u ids tys
  from_params-Follows no_types t u ids v h =
      subst (λ (w : TypeTable × List ℤ). Follows t w.0 × RepresentsAll w.0 w.1 no_types)
        (some_injective (t, []) (u, ids) h) ((v, λ n s g. g), tt)
  from_params-Follows (and_type ty tys) t u ids v h = elim (Option-cases (from_ast ty t)) [
    | inl e ↦ absurd (none-some (rw e at h))
    | inr ((t', i), e) ↦
        let (f, r) = from_ast-Follows ty t t' i v e in
        elim (Option-cases (from_params tys t')) [
          | inl e' ↦ absurd (none-some (rw (e, e') at h))
          | inr ((t'', is), e') ↦
              let (f', rs) = from_params-Follows tys t' t'' is f.0 e' in
              let w = some_injective (t'', i ∷ is) (u, ids) (rw (e, e') at h) in
              subst
                (λ (w : TypeTable × List ℤ).
                  Follows t w.0 × RepresentsAll w.0 w.1 (and_type ty tys))
                w (Follows-trans t t' t'' f f', (Represents-Keeps t' t'' i ty f'.1 r, rs))
        ]
  ]

-- Lowering a type in an interned table gives an interned table, which says of every id what it said
-- before, and an id that stands for the type in it.
pub from_ast_lem :
    (ty : AstType) (t u : TypeTable) (id : ℤ)
    → IsInterned t
    → from_ast ty t ≡ some (u, id)
    → IsInterned u × Keeps t u × Represents u id ty
from_ast_lem ty t u id v h = let (f, r) = from_ast-Follows ty t u id v h in (f.0, f.1, r)
