-- ===== src/Ast/Lifetime.antt =====
-- `GetLifetimeTraits`, qumir/semantics/lifetime/type_traits.cpp. A throw is `none`. A type is a finite
-- tree here, so that the set of the active types, which finds a cycle, never holds the type at hand.
use qumir.Prelude.{
  Bool, true, false, ◌&&◌, ◌||◌, Option, none, some, ◌>>=◌, ◌≡◌, arith, refl, ap, ◌∙◌, not,
  Option-cases, inl, inr,
}
use qumir.Ast.Types.{
  AstType, null_type, integer_type, float_type, bool_type, string_type, symbol_type, void_type,
  function_type, future_type, array_type, pointer_type, reference_type, named_type, struct_type,
  AstFields, no_fields, and_field,
}

-- `ELifetimeKind`
pub data LifetimeKind : Type 0 where
  trivial unique ref_counted aggregate : LifetimeKind

-- `TLifetimeTraits`
pub record LifetimeTraits : Type 0 where
  pub kind : LifetimeKind
  pub can_copy : Bool
  pub needs_destroy : Bool

abbrev pub trivial_traits : LifetimeTraits
trivial_traits = record { kind = trivial; can_copy = true; needs_destroy = false }

unfoldable mutual
  -- `Classify`
  pub classify : AstType → Option LifetimeTraits
  classify (named_type name ty) = classify ty
  classify (reference_type ty) = some trivial_traits
  classify (integer_type k) = some trivial_traits
  classify float_type = some trivial_traits
  classify bool_type = some trivial_traits
  classify symbol_type = some trivial_traits
  classify (pointer_type ty) = some trivial_traits
  classify string_type = some (record { kind = ref_counted; can_copy = true; needs_destroy = true })
  classify (array_type ty arity) =
      some (record { kind = unique; can_copy = false; needs_destroy = true })
  classify (struct_type fields) =
      classify_fields fields (record { kind = aggregate; can_copy = true; needs_destroy = false })
  classify null_type = none
  classify void_type = none
  classify (function_type params result) = none
  classify (future_type ty) = none

  -- The loop over the fields, with `result`.
  pub classify_fields : AstFields → LifetimeTraits → Option LifetimeTraits
  classify_fields no_fields result = some result
  classify_fields (and_field name ty fields) result = do
    field ← classify ty
    classify_fields fields (record result {
      can_copy = result.can_copy && field.can_copy;
      needs_destroy = result.needs_destroy || field.needs_destroy;
    })

-- Whether a leaf of the type is outside pointers and references: a member of structures, of names.
unfoldable mutual
  pub holds : (AstType → Bool) → AstType → Bool
  holds leaf (named_type name ty) = holds leaf ty
  holds leaf (struct_type fields) = holds_field leaf fields
  holds leaf ty = leaf ty

  pub holds_field : (AstType → Bool) → AstFields → Bool
  holds_field leaf no_fields = false
  holds_field leaf (and_field name ty fields) = holds leaf ty || holds_field leaf fields

abbrev pub is_array : AstType → Bool
is_array (array_type ty arity) = true
is_array _ = false

abbrev pub is_owner : AstType → Bool
is_owner (array_type ty arity) = true
is_owner string_type = true
is_owner _ = false

or_join : (a b c : Bool) → ((a || b) || c) ≡ (a || (b || c))
or_join true b c = refl
or_join false b c = refl

and_join : (a b c : Bool) → ((a && not b) && not c) ≡ (a && not (b || c))
and_join true true c = refl
and_join true false c = refl
and_join false b c = refl

mutual
  unfolding classify holds

  classify-holds :
      (ty : AstType) (r : LifetimeTraits)
      → classify ty ≡ some r
      → (r.needs_destroy ≡ holds is_owner ty) × (r.can_copy ≡ not (holds is_array ty))
  classify-holds (named_type name ty) r h = classify-holds ty r h
  classify-holds (struct_type fields) r h =
      classify_fields-holds fields
        (record { kind = aggregate; can_copy = true; needs_destroy = false }) r h
  classify-holds null_type r h = absurd (ground arith)
  classify-holds void_type r h = absurd (ground arith)
  classify-holds (function_type params result) r h = absurd (ground arith)
  classify-holds (future_type ty) r h = absurd (ground arith)
  classify-holds (reference_type ty) r h = ground arith
  classify-holds (integer_type k) r h = ground arith
  classify-holds float_type r h = ground arith
  classify-holds bool_type r h = ground arith
  classify-holds symbol_type r h = ground arith
  classify-holds (pointer_type ty) r h = ground arith
  classify-holds string_type r h = ground arith
  classify-holds (array_type ty arity) r h = ground arith

  classify_fields-holds :
      (fields : AstFields) (r0 r : LifetimeTraits)
      → classify_fields fields r0 ≡ some r
      → (r.needs_destroy ≡ (r0.needs_destroy || holds_field is_owner fields))
        × (r.can_copy ≡ (r0.can_copy && not (holds_field is_array fields)))
  classify_fields-holds no_fields r0 r h = ground arith
  classify_fields-holds (and_field name ty fields) r0 r h = elim (Option-cases (classify ty)) [
    | inl e ↦ absurd (ground arith)
    | inr (f, e) ↦
        let next : LifetimeTraits = record r0 {
          can_copy = r0.can_copy && f.can_copy;
          needs_destroy = r0.needs_destroy || f.needs_destroy;
        } in
        let own = classify-holds ty f e in
        let rest = classify_fields-holds fields next r (rw e at h) in
        (
          rest.0
              ∙ ap (λ x. (r0.needs_destroy || x) || holds_field is_owner fields) own.0
              ∙ or_join r0.needs_destroy (holds is_owner ty) (holds_field is_owner fields),
          rest.1
              ∙ ap (λ x. (r0.can_copy && x) && not (holds_field is_array fields)) own.1
              ∙ and_join r0.can_copy (holds is_array ty) (holds_field is_array fields),
        )
  ]

-- A classified type needs destruction exactly if it holds an array or a string by value, and can be
-- copied exactly if it holds no array by value: references and pointers own nothing.
pub classify_lem :
    (ty : AstType) (r : LifetimeTraits)
    → classify ty ≡ some r
    → (r.needs_destroy ≡ holds is_owner ty) × (r.can_copy ≡ not (holds is_array ty))
classify_lem ty r h = classify-holds ty r h
