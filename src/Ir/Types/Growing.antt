-- ===== src/Ir/Types/Growing.antt =====
-- What `I`, `Ptr`, `Func` and `Struct` of qumir/ir/type.cpp do for a shape that the caches lack.
use qumir.Prelude.{
  ℕ, ◌<◌, ℤ, pos, negsuc, true, Option, none, some, List, [], ◌∷◌, ◌++◌, ◌≡◌, ◌>>=◌, refl, arith,
  if◌then◌else◌, length, get_elem?, get_elem?-snoc_last, get_elem?-append_left, get_elem?-lt,
  lookup-insert, Eq-int, Eq-list,
}
use qumir.Ir.Types.{
  Kind, ptr, func, struct, IrType, FuncSig, TypeTable, Eq-kind, Eq-sig, primitive, pointer_to,
  function_of, structure_of, add_primitive, add_pointer, add_function, add_structure,
}
use qumir.Ir.Types.Describe.{
  Shape, scalar, pointer, function, structure, IsShape, is_scalar, shape_beq, kind_shape, cached,
  request, Appends,
}

-- What an operation does for a shape that the caches do not hold.
pub record Grows (t t' : TypeTable) (s : Shape) : Type 0 where
  pub entry : IrType
  pub appends : Appends t t' entry
  pub new : kind_shape t' entry.kind entry.aux ≡ some s
  pub caches :
      (r : Shape)
      → cached t' r ≡ (if shape_beq s r then some (pos (length t.types)) else cached t r)

module _ (t : TypeTable) where
  pub request_hit : (s : Shape) (i : ℤ) → cached t s ≡ some i → request s t ≡ (t, i)
  unfolding request cached primitive pointer_to function_of structure_of
  request_hit (scalar k) i h = rw (h, primitive)
  request_hit (pointer to) i h = rw (h, pointer_to)
  request_hit (function sig) i h = rw (h, function_of)
  request_hit (structure fs) i h = rw (h, structure_of)

  pub request_id : (s : Shape) → cached t s ≡ none → (request s t).1 ≡ pos (length t.types)
  unfolding request cached primitive pointer_to function_of structure_of
  request_id (scalar k) h = rw (h, primitive)
  request_id (pointer to) h = rw (h, pointer_to)
  request_id (function sig) h = rw (h, function_of)
  request_id (structure fs) h = rw (h, structure_of)

  func_sigs_grow :
      (sig : FuncSig) (t' : TypeTable)
      → t'.func_sigs ≡ t.func_sigs ++ sig ∷ []
      → t'.structs ≡ t.structs
      → (k : Kind) (a : ℤ) (s : Shape) → kind_shape t k a ≡ some s
      → kind_shape t' k a ≡ some s
  func_sigs_grow sig t' e e' func (pos i) s h =
      rw
        (
          e,
          get_elem?-append_left t.func_sigs (sig ∷ []) i
              (in_range i (get_elem? t.func_sigs i) refl h),
        )
        h
    where
      in_range :
          (i : ℕ) (o : Option FuncSig)
          → get_elem? t.func_sigs i ≡ o
          → (o >>= λ g. some (function g)) ≡ some s
          → i < length t.func_sigs
      in_range i none q h = absurd (ground arith)
      in_range i (some g) q h = get_elem?-lt t.func_sigs i g q
  func_sigs_grow sig t' e e' struct (pos i) s h = rw e' h
  func_sigs_grow sig t' e e' func (negsuc i) s h = h
  func_sigs_grow sig t' e e' struct (negsuc i) s h = h
  func_sigs_grow sig t' e e' _ a s h = h

  structs_grow :
      (fs : List ℤ) (t' : TypeTable)
      → t'.func_sigs ≡ t.func_sigs
      → t'.structs ≡ t.structs ++ fs ∷ []
      → (k : Kind) (a : ℤ) (s : Shape) → kind_shape t k a ≡ some s
      → kind_shape t' k a ≡ some s
  structs_grow fs t' e e' struct (pos i) s h =
      rw
        (
          e',
          get_elem?-append_left t.structs (fs ∷ []) i (in_range i (get_elem? t.structs i) refl h),
        )
        h
    where
      in_range :
          (i : ℕ) (o : Option (List ℤ))
          → get_elem? t.structs i ≡ o
          → (o >>= λ g. some (structure g)) ≡ some s
          → i < length t.structs
      in_range i none q h = absurd (ground arith)
      in_range i (some g) q h = get_elem?-lt t.structs i g q
  structs_grow fs t' e e' func (pos i) s h = rw e h
  structs_grow fs t' e e' func (negsuc i) s h = h
  structs_grow fs t' e e' struct (negsuc i) s h = h
  structs_grow fs t' e e' _ a s h = h

  same_shapes :
      (t' : TypeTable)
      → t'.func_sigs ≡ t.func_sigs
      → t'.structs ≡ t.structs
      → (k : Kind) (a : ℤ) (s : Shape) → kind_shape t k a ≡ some s
      → kind_shape t' k a ≡ some s
  same_shapes t' e e' func (pos i) s h = rw e h
  same_shapes t' e e' struct (pos i) s h = rw e' h
  same_shapes t' e e' func (negsuc i) s h = h
  same_shapes t' e e' struct (negsuc i) s h = h
  same_shapes t' e e' _ a s h = h

scalar_shape :
    (t : TypeTable) (k : Kind) (a : ℤ) → is_scalar k ≡ true → kind_shape t k a ≡ some (scalar k)
scalar_shape t ptr a h = cc
scalar_shape t func a h = cc
scalar_shape t struct a h = cc
scalar_shape t _ a h = refl

-- One cache gains one entry, and the others stay.
module _ (t : TypeTable) where
  caches_scalar :
      (k : Kind) (r : Shape)
      → cached (add_primitive k t) r
        ≡ (if shape_beq (scalar k) r then some (pos (length t.types)) else cached t r)
  unfolding cached
  caches_scalar k (scalar j) = lookup-insert k j (pos (length t.types)) t.primitive_cache
  caches_scalar k _ = refl

  caches_pointer :
      (to : ℤ) (r : Shape)
      → cached (add_pointer to t) r
        ≡ (if shape_beq (pointer to) r then some (pos (length t.types)) else cached t r)
  unfolding cached
  caches_pointer to (pointer j) = lookup-insert to j (pos (length t.types)) t.ptr_cache
  caches_pointer to _ = refl

  caches_function :
      (g : FuncSig) (r : Shape)
      → cached (add_function g t) r
        ≡ (if shape_beq (function g) r then some (pos (length t.types)) else cached t r)
  unfolding cached
  caches_function g (function j) = lookup-insert g j (pos (length t.types)) t.func_cache
  caches_function g _ = refl

  caches_structure :
      (fs : List ℤ) (r : Shape)
      → cached (add_structure fs t) r
        ≡ (if shape_beq (structure fs) r then some (pos (length t.types)) else cached t r)
  unfolding cached
  caches_structure fs (structure j) = lookup-insert fs j (pos (length t.types)) t.struct_cache
  caches_structure fs _ = refl

pub request_miss :
    (t : TypeTable) (s : Shape) → IsShape s → cached t s ≡ none → Grows t (request s t).0 s
unfolding request cached primitive pointer_to function_of structure_of
request_miss t (scalar k) v h =
    rw (h, primitive)
      (record {
        entry = record { kind = k; aux = negsuc 0 };
        appends = record { last = refl; earlier = same_shapes t (add_primitive k t) refl refl };
        new = scalar_shape (add_primitive k t) k (negsuc 0) v;
        caches = caches_scalar t k;
      })
request_miss t (pointer to) v h =
    rw (h, pointer_to)
      (record {
        entry = record { kind = ptr; aux = to };
        appends = record { last = refl; earlier = same_shapes t (add_pointer to t) refl refl };
        new = refl;
        caches = caches_pointer t to;
      })
request_miss t (function g) v h =
    rw (h, function_of)
      (record {
        entry = record { kind = func; aux = pos (length t.func_sigs) };
        appends = record { last = refl; earlier = func_sigs_grow t g (add_function g t) refl refl };
        new = rw (get_elem?-snoc_last t.func_sigs g);
        caches = caches_function t g;
      })
request_miss t (structure fs) v h =
    rw (h, structure_of)
      (record {
        entry = record { kind = struct; aux = pos (length t.structs) };
        appends = record {
          last = refl;
          earlier = structs_grow t fs (add_structure fs t) refl refl;
        };
        new = rw (get_elem?-snoc_last t.structs fs);
        caches = caches_structure t fs;
      })
