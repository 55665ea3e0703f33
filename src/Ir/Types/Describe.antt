-- ===== src/Ir/Types/Describe.antt =====
-- The abstract view of the type table: what an id stands for. `shape_at` reads it as the table's
-- clients do, through `Types`, `FuncSigs` and `Structs`.
use qumir.Prelude.{
  ℕ, ◌<◌, ℤ, pos, negsuc, Bool, true, false, Option, none, some, List, [], ◌∷◌, ◌++◌, ◌≡◌, ◌↔◌,
  ◌>>=◌, refl, arith, length, get_elem?, get_elem?-snoc_last, get_elem?-append_left, get_elem?-none,
  get_elem?-some, length-snoc, ◌==◌, Eq-int, Eq-list, list_beq_iff, int_eq_iff, lookup,
}
use native.Mathlib.Decide.{dec_lt}
use qumir.Ir.Types.{
  Kind, ptr, func, struct, IrType, FuncSig, TypeTable, Eq-kind, Eq-sig, kind_beq_iff, sig_beq_iff,
  primitive, pointer_to, function_of, structure_of,
}

-- A type with its parts, in place of indices into the side tables.
pub data Shape : Type 0 where
  scalar : Kind → Shape
  pointer : ℤ → Shape
  function : FuncSig → Shape
  structure : List ℤ → Shape

-- The kinds that `I` is called with: not those that carry an index.
abbrev pub is_scalar : Kind → Bool
is_scalar ptr = false
is_scalar func = false
is_scalar struct = false
is_scalar _ = true

abbrev pub IsShape : Shape → Type 0
IsShape (scalar k) = is_scalar k ≡ true
IsShape _ = Unit

abbrev pub shape_beq : Shape → Shape → Bool
shape_beq (scalar a) (scalar b) = a == b
shape_beq (pointer a) (pointer b) = a == b
shape_beq (function a) (function b) = a == b
shape_beq (structure a) (structure b) = a == b
shape_beq _ _ = false

pub shape_beq_iff : (a b : Shape) → (shape_beq a b ≡ true) ↔ (a ≡ b)
shape_beq_iff (scalar a) (scalar b) = ground (arith, kind_beq_iff a b)
shape_beq_iff (pointer a) (pointer b) = ground (arith, int_eq_iff a b)
shape_beq_iff (function a) (function b) = ground (arith, sig_beq_iff a b)
shape_beq_iff (structure a) (structure b) = ground (arith, list_beq_iff a b)
shape_beq_iff _ _ = (λ h. cc, λ h. cc)

abbrev pub kind_shape : TypeTable → Kind → ℤ → Option Shape
kind_shape t ptr to = some (pointer to)
kind_shape t func (pos i) = do sig ← get_elem? t.func_sigs i; some (function sig)
kind_shape t func (negsuc _) = none
kind_shape t struct (pos i) = do fields ← get_elem? t.structs i; some (structure fields)
kind_shape t struct (negsuc _) = none
kind_shape t k _ = some (scalar k)

unfoldable pub shape_at : TypeTable → ℕ → Option Shape
shape_at t n = do e ← get_elem? t.types n; kind_shape t e.kind e.aux

-- The id that the caches hold for a shape.
unfoldable pub cached : TypeTable → Shape → Option ℤ
cached t (scalar k) = lookup k t.primitive_cache
cached t (pointer to) = lookup to t.ptr_cache
cached t (function sig) = lookup sig t.func_cache
cached t (structure fields) = lookup fields t.struct_cache

-- The operation that interns a shape.
unfoldable pub request : Shape → TypeTable → TypeTable × ℤ
request (scalar k) t = primitive k t
request (pointer to) t = pointer_to to t
request (function sig) t = function_of sig.params sig.result t
request (structure fields) t = structure_of fields t

-- Every entry has a shape: its side table has the index that it holds.
abbrev pub IsDescribed : TypeTable → Type 0
IsDescribed t = (n : ℕ) → n < length t.types → (s : Shape) × (shape_at t n ≡ some s)

-- `t'` is `t` with one more entry at the end, and the earlier entries mean what they meant.
pub record Appends (t t' : TypeTable) (e : IrType) : Type 0 where
  pub last : t'.types ≡ t.types ++ e ∷ []
  pub earlier :
      (k : Kind) (a : ℤ) (s : Shape) → kind_shape t k a ≡ some s → kind_shape t' k a ≡ some s

module _ (t t' : TypeTable) (e : IrType) (s : Shape) (h : Appends t t' e)
    (new : kind_shape t' e.kind e.aux ≡ some s) where
  pub shape_at-last : shape_at t' (length t.types) ≡ some s
  unfolding shape_at
  shape_at-last = rw (h.last, get_elem?-snoc_last t.types e) new

  pub shape_at-earlier : IsDescribed t → (n : ℕ) → n < length t.types → shape_at t' n ≡ shape_at t n
  unfolding shape_at
  shape_at-earlier d n lt =
      let (x, p) = get_elem?-some t.types n lt in
      let (y, q) = d n lt in
      let q' : kind_shape t x.kind x.aux ≡ some y = rw p at q in
      rw (h.last, get_elem?-append_left t.types (e ∷ []) n lt, p, q', h.earlier x.kind x.aux y q')
        refl

  pub shape_at-beyond : (n : ℕ) → length t.types < n → shape_at t' n ≡ none
  unfolding shape_at
  shape_at-beyond n lt = rw (h.last, get_elem?-none (t.types ++ e ∷ []) n (rw length-snoc lt)) refl

pub shape_at-lt : (t : TypeTable) (n : ℕ) (s : Shape) → shape_at t n ≡ some s → n < length t.types
unfolding shape_at
shape_at-lt t n s h = elim (dec_lt n (length t.types)) [
  | yes p ↦ p
  | no p ↦ absurd (ground (arith, get_elem?-none t.types n (omega arith)))
]
