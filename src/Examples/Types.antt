-- ===== src/Examples/Types.antt =====
-- A table with an `i8`, an `i64` and the structure of both, for the theorems on qumir/ir/type.cpp.
use qumir.Prelude.{
  none, ℕ, zero, suc, ◌+◌, ◌%◌, ◌^◌, ◌≤◌, pos, negsuc, some, List, [], ◌∷◌, ◌≡◌, ◌↔◌, refl, arith,
  lookup, insert,
}
use qumir.Ir.Types.{i8, i64, f64, void, TypeTable, empty_table, type_at, primitive, structure_of}
use qumir.Ir.Types.Classes.{is_integer, is_float, unify}
use qumir.Ir.Types.Describe.{Shape, scalar, pointer, structure, shape_at, request}
use qumir.Ir.Types.Interning.{
  IsInterned, IsInterned-empty, request-IsInterned, request_lem, request-shape_at,
  request_injective,
}
use qumir.Ir.Types.Layout.{
  align_of_size, align_up, size_in_bytes, align_in_bytes, field_offset, entry_size,
}
use qumir.Ir.Types.Layout.Total.{IsAcyclic, size_in_bytes_lem}
use qumir.Ir.Types.Layout.Placing.{Fits}
use qumir.Ir.Types.Layout.Fields.{fields_disjoint, field_aligned, zero_size_overlaps}

abbrev pub requests : List Shape → TypeTable → TypeTable
requests [] t = t
requests (s ∷ ss) t = requests ss (request s t).0

abbrev pub byte_and_long : TypeTable
byte_and_long = requests (scalar i8 ∷ scalar i64 ∷ structure (pos 0 ∷ pos 1 ∷ []) ∷ []) empty_table

pub byte_and_long-IsInterned : IsInterned byte_and_long
byte_and_long-IsInterned =
    request-IsInterned (requests (scalar i8 ∷ scalar i64 ∷ []) empty_table)
      (structure (pos 0 ∷ pos 1 ∷ []))
      (request-IsInterned (requests (scalar i8 ∷ []) empty_table) (scalar i64)
        (request-IsInterned empty_table (scalar i8) IsInterned-empty refl) refl)
      tt

byte_and_long-IsAcyclic : IsAcyclic byte_and_long
unfolding shape_at request primitive structure_of lookup insert
byte_and_long-IsAcyclic zero fs h = absurd (ground arith)
byte_and_long-IsAcyclic (suc zero) fs h = absurd (ground arith)
byte_and_long-IsAcyclic (suc (suc zero)) fs h =
    let e : (pos 0 ∷ pos 1 ∷ []) ≡ fs = cc in rw (← e) (omega arith, (omega arith, tt))
byte_and_long-IsAcyclic (suc (suc (suc n))) fs h = absurd (ground arith)

request-IsInterned_example : IsInterned (request (pointer (pos 2)) byte_and_long).0
request-IsInterned_example =
    request-IsInterned byte_and_long (pointer (pos 2)) byte_and_long-IsInterned tt

request_lem_example :
    ((n : ℕ) × ((request (scalar f64) byte_and_long).1 ≡ pos n)
      × (shape_at (request (scalar f64) byte_and_long).0 n ≡ some (scalar f64)))
    × (request (scalar f64) (request (scalar f64) byte_and_long).0
        ≡ request (scalar f64) byte_and_long)
request_lem_example = request_lem byte_and_long (scalar f64) byte_and_long-IsInterned refl

request-shape_at_example :
    shape_at (request (scalar f64) byte_and_long).0 2 ≡ some (structure (pos 0 ∷ pos 1 ∷ []))
unfolding shape_at request primitive structure_of lookup insert
request-shape_at_example =
    request-shape_at byte_and_long (scalar f64) 2 (structure (pos 0 ∷ pos 1 ∷ []))
      byte_and_long-IsInterned refl refl

request_injective_example :
    ((request (scalar f64) byte_and_long).1
      ≡ (request (scalar i8) (request (scalar f64) byte_and_long).0).1)
    ↔ (scalar f64 ≡ scalar i8)
request_injective_example =
    request_injective byte_and_long (scalar f64) (scalar i8) byte_and_long-IsInterned refl refl

size_in_bytes_lem_example :
    ((n : ℕ) × (size_in_bytes byte_and_long (pos 2) ≡ some n))
    × (size_in_bytes byte_and_long (pos 2)
        ≡ entry_size byte_and_long (size_in_bytes byte_and_long) (type_at byte_and_long (pos 2)))
size_in_bytes_lem_example =
    size_in_bytes_lem byte_and_long (pos 2) byte_and_long-IsInterned.described
      byte_and_long-IsAcyclic

byte_and_long-Fits : Fits byte_and_long (size_in_bytes byte_and_long) (pos 0 ∷ pos 1 ∷ []) 0
unfolding size_in_bytes request primitive structure_of lookup insert
byte_and_long-Fits = (1, refl, omega arith, (8, refl, omega arith, omega arith))

fields_disjoint_example :
    (a b s : ℕ) × (field_offset byte_and_long (pos 2) 0 ≡ some a)
    × (field_offset byte_and_long (pos 2) 1 ≡ some b)
    × (size_in_bytes byte_and_long (pos 2) ≡ some s)
    × (a + 1 ≤ b)
    × (b + 8 ≤ s)
unfolding size_in_bytes shape_at request primitive structure_of lookup insert
fields_disjoint_example =
    fields_disjoint byte_and_long 2 0 1 1 8 (pos 0) (pos 1) (pos 0 ∷ pos 1 ∷ [])
      byte_and_long-IsInterned.described byte_and_long-IsAcyclic refl byte_and_long-Fits
      (omega arith) refl refl refl refl

field_aligned_example : (a : ℕ) × (field_offset byte_and_long (pos 2) 1 ≡ some a) × (a % 2 ^ 3 ≡ 0)
unfolding size_in_bytes align_in_bytes shape_at request primitive structure_of lookup insert
field_aligned_example =
    field_aligned byte_and_long 2 1 8 3 (pos 1) (pos 0 ∷ pos 1 ∷ [])
      byte_and_long-IsInterned.described byte_and_long-IsAcyclic refl byte_and_long-Fits refl refl
      refl

-- An `i64`, `void` and the structure of an `i64`, a `void` and an `i64`.
abbrev with_void : TypeTable
with_void =
    requests (scalar i64 ∷ scalar void ∷ structure (pos 0 ∷ pos 1 ∷ pos 0 ∷ []) ∷ []) empty_table

with_void-IsInterned : IsInterned with_void
with_void-IsInterned =
    request-IsInterned (requests (scalar i64 ∷ scalar void ∷ []) empty_table)
      (structure (pos 0 ∷ pos 1 ∷ pos 0 ∷ []))
      (request-IsInterned (requests (scalar i64 ∷ []) empty_table) (scalar void)
        (request-IsInterned empty_table (scalar i64) IsInterned-empty refl) refl)
      tt

with_void-IsAcyclic : IsAcyclic with_void
unfolding shape_at request primitive structure_of lookup insert
with_void-IsAcyclic zero fs h = absurd (ground arith)
with_void-IsAcyclic (suc zero) fs h = absurd (ground arith)
with_void-IsAcyclic (suc (suc zero)) fs h =
    let e : (pos 0 ∷ pos 1 ∷ pos 0 ∷ []) ≡ fs = cc in
    rw (← e) (omega arith, (omega arith, (omega arith, tt)))
with_void-IsAcyclic (suc (suc (suc n))) fs h = absurd (ground arith)

zero_size_overlaps_example :
    (align_in_bytes with_void (pos 1) ≡ some 0)
    × ((offset : ℕ) → align_up offset 0 ≡ 0)
    × (field_offset with_void (pos 2) 0 ≡ some 0)
    × (field_offset with_void (pos 2) 1 ≡ some 0)
    × (field_offset with_void (pos 2) 2 ≡ some 0)
unfolding size_in_bytes shape_at request primitive structure_of lookup insert
zero_size_overlaps_example =
    zero_size_overlaps with_void 2 0 8 8 (pos 0) (pos 1) (pos 0) (pos 1 ∷ pos 0 ∷ [])
      (record { kind = void; aux = negsuc 0 }) with_void-IsInterned.described with_void-IsAcyclic
      refl refl (omega arith) refl refl refl refl refl (omega arith)

abbrev byte_and_double : TypeTable
byte_and_double = requests (scalar i8 ∷ scalar f64 ∷ []) empty_table

-- The layout of an `i8` and an `i64`.
byte_and_long_size : size_in_bytes byte_and_long (pos 2) ≡ some 16
unfolding size_in_bytes align_up align_of_size request primitive structure_of lookup insert
byte_and_long_size = refl

byte_and_long_offset : field_offset byte_and_long (pos 2) 1 ≡ some 8
unfolding field_offset size_in_bytes align_up align_of_size request primitive structure_of lookup
    insert
byte_and_long_offset = refl

unify_integers : unify byte_and_long (pos 0) (pos 1) ≡ none
unfolding unify is_integer is_float request primitive structure_of lookup insert
unify_integers = refl

unify_integer_and_double : unify byte_and_double (pos 0) (pos 1) ≡ some (pos 1)
unfolding unify is_integer is_float request primitive lookup insert
unify_integer_and_double = refl
