-- ===== src/Ir/Types/Layout.antt =====
-- Sizes and field offsets: `SizeInBytes`, `AlignInBytes` and `FieldOffset` of qumir/ir/type.cpp and
-- `AlignUp` of qumir/align.h. An `int` is its 32-bit pattern; a read out of bounds is `none`.
pub mod AlignUp
pub mod Total
pub mod Placing
pub mod Fields
use Prim.Native.Nat.{bit_and}
use qumir.Prelude.{
  ℕ, zero, suc, ◌+◌, ◌-◌, ◌%◌, ◌^◌, ℤ, pos, negsuc, min, max, Option, none, some, List, [], ◌∷◌,
  ◌>>=◌, ◌||◌, ◌==◌, length, get_elem?, if◌then◌else◌,
}
use qumir.Ir.Types.{
  Kind, i1, i8, i16, i32, i64, i128, u8, u16, u32, u64, u128, f32, f64, void, undef, ptr, func,
  struct, Eq-kind, IrType, TypeTable, type_at,
}

-- `(value + align - 1) & ~(align - 1)`
unfoldable pub align_up : ℕ → ℕ → ℕ
align_up value align =
    bit_and ((value + align + 2 ^ 32 - 1) % 2 ^ 32) (2 ^ 32 - 1 - (align + 2 ^ 32 - 1) % 2 ^ 32)

-- `AlignInBytes`, given the size of the type.
unfoldable pub align_of_size : TypeTable → ℤ → ℕ → ℕ
align_of_size t id size = elim (type_at t id) [
  | none ↦ 8
  | some e ↦ min size (if e.kind == i128 || e.kind == u128 then 16 else 8)
]

-- The loop over the fields of a structure: the offset behind the last field, and the largest alignment.
unfoldable pub struct_loop : TypeTable → (ℤ → Option ℕ) → List ℤ → ℕ → ℕ → Option (ℕ × ℕ)
struct_loop t size [] offset max_align = some (offset, max_align)
struct_loop t size (f ∷ fs) offset max_align = do
  field_size ← size f
  let field_align = align_of_size t f field_size
  struct_loop t size fs (align_up offset field_align + field_size) (max max_align field_align)

unfoldable pub struct_size : TypeTable → (ℤ → Option ℕ) → List ℤ → Option ℕ
struct_size t size fields = do
  (offset, max_align) ← struct_loop t size fields 0 1
  some (align_up offset (min max_align 16))

-- The switch of `SizeInBytes`; `size` is the call for a field. `F32` and `Undef` have no case.
unfoldable pub kind_size : TypeTable → (ℤ → Option ℕ) → Kind → ℤ → Option ℕ
kind_size t size i1 aux = some 1
kind_size t size i8 aux = some 1
kind_size t size u8 aux = some 1
kind_size t size i16 aux = some 2
kind_size t size u16 aux = some 2
kind_size t size i32 aux = some 4
kind_size t size u32 aux = some 4
kind_size t size i64 aux = some 8
kind_size t size u64 aux = some 8
kind_size t size f64 aux = some 8
kind_size t size i128 aux = some 16
kind_size t size u128 aux = some 16
kind_size t size ptr aux = some t.pointer_size
kind_size t size func aux = some t.pointer_size
kind_size t size void aux = some 0
kind_size t size struct (pos i) = do fields ← get_elem? t.structs i; struct_size t size fields
kind_size t size struct (negsuc i) = none
kind_size t size f32 aux = some 8
kind_size t size undef aux = some 8

-- A type out of range has size 8.
abbrev pub entry_size : TypeTable → (ℤ → Option ℕ) → Option IrType → Option ℕ
entry_size t size none = some 8
entry_size t size (some e) = kind_size t size e.kind e.aux

-- The recursion, with fuel for its depth.
unfoldable pub size_fuel : TypeTable → ℕ → ℤ → Option ℕ
size_fuel t zero id = none
size_fuel t (suc f) id = entry_size t (size_fuel t f) (type_at t id)

-- `SizeInBytes`. A structure's fields are older types, so the depth is at most the number of types.
unfoldable pub size_in_bytes : TypeTable → ℤ → Option ℕ
unfolding size_fuel kind_size struct_size struct_loop
size_in_bytes t id = size_fuel t (suc (length t.types)) id

-- `AlignInBytes`
unfoldable pub align_in_bytes : TypeTable → ℤ → Option ℕ
unfolding align_of_size
align_in_bytes t id = do size ← size_in_bytes t id; some (align_of_size t id size)

-- The loop of `FieldOffset`.
unfoldable pub offset_loop : TypeTable → (ℤ → Option ℕ) → List ℤ → ℕ → ℕ → Option ℕ
offset_loop t size [] index offset = some offset
offset_loop t size (f ∷ fs) zero offset = do
  field_size ← size f
  some (align_up offset (align_of_size t f field_size))
offset_loop t size (f ∷ fs) (suc index) offset = do
  field_size ← size f
  offset_loop t size fs index (align_up offset (align_of_size t f field_size) + field_size)

abbrev struct_fields : TypeTable → Kind → ℤ → Option (List ℤ)
struct_fields t struct (pos i) = get_elem? t.structs i
struct_fields t struct (negsuc i) = none
struct_fields t _ aux = none

-- `GetStructFields`, with its throw on another kind.
unfoldable pub get_struct_fields : TypeTable → ℤ → Option (List ℤ)
get_struct_fields t id = do e ← type_at t id; struct_fields t e.kind e.aux

-- `FieldOffset`
unfoldable pub field_offset : TypeTable → ℤ → ℕ → Option ℕ
unfolding offset_loop get_struct_fields
field_offset t id index = do
  fields ← get_struct_fields t id
  offset_loop t (size_in_bytes t) fields index 0
