-- ===== src/Ir/Types.antt =====
-- The table of intermediate types, qumir/ir/type.h and type.cpp: types are interned, so that one
-- shape of type has one id. An id is an `int`, and so may be negative, which no entry answers.
pub mod Describe
pub mod Growing
pub mod Interning
pub mod Layout
pub mod Classes
use qumir.Prelude.{
  ℕ, zero, suc, ℤ, pos, negsuc, Bool, true, false, ◌||◌, ◌&&◌, Option, none, some, List, [], ◌∷◌,
  ◌++◌, ◌==◌, Eq, Eq-int, Eq-list, list_beq_iff, int_eq_iff, ◌≡◌, ◌↔◌, refl, ap, ap₂, arith, nat_eq,
  nat_eq_iff, lookup, insert, length, get_elem?, if◌then◌else◌,
}

-- `EKind`, an enumeration on `uint8_t`.
pub data Kind : Type 0 where
  i1 i8 i16 i32 i64 i128 u8 u16 u32 u64 u128 f32 f64 void undef ptr func struct : Kind

-- The enumerators' values.
abbrev pub kind_code : Kind → ℕ
kind_code i1 = 0
kind_code i8 = 1
kind_code i16 = 2
kind_code i32 = 3
kind_code i64 = 4
kind_code i128 = 5
kind_code u8 = 6
kind_code u16 = 7
kind_code u32 = 8
kind_code u64 = 9
kind_code u128 = 10
kind_code f32 = 11
kind_code f64 = 12
kind_code void = 13
kind_code undef = 14
kind_code ptr = 15
kind_code func = 16
kind_code struct = 17

kind_of_code : ℕ → Kind
kind_of_code n =
    elim (get_elem?
      (i1 ∷ i8 ∷ i16 ∷ i32 ∷ i64 ∷ i128 ∷ u8 ∷ u16 ∷ u32 ∷ u64 ∷ u128 ∷ f32 ∷ f64 ∷ void ∷ undef
        ∷ ptr ∷ func ∷ struct ∷ [])
      n) [ some k ↦ k | none ↦ undef ]

kind_of_code-kind_code : (k : Kind) → kind_of_code (kind_code k) ≡ k
unfolding kind_of_code
kind_of_code-kind_code i1 = refl
kind_of_code-kind_code _ = refl

abbrev pub kind_beq : Kind → Kind → Bool
kind_beq a b = nat_eq (kind_code a) (kind_code b)

pub kind_beq_iff : (a b : Kind) → (kind_beq a b ≡ true) ↔ (a ≡ b)
kind_beq_iff a b = (
  λ h. cc (
    ap kind_of_code ((nat_eq_iff (kind_code a) (kind_code b)).0 h),
    kind_of_code-kind_code a,
    kind_of_code-kind_code b,
  ),
  λ e. (nat_eq_iff (kind_code a) (kind_code b)).1 (ap kind_code e),
)

instance abbrev pub Eq-kind : Eq Kind
Eq-kind = record { same_key = kind_beq; same_key_iff = kind_beq_iff }

-- `TType`; `aux` is the pointee, or the index of the signature or the structure, and -1 elsewhere.
pub record IrType : Type 0 where
  pub kind : Kind
  pub aux : ℤ

pub record FuncSig : Type 0 where
  pub params : List ℤ
  pub result : ℤ

-- `TFuncSig` as the key of `FuncCache`.
abbrev pub sig_beq : FuncSig → FuncSig → Bool
sig_beq a b = a.params == b.params && a.result == b.result

pub sig_beq_iff : (a b : FuncSig) → (sig_beq a b ≡ true) ↔ (a ≡ b)
sig_beq_iff a b = ground (arith, list_beq_iff a.params b.params, int_eq_iff a.result b.result)

instance abbrev pub Eq-sig : Eq FuncSig
Eq-sig = record { same_key = sig_beq; same_key_iff = sig_beq_iff }

-- `TTypeTable`
pub record TypeTable : Type 0 where
  pub types : List IrType
  pub func_sigs : List FuncSig
  pub structs : List (List ℤ)
  pub primitive_cache : List (Kind × ℤ)
  pub ptr_cache : List (ℤ × ℤ)
  pub func_cache : List (FuncSig × ℤ)
  pub struct_cache : List (List ℤ × ℤ)
  pub pointer_size : ℕ

abbrev pub empty_table : TypeTable
empty_table = record {
  types = [];
  func_sigs = [];
  structs = [];
  primitive_cache = [];
  ptr_cache = [];
  func_cache = [];
  struct_cache = [];
  pointer_size = 8;
}

-- What each operation does when its cache has no entry: a new last type, and the cache's entry.
abbrev pub add_primitive : Kind → TypeTable → TypeTable
add_primitive k t = record t {
  types = t.types ++ record { kind = k; aux = negsuc 0 } ∷ [];
  primitive_cache = insert k (pos (length t.types)) t.primitive_cache;
}

abbrev pub add_pointer : ℤ → TypeTable → TypeTable
add_pointer to t = record t {
  types = t.types ++ record { kind = ptr; aux = to } ∷ [];
  ptr_cache = insert to (pos (length t.types)) t.ptr_cache;
}

abbrev pub add_function : FuncSig → TypeTable → TypeTable
add_function sig t = record t {
  types = t.types ++ record { kind = func; aux = pos (length t.func_sigs) } ∷ [];
  func_sigs = t.func_sigs ++ sig ∷ [];
  func_cache = insert sig (pos (length t.types)) t.func_cache;
}

abbrev pub add_structure : List ℤ → TypeTable → TypeTable
add_structure fields t = record t {
  types = t.types ++ record { kind = struct; aux = pos (length t.structs) } ∷ [];
  structs = t.structs ++ fields ∷ [];
  struct_cache = insert fields (pos (length t.types)) t.struct_cache;
}

-- The id of the entry that a call added.
abbrev pub last_id : TypeTable → ℤ
last_id t = pos (length t.types)

-- `I`
unfoldable pub primitive : Kind → TypeTable → TypeTable × ℤ
primitive k t = elim (lookup k t.primitive_cache) [
  | some i ↦ (t, i)
  | none ↦ (add_primitive k t, last_id t)
]

-- `Ptr`
unfoldable pub pointer_to : ℤ → TypeTable → TypeTable × ℤ
pointer_to to t = elim (lookup to t.ptr_cache) [
  | some i ↦ (t, i)
  | none ↦ (add_pointer to t, last_id t)
]

-- `Func`
unfoldable pub function_of : List ℤ → ℤ → TypeTable → TypeTable × ℤ
function_of args ret t =
    let sig : FuncSig = record { params = args; result = ret } in
    elim (lookup sig t.func_cache) [ some i ↦ (t, i) | none ↦ (add_function sig t, last_id t) ]

-- `Struct`
unfoldable pub structure_of : List ℤ → TypeTable → TypeTable × ℤ
structure_of fields t = elim (lookup fields t.struct_cache) [
  | some i ↦ (t, i)
  | none ↦ (add_structure fields t, last_id t)
]

-- `SetPointerSize`
unfoldable pub set_pointer_size : ℕ → TypeTable → TypeTable
set_pointer_size bytes t = record t { pointer_size = bytes }

-- `Types[typeId]`, with the test of the bounds that stands before each use.
abbrev pub type_at : TypeTable → ℤ → Option IrType
type_at t (pos i) = get_elem? t.types i
type_at t (negsuc _) = none
