-- ===== src/Ir/Types/Classes.antt =====
-- The tests on an id in qumir/ir/type.cpp, and `Unify`. A throw is `none`.
use qumir.Prelude.{
  ℤ, Bool, true, false, not, ◌&&◌, ◌||◌, Option, none, some, ◌≡◌, ◌⊎◌, inl, inr, arith, ◌==◌,
  int_eq_iff, Eq-int, if◌then◌else◌, ◌>>=◌, Option-cases, refl,
}
use qumir.Ir.Types.{
  Kind, i1, i8, i16, i32, i64, i128, u8, u16, u32, u64, u128, f32, f64, void, ptr, func, struct,
  Eq-kind, TypeTable, type_at,
}

-- The test on the kind of an id, false where the id is out of range.
abbrev pub kind_test : (Kind → Bool) → TypeTable → ℤ → Bool
kind_test p t id = elim (type_at t id) [ some e ↦ p e.kind | none ↦ false ]

abbrev pub integer_kind : Kind → Bool
integer_kind k =
    k == i1
    || k == i8
    || k == i16
    || k == i32
    || k == i64
    || k == i128
    || k == u8
    || k == u16
    || k == u32
    || k == u64
    || k == u128

abbrev pub signed_kind : Kind → Bool
signed_kind k = k == i1 || k == i8 || k == i16 || k == i32 || k == i64 || k == i128

abbrev pub unsigned_kind : Kind → Bool
unsigned_kind k = k == u8 || k == u16 || k == u32 || k == u64 || k == u128

-- `IsVoid`
unfoldable pub is_void : TypeTable → ℤ → Bool
is_void = kind_test (λ k. k == void)

-- `IsPrimitive`
unfoldable pub is_primitive : TypeTable → ℤ → Bool
is_primitive = kind_test (λ k. not (k == ptr) && not (k == func) && not (k == struct))

-- `IsFloat`
unfoldable pub is_float : TypeTable → ℤ → Bool
is_float = kind_test (λ k. k == f32 || k == f64)

-- `IsInteger`
unfoldable pub is_integer : TypeTable → ℤ → Bool
is_integer = kind_test integer_kind

-- `IsSigned`
unfoldable pub is_signed : TypeTable → ℤ → Bool
is_signed = kind_test signed_kind

-- `IsUnsigned`
unfoldable pub is_unsigned : TypeTable → ℤ → Bool
is_unsigned = kind_test unsigned_kind

-- `IsPointer`
unfoldable pub is_pointer : TypeTable → ℤ → Bool
is_pointer = kind_test (λ k. k == ptr)

-- `GetKind`
unfoldable pub get_kind : TypeTable → ℤ → Option Kind
get_kind t id = elim (type_at t id) [ some e ↦ some e.kind | none ↦ none ]

-- `UnderlyingType`
unfoldable pub underlying_type : TypeTable → ℤ → Option ℤ
underlying_type t id = elim (type_at t id) [
  | some e ↦ if e.kind == ptr || e.kind == func || e.kind == struct then some e.aux else none
  | none ↦ none
]

-- `Unify`. A throw, and the read of an id out of range, is `none`.
unfoldable pub unify : TypeTable → ℤ → ℤ → Option ℤ
unify t left right =
    let tested : Option ℤ =
      if is_integer t left && is_integer t right
      then none
      else if is_float t left && is_float t right
      then none
      else if is_integer t left && is_float t right
      then some right
      else if is_float t left && is_integer t right
      then some left
      else none in
    let read : Option ℤ = (do left_type ← type_at t left; right_type ← type_at t right; tested) in
    if left == right then some left else read

integer_partition :
    (k : Kind)
    → (integer_kind k ≡ (signed_kind k || unsigned_kind k))
      × ((signed_kind k && unsigned_kind k) ≡ false)
integer_partition i1 = (refl, refl)
integer_partition _ = (refl, refl)

-- An integer type is signed or unsigned, never both, and nothing else is either.
is_integer_lem :
    (t : TypeTable) (id : ℤ)
    → (is_integer t id ≡ (is_signed t id || is_unsigned t id))
      × ((is_signed t id && is_unsigned t id) ≡ false)
unfolding is_integer is_signed is_unsigned
is_integer_lem t id = elim (Option-cases (type_at t id)) [
  | inl e ↦ rw (e, kind_test) (refl, refl)
  | inr (x, e) ↦ rw (e, kind_test) (integer_partition x.kind)
]

float_kind_not_integer : (k : Kind) → (k == f32 || k == f64) ≡ true → integer_kind k ≡ false
float_kind_not_integer f32 h = refl
float_kind_not_integer f64 h = refl
float_kind_not_integer _ h = cc

float_not_integer : (t : TypeTable) (id : ℤ) → is_float t id ≡ true → is_integer t id ≡ false
unfolding is_float is_integer
float_not_integer t id h = elim (Option-cases (type_at t id)) [
  | inl e ↦ rw (e, kind_test) refl
  | inr (x, e) ↦ rw (e, kind_test) (float_kind_not_integer x.kind (rw (e, kind_test) at h))
]

-- An integer or a float type is in range.
tested_type :
    (t : TypeTable) (a : ℤ) → type_at t a ≡ none → (is_integer t a ≡ false) × (is_float t a ≡ false)
unfolding is_integer is_float
tested_type t a e = rw (e, kind_test) (refl, refl)

-- Unification does not depend on the order of its arguments.
unify_comm : (t : TypeTable) (a b : ℤ) → unify t a b ≡ unify t b a
unfolding unify
unify_comm t a b =
    let same = int_eq_iff a b in
    let same' = int_eq_iff b a in
    let apart = float_not_integer t a in
    let apart' = float_not_integer t b in
    elim (Option-cases (type_at t a)) [
      | inl e ↦ elim (Option-cases (type_at t b)) [
        | inl e' ↦
            ground (arith, e, e', same, same', apart, apart', tested_type t a, tested_type t b)
        | inr (y, e') ↦
            ground (arith, e, e', same, same', apart, apart', tested_type t a, tested_type t b)
      ]
      | inr (x, e) ↦ elim (Option-cases (type_at t b)) [
        | inl e' ↦
            ground (arith, e, e', same, same', apart, apart', tested_type t a, tested_type t b)
        | inr (y, e') ↦
            ground (arith, e, e', same, same', apart, apart', tested_type t a, tested_type t b)
      ]
    ]

-- Where unification succeeds it returns one of its arguments: both are equal, or one is an integer
-- type and the result is the other, a float type.
unify_lem :
    (t : TypeTable) (a b c : ℤ)
    → unify t a b ≡ some c
    → ((a ≡ b) × (c ≡ a))
      ⊎ ((is_float t c ≡ true)
          × (((c ≡ a) × (is_integer t b ≡ true)) ⊎ ((c ≡ b) × (is_integer t a ≡ true))))
unfolding unify
unify_lem t a b c h = elim (Option-cases (type_at t a)) [
  | inl e ↦ ground (arith, e, h, int_eq_iff a b)
  | inr (x, e) ↦ elim (Option-cases (type_at t b)) [
    | inl e' ↦ ground (arith, e, e', h, int_eq_iff a b)
    | inr (y, e') ↦ ground (arith, e, e', h, int_eq_iff a b)
  ]
]
