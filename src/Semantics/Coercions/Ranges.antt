-- ===== src/Semantics/Coercions/Ranges.antt =====
-- The values of the integer types, and `WideningInt` of
-- qumir/semantics/type_annotation/coercions.cpp.
use qumir.Prelude.{
  ℕ, zero, suc, ◌-◌, ◌^◌, ◌<◌, ℤ, pos, negsuc, Bool, true, false, ◌&&◌, leb, if◌then◌else◌, ◌≡◌,
  ◌↔◌, refl, arith, ◌∙◌,
}
use qumir.Ast.Types.{
  IntegerKind, int8, int16, int32, int64, int128, uint8, uint16, uint32, uint64, uint128,
  integer_type, bit_width, is_signed_kind,
}
use qumir.Semantics.Coercions.{same_sign, widening_int}

-- The values that are not negative, and those that are, counted from -1 down.
unfoldable pub positive_bound : IntegerKind → ℕ
positive_bound k = if is_signed_kind k then 2 ^ (bit_width k - 1) else 2 ^ bit_width k

unfoldable pub negative_bound : IntegerKind → ℕ
negative_bound k = if is_signed_kind k then 2 ^ (bit_width k - 1) else 0

-- A value of an integer type in two's complement.
abbrev pub IsValue : IntegerKind → ℤ → Type 0
IsValue k (pos n) = n < positive_bound k
IsValue k (negsuc n) = n < negative_bound k

every : (IntegerKind → Bool) → Bool
every p =
    p int8
    && p int16
    && p int32
    && p int64
    && p int128
    && p uint8
    && p uint16
    && p uint32
    && p uint64
    && p uint128

every_lem : (p : IntegerKind → Bool) → every p ≡ true → (k : IntegerKind) → p k ≡ true
unfolding every
every_lem p h int8 = ground arith
every_lem p h int16 = ground arith
every_lem p h int32 = ground arith
every_lem p h int64 = ground arith
every_lem p h int128 = ground arith
every_lem p h uint8 = ground arith
every_lem p h uint16 = ground arith
every_lem p h uint32 = ground arith
every_lem p h uint64 = ground arith
every_lem p h uint128 = ground arith

abbrev fits : IntegerKind → IntegerKind → Bool
fits s d = leb (positive_bound s) (positive_bound d) && leb (negative_bound s) (negative_bound d)

table :
    every (λ s. every (λ d. same_sign (widening_int (integer_type s) (integer_type d)) (fits s d)))
    ≡ true
unfolding every widening_int is_signed_kind bit_width positive_bound negative_bound
table = refl

same_sign→eq : (a b : Bool) → same_sign a b ≡ true → a ≡ b
same_sign→eq true true h = refl
same_sign→eq false false h = refl
same_sign→eq _ _ h = cc

widening_int-fits : (s d : IntegerKind) → widening_int (integer_type s) (integer_type d) ≡ fits s d
widening_int-fits s d =
    let row = every_lem _ table s in
    same_sign→eq _ _
      (every_lem (λ d. same_sign (widening_int (integer_type s) (integer_type d)) (fits s d)) row d)

fits-IsValue : (s d : IntegerKind) → fits s d ≡ true → (v : ℤ) → IsValue s v → IsValue d v
fits-IsValue s d h (pos n) lt = ground arith
fits-IsValue s d h (negsuc n) lt = ground arith

leb-bounds : (a b : ℕ) → ((n : ℕ) → n < a → n < b) → leb a b ≡ true
leb-bounds zero b h = ground arith
leb-bounds (suc a) b h = let below = h a (omega arith) in ground arith

IsValue-fits : (s d : IntegerKind) → ((v : ℤ) → IsValue s v → IsValue d v) → fits s d ≡ true
IsValue-fits s d h =
    rw
      (
        leb-bounds (positive_bound s) (positive_bound d) (λ n. h (pos n)),
        leb-bounds (negative_bound s) (negative_bound d) (λ n. h (negsuc n)),
      )
      refl

-- An integer type widens to another exactly where each of its values is a value of the other.
pub widening_int_iff :
    (s d : IntegerKind)
    → (widening_int (integer_type s) (integer_type d) ≡ true)
      ↔ ((v : ℤ) → IsValue s v → IsValue d v)
widening_int_iff s d = (
  λ h. fits-IsValue s d (rw widening_int-fits at h),
  λ h. widening_int-fits s d ∙ IsValue-fits s d h,
)
