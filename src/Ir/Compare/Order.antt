-- ===== src/Ir/Compare/Order.antt =====
-- The comparisons that are selected for integers, against the order of the integers that the
-- registers stand for.
use qumir.Prelude.{
  ℕ, ◌-◌, ◌+◌, ◌^◌, ◌<◌, ◌≤◌, ℤ, Bool, true, false, Option, none, some, ◌≡◌, ◌≢◌, ◌↔◌, refl, arith,
  ltb, if◌then◌else◌, Eq-int, Eq-nat, subst,
}
use qumir.Ir.Types.{TypeTable}
use qumir.Ir.Types.Classes.{is_float, is_unsigned}
use qumir.Ir.Alu.{is_128bit_integer}
use qumir.Ir.Compare.{
  CmpOp, lt, gt, le, ge, eq, ne, narrow_cmp, wide_cmp, VmCmp, icmp_lts, icmp_ltu, icmp_gts,
  icmp_gtu, icmp_les, icmp_leu, icmp_ges, icmp_geu, icmp_eq, icmp_ne, select_compare, cmp_type,
  cmp128, DoubleOrder, eval_compare,
}

-- The integer that a register stands for, moved up by 2 ^ 63 if the type is signed: this keeps the
-- order.
abbrev pub rank_of : Bool → ℕ → ℕ
rank_of unsigned a = if unsigned then a else if ltb a (2 ^ 63) then a + 2 ^ 63 else a - 2 ^ 63

abbrev pub rank : TypeTable → ℤ → ℕ → ℕ
rank t type_id a = rank_of (is_unsigned t type_id) a

abbrev pub IsCompared : CmpOp → ℕ → ℕ → Type 0
IsCompared lt x y = x < y
IsCompared gt x y = y < x
IsCompared le x y = x ≤ y
IsCompared ge x y = y ≤ x
IsCompared eq x y = x ≡ y
IsCompared ne x y = x ≢ y

abbrev pub compared : DoubleOrder → TypeTable → ℤ → ℤ → CmpOp → ℕ → ℕ → Option ℕ
compared fl t left right op a b = elim (select_compare t left right op) [
  | none ↦ none
  | some (wide_cmp w) ↦ none
  | some (narrow_cmp n) ↦ some (eval_compare fl n a b)
]

-- The comparison selected for integers, by whether they are unsigned.
abbrev chosen : Bool → CmpOp → VmCmp
chosen true lt = icmp_ltu
chosen false lt = icmp_lts
chosen true gt = icmp_gtu
chosen false gt = icmp_gts
chosen true le = icmp_leu
chosen false le = icmp_les
chosen true ge = icmp_geu
chosen false ge = icmp_ges
chosen _ eq = icmp_eq
chosen _ ne = icmp_ne

select_compare-chosen :
    (t : TypeTable) (left right : ℤ) (op : CmpOp) (u : Bool)
    → is_float t left ≡ false
    → is_float t right ≡ false
    → is_unsigned t left ≡ u
    → is_128bit_integer t left ≡ some false
    → is_128bit_integer t right ≡ some false
    → select_compare t left right op ≡ some (narrow_cmp (chosen u op))
unfolding select_compare cmp_type cmp128
select_compare-chosen t left right lt u fl fr e wl wr = ground arith
select_compare-chosen t left right gt u fl fr e wl wr = ground arith
select_compare-chosen t left right le u fl fr e wl wr = ground arith
select_compare-chosen t left right ge u fl fr e wl wr = ground arith
select_compare-chosen t left right eq u fl fr e wl wr = ground arith
select_compare-chosen t left right ne u fl fr e wl wr = ground arith

eval_compare_lem :
    (fl : DoubleOrder) (u : Bool) (op : CmpOp) (a b : ℕ)
    → a < 2 ^ 64
    → b < 2 ^ 64
    → ((eval_compare fl (chosen u op) a b ≡ 1) ↔ IsCompared op (rank_of u a) (rank_of u b))
      × (eval_compare fl (chosen u op) a b ≤ 1)
unfolding eval_compare
eval_compare_lem fl u lt a b fa fb = elim u [ true ↦ ground arith | false ↦ ground arith ]
eval_compare_lem fl u gt a b fa fb = elim u [ true ↦ ground arith | false ↦ ground arith ]
eval_compare_lem fl u le a b fa fb = elim u [ true ↦ ground arith | false ↦ ground arith ]
eval_compare_lem fl u ge a b fa fb = elim u [ true ↦ ground arith | false ↦ ground arith ]
eval_compare_lem fl u eq a b fa fb = elim u [ true ↦ ground arith | false ↦ ground arith ]
eval_compare_lem fl u ne a b fa fb = elim u [ true ↦ ground arith | false ↦ ground arith ]

-- Two integer types of at most 64 bits that are both signed or both unsigned: a comparison of two
-- registers gives 1 if the integers that the registers stand for are in that order, and 0 if not.
pub compared_lem :
    (fl : DoubleOrder) (t : TypeTable) (left right : ℤ) (op : CmpOp) (a b : ℕ)
    → is_float t left ≡ false
    → is_float t right ≡ false
    → is_unsigned t left ≡ is_unsigned t right
    → is_128bit_integer t left ≡ some false
    → is_128bit_integer t right ≡ some false
    → a < 2 ^ 64
    → b < 2 ^ 64
    → (v : ℕ) × (compared fl t left right op a b ≡ some v)
      × ((v ≡ 1) ↔ IsCompared op (rank t left a) (rank t right b))
      × (v ≤ 1)
compared_lem fl t left right op a b fl_l fl_r same wl wr fa fb =
    let u = is_unsigned t left in
    let e = select_compare-chosen t left right op u fl_l fl_r refl wl wr in
    let both = eval_compare_lem fl u op a b fa fb in
    let v = eval_compare fl (chosen u op) a b in
    (
      v,
      rw (e, compared) refl,
      subst (λ w. (v ≡ 1) ↔ IsCompared op (rank_of u a) (rank_of w b)) same both.0,
      both.1,
    )
