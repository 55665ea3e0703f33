-- ===== src/Ir/Passes/ConstFold.antt =====
-- `ConstFold`, qumir/ir/passes/transforms/const_fold.cpp. `fault` is what C++ does not define: a read
-- out of bounds, an uncaught throw, a division that traps.
pub mod Pass
pub mod Sound
pub mod Ends
use Prim.Native.Nat.{bit_and, bit_or, bit_xor}
use qumir.Prelude.{
  ℕ, zero, suc, ◌+◌, ◌-◌, ◌*◌, ◌/◌, ◌%◌, ◌^◌, ℤ, pos, negsuc, Bool, true, false, not, ◌||◌, ◌&&◌,
  Option, none, some, List, [], ◌∷◌, ◌++◌, map, ◌==◌, Eq-nat, Eq-int, ltb, get_elem?, set, length,
  lookup, insert, if◌then◌else◌,
}
use qumir.Ir.Types.{Kind, i128, u128, TypeTable, Eq-kind}
use qumir.Ir.Types.Classes.{is_integer, is_float, is_unsigned, is_pointer, get_kind}
use qumir.Ir.Instr.{
  Operand, tmp, slot, local, imm, label, Imm, Instr, Block, Function, operand_eq, operand_or_none,
  op_code, cleared, get_tmp_type,
}
use qumir.Ir.Alu.{
  add64, sub64, mul64, div_signed, div_overflows, shl64, shr_signed, shr_unsigned, BinOp, plus,
  minus, times, divide, rem, band, bor, bxor, shl, shr, binary_op, is_wide, Doubles,
}

-- What `applyBinOp` gives: a value, `nullopt`, or a trap of the division itself.
pub data Applied : Type 0 where
  value : ℕ → Applied
  nullopt trap : Applied

-- `applyBinOp` on `int64_t`
unfoldable pub apply_signed : BinOp → ℕ → ℕ → Applied
apply_signed plus a b = value (add64 a b)
apply_signed minus a b = value (sub64 a b)
apply_signed times a b = value (mul64 a b)
apply_signed divide a b =
    if b == 0 then nullopt else if div_overflows a b then trap else value (div_signed a b)
apply_signed rem a b = nullopt
apply_signed band a b = value (bit_and a b)
apply_signed bor a b = value (bit_or a b)
apply_signed bxor a b = value (bit_xor a b)
apply_signed shl a b = value (shl64 a b)
apply_signed shr a b = value (shr_signed a b)

-- `applyBinOp` on `uint64_t`
unfoldable pub apply_unsigned : BinOp → ℕ → ℕ → Applied
apply_unsigned plus a b = value (add64 a b)
apply_unsigned minus a b = value (sub64 a b)
apply_unsigned times a b = value (mul64 a b)
apply_unsigned divide a b = if b == 0 then nullopt else value (a / b)
apply_unsigned rem a b = nullopt
apply_unsigned band a b = value (bit_and a b)
apply_unsigned bor a b = value (bit_or a b)
apply_unsigned bxor a b = value (bit_xor a b)
apply_unsigned shl a b = value (shl64 a b)
apply_unsigned shr a b = value (shr_unsigned a b)

-- `applyBinOp` on `double`
unfoldable pub apply_double : Doubles → BinOp → ℕ → ℕ → Applied
apply_double fl plus a b = value (fl.fadd_bits a b)
apply_double fl minus a b = value (fl.fsub_bits a b)
apply_double fl times a b = value (fl.fmul_bits a b)
apply_double fl divide a b = if fl.fis_zero b then nullopt else value (fl.fdiv_bits a b)
apply_double fl _ a b = nullopt

-- What becomes of an instruction: it stays, or an operand stands for its result.
pub data Fold : Type 0 where
  keep fault : Fold
  replace : Operand → Fold

abbrev pub replace_applied : ℤ → Applied → Fold
replace_applied d (value v) = replace (imm (record { value = v; type_id = d }))
replace_applied d nullopt = keep
replace_applied d trap = fault

-- The low 32 bits of a value as an `int`.
abbrev pub as_int : ℕ → ℤ
as_int v = let w = v % 2 ^ 32 in if ltb w (2 ^ 31) then pos w else negsuc (2 ^ 32 - 1 - w)

-- `IsInteger(Imm.Value) || IsPointer(Imm.Value)`, and the value is 1.
abbrev pub tests_one : TypeTable → Imm → Bool
tests_one t i = (is_integer t (as_int i.value) || is_pointer t (as_int i.value)) && i.value == 1

abbrev pub same_type : ℤ → ℤ → Bool
same_type a b = a == b

-- Both operands are immediate.
unfoldable pub fold_imms : Doubles → TypeTable → BinOp → ℤ → Imm → Imm → Fold
unfolding apply_signed apply_unsigned apply_double
fold_imms fl t op d a b =
    if (is_integer t a.type_id || is_pointer t a.type_id)
      && (is_integer t b.type_id || is_pointer t b.type_id)
    then replace_applied d (
        if is_unsigned t d
        then apply_unsigned op a.value b.value
        else apply_signed op a.value b.value)
    else if is_float t a.type_id && is_float t b.type_id
    then replace_applied d (apply_double fl op a.value b.value)
    else keep

abbrev pub is_plus_minus : BinOp → Bool
is_plus_minus plus = true
is_plus_minus minus = true
is_plus_minus _ = false

abbrev pub is_times : BinOp → Bool
is_times times = true
is_times _ = false

abbrev pub is_divide : BinOp → Bool
is_divide divide = true
is_divide _ = false

abbrev pub is_plus : BinOp → Bool
is_plus plus = true
is_plus _ = false

abbrev pub zero_imm : ℤ → Operand
zero_imm d = imm (record { value = 0; type_id = d })

-- A temporary, of type `x_type`, and an immediate.
unfoldable pub fold_tmp_imm : TypeTable → BinOp → ℤ → ℤ → ℤ → Imm → Fold
fold_tmp_imm t op d x x_type b =
    if b.value == 0 && is_plus_minus op && same_type d x_type
    then replace (tmp x)
    else if b.value == 0 && is_times op
    then replace (zero_imm d)
    else if tests_one t b && (is_times op || is_divide op) && same_type d x_type
    then replace (tmp x)
    else keep

-- An immediate, and a temporary of type `x_type`.
unfoldable pub fold_imm_tmp : TypeTable → BinOp → ℤ → Imm → ℤ → ℤ → Fold
fold_imm_tmp t op d a x x_type =
    if a.value == 0 && is_plus op && same_type d x_type
    then replace (tmp x)
    else if a.value == 0 && (is_times op || is_divide op)
    then replace (zero_imm d)
    else if tests_one t a && is_times op && same_type d x_type
    then replace (tmp x)
    else keep

-- The three cases of `processInstr` for the binary operations; `type_of` is `GetType`.
unfoldable pub fold_binary : Doubles → TypeTable → (ℤ → ℤ) → BinOp → ℤ → Operand → Operand → Fold
unfolding fold_imms fold_tmp_imm fold_imm_tmp
fold_binary fl t type_of op d (imm a) (imm b) = fold_imms fl t op d a b
fold_binary fl t type_of op d (tmp x) (imm b) = fold_tmp_imm t op d x (type_of x) b
fold_binary fl t type_of op d (imm a) (tmp x) = fold_imm_tmp t op d a x (type_of x)
fold_binary fl t type_of op d _ _ = keep

-- The case of `~`.
unfoldable pub fold_not : TypeTable → ℤ → List Operand → Fold
fold_not t d (imm a ∷ []) =
    if is_integer t a.type_id
    then replace (imm (record { value = 2 ^ 64 - 1 - a.value; type_id = d }))
    else keep
fold_not t d _ = keep
