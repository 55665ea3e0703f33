-- ===== src/Ir/Alu.antt =====
-- The binary operations of the interpreter: how qumir/ir/vmcompiler.cpp selects
-- one for an instruction, and what qumir/ir/eval.cpp computes. A register is its bit pattern, a
-- number below 2 ^ 64. Doubles are a parameter: their operations on bit patterns.
use Prim.Native.Nat.{bit_and, bit_or, bit_xor}
use qumir.Prelude.{
  ℕ, ◌+◌, ◌-◌, ◌*◌, ◌/◌, ◌%◌, ◌^◌, ℤ, pos, negsuc, Bool, false, not, ◌||◌, ◌&&◌, Option, none, some,
  ◌==◌, Eq-nat, ltb, ◌>>=◌, if◌then◌else◌,
}
use qumir.Ir.Types.{Kind, i128, u8, u16, u32, u64, u128, TypeTable, Eq-kind}
use qumir.Ir.Types.Classes.{is_float, get_kind}
use qumir.Ir.Instr.{op_code}

-- `a + b`, `a - b` and `a * b` on `int64_t` or `uint64_t`: the same bits.
abbrev pub add64 : ℕ → ℕ → ℕ
add64 a b = (a + b) % 2 ^ 64

abbrev pub sub64 : ℕ → ℕ → ℕ
sub64 a b = (a + 2 ^ 64 - b) % 2 ^ 64

abbrev pub mul64 : ℕ → ℕ → ℕ
mul64 a b = (a * b) % 2 ^ 64

abbrev pub is_negative : ℕ → Bool
is_negative a = not (ltb a (2 ^ 63))

abbrev pub neg64 : ℕ → ℕ
neg64 a = sub64 0 a

-- The absolute value of an `int64_t`, as a number.
abbrev pub magnitude : ℕ → ℕ
magnitude a = if is_negative a then 2 ^ 64 - a else a

-- `a / b` on `int64_t`, towards 0; the divisor is not 0.
abbrev pub div_signed : ℕ → ℕ → ℕ
div_signed a b =
    let q = magnitude a / magnitude b in
    if is_negative a
    then (if is_negative b then q % 2 ^ 64 else neg64 q)
    else if is_negative b
    then neg64 q
    else q

-- `a % b` on `int64_t`, with the sign of `a`; the divisor is not 0.
abbrev pub rem_signed : ℕ → ℕ → ℕ
rem_signed a b = let r = magnitude a % magnitude b in if is_negative a then neg64 r else r

-- The quotient that an `int64_t` does not hold: the processor traps.
abbrev pub div_overflows : ℕ → ℕ → Bool
div_overflows a b = a == 2 ^ 63 && b == 2 ^ 64 - 1

abbrev pub shl64 : ℕ → ℕ → ℕ
shl64 a b = (a * 2 ^ (b % 64)) % 2 ^ 64

abbrev pub shr_unsigned : ℕ → ℕ → ℕ
shr_unsigned a b = a / 2 ^ (b % 64)

abbrev pub shr_signed : ℕ → ℕ → ℕ
shr_signed a b =
    if is_negative a then 2 ^ 64 - 1 - (2 ^ 64 - 1 - a) / 2 ^ (b % 64) else a / 2 ^ (b % 64)

-- The operations that `TOp` codes stand for here.
pub data BinOp : Type 0 where
  plus minus times divide rem band bor bxor shl shr : BinOp

-- Those that `processInstr` of the constant folding takes; `%` is not one of them.
abbrev pub binary_op : ℕ → Option BinOp
binary_op op =
    if op == op_code "+"
    then some plus
    else if op == op_code "-"
    then some minus
    else if op == op_code "*"
    then some times
    else if op == op_code "/"
    then some divide
    else if op == op_code "&"
    then some band
    else if op == op_code "|"
    then some bor
    else if op == op_code "^"
    then some bxor
    else if op == op_code "<<"
    then some shl
    else if op == op_code ">>"
    then some shr
    else none

-- `EVMOp`, those of the binary operations on 64-bit registers.
pub data VmOp : Type 0 where
  iadd fadd isub fsub imul fmul idiv_s idiv_u irem_s irem_u fdiv iand ior ixor ishl ishr_s ishr_u :
      VmOp

-- Those on 128-bit registers.
pub data WideOp : Type 0 where
  iadd128 isub128 imul128 idiv_s128 idiv_u128 irem_s128 irem_u128 iand128 ior128 ixor128 ishl128
        ishr_s128 ishr_u128 :
      WideOp

pub data Selected : Type 0 where
  narrow : VmOp → Selected
  wide : WideOp → Selected

-- `isSignedInteger`
abbrev pub is_signed_integer : Kind → Bool
is_signed_integer k =
    not (k == u8) && not (k == u16) && not (k == u32) && not (k == u64) && not (k == u128)

abbrev pub is_wide : Kind → Bool
is_wide k = k == i128 || k == u128

-- `Is128BitInteger`; the throw of `GetKind` is `none`.
unfoldable pub is_128bit_integer : TypeTable → ℤ → Option Bool
is_128bit_integer t (negsuc i) = some false
is_128bit_integer t (pos i) = do k ← get_kind t (pos i); some (is_wide k)

abbrev pub by_width : TypeTable → ℤ → VmOp → WideOp → Option Selected
by_width t d n w = do
  is_wide_type ← is_128bit_integer t d
  some (if is_wide_type then wide w else narrow n)

abbrev pub by_sign_and_width : TypeTable → ℤ → VmOp → VmOp → WideOp → WideOp → Option Selected
by_sign_and_width t d s u ws wu = do
  is_wide_type ← is_128bit_integer t d
  k ← get_kind t d
  some (
      if is_wide_type
      then (if is_signed_integer k then wide ws else wide wu)
      else if is_signed_integer k
      then narrow s
      else narrow u)

-- The selection by the type of the destination. A throw is `none`.
unfoldable pub select_op : TypeTable → ℤ → BinOp → Option Selected
unfolding is_128bit_integer
select_op t d plus = if is_float t d then some (narrow fadd) else by_width t d iadd iadd128
select_op t d minus = if is_float t d then some (narrow fsub) else by_width t d isub isub128
select_op t d times = if is_float t d then some (narrow fmul) else by_width t d imul imul128
select_op t d divide =
    if is_float t d
    then some (narrow fdiv)
    else by_sign_and_width t d idiv_s idiv_u idiv_s128 idiv_u128
select_op t d rem =
    if is_float t d then none else by_sign_and_width t d irem_s irem_u irem_s128 irem_u128
select_op t d band = if is_float t d then none else by_width t d iand iand128
select_op t d bor = if is_float t d then none else by_width t d ior ior128
select_op t d bxor = if is_float t d then none else by_width t d ixor ixor128
select_op t d shl = if is_float t d then none else by_width t d ishl ishl128
select_op t d shr =
    if is_float t d then none else by_sign_and_width t d ishr_s ishr_u ishr_s128 ishr_u128

-- The C++ arithmetic on `double`, on bit patterns; `fis_zero` is `v == 0`.
pub record Doubles : Type 0 where
  pub fadd_bits : ℕ → ℕ → ℕ
  pub fsub_bits : ℕ → ℕ → ℕ
  pub fmul_bits : ℕ → ℕ → ℕ
  pub fdiv_bits : ℕ → ℕ → ℕ
  pub fis_zero : ℕ → Bool

-- One step of the interpreter's loop; `none` is a trap.
unfoldable pub eval_alu : Doubles → VmOp → ℕ → ℕ → Option ℕ
eval_alu fl iadd a b = some (add64 a b)
eval_alu fl fadd a b = some (fl.fadd_bits a b)
eval_alu fl isub a b = some (sub64 a b)
eval_alu fl fsub a b = some (fl.fsub_bits a b)
eval_alu fl imul a b = some (mul64 a b)
eval_alu fl fmul a b = some (fl.fmul_bits a b)
eval_alu fl idiv_s a b = if b == 0 || div_overflows a b then none else some (div_signed a b)
eval_alu fl idiv_u a b = if b == 0 then none else some (a / b)
eval_alu fl irem_s a b = if b == 0 || div_overflows a b then none else some (rem_signed a b)
eval_alu fl irem_u a b = if b == 0 then none else some (a % b)
eval_alu fl fdiv a b = some (fl.fdiv_bits a b)
eval_alu fl iand a b = some (bit_and a b)
eval_alu fl ior a b = some (bit_or a b)
eval_alu fl ixor a b = some (bit_xor a b)
eval_alu fl ishl a b = some (shl64 a b)
eval_alu fl ishr_s a b = some (shr_signed a b)
eval_alu fl ishr_u a b = some (shr_unsigned a b)
