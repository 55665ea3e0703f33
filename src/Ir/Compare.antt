-- ===== src/Ir/Compare.antt =====
-- The comparisons of the interpreter: how qumir/ir/vmcompiler.cpp selects one by the types of the
-- operands, and what qumir/ir/eval.cpp computes on 64-bit registers.
pub mod Order
use qumir.Prelude.{
  ℕ, ◌-◌, ◌^◌, ℤ, pos, negsuc, Bool, true, false, not, ◌||◌, Option, none, some, ◌==◌, Eq-nat,
  Eq-int, ltb, leb, ◌>>=◌, if◌then◌else◌, get_elem?,
}
use qumir.Ir.Types.{TypeTable}
use qumir.Ir.Types.Classes.{is_float, is_unsigned}
use qumir.Ir.Instr.{Operand, tmp, slot, local, imm, label, Function, Module, get_tmp_type}
use qumir.Ir.Alu.{is_128bit_integer, is_negative}

-- `<`, `>`, `<=`, `>=`, `==` and `!=`
pub data CmpOp : Type 0 where
  lt gt le ge eq ne : CmpOp

-- `EVMOp`, those of the comparisons on 64-bit registers.
pub data VmCmp : Type 0 where
  icmp_lts icmp_ltu fcmp_lt icmp_gts icmp_gtu fcmp_gt icmp_les icmp_leu fcmp_le icmp_ges icmp_geu
        fcmp_ge icmp_eq fcmp_eq icmp_ne fcmp_ne :
      VmCmp

-- Those on 128-bit registers.
pub data WideCmp : Type 0 where
  icmp_lts128 icmp_ltu128 icmp_gts128 icmp_gtu128 icmp_les128 icmp_leu128 icmp_ges128 icmp_geu128
        icmp_eq128 icmp_ne128 :
      WideCmp

pub data SelectedCmp : Type 0 where
  narrow_cmp : VmCmp → SelectedCmp
  wide_cmp : WideCmp → SelectedCmp

-- `typeIdOp`; a read out of bounds is `none`.
unfoldable pub type_id_op : Module → Function → Operand → Option ℤ
type_id_op m f (tmp i) = some (get_tmp_type f i)
type_id_op m f (imm i) = some i.type_id
type_id_op m f (slot i) = get_elem? m.global_types i
type_id_op m f (local i) = get_elem? f.local_types i
type_id_op m f (label i) = some (negsuc 0)

-- `cmpType`: -1 is signed, 0 is float, 1 is unsigned.
unfoldable pub cmp_type : TypeTable → ℤ → ℤ → ℤ
cmp_type t left right =
    if is_float t left || is_float t right
    then pos 0
    else if is_unsigned t left
    then pos 1
    else negsuc 0

-- `cmp128`
unfoldable pub cmp128 : TypeTable → ℤ → ℤ → Option Bool
cmp128 t left right = do
  l ← is_128bit_integer t left
  (if l then some true else is_128bit_integer t right)

abbrev pub by_operand_width : TypeTable → ℤ → ℤ → VmCmp → WideCmp → Option SelectedCmp
by_operand_width t left right n w = do
  is_wide_type ← cmp128 t left right
  some (if is_wide_type then wide_cmp w else narrow_cmp n)

abbrev pub by_cmp_type :
    TypeTable → ℤ → ℤ → VmCmp → VmCmp → VmCmp → WideCmp → WideCmp → Option SelectedCmp
by_cmp_type t left right f u s wu ws =
    if cmp_type t left right == pos 0
    then some (narrow_cmp f)
    else if cmp_type t left right == pos 1
    then by_operand_width t left right u wu
    else by_operand_width t left right s ws

-- The cases of the switch on the operation, for the types of the operands. A throw is `none`.
unfoldable pub select_compare : TypeTable → ℤ → ℤ → CmpOp → Option SelectedCmp
unfolding cmp128
select_compare t left right lt =
    by_cmp_type t left right fcmp_lt icmp_ltu icmp_lts icmp_ltu128 icmp_lts128
select_compare t left right gt =
    by_cmp_type t left right fcmp_gt icmp_gtu icmp_gts icmp_gtu128 icmp_gts128
select_compare t left right le =
    by_cmp_type t left right fcmp_le icmp_leu icmp_les icmp_leu128 icmp_les128
select_compare t left right ge =
    by_cmp_type t left right fcmp_ge icmp_geu icmp_ges icmp_geu128 icmp_ges128
select_compare t left right eq =
    if cmp_type t left right == pos 0
    then some (narrow_cmp fcmp_eq)
    else by_operand_width t left right icmp_eq icmp_eq128
select_compare t left right ne =
    if cmp_type t left right == pos 0
    then some (narrow_cmp fcmp_ne)
    else by_operand_width t left right icmp_ne icmp_ne128

-- The comparison that is compiled for two operands; a read out of bounds is `none` too.
unfoldable pub compile_compare : Module → Function → CmpOp → Operand → Operand → Option SelectedCmp
unfolding type_id_op select_compare
compile_compare m f op a b = do
  left ← type_id_op m f a
  right ← type_id_op m f b
  select_compare m.types left right op

-- `<` on `int64_t`
abbrev pub less64 : ℕ → ℕ → Bool
less64 a b =
    if is_negative a
    then (if is_negative b then ltb a b else true)
    else if is_negative b
    then false
    else ltb a b

-- The C++ comparisons on `double`, on bit patterns.
pub record DoubleOrder : Type 0 where
  pub fless_bits : ℕ → ℕ → Bool
  pub fequal_bits : ℕ → ℕ → Bool
  pub fless_equal_bits : ℕ → ℕ → Bool

abbrev pub as_word : Bool → ℕ
as_word true = 1
as_word false = 0

-- One step of the interpreter's loop: the destination's value.
unfoldable pub eval_compare : DoubleOrder → VmCmp → ℕ → ℕ → ℕ
eval_compare fl icmp_lts a b = as_word (less64 a b)
eval_compare fl icmp_ltu a b = as_word (ltb a b)
eval_compare fl fcmp_lt a b = as_word (fl.fless_bits a b)
eval_compare fl icmp_gts a b = as_word (less64 b a)
eval_compare fl icmp_gtu a b = as_word (ltb b a)
eval_compare fl fcmp_gt a b = as_word (fl.fless_bits b a)
eval_compare fl icmp_les a b = as_word (not (less64 b a))
eval_compare fl icmp_leu a b = as_word (leb a b)
eval_compare fl fcmp_le a b = as_word (fl.fless_equal_bits a b)
eval_compare fl icmp_ges a b = as_word (not (less64 a b))
eval_compare fl icmp_geu a b = as_word (leb b a)
eval_compare fl fcmp_ge a b = as_word (fl.fless_equal_bits b a)
eval_compare fl icmp_eq a b = as_word (a == b)
eval_compare fl fcmp_eq a b = as_word (fl.fequal_bits a b)
eval_compare fl icmp_ne a b = as_word (not (a == b))
eval_compare fl fcmp_ne a b = as_word (not (fl.fequal_bits a b))
