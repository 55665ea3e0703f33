-- ===== src/Ir/Instr.antt =====
-- Instructions, blocks and functions of the intermediate representation, qumir/ir/builder.h and the
-- types of temporaries in builder.cpp.
use Prim.Native.Char.{code}
use qumir.Ir.Types.{TypeTable}
use qumir.Prelude.{
  ℕ, zero, suc, ◌+◌, ◌*◌, ◌%◌, ◌^◌, ℤ, pos, negsuc, String, Bool, true, false, ◌&&◌, Option, none,
  some, List, [], ◌∷◌, Eq-nat, Eq-int, ◌≡◌, ◌↔◌, arith, nat_eq, nat_eq_iff, int_eq, int_eq_iff,
  get_elem?, set,
}

-- `TOp`: the characters of an operation's name, packed into 64 bits.
abbrev pub op_code_from : ℕ → String → ℕ
op_code_from acc String.[] = acc
op_code_from acc (String.◌∷◌ c s) = op_code_from ((acc * 256 + code c) % 2 ^ 64) s

abbrev pub op_code : String → ℕ
op_code s = op_code_from 0 s

-- `TImm`: the 64 bits of the value, and the type's id.
pub record Imm : Type 0 where
  pub value : ℕ
  pub type_id : ℤ

-- `TOperand`
pub data Operand : Type 0 where
  tmp : ℤ → Operand
  slot local : ℕ → Operand
  imm : Imm → Operand
  label : ℕ → Operand

-- `operator==` of operands
unfoldable pub operand_eq : Operand → Operand → Bool
operand_eq (tmp a) (tmp b) = int_eq a b
operand_eq (slot a) (slot b) = nat_eq a b
operand_eq (local a) (local b) = nat_eq a b
operand_eq (imm a) (imm b) = nat_eq a.value b.value && int_eq a.type_id b.type_id
operand_eq (label a) (label b) = nat_eq a b
operand_eq _ _ = false

pub operand_eq_iff : (a b : Operand) → (operand_eq a b ≡ true) ↔ (a ≡ b)
unfolding operand_eq
operand_eq_iff (tmp a) (tmp b) = ground (arith, int_eq_iff a b)
operand_eq_iff (slot a) (slot b) = ground (arith, nat_eq_iff a b)
operand_eq_iff (local a) (local b) = ground (arith, nat_eq_iff a b)
operand_eq_iff (imm a) (imm b) =
    ground (arith, nat_eq_iff a.value b.value, int_eq_iff a.type_id b.type_id)
operand_eq_iff (label a) (label b) = ground (arith, nat_eq_iff a b)
operand_eq_iff _ _ = (λ h. cc, λ h. cc)

-- `TInstr` and `TPhi`, which differ in how they store the operands; `operands` holds the first
-- `OperandCount` of them. A destination of -1 is none.
pub record Instr : Type 0 where
  pub op : ℕ
  pub dest : ℤ
  pub operands : List Operand

-- `TOperand()`
abbrev pub no_operand : Operand
no_operand = tmp (negsuc 0)

-- `Operands[i]`, whatever the count
abbrev pub operand_or_none : List Operand → ℕ → Operand
operand_or_none ops i = elim (get_elem? ops i) [ some o ↦ o | none ↦ no_operand ]

-- `Clear`
unfoldable pub cleared : Instr
cleared = record { op = op_code "nop"; dest = negsuc 0; operands = [] }

-- `TBlock`
pub record Block : Type 0 where
  pub label_idx : ℕ
  pub phis : List Instr
  pub instrs : List Instr
  pub succ : List ℕ
  pub preds : List ℕ

-- `TFunction`, as far as the passes read it.
pub record Function : Type 0 where
  pub blocks : List Block
  pub local_types : List ℤ
  pub tmp_types : List ℤ
  pub label2idx : List ℤ
  pub cfg_built : Bool
  pub next_tmp_idx : ℕ
  pub next_label_idx : ℕ

-- `TModule`, as far as the passes and the selection of bytecode read it.
pub record Module : Type 0 where
  pub types : TypeTable
  pub global_types : List ℤ

-- `GetTmpType` and `GetType`
unfoldable pub get_tmp_type : Function → ℤ → ℤ
get_tmp_type f (negsuc i) = negsuc 0
get_tmp_type f (pos i) = elim (get_elem? f.tmp_types i) [ some t ↦ t | none ↦ negsuc 0 ]

-- `resize(n, value)` of a vector that grows.
abbrev pub grow {ℓ} : {A : Type ℓ} → ℕ → A → List A → List A
grow zero d xs = xs
grow (suc n) d [] = d ∷ grow n d []
grow (suc n) d (x ∷ xs) = x ∷ grow n d xs

-- `SetType`; a throw is `none`.
unfoldable pub set_type : Function → ℤ → ℤ → Option Function
set_type f (negsuc i) type_id = none
set_type f (pos i) type_id =
    some (record f { tmp_types = set (grow (suc i) (negsuc 0) f.tmp_types) i type_id })

-- `resize(n, value)` of a vector that may also shrink.
abbrev pub resize {ℓ} : {A : Type ℓ} → ℕ → A → List A → List A
resize zero d xs = []
resize (suc n) d [] = d ∷ resize n d []
resize (suc n) d (x ∷ xs) = x ∷ resize n d xs

-- `Label2Idx[label.Idx]` used as the index of a block
abbrev pub index_of : List ℤ → ℕ → Option ℕ
index_of label2idx l = elim (get_elem? label2idx l) [
  | some (pos i) ↦ some i
  | some (negsuc i) ↦ none
  | none ↦ none
]

-- `Instrs.back()`
abbrev pub last_instr : List Instr → Option Instr
last_instr [] = none
last_instr (x ∷ []) = some x
last_instr (x ∷ y ∷ xs) = last_instr (y ∷ xs)
