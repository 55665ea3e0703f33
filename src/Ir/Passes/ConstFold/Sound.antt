-- ===== src/Ir/Passes/ConstFold/Sound.antt =====
-- The folds of qumir/ir/passes/transforms/const_fold.cpp against the interpreter of `Ir/Alu`.
use qumir.Prelude.{
  ℕ, ◌^◌, ◌<◌, ℤ, false, not, Option, none, some, ◌≡◌, refl, arith, Eq-nat, Eq-int, if◌then◌else◌,
  ◌>>=◌, Option-cases, inl, inr,
}
use qumir.Ir.Types.{Kind, TypeTable, type_at, i1, Eq-kind}
use qumir.Ir.Types.Classes.{is_float, is_unsigned, get_kind, kind_test, unsigned_kind}
use qumir.Ir.Instr.{Operand, tmp, imm, Imm}
use qumir.Ir.Alu.{
  BinOp, plus, minus, times, divide, shr, is_signed_integer, select_op, Selected, narrow, wide,
  VmOp, eval_alu, Doubles,
}
use qumir.Ir.Passes.ConstFold.{
  Applied, replace_applied, value, nullopt, trap, apply_signed, apply_unsigned, replace,
  fold_binary, fold_imms, fold_tmp_imm, fold_imm_tmp,
}

-- What the interpreter reads of an operand of an ALU operation.
abbrev pub read_operand : (ℤ → ℕ) → Operand → Option ℕ
read_operand regs (tmp x) = some (regs x)
read_operand regs (imm i) = some i.value
read_operand regs _ = none

abbrev pub narrow_op : Selected → Option VmOp
narrow_op (narrow v) = some v
narrow_op (wide w) = none

-- The value that the interpreter computes for a binary operation with a destination of 64 bits, if it
-- computes one.
abbrev pub computed : Doubles → TypeTable → (ℤ → ℕ) → BinOp → ℤ → Operand → Operand → Option ℕ
computed fl t regs op d a b = do
  s ← select_op t d op
  v ← narrow_op s
  x ← read_operand regs a
  y ← read_operand regs b
  eval_alu fl v x y

-- An immediate that is no double, or no immediate.
abbrev pub IsIntegerOperand : TypeTable → Operand → Type 0
IsIntegerOperand t (imm i) = is_float t i.type_id ≡ false
IsIntegerOperand t _ = Unit

signed_iff : (k : Kind) → is_signed_integer k ≡ not (unsigned_kind k)
signed_iff i1 = refl
signed_iff _ = refl

-- The test of `ConstFold` and the test of the selection agree.
get_kind-is_unsigned :
    (t : TypeTable) (d : ℤ) (k : Kind)
    → get_kind t d ≡ some k
    → is_signed_integer k ≡ not (is_unsigned t d)
unfolding get_kind is_unsigned
get_kind-is_unsigned t d k h = elim (Option-cases (type_at t d)) [
  | inl e ↦ absurd (ground arith)
  | inr (x, e) ↦ let kx : x.kind ≡ k = ground arith in rw (e, kind_test, kx) (signed_iff k)
]

-- A result stands for an instruction only with a value.
replace_applied_value :
    (d : ℤ) (x : Applied) (r : Operand)
    → replace_applied d x ≡ replace r
    → (w : ℕ) × (x ≡ value w) × (r ≡ imm (record { value = w; type_id = d }))
replace_applied_value d (value w) r h = (w, refl, cc)
replace_applied_value d nullopt r h = absurd (ground arith)
replace_applied_value d trap r h = absurd (ground arith)

module _ (fl : Doubles) (t : TypeTable) (regs : ℤ → ℕ) (regs_fit : (x : ℤ) → regs x < 2 ^ 64)
    (d : ℤ) (integer : is_float t d ≡ false) where
  abbrev folded : BinOp → Imm → Imm → Applied
  folded op a b =
      if is_unsigned t d then apply_unsigned op a.value b.value else apply_signed op a.value b.value

  applied_sound :
      (op : BinOp) (a b : Imm) (w v : ℕ)
      → folded op a b ≡ value w
      → computed fl t regs op d (imm a) (imm b) ≡ some v
      → w ≡ v
  unfolding apply_signed apply_unsigned select_op eval_alu
  applied_sound divide a b w v h c = elim (Option-cases (get_kind t d)) [
    | inl e ↦ absurd (ground arith)
    | inr (k, e) ↦ ground (arith, get_kind-is_unsigned t d k e)
  ]
  applied_sound shr a b w v h c = elim (Option-cases (get_kind t d)) [
    | inl e ↦ absurd (ground arith)
    | inr (k, e) ↦ ground (arith, get_kind-is_unsigned t d k e)
  ]
  applied_sound _ a b w v h c = ground arith

  imms_sound :
      (op : BinOp) (a b : Imm) (r : Operand) (v : ℕ)
      → is_float t a.type_id ≡ false
      → fold_imms fl t op d a b ≡ replace r
      → computed fl t regs op d (imm a) (imm b) ≡ some v
      → read_operand regs r ≡ some v
  unfolding fold_imms
  imms_sound op a b r v fa h c =
      let g : replace_applied d (folded op a b) ≡ replace r = ground (arith, h, fa) in
      let (w, e, q) = replace_applied_value d (folded op a b) r g in
      let p : w ≡ v = applied_sound op a b w v e c in rw (q, p) refl

  tmp_imm_sound :
      (op : BinOp) (x x_type : ℤ) (b : Imm) (r : Operand) (v : ℕ)
      → fold_tmp_imm t op d x x_type b ≡ replace r
      → computed fl t regs op d (tmp x) (imm b) ≡ some v
      → read_operand regs r ≡ some v
  unfolding fold_tmp_imm select_op eval_alu
  tmp_imm_sound plus x x_type b r v h c = ground (arith, regs_fit x)
  tmp_imm_sound minus x x_type b r v h c = ground (arith, regs_fit x)
  tmp_imm_sound times x x_type b r v h c = ground (arith, regs_fit x)
  tmp_imm_sound divide x x_type b r v h c = ground (arith, regs_fit x)
  tmp_imm_sound _ x x_type b r v h c = absurd (ground arith)

  imm_tmp_sound :
      (op : BinOp) (a : Imm) (x x_type : ℤ) (r : Operand) (v : ℕ)
      → fold_imm_tmp t op d a x x_type ≡ replace r
      → computed fl t regs op d (imm a) (tmp x) ≡ some v
      → read_operand regs r ≡ some v
  unfolding fold_imm_tmp select_op eval_alu
  imm_tmp_sound plus a x x_type r v h c = ground (arith, regs_fit x)
  imm_tmp_sound times a x x_type r v h c = ground (arith, regs_fit x)
  imm_tmp_sound divide a x x_type r v h c = ground (arith, regs_fit x)
  imm_tmp_sound _ a x x_type r v h c = absurd (ground arith)

-- A binary operation with a destination that is no double, and with no double among its immediates,
-- over registers of 64 bits: when the pass puts an operand in its place, whatever the types that
-- `type_of` gives, and the interpreter computes a value for it, the operand reads as that value.
pub fold_binary_sound :
    (fl : Doubles) (t : TypeTable) (type_of : ℤ → ℤ) (regs : ℤ → ℕ) (op : BinOp) (d : ℤ)
    (a b r : Operand) (v : ℕ)
    → ((x : ℤ) → regs x < 2 ^ 64)
    → is_float t d ≡ false
    → IsIntegerOperand t a
    → IsIntegerOperand t b
    → fold_binary fl t type_of op d a b ≡ replace r
    → computed fl t regs op d a b ≡ some v
    → read_operand regs r ≡ some v
unfolding fold_binary
fold_binary_sound fl t type_of regs op d (imm a) (imm b) r v fit integer ha hb h c =
    imms_sound fl t regs fit d integer op a b r v ha h c
fold_binary_sound fl t type_of regs op d (tmp x) (imm b) r v fit integer ha hb h c =
    tmp_imm_sound fl t regs fit d integer op x (type_of x) b r v h c
fold_binary_sound fl t type_of regs op d (imm a) (tmp x) r v fit integer ha hb h c =
    imm_tmp_sound fl t regs fit d integer op a x (type_of x) r v h c
fold_binary_sound fl t type_of regs op d _ _ r v fit integer ha hb h c = absurd (ground arith)
