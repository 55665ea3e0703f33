-- ===== src/Ir/Passes/Renumber/Renamed.antt =====
-- A numbering of qumir/ir/passes/transforms/renumber_regs.cpp as a renaming, and when it is one to one.
use qumir.Prelude.{
  ℕ, ◌<◌, ℤ, pos, negsuc, none, some, List, [], ◌∷◌, map, ◌==◌, Eq-nat, Eq-int, int_eq_iff, ◌≡◌,
  ◌≢◌, ◌⊎◌, false, refl, arith, lookup, insert, lookup-insert, if◌then◌else◌, Bool-cases, inl, inr,
}
use qumir.Ir.Instr.{Operand, tmp, Instr, Block, op_code}
use qumir.Ir.Passes.Renumber.{Numbering}

-- The new number of a temporary; one that the mapping lacks keeps its own.
abbrev pub renamed : Numbering → ℤ → ℤ
renamed s k = elim (lookup k s.mapping) [ some n ↦ pos n | none ↦ k ]

abbrev pub rename_operand : Numbering → Operand → Operand
rename_operand s (tmp i) = tmp (renamed s i)
rename_operand s o = o

abbrev pub rename_dest : Numbering → ℤ → ℤ
rename_dest s (pos i) = renamed s (pos i)
rename_dest s (negsuc i) = negsuc i

-- Every temporary of an instruction is renamed; a `nop` is left as it is.
abbrev pub rename_instr : Numbering → Instr → Instr
rename_instr s i =
    if i.op == op_code "nop"
    then i
    else record i { dest = rename_dest s i.dest; operands = map (rename_operand s) i.operands }

abbrev pub rename_block : Numbering → Block → Block
rename_block s b = record b {
  phis = map (rename_instr s) b.phis;
  instrs = map (rename_instr s) b.instrs;
}

-- The temporaries that the pass meets: those of the instructions that are not `nop`.
abbrev pub InOperand : Operand → ℤ → Type 0
InOperand (tmp i) k = i ≡ k
InOperand o k = ⊥

abbrev pub InDest : ℤ → ℤ → Type 0
InDest (pos i) k = pos i ≡ k
InDest (negsuc i) k = ⊥

abbrev pub InSome {ℓ} : {A : Type ℓ} → (A → ℤ → Type 0) → List A → ℤ → Type 0
InSome P [] k = ⊥
InSome P (x ∷ xs) k = P x k ⊎ InSome P xs k

abbrev pub InInstr : Instr → ℤ → Type 0
InInstr i k = ((i.op == op_code "nop") ≡ false) × (InDest i.dest k ⊎ InSome InOperand i.operands k)

abbrev pub InBlock : Block → ℤ → Type 0
InBlock b k = InSome InInstr b.phis k ⊎ InSome InInstr b.instrs k

-- The entries of a mapping have different keys and different numbers.
abbrev pub Distinct : List (ℤ × ℕ) → Type 0
Distinct [] = Unit
Distinct ((k, n) ∷ m) =
    (lookup k m ≡ none) × ((j : ℤ) (i : ℕ) → lookup j m ≡ some i → i ≢ n) × Distinct m

pub Distinct-insert :
    (k : ℤ) (n : ℕ) (m : List (ℤ × ℕ))
    → lookup k m ≡ none
    → ((j : ℤ) (i : ℕ) → lookup j m ≡ some i → i ≢ n)
    → Distinct m
    → Distinct (insert k n m)
unfolding lookup insert
Distinct-insert k n [] h new d = (refl, λ j i w. absurd (ground arith), tt)
Distinct-insert k n ((j, i) ∷ m) h new d = elim (Bool-cases (j == k)) [
  | inl e ↦ absurd (ground arith)
  | inr e ↦
      let new' : (x : ℤ) (y : ℕ) → lookup x m ≡ some y → y ≢ n = λ x y w.
        elim (Bool-cases (j == x)) [
          | inl q ↦ absurd (ground (arith, int_eq_iff j x, d.0))
          | inr q ↦ new x y (rw q w)
        ] in
      let here : i ≢ n = new j i (ground (arith, int_eq_iff j j)) in
      rw e (
        ground (arith, lookup-insert k j n m, d.0, int_eq_iff k j, int_eq_iff j k),
        λ x y w. other x y here w,
        Distinct-insert k n m (ground arith) new' d.2,
      )
]
  where
    other : (x : ℤ) (y : ℕ) → i ≢ n → lookup x (insert k n m) ≡ some y → y ≢ i
    other x y ne w q = ground (arith, lookup-insert k x n m, d.1 x y)

-- No two temporaries have one number, each number is below the next one.
pub record IsOneToOne (s : Numbering) : Type 0 where
  pub below : (k : ℤ) (n : ℕ) → lookup k s.mapping ≡ some n → n < s.next
  pub injective :
      (j k : ℤ) (n : ℕ) → lookup j s.mapping ≡ some n → lookup k s.mapping ≡ some n → j ≡ k
  pub entries : Distinct s.mapping
