-- ===== src/Ir/Passes/Renumber.antt =====
-- `RenumberRegisters`, qumir/ir/passes/transforms/renumber_regs.cpp: temporaries get the numbers
-- 0, 1, 2, … in the order in which they are met.
pub mod Renamed
pub mod Steps
pub mod Renaming
use qumir.Prelude.{
  ℕ, zero, suc, ◌+◌, ℤ, pos, negsuc, Bool, true, false, Option, none, some, List, [], ◌∷◌, ◌>>=◌,
  ◌==◌, Eq-nat, Eq-int, nat_eq, get_elem?, set, lookup, insert, if◌then◌else◌,
}
use qumir.Ir.Instr.{Operand, tmp, Instr, Block, Function, op_code, grow}

-- `tmpMapping` and `nextTmpIdx`
pub record Numbering : Type 0 where
  pub mapping : List (ℤ × ℕ)
  pub next : ℕ

abbrev pub no_numbers : Numbering
no_numbers = record { mapping = []; next = 0 }

-- `getNewTmpIdx`
unfoldable pub get_new_tmp_idx : ℤ → Numbering → Numbering × ℕ
get_new_tmp_idx old s = elim (lookup old s.mapping) [
  | some n ↦ (s, n)
  | none ↦ (record { mapping = insert old s.next s.mapping; next = s.next + 1 }, s.next)
]

-- A loop over a vector that changes its elements and the numbering.
unfoldable pub for_each {ℓ} :
    {A : Type ℓ} → (A → Numbering → Numbering × A) → List A → Numbering → Numbering × List A
for_each f [] s = (s, [])
for_each f (x ∷ xs) s = let (s', x') = f x s in let (s'', xs') = for_each f xs s' in (s'', x' ∷ xs')

unfoldable pub renumber_operand : Operand → Numbering → Numbering × Operand
renumber_operand (tmp i) s = let (s', n) = get_new_tmp_idx i s in (s', tmp (pos n))
renumber_operand o s = (s, o)

unfoldable pub renumber_dest : ℤ → Numbering → Numbering × ℤ
renumber_dest (pos i) s = let (s', n) = get_new_tmp_idx (pos i) s in (s', pos n)
renumber_dest (negsuc i) s = (s, negsuc i)

-- `renumberInstr`
unfoldable pub renumber_instr : Instr → Numbering → Numbering × Instr
renumber_instr instr s =
    if instr.op == op_code "nop"
    then (s, instr)
    else let (s', d) = renumber_dest instr.dest s in
      let (s'', ops) = for_each renumber_operand instr.operands s' in
      (s'', record instr { dest = d; operands = ops })

unfoldable pub renumber_block : Block → Numbering → Numbering × Block
renumber_block b s =
    let (s', phis) = for_each renumber_instr b.phis s in
    let (s'', instrs) = for_each renumber_instr b.instrs s' in
    (s'', record b { phis = phis; instrs = instrs })

-- `function.TmpTypes[oldIdx]`, out of range `none`
abbrev pub type_of_tmp : List ℤ → ℤ → Option ℤ
type_of_tmp types (pos i) = get_elem? types i
type_of_tmp types (negsuc i) = none

-- The loop over the mapping; the map gives its entries in no order that the source relies on.
unfoldable pub fill_types : List ℤ → List (ℤ × ℕ) → List ℤ → Option (List ℤ)
fill_types old [] new = some new
fill_types old ((k, n) ∷ m) new = do
  t ← type_of_tmp old k
  rest ← fill_types old m new
  some (set rest n t)

unfoldable pub renumber_registers : Function → Option Function
unfolding for_each renumber_block renumber_instr renumber_dest renumber_operand get_new_tmp_idx
    fill_types
renumber_registers f =
    let (s, blocks) = for_each renumber_block f.blocks no_numbers in
    do
      types ← fill_types f.tmp_types s.mapping (grow s.next (negsuc 0) [])
      some (record f { blocks = blocks; tmp_types = types })
