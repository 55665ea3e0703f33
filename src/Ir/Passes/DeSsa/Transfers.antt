-- ===== src/Ir/Passes/DeSsa/Transfers.antt =====
-- Which copies `DeSSA`, qumir/ir/passes/transforms/de_ssa.cpp, makes at the end of which block.
use qumir.Prelude.{ℕ, ℤ, none, some, List, [], ◌∷◌, ◌++◌, ◌≡◌, ◌≢◌, ◌==◌, Eq-nat, if◌then◌else◌}
use qumir.Ir.Instr.{Operand, label, Instr, op_code}
use qumir.Ir.Passes.DeSsa.{Splitting, find_edge}
use qumir.Ir.Passes.DeSsa.PerPred.{Copy, transfers_of, IsSorted}
use qumir.Ir.Passes.DeSsa.Splits.{Source}

-- Values and labels in turn.
abbrev pub IsPaired : List Operand → Type 0
IsPaired [] = Unit
IsPaired (src ∷ label p ∷ ops) = IsPaired ops
IsPaired _ = ⊥

-- The block that the edge from `p` to `b` now ends in: that which splits it, or `p`.
abbrev pub source_block : List (ℕ × ℕ × ℕ) → ℕ → ℕ → ℕ
source_block remap p b = elim (find_edge p b remap) [ some l ↦ l | none ↦ p ]

-- The copies that a phi of the block `b` asks for at the end of the block `j`.
abbrev pub phi_copies : List (ℕ × ℕ × ℕ) → ℕ → ℕ → ℤ → List Operand → List Copy
phi_copies remap j b dest (src ∷ label p ∷ ops) =
    let rest = phi_copies remap j b dest ops in
    if source_block remap p b == j then (dest, src) ∷ rest else rest
phi_copies remap j b dest _ = []

-- Those of all phis of the block, in their order.
abbrev pub block_copies : List (ℕ × ℕ × ℕ) → ℕ → ℕ → List Instr → List Copy
block_copies remap j b [] = []
block_copies remap j b (phi ∷ phis) =
    let rest = block_copies remap j b phis in
    if phi.op == op_code "phi" then phi_copies remap j b phi.dest phi.operands ++ rest else rest

-- A map with the keys in order, and with some copies behind those of another map.
abbrev pub Adds : List (ℕ × List Copy) → (ℕ → List Copy) → List (ℕ × List Copy) → Type 0
Adds m new m' = IsSorted m' × ((j : ℕ) → transfers_of j m' ≡ transfers_of j m ++ new j)

-- What a phi of the block `b` asks for at the end of the block `j`: each value whose edge comes out of
-- `j`, in order.
pub data PhiAsks (s : Splitting) (b j : ℕ) (dest : ℤ) : List Operand → List Copy → Type 0 where
  no_values : PhiAsks s b j dest [] []
  from_here :
      {src : Operand} {p : ℕ} {ops : List Operand} {cs : List Copy}
      → Source s p b j
      → PhiAsks s b j dest ops cs
      → PhiAsks s b j dest (src ∷ label p ∷ ops) ((dest, src) ∷ cs)
  from_elsewhere :
      {src : Operand} {p l : ℕ} {ops : List Operand} {cs : List Copy}
      → Source s p b l
      → l ≢ j
      → PhiAsks s b j dest ops cs
      → PhiAsks s b j dest (src ∷ label p ∷ ops) cs

-- What the phis of the block ask for, one phi after the other.
pub data PhisAsk (s : Splitting) (b j : ℕ) : List Instr → List Copy → Type 0 where
  no_phis : PhisAsk s b j [] []
  from_phi :
      {phi : Instr} {phis : List Instr} {cs ds : List Copy}
      → phi.op ≡ op_code "phi"
      → PhiAsks s b j phi.dest phi.operands cs
      → PhisAsk s b j phis ds
      → PhisAsk s b j (phi ∷ phis) (cs ++ ds)
  no_phi :
      {phi : Instr} {phis : List Instr} {cs : List Copy}
      → phi.op ≢ op_code "phi"
      → PhisAsk s b j phis cs
      → PhisAsk s b j (phi ∷ phis) cs
