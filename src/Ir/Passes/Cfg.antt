-- ===== src/Ir/Passes/Cfg.antt =====
-- `BuildCfg` and `ComputeRPO`, qumir/ir/passes/analysis/cfg.cpp. A throw, and a read out of bounds,
-- is `none`.
pub mod Edges
pub mod Numbering
pub mod Preds
pub mod Search
pub mod Rpo
use qumir.Prelude.{
  ℕ, zero, suc, ◌+◌, ℤ, pos, Bool, true, false, Option, none, some, List, [], ◌∷◌, ◌++◌, ◌>>=◌,
  ◌==◌, Eq-nat, ltb, get_elem?, set, length, if◌then◌else◌,
}
use qumir.Ir.Instr.{Operand, label, Instr, Block, Function, op_code, resize, index_of, last_instr}

-- The numbering of the blocks by their labels.
unfoldable pub number_labels : ℕ → List Block → List ℤ → Option (List ℤ)
number_labels idx [] label2idx = some label2idx
number_labels idx (b ∷ bs) label2idx =
    let rest = number_labels (idx + 1) bs (set label2idx b.label_idx (pos idx)) in
    if ltb b.label_idx (length label2idx) then rest else none

unfoldable pub jump_target : List Operand → Option (List ℕ)
jump_target (label l ∷ []) = some (l ∷ [])
jump_target _ = none

unfoldable pub branch_targets : List Operand → Option (List ℕ)
branch_targets (_ ∷ label a ∷ label b ∷ []) = some (a ∷ b ∷ [])
branch_targets _ = none

-- The switch on the last instruction.
unfoldable pub successors : Instr → Option (List ℕ)
successors instr =
    if instr.op == op_code "jmp"
    then jump_target instr.operands
    else if instr.op == op_code "cmp"
    then branch_targets instr.operands
    else if instr.op == op_code "ret"
    then some []
    else none

unfoldable pub set_successors : List Block → Option (List Block)
set_successors [] = some []
set_successors (b ∷ bs) = do
  instr ← last_instr b.instrs
  succ ← successors instr
  rest ← set_successors bs
  some (record b { succ = succ; preds = [] } ∷ rest)

-- The edges in the order in which the last loop meets them.
abbrev pub edges_from : ℕ → List ℕ → List (ℕ × ℕ)
edges_from from [] = []
edges_from from (to ∷ succ) = (from, to) ∷ edges_from from succ

abbrev pub edges : List Block → List (ℕ × ℕ)
edges [] = []
edges (b ∷ bs) = edges_from b.label_idx b.succ ++ edges bs

-- `function.Blocks[idx].Pred.push_back(block.Label)` for each edge.
unfoldable pub add_preds : List ℤ → List (ℕ × ℕ) → List Block → Option (List Block)
add_preds label2idx [] bs = some bs
add_preds label2idx ((from, to) ∷ es) bs = do
  i ← index_of label2idx to
  b ← get_elem? bs i
  add_preds label2idx es (set bs i (record b { preds = b.preds ++ from ∷ [] }))

unfoldable pub build_cfg : Function → Option Function
unfolding number_labels successors jump_target branch_targets set_successors add_preds
build_cfg f = if f.cfg_built then some f else (do
  label2idx ← number_labels 0 f.blocks (resize (length f.blocks) (pos 0) f.label2idx)
  linked ← set_successors f.blocks
  blocks ← add_preds label2idx (edges linked) linked
  some (record f { cfg_built = true; label2idx = label2idx; blocks = blocks }))

abbrev pub contains : ℕ → List ℕ → Bool
contains l [] = false
contains l (x ∷ xs) = if x == l then true else contains l xs

-- `seen` and `rpo` of the search; `rpo` is built from the front, which is the `reverse` at the end.
pub record Visit : Type 0 where
  pub seen : List ℕ
  pub rpo : List ℕ

-- `for (auto succ : …) if (!seen.contains(succ)) dfs(succ)`
unfoldable pub visit_all : (ℕ → Visit → Option Visit) → List ℕ → Visit → Option Visit
visit_all dfs [] v = some v
visit_all dfs (l ∷ ls) v =
    let rest = visit_all dfs ls v in
    if contains l v.seen then rest else (do v' ← dfs l v; visit_all dfs ls v')

-- `dfs`, with fuel for its depth.
unfoldable pub dfs : List ℤ → List Block → ℕ → ℕ → Visit → Option Visit
dfs label2idx bs zero l v = none
dfs label2idx bs (suc fuel) l v = do
  i ← index_of label2idx l
  b ← get_elem? bs i
  v' ← visit_all (dfs label2idx bs fuel) b.succ (record v { seen = l ∷ v.seen })
  some (record v' { rpo = l ∷ v'.rpo })

-- A path of the search has no label twice, so the depth is at most the number of blocks.
unfoldable pub compute_rpo : Function → Option (List ℕ)
unfolding dfs visit_all
compute_rpo f = do
  v ← dfs f.label2idx f.blocks (suc (length f.blocks)) 0 (record { seen = []; rpo = [] })
  some v.rpo
