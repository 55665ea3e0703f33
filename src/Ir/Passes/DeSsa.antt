-- ===== src/Ir/Passes/DeSsa.antt =====
-- `DeSSA`, qumir/ir/passes/transforms/de_ssa.cpp: critical edges are split, and each phi becomes
-- copies at the ends of the predecessors. A throw, and a read out of bounds, is `none`.
pub mod Copies
pub mod Splits
pub mod PerPred
pub mod Transfers
use qumir.Prelude.{
  ℕ, zero, suc, ◌+◌, ◌<◌, ℤ, pos, negsuc, Bool, true, false, ◌&&◌, Option, none, some, List, [],
  ◌∷◌, ◌++◌, ◌>>=◌, ◌==◌, Eq-nat, Eq-int, ltb, leb, nat_eq, get_elem?, set, length, map,
  if◌then◌else◌,
}
use qumir.Ir.Instr.{
  Operand, tmp, label, Instr, Block, Function, op_code, grow, index_of, last_instr, get_tmp_type,
  set_type,
}

-- `remap`, from an edge to the block that splits it, with the new blocks and the function.
pub record Splitting : Type 0 where
  pub func : Function
  pub new_blocks : List Block
  pub remap : List (ℕ × ℕ × ℕ)

abbrev pub find_edge : ℕ → ℕ → List (ℕ × ℕ × ℕ) → Option ℕ
find_edge p b [] = none
find_edge p b ((p', b', l) ∷ m) = if p' == p && b' == b then some l else find_edge p b m

abbrev pub replace_label : ℕ → ℕ → List ℕ → List ℕ
replace_label old new [] = []
replace_label old new (x ∷ xs) = (if x == old then new else x) ∷ replace_label old new xs

abbrev pub replace_label_operands : ℕ → ℕ → List Operand → List Operand
replace_label_operands old new [] = []
replace_label_operands old new (label l ∷ xs) =
    label (if l == old then new else l) ∷ replace_label_operands old new xs
replace_label_operands old new (o ∷ xs) = o ∷ replace_label_operands old new xs

-- A change of the last instruction; an empty block has none.
abbrev pub change_last : (Instr → Instr) → List Instr → Option (List Instr)
change_last g [] = none
change_last g (x ∷ []) = some (g x ∷ [])
change_last g (x ∷ y ∷ xs) = do rest ← change_last g (y ∷ xs); some (x ∷ rest)

-- A critical edge, from the block `p` at `i` to the block `b` at `bi`, gets a block of its own.
unfoldable pub split_critical : ℕ → ℕ → ℕ → ℕ → Block → Block → Splitting → Option Splitting
split_critical bi pi pred_label i b p s = do
  let new_label = s.func.next_label_idx
  let jump : Instr = record {
    op = op_code "jmp";
    dest = negsuc 0;
    operands = label b.label_idx ∷ [];
  }
  let new_block : Block = record {
    label_idx = new_label;
    phis = [];
    instrs = jump ∷ [];
    succ = b.label_idx ∷ [];
    preds = pred_label ∷ [];
  }
  instrs ←
      change_last
        (λ t. record t { operands = replace_label_operands b.label_idx new_label t.operands })
        p.instrs
  let p' : Block = record p { instrs = instrs; succ = replace_label b.label_idx new_label p.succ }
  let blocks = set s.func.blocks i p'
  b' ← get_elem? blocks bi
  some (record {
    func = record s.func {
      next_label_idx = new_label + 1;
      blocks = set blocks bi (record b' { preds = set b'.preds pi new_label });
    };
    new_blocks = s.new_blocks ++ new_block ∷ [];
    remap = (pred_label, b.label_idx, new_label) ∷ s.remap;
  })

-- The body of the inner loop, for the predecessor at `pi` of the block at `bi`.
unfoldable pub split_edge : ℕ → ℕ → Splitting → Option Splitting
unfolding split_critical
split_edge bi pi s = do
  b ← get_elem? s.func.blocks bi
  pred_label ← get_elem? b.preds pi
  i ← index_of s.func.label2idx pred_label
  p ← get_elem? s.func.blocks i
  (if ltb 1 (length p.succ) && ltb 1 (length b.preds)
      then split_critical bi pi pred_label i b p s
      else some s)

-- The inner loop: `n` predecessors are left from `pi` on.
unfoldable pub split_preds : ℕ → ℕ → ℕ → Splitting → Option Splitting
split_preds bi pi zero s = some s
split_preds bi pi (suc n) s = do s' ← split_edge bi pi s; split_preds bi (pi + 1) n s'

-- The outer loop: `n` blocks are left from `bi` on.
unfoldable pub split_blocks : ℕ → ℕ → Splitting → Option Splitting
split_blocks bi zero s = some s
split_blocks bi (suc n) s = do
  b ← get_elem? s.func.blocks bi
  s' ← split_preds bi 0 (length b.preds) s
  split_blocks (bi + 1) n s'

-- The new blocks go behind the old ones, and their labels into `Label2Idx`.
unfoldable pub append_blocks : List Block → Function → Function
append_blocks [] f = f
append_blocks (b ∷ bs) f = append_blocks bs (record f {
  blocks = f.blocks ++ b ∷ [];
  label2idx =
      set (grow (suc b.label_idx) (negsuc 0) f.label2idx) b.label_idx (pos (length f.blocks));
})

-- `perPred`: an ordered map from a predecessor to its transfers.
unfoldable pub add_transfer :
    ℕ → ℤ × Operand → List (ℕ × List (ℤ × Operand)) → List (ℕ × List (ℤ × Operand))
add_transfer l t [] = (l, t ∷ []) ∷ []
add_transfer l t ((k, ts) ∷ m) =
    if k == l
    then (k, ts ++ t ∷ []) ∷ m
    else if ltb l k
    then (l, t ∷ []) ∷ (k, ts) ∷ m
    else (k, ts) ∷ add_transfer l t m

-- The operands of a phi are a value and a label, in turn.
unfoldable pub phi_transfers :
    List (ℕ × ℕ × ℕ)
    → ℕ
    → ℤ
    → List Operand
    → List (ℕ × List (ℤ × Operand))
    → Option (List (ℕ × List (ℤ × Operand)))
phi_transfers remap b dest [] m = some m
phi_transfers remap b dest (src ∷ label p ∷ ops) m =
    let from : ℕ = elim (find_edge p b remap) [ some l ↦ l | none ↦ p ] in
    phi_transfers remap b dest ops (add_transfer from (dest, src) m)
phi_transfers remap b dest _ m = none

unfoldable pub block_transfers :
    List (ℕ × ℕ × ℕ)
    → ℕ
    → List Instr
    → List (ℕ × List (ℤ × Operand))
    → Option (List (ℕ × List (ℤ × Operand)))
block_transfers remap b [] m = some m
block_transfers remap b (phi ∷ phis) m = do
  m' ← (if phi.op == op_code "phi" then phi_transfers remap b phi.dest phi.operands m else some m)
  block_transfers remap b phis m'

abbrev pub move : ℤ → Operand → Instr
move dest src = record { op = op_code "mov"; dest = dest; operands = src ∷ [] }

-- Fresh temporaries take the sources, and then the destinations take the temporaries.
unfoldable pub copies : List (ℤ × Operand) → Function → Option (Function × List Instr × List Instr)
copies [] f = some (f, [], [])
copies ((dest, src) ∷ pairs) f = do
  let t = pos f.next_tmp_idx
  let f' : Function = record f { next_tmp_idx = f.next_tmp_idx + 1 }
  f'' ← set_type f' t (get_tmp_type f' dest)
  (g, pre, post) ← copies pairs f''
  some (g, move t src ∷ pre, move dest (tmp t) ∷ post)

-- The insertion before the terminator.
abbrev pub insert_before_last : List Instr → List Instr → Option (List Instr)
insert_before_last new [] = none
insert_before_last new (x ∷ []) = some (new ++ x ∷ [])
insert_before_last new (x ∷ y ∷ xs) = do rest ← insert_before_last new (y ∷ xs); some (x ∷ rest)

unfoldable pub lower_transfers : List (ℕ × List (ℤ × Operand)) → Function → Option Function
lower_transfers [] f = some f
lower_transfers ((l, pairs) ∷ m) f = do
  (g, pre, post) ← copies pairs f
  i ← index_of g.label2idx l
  p ← get_elem? g.blocks i
  instrs ← insert_before_last (pre ++ post) p.instrs
  lower_transfers m (record g { blocks = set g.blocks i (record p { instrs = instrs }) })

-- The loop over the blocks, the new ones too: `n` are left from `bi` on.
unfoldable pub lower_blocks : List (ℕ × ℕ × ℕ) → ℕ → ℕ → Function → Option Function
lower_blocks remap bi zero f = some f
lower_blocks remap bi (suc n) f = do
  b ← get_elem? f.blocks bi
  m ← block_transfers remap b.label_idx b.phis []
  g ← lower_transfers m f
  b' ← get_elem? g.blocks bi
  lower_blocks remap (bi + 1) n (record g { blocks = set g.blocks bi (record b' { phis = [] }) })

unfoldable pub de_ssa : Function → Option Function
unfolding split_blocks split_preds split_edge append_blocks lower_blocks lower_transfers copies
    block_transfers phi_transfers add_transfer set_type get_tmp_type
de_ssa f = do
  s ← split_blocks 0 (length f.blocks) (record { func = f; new_blocks = []; remap = [] })
  let g = append_blocks s.new_blocks s.func
  lower_blocks s.remap 0 (length g.blocks) g
