-- ===== src/Ir/Passes/Cfg/Preds.antt =====
-- `Pred` after `BuildCfg`, qumir/ir/passes/analysis/cfg.cpp.
use qumir.Ir.Passes.Cfg.Numbering.{
  number_length, number_index, length-resize, set_successors_lem, index_of_lem,
}
use qumir.Ir.Passes.Cfg.Edges.{sources, IsLabelled, IsIndex, HasTargets, add_preds_lem}
use qumir.Prelude.{
  ℕ, ◌+◌, pos, true, false, some, List, ◌++◌, Eq-nat, ◌≡◌, refl, ap, ◌∙◌, arith, get_elem?, length,
}
use qumir.Ir.Instr.{Block, Function, resize}
use qumir.Ir.Passes.Cfg.{set_successors, edges, build_cfg}

-- Where every block ends in a terminator, the labels are different numbers below the number of blocks
-- and every edge ends at a block, the control flow graph is built, and in it the predecessors of each
-- block are the blocks with an edge to it, once for each edge and in the order of the blocks.
pub build_cfg_preds :
    (f : Function) (linked : List Block) (j : ℕ) (b : Block)
    → f.cfg_built ≡ false
    → set_successors f.blocks ≡ some linked
    → IsLabelled f.blocks
    → HasTargets (edges linked) linked
    → get_elem? linked j ≡ some b
    → (g : Function) × (build_cfg f ≡ some g)
      × (get_elem? g.blocks j ≡ some (record b { preds = sources b.label_idx (edges linked) }))
unfolding build_cfg
build_cfg_preds f linked j c fresh succs lab targets h =
    let n = length f.blocks in
    let l2i = resize n (pos 0) f.label2idx in
    let len = length-resize n (pos 0) f.label2idx in
    let (r, p) = number_length f.blocks 0 l2i (λ i b h. rw len (lab.bound i b h)) in
    let index : IsIndex r linked = λ i c h.
      let (b, at, same, empty) = set_successors_lem f.blocks linked i c succs h in
      let z : 0 + i ≡ i = omega arith in
      rw (← same) (
        index_of_lem r b.label_idx i
          (number_index f.blocks 0 l2i r i b lab.distinct p at ∙ ap some (ap pos z))) in
    let (cs, q, spec) = add_preds_lem r (edges linked) linked index targets in
    (
      record f { cfg_built = true; label2idx = r; blocks = cs },
      rw (fresh, p, succs, q) refl,
      spec j c h
          ∙ ap some (
              ap (λ ps. record c { preds = ps })
                (ap (λ x. x ++ sources c.label_idx (edges linked))
                  (set_successors_lem f.blocks linked j c succs h).3)),
    )
