-- ===== src/Ir/Passes/Cfg/Rpo.antt =====
-- The order of `ComputeRPO`, qumir/ir/passes/analysis/cfg.cpp.
use mathlib.Core.List.{append-nil}
use qumir.Prelude.{
  ℕ, zero, suc, ◌<◌, ◌≤◌, true, some, List, [], ◌∷◌, ◌≡◌, refl, sym, subst, ◌∙◌, arith, length,
  Eq-nat,
}
use qumir.Ir.Instr.{Function}
use qumir.Ir.Passes.Cfg.{contains, Visit, compute_rpo}
use qumir.Ir.Passes.Cfg.Search.{
  Distinct, unseen, unseen_cons, successors_of, IsLinked, visit_all_lem, dfs_lem, dfs_step,
  Grown-label,
}

unseen_bound : (n : ℕ) → unseen n [] ≤ n
unseen_bound zero = omega arith
unseen_bound (suc n) = omega (arith, unseen_bound n)

abbrev start : Visit
start = record { seen = []; rpo = [] }

-- The labels of the search from the entry: what is found, and that it is the result.
record Found (f : Function) : Type 0 where
  rest : List ℕ
  result : compute_rpo f ≡ some (0 ∷ rest)
  distinct : Distinct (0 ∷ rest)
  closed :
      (x y : ℕ) (s : List ℕ)
      → contains x (0 ∷ rest) ≡ true
      → successors_of f.label2idx f.blocks x ≡ some s
      → contains y s ≡ true
      → contains y (0 ∷ rest) ≡ true

compute_rpo-Found :
    (f : Function) → 0 < length f.blocks → IsLinked f.label2idx f.blocks (length f.blocks) → Found f
unfolding compute_rpo
compute_rpo-Found f some_block linked =
    let n = length f.blocks in
    let (s, e, below) = linked 0 some_block in
    let enough : unseen n (0 ∷ []) < n =
      omega (arith, unseen_cons n 0 [] some_block refl, unseen_bound n) in
    let (w, q, g, all) =
      visit_all_lem f.label2idx f.blocks n n s (record start { seen = 0 ∷ [] })
        (dfs_lem f.label2idx f.blocks n n linked) below enough in
    let h = Grown-label f.label2idx f.blocks 0 s start w refl e all g in
    let same : h.new ≡ 0 ∷ w.rpo = sym (append-nil h.new) ∙ sym h.order in
    record {
      rest = w.rpo;
      result = rw (dfs_step f.label2idx f.blocks n 0 s start w e q) refl;
      distinct = subst Distinct same h.distinct;
      closed = λ x y s' c e' m.
          let seen = h.closed x y s' (subst (λ z. contains x z ≡ true) (sym same) c) e' m in
          let back : contains y h.new ≡ true = ground (arith, h.seen y, seen) in
          subst (λ z. contains y z ≡ true) same back;
    }

-- Where each label below the number of blocks has a block whose successors are such labels, the search
-- from the first block ends: the order starts with the entry and has no label twice.
pub compute_rpo_lem :
    (f : Function)
    → 0 < length f.blocks
    → IsLinked f.label2idx f.blocks (length f.blocks)
    → (rest : List ℕ) × (compute_rpo f ≡ some (0 ∷ rest)) × Distinct (0 ∷ rest)
compute_rpo_lem f some_block linked =
    let r = compute_rpo-Found f some_block linked in (r.rest, r.result, r.distinct)

-- Under the same conditions the order holds every successor of each of its blocks, so that it has all
-- blocks that can be reached from the entry.
pub compute_rpo_closed :
    (f : Function) (rpo s : List ℕ) (x y : ℕ)
    → 0 < length f.blocks
    → IsLinked f.label2idx f.blocks (length f.blocks)
    → compute_rpo f ≡ some rpo
    → contains x rpo ≡ true
    → successors_of f.label2idx f.blocks x ≡ some s
    → contains y s ≡ true
    → contains y rpo ≡ true
compute_rpo_closed f rpo s x y some_block linked h c e m =
    let r = compute_rpo-Found f some_block linked in
    let same : 0 ∷ r.rest ≡ rpo = cc (r.result, h) in
    subst (λ z. contains y z ≡ true) same
      (r.closed x y s (subst (λ z. contains x z ≡ true) (sym same) c) e m)
