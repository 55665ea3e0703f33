-- ===== src/Ir/Passes/DeSsa/Splits.antt =====
-- Which blocks `DeSSA`, qumir/ir/passes/transforms/de_ssa.cpp, puts on which edges: `remap` against the
-- new blocks.
use qumir.Prelude.{
  ℕ, zero, suc, ◌+◌, negsuc, false, ◌&&◌, Option, none, some, List, [], ◌∷◌, ◌++◌, ◌≡◌, refl, sym,
  subst, ap, ◌∙◌, arith, ◌==◌, Eq-nat, nat_eq_iff, ltb, All, All-append, length, get_elem?,
  get_elem?-lt, get_elem?-snoc_last, get_elem?-append_left, Bool-cases, Option-cases, inl, inr, set,
}
use qumir.Ir.Instr.{label, Instr, Block, Function, op_code, index_of}
use qumir.Ir.Passes.DeSsa.{
  Splitting, find_edge, change_last, replace_label, replace_label_operands, split_critical,
  split_edge, split_preds, split_blocks,
}

-- A block that does nothing but jump to `b`, and is reached from `p` alone.
abbrev pub IsBetween : ℕ → ℕ → Block → Type 0
IsBetween p b block = (block.preds ≡ p ∷ []) × (block.succ ≡ b ∷ [])

abbrev pub jump_to : ℕ → List Instr
jump_to b = record { op = op_code "jmp"; dest = negsuc 0; operands = label b ∷ [] } ∷ []

-- The block has no phis and no instruction but a jump.
abbrev pub IsJump : ℕ → Block → Type 0
IsJump b block = (block.phis ≡ []) × (block.instrs ≡ jump_to b)

-- The block that the edge from `p` to `b` comes out of: a new block between them, or `p` itself where
-- there is no such block.
pub data Source (s : Splitting) (p b : ℕ) : ℕ → Type 0 where
  split :
      {l : ℕ} (k : ℕ) (block : Block)
      → get_elem? s.new_blocks k ≡ some block
      → block.label_idx ≡ l
      → IsBetween p b block
      → IsJump b block
      → Source s p b l
  whole : All (λ block. ¬ (IsBetween p b block)) s.new_blocks → Source s p b p

abbrev pub remapped : ℕ → Option ℕ → ℕ
remapped p none = p
remapped p (some l) = l

-- What `remap` has for an edge.
abbrev Found : Splitting → ℕ → ℕ → Option ℕ → Type 0
Found s p b none = All (λ block. ¬ (IsBetween p b block)) s.new_blocks
Found s p b (some l) =
    (k : ℕ) × (block : Block) × (get_elem? s.new_blocks k ≡ some block)
    × (block.label_idx ≡ l)
    × IsBetween p b block
    × IsJump b block

abbrev pub IsRecorded : Splitting → Type 0
IsRecorded s = (p b : ℕ) → Found s p b (find_edge p b s.remap)

Found-Source :
    (s : Splitting) (p b : ℕ) (o : Option ℕ) → Found s p b o → Source s p b (remapped p o)
Found-Source s p b none h = whole h
Found-Source s p b (some l) (k, block, e, q, between, jumps) = split k block e q between jumps

pub IsRecorded-Source :
    (s : Splitting) (p b : ℕ) → IsRecorded s → Source s p b (remapped p (find_edge p b s.remap))
IsRecorded-Source s p b h = Found-Source s p b (find_edge p b s.remap) (h p b)

-- One more block, and its edge in front of the others.
record OneMore (s s' : Splitting) : Type 0 where
  edge_from : ℕ
  edge_to : ℕ
  block : Block
  blocks : s'.new_blocks ≡ s.new_blocks ++ block ∷ []
  edges : s'.remap ≡ (edge_from, edge_to, block.label_idx) ∷ s.remap
  between : IsBetween edge_from edge_to block
  jumps : IsJump edge_to block

some_same {ℓ} : {A : Type ℓ} {a b : A} → some a ≡ some b → a ≡ b
some_same e = cc e

split_critical_lem :
    (bi pi p i : ℕ) (b q : Block) (s s' : Splitting)
    → split_critical bi pi p i b q s ≡ some s'
    → OneMore s s'
unfolding split_critical
split_critical_lem bi pi p i b q s s' h =
    let l = s.func.next_label_idx in
    elim (Option-cases (
      change_last (λ t. record t { operands = replace_label_operands b.label_idx l t.operands })
        q.instrs)) [
          | inl e ↦ absurd (ground (arith, e, h))
          | inr (instrs, e) ↦
              let q' : Block = record q {
                instrs = instrs;
                succ = replace_label b.label_idx l q.succ;
              } in
              elim (Option-cases (get_elem? (set s.func.blocks i q') bi)) [
                | inl e' ↦ absurd (ground (arith, e, e', h))
                | inr (b', e') ↦
                    let made = some_same (rw (e, e') at h) in
                    record {
                      edge_from = p;
                      edge_to = b.label_idx;
                      block = record {
                        label_idx = l;
                        phis = [];
                        instrs = jump_to b.label_idx;
                        succ = b.label_idx ∷ [];
                        preds = p ∷ [];
                      };
                      blocks = sym (ap (λ (x : Splitting). x.new_blocks) made);
                      edges = sym (ap (λ (x : Splitting). x.remap) made);
                      between = (refl, refl);
                      jumps = (refl, refl);
                    }
              ]
        ]

head_same : {x y : ℕ} → x ∷ [] ≡ y ∷ [] → x ≡ y
head_same e = cc e

kept-Found :
    (s s' : Splitting) (m : OneMore s s') (p b : ℕ) (o : Option ℕ)
    → (m.edge_from == p && m.edge_to == b) ≡ false
    → Found s p b o
    → Found s' p b o
kept-Found s s' m p b none other h =
    let last : ¬ (IsBetween p b m.block) = λ (q, r).
      (let from = head_same (sym m.between.0 ∙ q) in
        let to = head_same (sym m.between.1 ∙ r) in
        absurd
          (ground (arith, other, nat_eq_iff m.edge_from p, nat_eq_iff m.edge_to b, from, to))) in
    rw m.blocks (All-append _ s.new_blocks (m.block ∷ []) h (last, tt))
kept-Found s s' m p b (some l) other (k, block, e, q, between, jumps) = (
  k,
  block,
  ap (λ (bs : List Block). get_elem? bs k) m.blocks
      ∙ get_elem?-append_left s.new_blocks (m.block ∷ []) k (get_elem?-lt s.new_blocks k block e)
      ∙ e,
  q,
  between,
  jumps,
)

OneMore-IsRecorded : (s s' : Splitting) → IsRecorded s → OneMore s s' → IsRecorded s'
OneMore-IsRecorded s s' h m p b =
    rw m.edges (elim (Bool-cases (m.edge_from == p && m.edge_to == b)) [
      | inl e ↦
          let from : m.edge_from ≡ p = ground (arith, e, nat_eq_iff m.edge_from p) in
          let to : m.edge_to ≡ b = ground (arith, e, nat_eq_iff m.edge_to b) in
          rw e (
            length s.new_blocks,
            m.block,
            ap (λ (bs : List Block). get_elem? bs (length s.new_blocks)) m.blocks
                ∙ get_elem?-snoc_last s.new_blocks m.block,
            refl,
            rw (← from, ← to) m.between,
            rw (← to) m.jumps,
          )
      | inr e ↦ rw e (kept-Found s s' m p b (find_edge p b s.remap) e (h p b))
    ])

split_edge-IsRecorded :
    (bi pi : ℕ) (s s' : Splitting) → IsRecorded s → split_edge bi pi s ≡ some s' → IsRecorded s'
unfolding split_edge
split_edge-IsRecorded bi pi s s' h e = elim (Option-cases (get_elem? s.func.blocks bi)) [
  | inl q ↦ absurd (ground (arith, q, e))
  | inr (b, q) ↦ elim (Option-cases (get_elem? b.preds pi)) [
    | inl q' ↦ absurd (ground (arith, q, q', e))
    | inr (p, q') ↦ elim (Option-cases (index_of s.func.label2idx p)) [
      | inl w ↦ absurd (ground (arith, q, q', w, e))
      | inr (i, w) ↦ elim (Option-cases (get_elem? s.func.blocks i)) [
        | inl w' ↦ absurd (ground (arith, q, q', w, w', e))
        | inr (block, w') ↦
            elim (Bool-cases (ltb 1 (length block.succ) && ltb 1 (length b.preds))) [
              | inl c ↦
                  OneMore-IsRecorded s s' h
                    (split_critical_lem bi pi p i b block s s' (rw (q, q', w, w', c) at e))
              | inr c ↦ subst IsRecorded (some_same (rw (q, q', w, w', c) at e)) h
            ]
      ]
    ]
  ]
]

split_preds-IsRecorded :
    (bi pi n : ℕ) (s s' : Splitting)
    → IsRecorded s
    → split_preds bi pi n s ≡ some s'
    → IsRecorded s'
unfolding split_preds
split_preds-IsRecorded bi pi zero s s' h e = subst IsRecorded (some_same e) h
split_preds-IsRecorded bi pi (suc n) s s' h e = elim (Option-cases (split_edge bi pi s)) [
  | inl q ↦ absurd (ground (arith, q, e))
  | inr (t, q) ↦
      split_preds-IsRecorded bi (pi + 1) n t s' (split_edge-IsRecorded bi pi s t h q) (rw q at e)
]

split_blocks-IsRecorded :
    (bi n : ℕ) (s s' : Splitting) → IsRecorded s → split_blocks bi n s ≡ some s' → IsRecorded s'
unfolding split_blocks
split_blocks-IsRecorded bi zero s s' h e = subst IsRecorded (some_same e) h
split_blocks-IsRecorded bi (suc n) s s' h e = elim (Option-cases (get_elem? s.func.blocks bi)) [
  | inl q ↦ absurd (ground (arith, q, e))
  | inr (b, q) ↦ elim (Option-cases (split_preds bi 0 (length b.preds) s)) [
    | inl q' ↦ absurd (ground (arith, q, q', e))
    | inr (t, q') ↦
        split_blocks-IsRecorded (bi + 1) n t s'
          (split_preds-IsRecorded bi 0 (length b.preds) s t h q') (rw (q, q') at e)
  ]
]

-- The start of the pass.
abbrev pub unsplit : Function → Splitting
unsplit f = record { func = f; new_blocks = []; remap = [] }

pub split-IsRecorded :
    (f : Function) (s : Splitting)
    → split_blocks 0 (length f.blocks) (unsplit f) ≡ some s
    → IsRecorded s
split-IsRecorded f s e = split_blocks-IsRecorded 0 (length f.blocks) (unsplit f) s (λ p b. tt) e
