-- ===== src/Ir/Passes/Cfg/Edges.antt =====
-- The last loop of `BuildCfg`, qumir/ir/passes/analysis/cfg.cpp, edge by edge.
use native.Mathlib.Decide.{ℕ_discrete}
use mathlib.Core.List.{append-nil, append_assoc}
use qumir.Prelude.{
  ℕ, ◌<◌, ℤ, true, false, some, List, [], ◌∷◌, ◌++◌, ◌==◌, Eq-nat, nat_eq_iff, ◌≡◌, ◌≢◌, refl, sym,
  ap, subst, ◌∙◌, arith, get_elem?, get_elem?-lt, get_elem?-set_self, get_elem?-set_ne, set, length,
  All, if◌then◌else◌,
}
use qumir.Ir.Instr.{Block, index_of}
use qumir.Ir.Passes.Cfg.{add_preds}

-- The blocks that have an edge to `l`, once for each edge, in the order of the blocks.
abbrev pub sources : ℕ → List (ℕ × ℕ) → List ℕ
sources l [] = []
sources l ((from, to) ∷ es) = if to == l then from ∷ sources l es else sources l es

-- The labels of a function's blocks are different numbers below the number of blocks.
pub record IsLabelled (bs : List Block) : Type 0 where
  pub bound : (i : ℕ) (b : Block) → get_elem? bs i ≡ some b → b.label_idx < length bs
  pub distinct :
      (i j : ℕ) (b c : Block)
      → get_elem? bs i ≡ some b
      → get_elem? bs j ≡ some c
      → b.label_idx ≡ c.label_idx
      → i ≡ j

-- The block with a label stands where `label2idx` says.
abbrev pub IsIndex : List ℤ → List Block → Type 0
IsIndex label2idx bs =
    (i : ℕ) (b : Block) → get_elem? bs i ≡ some b → index_of label2idx b.label_idx ≡ some i

-- Every edge ends at a block.
abbrev pub HasTargets : List (ℕ × ℕ) → List Block → Type 0
HasTargets es bs =
    All (λ e. (i : ℕ) × (b : Block) × (get_elem? bs i ≡ some b) × (b.label_idx ≡ e.1)) es

-- Two lists of blocks with the same labels at the same places.
abbrev SameLabels : List Block → List Block → Type 0
SameLabels bs cs =
    (i : ℕ) (b : Block)
    → get_elem? bs i ≡ some b
    → (c : Block) × (get_elem? cs i ≡ some c) × (c.label_idx ≡ b.label_idx)

module _ (label2idx : List ℤ) where
  set_label :
      (bs : List Block) (i : ℕ) (b b' : Block)
      → get_elem? bs i ≡ some b
      → b'.label_idx ≡ b.label_idx
      → IsIndex label2idx bs
      → IsIndex label2idx (set bs i b')
  set_label bs i b b' at same index j c h = elim (ℕ_discrete i j) [
    | yes e ↦
        let q : get_elem? (set bs i b') j ≡ some b' =
          rw (← e) (get_elem?-set_self bs i b' (get_elem?-lt bs i b at)) in
        let w : b' ≡ c = ground arith in rw (← w, same, ← e) (index i b at)
    | no ne ↦ index j c (sym (get_elem?-set_ne bs i j b' ne) ∙ h)
  ]

  set_targets :
      (es : List (ℕ × ℕ)) (bs : List Block) (i : ℕ) (b b' : Block)
      → get_elem? bs i ≡ some b
      → b'.label_idx ≡ b.label_idx
      → HasTargets es bs
      → HasTargets es (set bs i b')
  set_targets [] bs i b b' at same t = tt
  set_targets (e ∷ es) bs i b b' at same ((j, c, p, q), t) = (
    elim (ℕ_discrete i j) [
      | yes x ↦
          let w : b ≡ c = let p' : get_elem? bs i ≡ some c = rw x p in ground arith in
          (
            i,
            b',
            get_elem?-set_self bs i b' (get_elem?-lt bs i b at),
            same ∙ ap (λ z. z.label_idx) w ∙ q,
          )
      | no ne ↦ (j, c, get_elem?-set_ne bs i j b' ne ∙ p, q)
    ],
    set_targets es bs i b b' at same t,
  )

  -- What `add_preds` leaves in the block at `j`.
  abbrev Gains : List (ℕ × ℕ) → List Block → List Block → Type 0
  Gains es bs cs =
      (j : ℕ) (b : Block)
      → get_elem? bs j ≡ some b
      → get_elem? cs j ≡ some (record b { preds = b.preds ++ sources b.label_idx es })

  same_edge :
      (from to : ℕ) (es : List (ℕ × ℕ)) (bs cs : List Block) (c b : Block) (i j : ℕ)
      → get_elem? bs i ≡ some c
      → get_elem? bs j ≡ some b
      → i ≡ j
      → c.label_idx ≡ to
      → Gains es (set bs i (record c { preds = c.preds ++ from ∷ [] })) cs
      → get_elem? cs j
        ≡ some (record b { preds = b.preds ++ sources b.label_idx ((from, to) ∷ es) })
  same_edge from to es bs cs c b i j at h e lab spec =
      let c' : Block = record c { preds = c.preds ++ from ∷ [] } in
      let cb : c ≡ b = let h' : get_elem? bs i ≡ some b = rw e h in ground arith in
      let hit : (to == c.label_idx) ≡ true = (nat_eq_iff to c.label_idx).1 (sym lab) in
      let got = spec i c' (get_elem?-set_self bs i c' (get_elem?-lt bs i c at)) in
      let here : get_elem? cs i
          ≡ some (record c { preds = c.preds ++ sources c.label_idx ((from, to) ∷ es) }) =
        rw hit (
          got
          ∙ ap some (
              ap (λ p. record c { preds = p })
                (append_assoc c.preds (from ∷ []) (sources c.label_idx es)))) in
      rw (← e) (
        subst
          (λ (z : Block).
            get_elem? cs i
            ≡ some (record z { preds = z.preds ++ sources z.label_idx ((from, to) ∷ es) }))
          cb here)

  other_edge :
      (from to : ℕ) (es : List (ℕ × ℕ)) (bs cs : List Block) (c' b : Block) (i j : ℕ)
      → get_elem? bs j ≡ some b
      → i ≢ j
      → index_of label2idx to ≡ some i
      → IsIndex label2idx bs
      → Gains es (set bs i c') cs
      → get_elem? cs j
        ≡ some (record b { preds = b.preds ++ sources b.label_idx ((from, to) ∷ es) })
  other_edge from to es bs cs c' b i j h ne idx index spec =
      let miss : to ≢ b.label_idx =
        λ w. let q : index_of label2idx to ≡ some j = rw w (index j b h) in ne (ground arith) in
      let no_hit : (to == b.label_idx) ≡ false = ground arith in
      rw no_hit (spec j b (get_elem?-set_ne bs i j c' ne ∙ h))

  -- The loop over the edges succeeds, and a block gets the sources of its edges behind what it had.
  pub add_preds_lem :
      (es : List (ℕ × ℕ)) (bs : List Block)
      → IsIndex label2idx bs
      → HasTargets es bs
      → (cs : List Block) × (add_preds label2idx es bs ≡ some cs)
        × ((j : ℕ) (b : Block)
            → get_elem? bs j ≡ some b
            → get_elem? cs j ≡ some (record b { preds = b.preds ++ sources b.label_idx es }))
  unfolding add_preds
  add_preds_lem [] bs index t =
      (bs, refl, λ j b h. h ∙ ap some (ap (λ p. record b { preds = p }) (sym (append-nil b.preds))))
  add_preds_lem ((from, to) ∷ es) bs index ((i, c, at, lab), t) =
      let c' : Block = record c { preds = c.preds ++ from ∷ [] } in
      let bs' = set bs i c' in
      let (cs, p, spec) =
        add_preds_lem es bs' (set_label bs i c c' at refl index)
          (set_targets es bs i c c' at refl t) in
      let idx : index_of label2idx to ≡ some i = rw (← lab) (index i c at) in
      (
        cs,
        rw (idx, at) p,
        λ j b h. elim (ℕ_discrete i j) [
          | yes e ↦ same_edge from to es bs cs c b i j at h e lab spec
          | no ne ↦ other_edge from to es bs cs c' b i j h ne idx index spec
        ],
      )
