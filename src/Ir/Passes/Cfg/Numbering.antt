-- ===== src/Ir/Passes/Cfg/Numbering.antt =====
-- The first loops of `BuildCfg`, qumir/ir/passes/analysis/cfg.cpp.
use qumir.Prelude.{
  ℕ, zero, suc, ◌+◌, ◌<◌, ℤ, pos, some, List, [], ◌∷◌, Eq-nat, ltb, ltb→lt, ◌≡◌, ◌≢◌, refl, ap, ◌∙◌,
  arith, get_elem?, get_elem?-set_self, get_elem?-set_ne, set, length, length-set, Option-cases,
  Bool-cases, inl, inr,
}
use qumir.Ir.Instr.{Block, resize, index_of, last_instr}
use qumir.Ir.Passes.Cfg.{number_labels, successors, set_successors}

-- The numbering of the labels.
pub number_length :
    (bs : List Block) (idx : ℕ) (l2i : List ℤ)
    → ((i : ℕ) (b : Block) → get_elem? bs i ≡ some b → b.label_idx < length l2i)
    → (r : List ℤ) × (number_labels idx bs l2i ≡ some r)
unfolding number_labels
number_length [] idx l2i h = (l2i, refl)
number_length (b ∷ bs) idx l2i h =
    let lt = h 0 b refl in
    let l2i' = set l2i b.label_idx (pos idx) in
    let (r, p) = number_length bs (idx + 1) l2i' (λ i c q. rw length-set (h (suc i) c q)) in
    (r, ground arith)

number_keep :
    (bs : List Block) (idx l : ℕ) (l2i r : List ℤ)
    → ((i : ℕ) (b : Block) → get_elem? bs i ≡ some b → b.label_idx ≢ l)
    → number_labels idx bs l2i ≡ some r
    → get_elem? r l ≡ get_elem? l2i l
unfolding number_labels
number_keep [] idx l l2i r h e = ground arith
number_keep (b ∷ bs) idx l l2i r h e = elim (Bool-cases (ltb b.label_idx (length l2i))) [
  | inl q ↦
      number_keep bs (idx + 1) l (set l2i b.label_idx (pos idx)) r (λ i c w. h (suc i) c w)
        (rw q at e)
      ∙ get_elem?-set_ne l2i b.label_idx l (pos idx) (h 0 b refl)
  | inr q ↦ absurd (ground arith)
]

abbrev IsDistinct : List Block → Type 0
IsDistinct bs =
    (i j : ℕ) (b c : Block)
    → get_elem? bs i ≡ some b
    → get_elem? bs j ≡ some c
    → b.label_idx ≡ c.label_idx
    → i ≡ j

number_step :
    (c : Block) (bs : List Block) (idx : ℕ) (l2i r : List ℤ)
    → number_labels idx (c ∷ bs) l2i ≡ some r
    → (c.label_idx < length l2i)
      × (number_labels (idx + 1) bs (set l2i c.label_idx (pos idx)) ≡ some r)
unfolding number_labels
number_step c bs idx l2i r e = elim (Bool-cases (ltb c.label_idx (length l2i))) [
  | inl q ↦ (ltb→lt c.label_idx (length l2i) q, rw q at e)
  | inr q ↦ absurd (ground arith)
]

pub number_index :
    (bs : List Block) (idx : ℕ) (l2i r : List ℤ) (i : ℕ) (b : Block)
    → IsDistinct bs
    → number_labels idx bs l2i ≡ some r
    → get_elem? bs i ≡ some b
    → get_elem? r b.label_idx ≡ some (pos (idx + i))
number_index [] idx l2i r i b d e h = absurd (ground arith)
number_index (c ∷ bs) idx l2i r zero b d e h =
    let (lt, e') = number_step c bs idx l2i r e in
    let cb : c ≡ b = ground arith in
    let alone : (j : ℕ) (x : Block) → get_elem? bs j ≡ some x → x.label_idx ≢ c.label_idx =
      λ j x w same. absurd (omega (arith, d (suc j) 0 x c w refl same)) in
    let kept = number_keep bs (idx + 1) c.label_idx (set l2i c.label_idx (pos idx)) r alone e' in
    let z : idx + 0 ≡ idx = omega arith in
    rw (← cb, z) (kept ∙ get_elem?-set_self l2i c.label_idx (pos idx) lt)
number_index (c ∷ bs) idx l2i r (suc i) b d e h =
    let e' = (number_step c bs idx l2i r e).1 in
    let d' : IsDistinct bs = λ j k x y p q w. suc_injective (d (suc j) (suc k) x y p q w) in
    let z : idx + suc i ≡ idx + 1 + i = omega arith in
    rw z (number_index bs (idx + 1) (set l2i c.label_idx (pos idx)) r i b d' e' h)
  where
    suc_injective : {a b : ℕ} → suc a ≡ suc b → a ≡ b
    suc_injective p = omega arith

pub length-resize : (n : ℕ) (d : ℤ) (xs : List ℤ) → length (resize n d xs) ≡ n
length-resize zero d xs = refl
length-resize (suc n) d [] = ap suc (length-resize n d [])
length-resize (suc n) d (x ∷ xs) = ap suc (length-resize n d xs)

set_successors_step :
    (b : Block) (bs cs : List Block)
    → set_successors (b ∷ bs) ≡ some cs
    → (succ : List ℕ) × (rest : List Block) × (cs ≡ record b { succ = succ; preds = [] } ∷ rest)
      × (set_successors bs ≡ some rest)
unfolding set_successors
set_successors_step b bs cs e = elim (Option-cases (last_instr b.instrs)) [
  | inl p ↦ absurd (ground arith)
  | inr (i, p) ↦ elim (Option-cases (successors i)) [
    | inl q ↦ absurd (ground arith)
    | inr (succ, q) ↦ elim (Option-cases (set_successors bs)) [
      | inl w ↦ absurd (ground arith)
      | inr (rest, w) ↦ (succ, rest, ground arith, w)
    ]
  ]
]

-- `set_successors` changes neither labels nor places, and leaves no predecessors.
pub set_successors_lem :
    (bs cs : List Block) (j : ℕ) (c : Block)
    → set_successors bs ≡ some cs
    → get_elem? cs j ≡ some c
    → (b : Block) × (get_elem? bs j ≡ some b) × (b.label_idx ≡ c.label_idx) × (c.preds ≡ [])
set_successors_lem [] cs j c e h = absurd (unfold set_successors in ground arith)
set_successors_lem (b ∷ bs) cs zero c e h =
    let (succ, rest, p, q) = set_successors_step b bs cs e in
    let h' : some (record b { succ = succ; preds = [] }) ≡ some c = rw p at h in
    (b, refl, ground arith, ground arith)
set_successors_lem (b ∷ bs) cs (suc j) c e h =
    let (succ, rest, p, q) = set_successors_step b bs cs e in
    set_successors_lem bs rest j c q (rw p at h)

length-set_successors : (bs cs : List Block) → set_successors bs ≡ some cs → length cs ≡ length bs
length-set_successors [] cs e = unfold set_successors in ground arith
length-set_successors (b ∷ bs) cs e =
    let (succ, rest, p, q) = set_successors_step b bs cs e in
    ground (arith, length-set_successors bs rest q)

pub index_of_lem : (r : List ℤ) (l i : ℕ) → get_elem? r l ≡ some (pos i) → index_of r l ≡ some i
index_of_lem r l i e = rw (e, index_of) refl
