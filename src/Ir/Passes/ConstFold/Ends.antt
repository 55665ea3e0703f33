-- ===== src/Ir/Passes/ConstFold/Ends.antt =====
-- The rounds of `ConstFold`, qumir/ir/passes/transforms/const_fold.cpp, and the live instructions.
use qumir.Prelude.{
  ℕ, zero, suc, ◌+◌, ◌≤◌, ◌<◌, ℤ, Bool, true, false, ◌||◌, Option, some, List, [], ◌∷◌, ◌≡◌, ◌≢◌,
  refl, arith, ap, ◌==◌, Eq-nat, get_elem?, if◌then◌else◌, ◌>>=◌, Option-cases, Bool-cases, inl,
  inr, sym, ◌∙◌, subst,
}
use qumir.Ir.Instr.{Module, Operand, Instr, Block, Function, op_code, cleared}
use qumir.Ir.Alu.{Doubles}
use qumir.Ir.Passes.ConstFold.{Fold, keep, fault, replace}
use qumir.Ir.Passes.ConstFold.Pass.{
  Outcome, done, undefined, out_of_fuel, Place, FoldState, calc_users, change_at, change_instr,
  change_phi, replace_in, at_places, places_of, replace_tmp_with_op, fold_instr, carry_out, Step,
  instr_at, is_empty, visit, note, round, places, rounds, live_instrs, live, const_fold, and_then,
  while_changed, blocks_of,
}

-- The operations of the instructions, which a replacement of operands keeps.
abbrev ops : List Instr → List ℕ
ops [] = []
ops (i ∷ is) = i.op ∷ ops is

abbrev shape : List Block → List (List ℕ)
shape [] = []
shape (b ∷ bs) = ops b.instrs ∷ shape bs

abbrev live_ops : List ℕ → ℕ
live_ops [] = 0
live_ops (o ∷ os) = (if o == op_code "nop" then 0 else 1) + live_ops os

abbrev live_shape : List (List ℕ) → ℕ
live_shape [] = 0
live_shape (o ∷ os) = live_ops o + live_shape os

live_instrs-ops : (is : List Instr) → live_instrs is ≡ live_ops (ops is)
live_instrs-ops [] = refl
live_instrs-ops (i ∷ is) = omega (arith, live_instrs-ops is)

live-shape : (bs : List Block) → live bs ≡ live_shape (shape bs)
live-shape [] = refl
live-shape (b ∷ bs) = omega (arith, live_instrs-ops b.instrs, live-shape bs)

ops-change_at :
    (t : ℤ) (new : Operand) (i : ℕ) (is : List Instr)
    → ops (change_at (replace_in t new) i is) ≡ ops is
ops-change_at t new i [] = refl
ops-change_at t new zero (x ∷ is) = refl
ops-change_at t new (suc i) (x ∷ is) = ap (λ os. x.op ∷ os) (ops-change_at t new i is)

shape-change_instr :
    (t : ℤ) (new : Operand) (p : Place) (bs : List Block)
    → shape (change_instr (replace_in t new) p bs) ≡ shape bs
shape-change_instr t new (b, i) [] = refl
shape-change_instr t new (zero, i) (x ∷ bs) =
    ap (λ os. os ∷ shape bs) (ops-change_at t new i x.instrs)
shape-change_instr t new (suc b, i) (x ∷ bs) =
    ap (λ os. ops x.instrs ∷ os) (shape-change_instr t new (b, i) bs)

shape-change_phi :
    (t : ℤ) (new : Operand) (p : Place) (bs : List Block)
    → shape (change_phi (replace_in t new) p bs) ≡ shape bs
shape-change_phi t new (b, i) [] = refl
shape-change_phi t new (zero, i) (x ∷ bs) = refl
shape-change_phi t new (suc b, i) (x ∷ bs) =
    ap (λ os. ops x.instrs ∷ os) (shape-change_phi t new (b, i) bs)

shape-at_places :
    (change : Place → List Block → List Block)
    → ((p : Place) (bs : List Block) → shape (change p bs) ≡ shape bs)
    → (ps : List Place) (bs : List Block) → shape (at_places change ps bs) ≡ shape bs
shape-at_places change h [] bs = refl
shape-at_places change h (p ∷ ps) bs = shape-at_places change h ps (change p bs) ∙ h p bs

shape-replace_tmp_with_op :
    (t : ℤ) (new : Operand) (s : FoldState)
    → shape (replace_tmp_with_op t new s).blocks ≡ shape s.blocks
unfolding replace_tmp_with_op
shape-replace_tmp_with_op t new s =
    shape-at_places (change_phi (replace_in t new)) (shape-change_phi t new)
      (places_of t s.phi_users)
      (at_places (change_instr (replace_in t new)) (places_of t s.users) s.blocks)
    ∙ shape-at_places (change_instr (replace_in t new)) (shape-change_instr t new)
        (places_of t s.users) s.blocks

-- The operation at a place.
abbrev op_at : Place → List (List ℕ) → Option ℕ
op_at (b, i) os = do x ← get_elem? os b; get_elem? x i

get_elem?-ops :
    (is : List Instr) (k : ℕ) (i : Instr)
    → get_elem? is k ≡ some i
    → get_elem? (ops is) k ≡ some i.op
get_elem?-ops [] k i h = absurd (ground arith)
get_elem?-ops (x ∷ is) zero i h = cc
get_elem?-ops (x ∷ is) (suc k) i h = get_elem?-ops is k i h

op_at-shape :
    (bs : List Block) (p : Place) (i : Instr)
    → instr_at p bs ≡ some i
    → op_at p (shape bs) ≡ some i.op
op_at-shape [] (b, k) i h = absurd (ground arith)
op_at-shape (x ∷ bs) (zero, k) i h = get_elem?-ops x.instrs k i h
op_at-shape (x ∷ bs) (suc b, k) i h = op_at-shape bs (b, k) i h

live_instrs-change_at :
    (is : List Instr) (k o : ℕ)
    → get_elem? (ops is) k ≡ some o
    → o == op_code "nop" ≡ false
    → suc (live_instrs (change_at (λ _. cleared) k is)) ≡ live_instrs is
unfolding cleared
live_instrs-change_at [] k o h n = absurd (ground arith)
live_instrs-change_at (x ∷ is) zero o h n = ground arith
live_instrs-change_at (x ∷ is) (suc k) o h n = omega (arith, live_instrs-change_at is k o h n)

live-change_instr :
    (bs : List Block) (p : Place) (o : ℕ)
    → op_at p (shape bs) ≡ some o
    → o == op_code "nop" ≡ false
    → suc (live (change_instr (λ _. cleared) p bs)) ≡ live bs
live-change_instr [] (b, k) o h n = absurd (ground arith)
live-change_instr (x ∷ bs) (zero, k) o h n = omega (arith, live_instrs-change_at x.instrs k o h n)
live-change_instr (x ∷ bs) (suc b, k) o h n = omega (arith, live-change_instr bs (b, k) o h n)

-- A step that is done has at most the live instructions of its start, and fewer if it changed
-- something; none needs fuel.
abbrev Lowers : ℕ → Step → Type 0
Lowers n (done (s, true)) = live s.blocks < n
Lowers n (done (s, false)) = live s.blocks ≤ n
Lowers n undefined = Unit
Lowers n out_of_fuel = ⊥

carry_out-Lowers :
    (p : Place) (i : Instr) (s : FoldState) (r : Fold)
    → instr_at p s.blocks ≡ some i
    → i.op == op_code "nop" ≡ false
    → Lowers (live s.blocks) (carry_out p i s r)
carry_out-Lowers p i s keep h n = omega arith
carry_out-Lowers p i s fault h n = tt
carry_out-Lowers p i s (replace r) h n =
    let s' = replace_tmp_with_op i.dest r s in
    let e : shape s'.blocks ≡ shape s.blocks = shape-replace_tmp_with_op i.dest r s in
    let q : op_at p (shape s'.blocks) ≡ some i.op = rw e (op_at-shape s.blocks p i h) in
    let l : live s'.blocks ≡ live s.blocks =
      live-shape s'.blocks ∙ ap live_shape e ∙ sym (live-shape s.blocks) in
    omega (arith, l, live-change_instr s'.blocks p i.op q n)

note-Lowers :
    (n : ℕ) (s : FoldState) (c : Bool) (r : Step)
    → Lowers n (done (s, c))
    → Lowers (live s.blocks) r
    → Lowers n (note c r)
note-Lowers n s true (done (s', true)) h l = omega arith
note-Lowers n s true (done (s', false)) h l = omega arith
note-Lowers n s false (done (s', true)) h l = omega arith
note-Lowers n s false (done (s', false)) h l = omega arith
note-Lowers n s c undefined h l = tt
note-Lowers n s c out_of_fuel h l = l

and_then-Lowers :
    (n : ℕ) (r : Step) (rest : FoldState → Step)
    → Lowers n r
    → ((s : FoldState) → Lowers (live s.blocks) (rest s))
    → Lowers n (and_then r rest)
and_then-Lowers n (done (s, c)) rest l h = note-Lowers n s c (rest s) l (h s)
and_then-Lowers n undefined rest l h = tt
and_then-Lowers n out_of_fuel rest l h = l

while_changed_ends :
    (n fuel : ℕ) (r : Step) (again : FoldState → Outcome FoldState)
    → Lowers n r
    → n < suc fuel
    → ((s : FoldState) → live s.blocks < fuel → again s ≢ out_of_fuel)
    → while_changed r again ≢ out_of_fuel
while_changed_ends n fuel (done (s, true)) again l h ih = ih s (omega arith)
while_changed_ends n fuel (done (s, false)) again l h ih = λ e. cc
while_changed_ends n fuel undefined again l h ih = λ e. cc
while_changed_ends n fuel out_of_fuel again l h ih = absurd l

blocks_of_ends : (r : Outcome FoldState) → r ≢ out_of_fuel → blocks_of r ≢ out_of_fuel
blocks_of_ends (done s) h = λ e. cc
blocks_of_ends undefined h = λ e. cc
blocks_of_ends out_of_fuel h = λ e. h refl

module _ (fl : Doubles) (m : Module) (f : Function) where
  visit-Lowers : (p : Place) (s : FoldState) → Lowers (live s.blocks) (visit fl m f p s)
  unfolding visit
  visit-Lowers p s = elim (Option-cases (instr_at p s.blocks)) [
    | inl e ↦
        let q : visit fl m f p s ≡ done (s, false) = rw (e, visit) refl in
        subst (Lowers (live s.blocks)) (sym q) (omega arith)
    | inr (i, e) ↦ elim (Bool-cases (i.op == op_code "nop" || is_empty i.operands)) [
      | inl n ↦
          let q : visit fl m f p s ≡ done (s, false) = rw (e, n, visit) refl in
          subst (Lowers (live s.blocks)) (sym q) (omega arith)
      | inr n ↦
          let q : visit fl m f p s ≡ carry_out p i s (fold_instr fl m f i) =
            rw (e, n, visit) refl in
          subst (Lowers (live s.blocks)) (sym q)
            (carry_out-Lowers p i s (fold_instr fl m f i) e (ground arith))
    ]
  ]

  round-Lowers : (ps : List Place) (s : FoldState) → Lowers (live s.blocks) (round fl m f ps s)
  unfolding round
  round-Lowers [] s = omega arith
  round-Lowers (p ∷ ps) s =
      and_then-Lowers (live s.blocks) (visit fl m f p s) (λ s'. round fl m f ps s')
        (visit-Lowers p s) (round-Lowers ps)

  rounds_end :
      (ps : List Place) (fuel : ℕ) (s : FoldState)
      → live s.blocks < fuel
      → rounds fl m f ps fuel s ≢ out_of_fuel
  unfolding rounds
  rounds_end ps zero s h = absurd (omega arith)
  rounds_end ps (suc fuel) s h =
      while_changed_ends (live s.blocks) fuel (round fl m f ps s) (λ s'. rounds fl m f ps fuel s')
        (round-Lowers ps s) h (rounds_end ps fuel)

-- The pass never runs out of the fuel that the model gives it: it ends on every function.
pub const_fold_ends : (fl : Doubles) (m : Module) (f : Function) → const_fold fl m f ≢ out_of_fuel
unfolding const_fold calc_users
const_fold_ends fl m f =
    blocks_of_ends (rounds fl m f (places 0 f.blocks) (suc (live f.blocks)) (calc_users f.blocks)) (
      rounds_end fl m f (places 0 f.blocks) (suc (live f.blocks)) (calc_users f.blocks)
        (omega arith))
