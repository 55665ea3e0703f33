-- ===== src/Ir/Passes/DeSsa/Copies.antt =====
-- The copies of `DeSSA`, qumir/ir/passes/transforms/de_ssa.cpp, run on registers.
use qumir.Prelude.{
  ℕ, suc, ◌+◌, ◌<◌, ◌≤◌, ℤ, pos, negsuc, some, List, [], ◌∷◌, ◌++◌, ◌==◌, Eq-nat, Eq-int, ◌≡◌, ◌≢◌,
  refl, sym, ap, ◌∙◌, arith, set, int_eq_iff, All, if◌then◌else◌, Bool-cases, inl, inr,
}
use qumir.Ir.Instr.{
  Operand, tmp, slot, local, imm, label, Instr, Function, set_type, get_tmp_type, grow,
}
use qumir.Ir.Passes.DeSsa.{move, copies}

-- A machine whose registers hold values of `V`: how it reads an operand that is no register is given.
module _ {V : Type 0} (read : Operand → V) where
  abbrev pub value : (ℤ → V) → Operand → V
  value regs (tmp i) = regs i
  value regs o = read o

  -- A sequence of `mov` instructions, as the interpreter runs them.
  unfoldable pub run_moves : List Instr → (ℤ → V) → ℤ → V
  run_moves [] regs = regs
  run_moves (i ∷ is) regs = run_moves is (elim i.operands [
    | [] ↦ regs
    | src ∷ _ ↦ λ k. if k == i.dest then value regs src else regs k
  ])

-- A temporary that is in use before the copies are made.
abbrev pub Old : ℕ → ℤ → Type 0
Old next (pos i) = i < next
Old next (negsuc i) = Unit

abbrev pub OldOperand : ℕ → Operand → Type 0
OldOperand next (tmp i) = Old next i
OldOperand next o = Unit

-- The destinations are different registers, and nothing refers to a register not yet made.
abbrev pub IsTransfer : ℕ → List (ℤ × Operand) → Type 0
IsTransfer next [] = Unit
IsTransfer next ((d, src) ∷ ps) =
    Old next d × OldOperand next src × All (λ p. p.0 ≢ d) ps × IsTransfer next ps

-- The copies with their temporaries numbered from `n` on.
abbrev loads : ℕ → List (ℤ × Operand) → List Instr
loads n [] = []
loads n ((d, src) ∷ ps) = move (pos n) src ∷ loads (n + 1) ps

abbrev stores : ℕ → List (ℤ × Operand) → List Instr
stores n [] = []
stores n ((d, src) ∷ ps) = move d (tmp (pos n)) ∷ stores (n + 1) ps

copies_lem :
    (ps : List (ℤ × Operand)) (f : Function) (n : ℕ)
    → f.next_tmp_idx ≡ n
    → (g : Function) × (copies ps f ≡ some (g, loads n ps, stores n ps))
unfolding copies set_type
copies_lem [] f n e = (f, refl)
copies_lem ((d, src) ∷ ps) f n e =
    let f' : Function = record f { next_tmp_idx = f.next_tmp_idx + 1 } in
    let k = f.next_tmp_idx in
    let f'' : Function = record f' {
      tmp_types = set (grow (suc k) (negsuc 0) f.tmp_types) k (get_tmp_type f' d);
    } in
    let (g, p) = copies_lem ps f'' (k + 1) refl in (g, rw (p, ← e) refl)

Old-suc : (n : ℕ) (k : ℤ) → Old n k → Old (n + 1) k
Old-suc n (pos i) h = omega arith
Old-suc n (negsuc i) h = tt

OldOperand-suc : (n : ℕ) (o : Operand) → OldOperand n o → OldOperand (n + 1) o
OldOperand-suc n (tmp i) h = Old-suc n i h
OldOperand-suc n (slot i) h = tt
OldOperand-suc n (local i) h = tt
OldOperand-suc n (imm i) h = tt
OldOperand-suc n (label i) h = tt

IsTransfer-suc : (n : ℕ) (ps : List (ℤ × Operand)) → IsTransfer n ps → IsTransfer (n + 1) ps
IsTransfer-suc n [] h = tt
IsTransfer-suc n ((d, src) ∷ ps) h =
    (Old-suc n d h.0, OldOperand-suc n src h.1, h.2, IsTransfer-suc n ps h.3)

Old-ne : (n m : ℕ) (k : ℤ) → n ≤ m → Old n k → k ≢ pos m
Old-ne n m (pos i) le h e = ground arith
Old-ne n m (negsuc i) le h e = cc

module _ {V : Type 0} (read : Operand → V) where
  -- What a parallel assignment leaves in a register: the value of the source in the registers before
  -- it, or what was there.
  abbrev pub assigned : List (ℤ × Operand) → (ℤ → V) → (ℤ → V) → ℤ → V
  assigned [] regs base k = base k
  assigned ((d, src) ∷ ps) regs base k =
      if k == d then value read regs src else assigned ps regs base k

  abbrev put : (ℤ → V) → ℤ → V → ℤ → V
  put regs d v k = if k == d then v else regs k

  put_ne : (regs : ℤ → V) (d : ℤ) (v : V) (k : ℤ) → k ≢ d → put regs d v k ≡ regs k
  put_ne regs d v k ne = ground (arith, int_eq_iff k d)

  put_self : (regs : ℤ → V) (d : ℤ) (v : V) → put regs d v d ≡ v
  put_self regs d v = ground (arith, int_eq_iff d d)

  run_moves-append :
      (a b : List Instr) (regs : ℤ → V)
      → run_moves read (a ++ b) regs ≡ run_moves read b (run_moves read a regs)
  unfolding run_moves
  run_moves-append [] b regs = refl
  run_moves-append (i ∷ a) b regs = run_moves-append a b _

  value_put :
      (n : ℕ) (regs : ℤ → V) (v : V) (o : Operand)
      → OldOperand n o
      → value read (put regs (pos n) v) o ≡ value read regs o
  value_put n regs v (tmp i) h = put_ne regs (pos n) v i (Old-ne n n i (omega arith) h)
  value_put n regs v (slot i) h = refl
  value_put n regs v (local i) h = refl
  value_put n regs v (imm i) h = refl
  value_put n regs v (label i) h = refl

  run_loads-Old :
      (n : ℕ) (ps : List (ℤ × Operand)) (regs : ℤ → V) (k : ℤ)
      → Old n k
      → run_moves read (loads n ps) regs k ≡ regs k
  unfolding run_moves
  run_loads-Old n [] regs k h = refl
  run_loads-Old n ((d, src) ∷ ps) regs k h =
      run_loads-Old (n + 1) ps (put regs (pos n) (value read regs src)) k (Old-suc n k h)
      ∙ put_ne regs (pos n) (value read regs src) k (Old-ne n n k (omega arith) h)

  -- The temporaries from `n` on hold the values of the sources.
  abbrev Loaded : ℕ → List (ℤ × Operand) → (ℤ → V) → (ℤ → V) → Type 0
  Loaded n [] now regs = Unit
  Loaded n ((d, src) ∷ ps) now regs =
      (now (pos n) ≡ value read regs src) × Loaded (n + 1) ps now regs

  Loaded-put :
      (m n : ℕ) (ps : List (ℤ × Operand)) (now regs : ℤ → V) (v : V)
      → IsTransfer m ps
      → Loaded n ps now (put regs (pos m) v)
      → Loaded n ps now regs
  Loaded-put m n [] now regs v t h = tt
  Loaded-put m n ((d, src) ∷ ps) now regs v t h =
      (h.0 ∙ value_put m regs v src t.1, Loaded-put m (n + 1) ps now regs v t.3 h.1)

  run_loads :
      (n : ℕ) (ps : List (ℤ × Operand)) (regs : ℤ → V)
      → IsTransfer n ps
      → Loaded n ps (run_moves read (loads n ps) regs) regs
  unfolding run_moves
  run_loads n [] regs t = tt
  run_loads n ((d, src) ∷ ps) regs t =
      let v = value read regs src in
      let regs' = put regs (pos n) v in
      (
        run_loads-Old (n + 1) ps regs' (pos n) (omega arith) ∙ put_self regs (pos n) v,
        Loaded-put n (n + 1) ps (run_moves read (loads (n + 1) ps) regs') regs v t.3
            (run_loads (n + 1) ps regs' (IsTransfer-suc n ps t.3)),
      )

  Loaded-now :
      (m n : ℕ) (ps : List (ℤ × Operand)) (now regs : ℤ → V) (d : ℤ) (v : V)
      → Old m d
      → m ≤ n
      → Loaded n ps now regs
      → Loaded n ps (put now d v) regs
  Loaded-now m n [] now regs d v o le h = tt
  Loaded-now m n ((e, src) ∷ ps) now regs d v o le h = (
    put_ne now d v (pos n) (λ q. Old-ne m n d le o (sym q)) ∙ h.0,
    Loaded-now m (n + 1) ps now regs d v o (omega arith) h.1,
  )

  assigned_base :
      (ps : List (ℤ × Operand)) (regs a b : ℤ → V) (k : ℤ)
      → a k ≡ b k
      → assigned ps regs a k ≡ assigned ps regs b k
  assigned_base [] regs a b k h = h
  assigned_base ((d, src) ∷ ps) regs a b k h = ground (arith, assigned_base ps regs a b k h)

  assigned_miss :
      (ps : List (ℤ × Operand)) (regs base : ℤ → V) (k : ℤ)
      → All (λ p. p.0 ≢ k) ps
      → assigned ps regs base k ≡ base k
  assigned_miss [] regs base k h = refl
  assigned_miss ((d, src) ∷ ps) regs base k h =
      ground (arith, int_eq_iff k d, assigned_miss ps regs base k h.1)

  run_stores :
      (m n : ℕ) (ps : List (ℤ × Operand)) (now regs : ℤ → V) (k : ℤ)
      → IsTransfer m ps
      → m ≤ n
      → Loaded n ps now regs
      → run_moves read (stores n ps) now k ≡ assigned ps regs now k
  unfolding run_moves
  run_stores m n [] now regs k t le h = refl
  run_stores m n ((d, src) ∷ ps) now regs k t le h =
      let now' = put now d (now (pos n)) in
      let ih =
        run_stores m (n + 1) ps now' regs k t.3 (omega arith)
          (Loaded-now m (n + 1) ps now regs d (now (pos n)) t.0 (omega arith) h.1) in
      elim (Bool-cases (k == d)) [
        | inl e ↦
            let kd : k ≡ d = (int_eq_iff k d).0 e in
            ih
            ∙ rw (kd) (
                assigned_miss ps regs now' d t.2
                ∙ put_self now d (now (pos n))
                ∙ h.0
                ∙ ground (arith, int_eq_iff d d))
        | inr e ↦ ih ∙ rw e (assigned_base ps regs now' now k (ground arith))
      ]

-- The copies are made, and running them leaves in every register that was in use what the parallel
-- assignment of the pairs leaves: each destination holds the value that its source had before any of
-- the copies, and every other register is as it was. The destinations are different, and the pairs
-- name no register that is yet to be made.
pub copies_parallel :
    {V : Type 0} (read : Operand → V) (f : Function) (ps : List (ℤ × Operand)) (regs : ℤ → V)
    (k : ℤ)
    → IsTransfer f.next_tmp_idx ps
    → Old f.next_tmp_idx k
    → (g : Function) × (pre : List Instr) × (post : List Instr) × (copies ps f
        ≡ some (g, pre, post))
      × (run_moves read (pre ++ post) regs k ≡ assigned read ps regs regs k)
copies_parallel {V} read f ps regs k t o =
    let n = f.next_tmp_idx in
    let (g, e) = copies_lem ps f n refl in
    let mid = run_moves read (loads n ps) regs in
    (
      g,
      loads n ps,
      stores n ps,
      e,
      ap (λ (r : ℤ → V). r k) (run_moves-append read (loads n ps) (stores n ps) regs)
          ∙ run_stores read n n ps mid regs k t (omega arith) (run_loads read n ps regs t)
          ∙ assigned_base read ps regs mid regs k (run_loads-Old read n ps regs k o),
    )
