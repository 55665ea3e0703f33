-- ===== src/Ir/Passes/Renumber/Steps.antt =====
-- The steps of qumir/ir/passes/transforms/renumber_regs.cpp: what each does to the numbering.
use qumir.Ir.Passes.Renumber.Renamed.{
  renamed, rename_operand, rename_dest, rename_instr, rename_block, InOperand, InDest, InSome,
  InInstr, InBlock, Distinct-insert, IsOneToOne,
}
use qumir.Prelude.{
  ℕ, ◌+◌, ℤ, pos, negsuc, none, some, List, [], ◌∷◌, map, ◌==◌, Eq-nat, Eq-int, int_eq_iff, ◌≡◌,
  refl, ap, ap₂, subst, arith, lookup, insert, lookup-insert, Option-cases, Bool-cases, inl, inr,
}
use qumir.Ir.Instr.{Operand, tmp, Instr, Block, op_code}
use qumir.Ir.Passes.Renumber.{
  Numbering, get_new_tmp_idx, for_each, renumber_operand, renumber_dest, renumber_instr,
  renumber_block,
}

abbrev pub Extends : Numbering → Numbering → Type 0
Extends s s' = (k : ℤ) (n : ℕ) → lookup k s.mapping ≡ some n → lookup k s'.mapping ≡ some n

abbrev pub IsMapped : ℤ → Numbering → Type 0
IsMapped k s = (n : ℕ) × (lookup k s.mapping ≡ some n)

IsMapped-Extends : (k : ℤ) (s s' : Numbering) → Extends s s' → IsMapped k s → IsMapped k s'
IsMapped-Extends k s s' h (n, e) = (n, h k n e)

-- A step that renames by what the numbering will be in the end.
pub record Renames {A : Type 0} (f : A → Numbering → Numbering × A) (g : Numbering → A → A)
    (In : A → ℤ → Type 0) : Type 0 where
  pub extends : (a : A) (s : Numbering) → Extends s (f a s).0
  pub keeps : (a : A) (s : Numbering) → IsOneToOne s → IsOneToOne (f a s).0
  pub renames : (a : A) (s e : Numbering) → Extends (f a s).0 e → (f a s).1 ≡ g e a
  pub meets : (a : A) (s : Numbering) (k : ℤ) → In a k → IsMapped k (f a s).0

pub for_each-Renames :
    {A : Type 0} {f : A → Numbering → Numbering × A} {g : Numbering → A → A} {In : A → ℤ → Type 0}
    → Renames f g In
    → Renames (for_each f) (λ s. map (g s)) (InSome In)
unfolding for_each
for_each-Renames {A} {f} {g} {In} r = record {
  extends = extends;
  keeps = keeps;
  renames = renames;
  meets = meets;
}
  where
    extends : (xs : List A) (s : Numbering) → Extends s (for_each f xs s).0
    extends [] s k n h = h
    extends (x ∷ xs) s k n h = extends xs (f x s).0 k n (r.extends x s k n h)

    keeps : (xs : List A) (s : Numbering) → IsOneToOne s → IsOneToOne (for_each f xs s).0
    keeps [] s v = v
    keeps (x ∷ xs) s v = keeps xs (f x s).0 (r.keeps x s v)

    renames :
        (xs : List A) (s e : Numbering)
        → Extends (for_each f xs s).0 e
        → (for_each f xs s).1 ≡ map (g e) xs
    renames [] s e h = refl
    renames (x ∷ xs) s e h =
        ap₂ (λ y ys. y ∷ ys) (r.renames x s e (λ k n w. h k n (extends xs (f x s).0 k n w)))
          (renames xs (f x s).0 e h)

    meets : (xs : List A) (s : Numbering) (k : ℤ) → InSome In xs k → IsMapped k (for_each f xs s).0
    meets [] s k h = absurd h
    meets (x ∷ xs) s k (inl h) =
        IsMapped-Extends k (f x s).0 (for_each f xs (f x s).0).0 (extends xs (f x s).0)
          (r.meets x s k h)
    meets (x ∷ xs) s k (inr h) = meets xs (f x s).0 k h

get_new-found :
    (k : ℤ) (s : Numbering)
    → lookup k (get_new_tmp_idx k s).0.mapping ≡ some (get_new_tmp_idx k s).1
unfolding get_new_tmp_idx
get_new-found k s = elim (Option-cases (lookup k s.mapping)) [
  | inl e ↦
      rw (e, get_new_tmp_idx) (ground (arith, lookup-insert k k s.next s.mapping, int_eq_iff k k))
  | inr (n, e) ↦ rw (e, get_new_tmp_idx) e
]

get_new-Extends : (k : ℤ) (s : Numbering) → Extends s (get_new_tmp_idx k s).0
unfolding get_new_tmp_idx
get_new-Extends k s j n h = elim (Option-cases (lookup k s.mapping)) [
  | inl e ↦
      rw (e, get_new_tmp_idx) (ground (arith, lookup-insert k j s.next s.mapping, int_eq_iff k j))
  | inr (m, e) ↦ rw (e, get_new_tmp_idx) h
]

fresh-IsOneToOne :
    (k : ℤ) (s : Numbering)
    → lookup k s.mapping ≡ none
    → IsOneToOne s
    → IsOneToOne (record { mapping = insert k s.next s.mapping; next = s.next + 1 })
fresh-IsOneToOne k s e v = record {
  below = λ j n h. ground (arith, lookup-insert k j s.next s.mapping, v.below j n);
  injective = λ i j n p q. ground (
    arith,
    lookup-insert k i s.next s.mapping,
    lookup-insert k j s.next s.mapping,
    int_eq_iff k i,
    int_eq_iff k j,
    v.below i n,
    v.below j n,
    v.injective i j n,
  );
  entries = Distinct-insert k s.next s.mapping e (λ j i h. omega (arith, v.below j i h)) v.entries;
}

get_new-IsOneToOne : (k : ℤ) (s : Numbering) → IsOneToOne s → IsOneToOne (get_new_tmp_idx k s).0
unfolding get_new_tmp_idx
get_new-IsOneToOne k s v = elim (Option-cases (lookup k s.mapping)) [
  | inl e ↦ rw (e, get_new_tmp_idx) (fresh-IsOneToOne k s e v)
  | inr (n, e) ↦ rw (e, get_new_tmp_idx) v
]

get_new_renamed :
    (k : ℤ) (s e : Numbering)
    → Extends (get_new_tmp_idx k s).0 e
    → pos (get_new_tmp_idx k s).1 ≡ renamed e k
get_new_renamed k s e h = rw (h k (get_new_tmp_idx k s).1 (get_new-found k s), renamed) refl

operand-Renames : Renames renumber_operand rename_operand InOperand
unfolding renumber_operand
operand-Renames = record { extends = extends; keeps = keeps; renames = renames; meets = meets }
  where
    extends : (o : Operand) (s : Numbering) → Extends s (renumber_operand o s).0
    extends (tmp i) s k n h = get_new-Extends i s k n h
    extends _ s k n h = h

    keeps : (o : Operand) (s : Numbering) → IsOneToOne s → IsOneToOne (renumber_operand o s).0
    keeps (tmp i) s v = get_new-IsOneToOne i s v
    keeps _ s v = v

    renames :
        (o : Operand) (s e : Numbering)
        → Extends (renumber_operand o s).0 e
        → (renumber_operand o s).1 ≡ rename_operand e o
    renames (tmp i) s e h = ap tmp (get_new_renamed i s e h)
    renames _ s e h = refl

    meets :
        (o : Operand) (s : Numbering) (k : ℤ) → InOperand o k → IsMapped k (renumber_operand o s).0
    meets (tmp i) s k h =
        subst (λ (j : ℤ). IsMapped j (get_new_tmp_idx i s).0) h (_, get_new-found i s)
    meets _ s k h = absurd h

dest-Renames : Renames renumber_dest rename_dest InDest
unfolding renumber_dest
dest-Renames = record { extends = extends; keeps = keeps; renames = renames; meets = meets }
  where
    extends : (d : ℤ) (s : Numbering) → Extends s (renumber_dest d s).0
    extends (pos i) s k n h = get_new-Extends (pos i) s k n h
    extends (negsuc i) s k n h = h

    keeps : (d : ℤ) (s : Numbering) → IsOneToOne s → IsOneToOne (renumber_dest d s).0
    keeps (pos i) s v = get_new-IsOneToOne (pos i) s v
    keeps (negsuc i) s v = v

    renames :
        (d : ℤ) (s e : Numbering)
        → Extends (renumber_dest d s).0 e
        → (renumber_dest d s).1 ≡ rename_dest e d
    renames (pos i) s e h = get_new_renamed (pos i) s e h
    renames (negsuc i) s e h = refl

    meets : (d : ℤ) (s : Numbering) (k : ℤ) → InDest d k → IsMapped k (renumber_dest d s).0
    meets (pos i) s k h =
        subst (λ (j : ℤ). IsMapped j (get_new_tmp_idx (pos i) s).0) h (_, get_new-found (pos i) s)
    meets (negsuc i) s k h = absurd h

instr-Renames : Renames renumber_instr rename_instr InInstr
unfolding renumber_instr
instr-Renames = record { extends = extends; keeps = keeps; renames = renames; meets = meets }
  where
    ops : Renames (for_each renumber_operand) (λ s. map (rename_operand s)) (InSome InOperand)
    ops = for_each-Renames operand-Renames

    extends : (i : Instr) (s : Numbering) → Extends s (renumber_instr i s).0
    extends i s k n h = elim (Bool-cases (i.op == op_code "nop")) [
      | inl e ↦ rw (e, renumber_instr) h
      | inr e ↦
          rw (e, renumber_instr)
            (ops.extends i.operands (renumber_dest i.dest s).0 k n
              (dest-Renames.extends i.dest s k n h))
    ]

    keeps : (i : Instr) (s : Numbering) → IsOneToOne s → IsOneToOne (renumber_instr i s).0
    keeps i s v = elim (Bool-cases (i.op == op_code "nop")) [
      | inl e ↦ rw (e, renumber_instr) v
      | inr e ↦
          rw (e, renumber_instr)
            (ops.keeps i.operands (renumber_dest i.dest s).0 (dest-Renames.keeps i.dest s v))
    ]

    renames :
        (i : Instr) (s e : Numbering)
        → Extends (renumber_instr i s).0 e
        → (renumber_instr i s).1 ≡ rename_instr e i
    renames i s e h = elim (Bool-cases (i.op == op_code "nop")) [
      | inl q ↦ rw (q, renumber_instr) refl
      | inr q ↦
          let s' = (renumber_dest i.dest s).0 in
          let h' : Extends (for_each renumber_operand i.operands s').0 e =
            rw (q, renumber_instr) at h in
          rw (q, renumber_instr)
            (ap₂ (λ d os. record i { dest = d; operands = os })
              (dest-Renames.renames i.dest s e (λ k n w. h' k n (ops.extends i.operands s' k n w)))
              (ops.renames i.operands s' e h'))
    ]

    meets : (i : Instr) (s : Numbering) (k : ℤ) → InInstr i k → IsMapped k (renumber_instr i s).0
    meets i s k (q, inl h) =
        let s' = (renumber_dest i.dest s).0 in
        rw (q, renumber_instr)
          (IsMapped-Extends k s' (for_each renumber_operand i.operands s').0
            (ops.extends i.operands s') (dest-Renames.meets i.dest s k h))
    meets i s k (q, inr h) =
        rw (q, renumber_instr) (ops.meets i.operands (renumber_dest i.dest s).0 k h)

pub block-Renames : Renames renumber_block rename_block InBlock
unfolding renumber_block
block-Renames = record { extends = extends; keeps = keeps; renames = renames; meets = meets }
  where
    each : Renames (for_each renumber_instr) (λ s. map (rename_instr s)) (InSome InInstr)
    each = for_each-Renames instr-Renames

    extends : (b : Block) (s : Numbering) → Extends s (renumber_block b s).0
    extends b s k n h =
        each.extends b.instrs (for_each renumber_instr b.phis s).0 k n (each.extends b.phis s k n h)

    keeps : (b : Block) (s : Numbering) → IsOneToOne s → IsOneToOne (renumber_block b s).0
    keeps b s v = each.keeps b.instrs (for_each renumber_instr b.phis s).0 (each.keeps b.phis s v)

    renames :
        (b : Block) (s e : Numbering)
        → Extends (renumber_block b s).0 e
        → (renumber_block b s).1 ≡ rename_block e b
    renames b s e h =
        let s' = (for_each renumber_instr b.phis s).0 in
        ap₂ (λ ps is. record b { phis = ps; instrs = is })
          (each.renames b.phis s e (λ k n w. h k n (each.extends b.instrs s' k n w)))
          (each.renames b.instrs s' e h)

    meets : (b : Block) (s : Numbering) (k : ℤ) → InBlock b k → IsMapped k (renumber_block b s).0
    meets b s k (inl h) =
        let s' = (for_each renumber_instr b.phis s).0 in
        IsMapped-Extends k s' (for_each renumber_instr b.instrs s').0 (each.extends b.instrs s')
          (each.meets b.phis s k h)
    meets b s k (inr h) = each.meets b.instrs (for_each renumber_instr b.phis s).0 k h
