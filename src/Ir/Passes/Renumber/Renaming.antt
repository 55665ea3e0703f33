-- ===== src/Ir/Passes/Renumber/Renaming.antt =====
-- `RenumberRegisters`, qumir/ir/passes/transforms/renumber_regs.cpp, as one map of temporaries.
use qumir.Ir.Passes.Renumber.Steps.{for_each-Renames, block-Renames}
use qumir.Ir.Passes.Renumber.Renamed.{rename_block, InSome, InBlock, Distinct, IsOneToOne}
use qumir.Prelude.{
  ℕ, zero, suc, ◌<◌, ℤ, pos, negsuc, some, List, [], ◌∷◌, map, ◌==◌, Eq-nat, Eq-int, int_eq_iff,
  ◌≡◌, ◌≢◌, refl, sym, ap, ◌∙◌, arith, get_elem?, length, set, length-set, get_elem?-set_self,
  get_elem?-set_ne, lookup, Option-cases, Bool-cases, inl, inr,
}
use qumir.Ir.Instr.{get_tmp_type, Function, grow}
use qumir.Ir.Passes.Renumber.{
  Numbering, no_numbers, for_each, renumber_block, type_of_tmp, fill_types, renumber_registers,
}

-- The numbering at the end of the pass.
unfoldable pub final_numbering : Function → Numbering
final_numbering f = (for_each renumber_block f.blocks no_numbers).0

no_numbers-IsOneToOne : IsOneToOne no_numbers
unfolding lookup
no_numbers-IsOneToOne = record {
  below = λ k n h. absurd (ground arith);
  injective = λ j k n p q. absurd (ground arith);
  entries = tt;
}

fill_length :
    (old : List ℤ) (m : List (ℤ × ℕ)) (new r : List ℤ)
    → fill_types old m new ≡ some r
    → length r ≡ length new
unfolding fill_types
fill_length old [] new r h = ground arith
fill_length old ((k, n) ∷ m) new r h = elim (Option-cases (type_of_tmp old k)) [
  | inl e ↦ absurd (ground arith)
  | inr (t, e) ↦ elim (Option-cases (fill_types old m new)) [
    | inl q ↦ absurd (ground arith)
    | inr (rest, q) ↦ ground (arith, fill_length old m new rest q, length-set rest n t)
  ]
]

fill_entry :
    (old : List ℤ) (m : List (ℤ × ℕ)) (new r : List ℤ) (k : ℤ) (n : ℕ)
    → Distinct m
    → fill_types old m new ≡ some r
    → lookup k m ≡ some n
    → n < length new
    → (t : ℤ) × (type_of_tmp old k ≡ some t) × (get_elem? r n ≡ some t)
unfolding fill_types lookup
fill_entry old [] new r k n d h w lt = absurd (ground arith)
fill_entry old ((j, i) ∷ m) new r k n d h w lt = elim (Option-cases (type_of_tmp old j)) [
  | inl e ↦ absurd (ground arith)
  | inr (t, e) ↦ elim (Option-cases (fill_types old m new)) [
    | inl q ↦ absurd (ground arith)
    | inr (rest, q) ↦
        let len = fill_length old m new rest q in
        let eq : set rest i t ≡ r = ground arith in
        elim (Bool-cases (j == k)) [
          | inl same ↦
              let jk : j ≡ k = (int_eq_iff j k).0 same in
              let ni : i ≡ n = ground arith in
              (t, rw (← jk) e, rw (← eq, ← ni) (get_elem?-set_self rest i t (omega arith)))
          | inr other ↦
              let w' : lookup k m ≡ some n = rw other at w in
              let (u, a, b) = fill_entry old m new rest k n d.2 q w' lt in
              let ne : i ≢ n = λ x. d.1 k n w' (sym x) in
              (u, a, rw (← eq) (get_elem?-set_ne rest i n t ne ∙ b))
        ]
  ]
]

length-grow : (n : ℕ) (d : ℤ) → length (grow n d []) ≡ n
length-grow zero d = refl
length-grow (suc n) d = ap suc (length-grow n d)

fill_total :
    (old : List ℤ) (m : List (ℤ × ℕ)) (new : List ℤ)
    → Distinct m
    → ((k : ℤ) (n : ℕ) → lookup k m ≡ some n → (t : ℤ) × (type_of_tmp old k ≡ some t))
    → (r : List ℤ) × (fill_types old m new ≡ some r)
unfolding fill_types lookup
fill_total old [] new d h = (new, refl)
fill_total old ((j, i) ∷ m) new d h =
    let (t, e) = h j i (ground (arith, int_eq_iff j j)) in
    let (rest, q) = fill_total old m new d.2 λ k n w. elim (Bool-cases (j == k)) [
      | inl same ↦ absurd (ground (arith, int_eq_iff j k, d.0))
      | inr other ↦ h k n (rw other w)
    ] in
    (set rest i t, rw (e, q))

-- A renumbered temporary has the type that it had before.
renumber_types :
    (f g : Function) (k : ℤ) (n : ℕ)
    → renumber_registers f ≡ some g
    → lookup k (final_numbering f).mapping ≡ some n
    → get_tmp_type g (pos n) ≡ get_tmp_type f k
unfolding renumber_registers final_numbering get_tmp_type
renumber_types f g k n h w =
    let s = (for_each renumber_block f.blocks no_numbers).0 in
    let v = (for_each-Renames block-Renames).keeps f.blocks no_numbers no_numbers-IsOneToOne in
    let new = grow s.next (negsuc 0) [] in
    elim (Option-cases (fill_types f.tmp_types s.mapping new)) [
      | inl q ↦ absurd (ground arith)
      | inr (types, q) ↦
          let (t, a, b) =
            fill_entry f.tmp_types s.mapping new types k n v.entries q w
              (omega (arith, v.below k n w, length-grow s.next (negsuc 0))) in
          let e : g.tmp_types ≡ types = ground arith in rw (e, b, get_tmp_type) (type_read f k t a)
    ]
  where
    type_read : (f : Function) (k t : ℤ) → type_of_tmp f.tmp_types k ≡ some t → t ≡ get_tmp_type f k
    type_read f (pos i) t a = rw (a, get_tmp_type) refl
    type_read f (negsuc i) t a = absurd (ground arith)

-- Where every temporary that gets a number has a type, renumbering succeeds: its blocks are the
-- function's blocks under one map of temporaries, which has every temporary of an instruction that is
-- not `nop`, and sends no two temporaries to one number and each to a number below the next free one;
-- the type of a temporary is that of its number afterwards.
pub renumber-rename :
    (f : Function)
    → ((k : ℤ) (n : ℕ)
        → lookup k (final_numbering f).mapping ≡ some n
        → (t : ℤ) × (type_of_tmp f.tmp_types k ≡ some t))
    → (g : Function) × (renumber_registers f ≡ some g)
      × (g.blocks ≡ map (rename_block (final_numbering f)) f.blocks)
      × IsOneToOne (final_numbering f)
      × ((k : ℤ)
          → InSome InBlock f.blocks k
          → (n : ℕ) × (lookup k (final_numbering f).mapping ≡ some n)
            × (n < (final_numbering f).next))
      × ((k : ℤ) (n : ℕ)
          → lookup k (final_numbering f).mapping ≡ some n
          → get_tmp_type g (pos n) ≡ get_tmp_type f k)
unfolding renumber_registers final_numbering
renumber-rename f typed =
    let all = for_each-Renames block-Renames in
    let s = (for_each renumber_block f.blocks no_numbers).0 in
    let v = all.keeps f.blocks no_numbers no_numbers-IsOneToOne in
    let same = all.renames f.blocks no_numbers s (λ k n w. w) in
    let (types, e) = fill_total f.tmp_types s.mapping (grow s.next (negsuc 0) []) v.entries typed in
    let g : Function = record f {
      blocks = (for_each renumber_block f.blocks no_numbers).1;
      tmp_types = types;
    } in
    let made : renumber_registers f ≡ some g = rw e in
    (
      g,
      made,
      same,
      v,
      λ k h. let (n, e') = all.meets f.blocks no_numbers k h in (n, e', v.below k n e'),
      λ k n w. renumber_types f g k n made w,
    )
