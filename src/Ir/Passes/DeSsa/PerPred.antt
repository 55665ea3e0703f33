-- ===== src/Ir/Passes/DeSsa/PerPred.antt =====
-- `perPred` of `DeSSA`, qumir/ir/passes/transforms/de_ssa.cpp: a map whose keys stay in order.
use qumir.Prelude.{
  ℕ, ◌<◌, ℤ, List, [], ◌∷◌, ◌++◌, ◌≡◌, refl, arith, ◌==◌, Eq-nat, nat_eq_iff, ltb, ltb→lt, All,
  if◌then◌else◌, Bool-cases, inl, inr,
}
use qumir.Ir.Instr.{Operand}
use qumir.Ir.Passes.DeSsa.{add_transfer}

-- A copy: a destination and a source.
abbrev pub Copy : Type 0
Copy = ℤ × Operand

-- The copies collected for a predecessor.
abbrev pub transfers_of : ℕ → List (ℕ × List Copy) → List Copy
transfers_of l [] = []
transfers_of l ((k, ts) ∷ m) = if k == l then ts else transfers_of l m

-- The keys of the ordered map rise.
abbrev pub IsSorted : List (ℕ × List Copy) → Type 0
IsSorted [] = Unit
IsSorted ((k, ts) ∷ m) = All (λ e. k < e.0) m × IsSorted m

transfers_of-none :
    (l : ℕ) (m : List (ℕ × List Copy)) → All (λ e. l < e.0) m → transfers_of l m ≡ []
transfers_of-none l [] h = refl
transfers_of-none l ((k, ts) ∷ m) h = ground (arith, transfers_of-none l m h.1, nat_eq_iff k l, h.0)

All-below :
    (a b : ℕ) (m : List (ℕ × List Copy)) → a < b → All (λ e. b < e.0) m → All (λ e. a < e.0) m
All-below a b [] lt h = tt
All-below a b ((k, ts) ∷ m) lt h = (omega (arith, lt, h.0), All-below a b m lt h.1)

All-add_transfer :
    (a l : ℕ) (t : Copy) (m : List (ℕ × List Copy))
    → a < l
    → All (λ e. a < e.0) m
    → All (λ e. a < e.0) (add_transfer l t m)
unfolding add_transfer
All-add_transfer a l t [] lt h = (lt, tt)
All-add_transfer a l t ((k, ts) ∷ m) lt h = elim (Bool-cases (k == l)) [
  | inl e ↦ rw e h
  | inr e ↦ elim (Bool-cases (ltb l k)) [
    | inl e' ↦ rw (e, e') (lt, h)
    | inr e' ↦ rw (e, e') (h.0, All-add_transfer a l t m lt h.1)
  ]
]

pub add_transfer-IsSorted :
    (l : ℕ) (t : Copy) (m : List (ℕ × List Copy)) → IsSorted m → IsSorted (add_transfer l t m)
unfolding add_transfer
add_transfer-IsSorted l t [] h = (tt, tt)
add_transfer-IsSorted l t ((k, ts) ∷ m) h = elim (Bool-cases (k == l)) [
  | inl e ↦ rw e h
  | inr e ↦ elim (Bool-cases (ltb l k)) [
    | inl e' ↦ let lt = ltb→lt l k e' in rw (e, e') ((lt, All-below l k m lt h.0), h)
    | inr e' ↦
        let lt : k < l = ground (arith, nat_eq_iff k l) in
        rw (e, e') (All-add_transfer k l t m lt h.0, add_transfer-IsSorted l t m h.1)
  ]
]

pub transfers_of-add_transfer :
    (j l : ℕ) (t : Copy) (m : List (ℕ × List Copy))
    → IsSorted m
    → transfers_of j (add_transfer l t m)
      ≡ (if l == j then transfers_of j m ++ t ∷ [] else transfers_of j m)
unfolding add_transfer
transfers_of-add_transfer j l t [] h = refl
transfers_of-add_transfer j l t ((k, ts) ∷ m) h = elim (Bool-cases (k == l)) [
  | inl e ↦ ground (arith, nat_eq_iff k l)
  | inr e ↦ elim (Bool-cases (ltb l k)) [
    | inl e' ↦
        let lt = ltb→lt l k e' in
        let gone = transfers_of-none l m (All-below l k m lt h.0) in
        ground (arith, nat_eq_iff k l, nat_eq_iff l j, nat_eq_iff k j, gone)
    | inr e' ↦
        let rest = transfers_of-add_transfer j l t m h.1 in
        ground (arith, nat_eq_iff k l, nat_eq_iff l j, nat_eq_iff k j, rest)
  ]
]
