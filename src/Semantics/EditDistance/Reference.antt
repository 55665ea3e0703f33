-- ===== src/Semantics/EditDistance/Reference.antt =====
-- The edit distance as the least number of edits that make one name of another, for `TEditDistance`
-- of qumir/semantics/name_resolution/name_resolver.h.
use qumir.Prelude.{
  ℕ, zero, suc, ◌+◌, ◌≤◌, ◌<◌, min, Option, some, List, length, get_elem?, get_elem?-some, ◌≡◌, ◌⊎◌,
  inl, inr, refl, ap₂, subst, arith, Eq-nat,
}
use qumir.Semantics.EditDistance.{cost}

-- The first `i` symbols of `a` become the first `j` of `b` with `n` edits.
pub data Edits (a b : List ℕ) : ℕ → ℕ → ℕ → Type 0 where
  start : Edits a b 0 0 0
  deleted : {i j n : ℕ} → Edits a b i j n → Edits a b (suc i) j (suc n)
  inserted : {i j n : ℕ} → Edits a b i j n → Edits a b i (suc j) (suc n)
  replaced :
      {i j n x y : ℕ}
      → get_elem? a i ≡ some x
      → get_elem? b j ≡ some y
      → Edits a b i j n
      → Edits a b (suc i) (suc j) (n + cost x y)

-- The cost of a symbol that takes the place of another.
abbrev cost_of : Option ℕ → Option ℕ → ℕ
cost_of (some x) (some y) = cost x y
cost_of _ _ = 1

unfoldable pub cost_at : List ℕ → List ℕ → ℕ → ℕ → ℕ
cost_at a b i j = cost_of (get_elem? a i) (get_elem? b j)

-- A row of the table, from the row before.
unfoldable pub next_row : (ℕ → ℕ) → ℕ → (ℕ → ℕ) → ℕ → ℕ
next_row before i costs zero = suc i
next_row before i costs (suc j) =
    min (before (suc j) + 1) (min (next_row before i costs j + 1) (before j + costs j))

unfoldable pub distance : List ℕ → List ℕ → ℕ → ℕ → ℕ
distance a b zero j = j
distance a b (suc i) j = next_row (distance a b i) i (cost_at a b i) j

pub cost_at_lem :
    (a b : List ℕ) (i j x y : ℕ)
    → get_elem? a i ≡ some x
    → get_elem? b j ≡ some y
    → cost_at a b i j ≡ cost x y
unfolding cost_at
cost_at_lem a b i j x y p q = ap₂ cost_of p q

pub distance-zero : (a b : List ℕ) (i : ℕ) → distance a b i 0 ≡ i
unfolding distance next_row
distance-zero a b zero = refl
distance-zero a b (suc i) = refl

pub distance-suc :
    (a b : List ℕ) (i j : ℕ)
    → distance a b (suc i) (suc j)
      ≡ min
          (distance a b i (suc j) + 1)
          (min (distance a b (suc i) j + 1) (distance a b i j + cost_at a b i j))
unfolding distance next_row
distance-suc a b i j = refl

distance-deleted : (a b : List ℕ) (i j : ℕ) → distance a b (suc i) j ≤ suc (distance a b i j)
distance-deleted a b i zero = omega (arith, distance-zero a b i, distance-zero a b (suc i))
distance-deleted a b i (suc j) = omega (arith, distance-suc a b i j)

distance-inserted : (a b : List ℕ) (i j : ℕ) → distance a b i (suc j) ≤ suc (distance a b i j)
distance-inserted a b zero j = unfold distance in omega arith
distance-inserted a b (suc i) j = omega (arith, distance-suc a b i j)

-- No edits are fewer.
pub distance_least : (a b : List ℕ) {i j n : ℕ} → Edits a b i j n → distance a b i j ≤ n
distance_least a b start = omega (arith, distance-zero a b 0)
distance_least a b (deleted {i = i} {j = j} e) =
    omega (arith, distance-deleted a b i j, distance_least a b e)
distance_least a b (inserted {i = i} {j = j} e) =
    omega (arith, distance-inserted a b i j, distance_least a b e)
distance_least a b (replaced {i = i} {j = j} {x = x} {y = y} p q e) =
    omega (arith, distance-suc a b i j, cost_at_lem a b i j x y p q, distance_least a b e)

min_cases : (x y z d : ℕ) → d ≡ min (x + 1) (min (y + 1) z) → (suc x ≡ d) ⊎ ((suc y ≡ d) ⊎ (z ≡ d))
min_cases x y z d h = ground arith

-- The edits in a row of the table, from those in the row before.
reached_row :
    (a b : List ℕ) (i : ℕ)
    → i < length a
    → ((j : ℕ) → j ≤ length b → Edits a b i j (distance a b i j))
    → (j : ℕ) → j ≤ length b
    → Edits a b (suc i) j (distance a b (suc i) j)
reached_row a b i h before zero k =
    let q : suc (distance a b i 0) ≡ distance a b (suc i) 0 =
      omega (arith, distance-zero a b i, distance-zero a b (suc i)) in
    subst (Edits a b (suc i) 0) q (deleted (before 0 k))
reached_row a b i h before (suc j) k =
    let (x, p) = get_elem?-some a i h in
    let (y, q) = get_elem?-some b j (omega arith) in
    let least = distance-suc a b i j in
    let same = cost_at_lem a b i j x y p q in
    elim (min_cases (distance a b i (suc j)) (distance a b (suc i) j)
      (distance a b i j + cost_at a b i j) (distance a b (suc i) (suc j)) least) [
        | inl e ↦ subst (Edits a b (suc i) (suc j)) e (deleted (before (suc j) k))
        | inr (inl e) ↦
            subst (Edits a b (suc i) (suc j)) e
              (inserted (reached_row a b i h before j (omega arith)))
        | inr (inr e) ↦
            subst (Edits a b (suc i) (suc j)) (omega (arith, e, same))
              (replaced p q (before j (omega arith)))
      ]

-- So many edits suffice.
pub distance_reached :
    (a b : List ℕ) (i j : ℕ) → i ≤ length a → j ≤ length b → Edits a b i j (distance a b i j)
unfolding distance
distance_reached a b zero zero h k = start
distance_reached a b zero (suc j) h k = inserted (distance_reached a b zero j h (omega arith))
distance_reached a b (suc i) j h k =
    reached_row a b i h (λ j' k'. distance_reached a b i j' (omega arith) k') j k
