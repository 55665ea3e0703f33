-- ===== src/Semantics/EditDistance/Table.antt =====
-- The table of `TEditDistance`, qumir/semantics/name_resolution/name_resolver.h: its cells hold the
-- distances of the first symbols of the names.
use native.Mathlib.Nat.{suc-mul, mul-le-mul_right}
use qumir.Prelude.{
  ℕ, zero, suc, ◌+◌, ◌*◌, ◌≤◌, ◌<◌, some, List, lt→ltb, length, get_elem?, set, length-set,
  get_elem?-set_self, get_elem?-set_ne, get_elem?-some, ◌≡◌, ◌≢◌, nat_order, ◌⊎◌, inl, inr, refl,
  sym, ap, subst, arith,
}
use qumir.Semantics.EditDistance.{store, fill_cells, fill_rows}
use qumir.Semantics.EditDistance.Reference.{distance, cost_at_lem, distance-zero, distance-suc}

-- A place of the table, row by row.
abbrev pub cell : ℕ → ℕ → ℕ → ℕ
cell m p q = p * (m + 1) + q

-- A later row starts after the end of an earlier one.
rows_apart : (m p r : ℕ) → p < r → p * (m + 1) + (m + 1) ≤ r * (m + 1)
rows_apart m p r h =
    let le : suc p * (m + 1) ≤ r * (m + 1) = mul-le-mul_right (m + 1) (omega arith) in
    omega (arith, le, suc-mul p (m + 1))

pub cells_differ : (m p q r s : ℕ) → q ≤ m → s ≤ m → (p ≢ r) ⊎ (q ≢ s) → cell m p q ≢ cell m r s
cells_differ m p q r s h k d e = elim (nat_order p r) [
  | inl l ↦ omega (arith, e, h, k, rows_apart m p r l)
  | inr (inl l) ↦ omega (arith, e, h, k, rows_apart m r p l)
  | inr (inr l) ↦
      let same : q ≡ s = omega (arith, e, ap (λ x. x * (m + 1)) l) in
      elim d [ inl ne ↦ ne l | inr ne ↦ ne same ]
]

pub data Step (k v : ℕ) (dp : List ℕ) : Type 0 where
  stored :
      (dp' : List ℕ)
      → store k v dp ≡ some dp'
      → length dp' ≡ length dp
      → get_elem? dp' k ≡ some v
      → ((i : ℕ) → k ≢ i → get_elem? dp' i ≡ get_elem? dp i)
      → Step k v dp

pub store_lem : (k v : ℕ) (dp : List ℕ) → k < length dp → Step k v dp
unfolding store
store_lem k v dp h =
    stored (set dp k v) (rw (lt→ltb k (length dp) h)) (length-set dp k v)
      (get_elem?-set_self dp k v h) λ i d. get_elem?-set_ne dp k i v d

module _ (a b : List ℕ) where
  abbrev n : ℕ
  n = length a

  abbrev m : ℕ
  m = length b

  -- The rows up to `i` are filled, and the first places of all.
  pub record Filled (i : ℕ) (dp : List ℕ) : Type 0 where
    pub size : length dp ≡ (n + 1) * (m + 1)
    pub column : (p : ℕ) → p ≤ n → get_elem? dp (cell m p 0) ≡ some p
    pub rows : (p q : ℕ) → p ≤ i → q ≤ m → get_elem? dp (cell m p q) ≡ some (distance a b p q)

  -- The places up to `j` of the row after `i` are filled as well.
  record PartlyFilled (i j : ℕ) (dp : List ℕ) : Type 0 where
    before : Filled i dp
    row : (q : ℕ) → q ≤ j → get_elem? dp (cell m (suc i) q) ≡ some (distance a b (suc i) q)

  pub in_range : (p q : ℕ) → p ≤ n → q ≤ m → cell m p q < (n + 1) * (m + 1)
  in_range p q h k = omega (arith, k, rows_apart m p (n + 1) (omega (arith, h)))

  cell_stored :
      (i j : ℕ) (dp : List ℕ)
      → suc i ≤ n
      → suc j ≤ m
      → PartlyFilled i j dp
      → (dp' : List ℕ) × (store (cell m (suc i) (suc j)) (distance a b (suc i) (suc j)) dp
          ≡ some dp')
        × PartlyFilled i (suc j) dp'
  cell_stored i j dp h k f =
      let other : (p q : ℕ)
          → q ≤ m
          → (suc i ≢ p) ⊎ (suc j ≢ q)
          → cell m (suc i) (suc j) ≢ cell m p q =
        λ p q z d. cells_differ m (suc i) (suc j) p q k z d in
      let inside = in_range (suc i) (suc j) h k in
      let fits : cell m (suc i) (suc j) < length dp = rw f.before.size inside in
      elim (store_lem (cell m (suc i) (suc j)) (distance a b (suc i) (suc j)) dp fits) [
        | stored dp' e len here kept ↦ (
          dp',
          e,
          record {
            before = record {
              size = cc (len, f.before.size);
              column = λ p z. cc (
                kept (cell m p 0) (other p 0 (omega arith) (inr (λ d. omega (arith, d)))),
                f.before.column p z,
              );
              rows = λ p q z w. cc (
                kept (cell m p q) (other p q w (inl (λ d. omega (arith, d, z)))),
                f.before.rows p q z w,
              );
            };
            row = λ q z. elim (nat_order q (suc j)) [
              | inl l ↦ cc (
                kept (cell m (suc i) q)
                    (other (suc i) q (omega arith) (inr (λ d. omega (arith, d, l)))),
                f.row q (omega arith),
              )
              | inr (inl l) ↦ absurd (omega (arith, l, z))
              | inr (inr l) ↦
                  subst (λ x. get_elem? dp' (cell m (suc i) x) ≡ some (distance a b (suc i) x))
                    (sym l) here
            ];
          },
        )
      ]

  first_of_row :
      (i q : ℕ) (dp : List ℕ)
      → suc i ≤ n
      → Filled i dp
      → q ≤ 0
      → get_elem? dp (cell m (suc i) q) ≡ some (distance a b (suc i) q)
  first_of_row i zero dp h f z = rw (distance-zero a b (suc i)) (f.column (suc i) h)
  first_of_row i (suc q) dp h f z = absurd (omega (arith, z))

  fill_cells_lem :
      (i j : ℕ) (dp : List ℕ)
      → suc i ≤ n
      → j ≤ m
      → Filled i dp
      → (dp' : List ℕ) × (fill_cells a b i j dp ≡ some dp') × PartlyFilled i j dp'
  unfolding fill_cells
  fill_cells_lem i zero dp h k f =
      (dp, refl, record { before = f; row = λ q z. first_of_row i q dp h f z })
  fill_cells_lem i (suc j) dp h k f =
      let (dp₁, e, f₁) = fill_cells_lem i j dp h (omega arith) f in
      let (x, p) = get_elem?-some a i h in
      let (y, q) = get_elem?-some b j k in
      let (dp₂, e₂, f₂) = cell_stored i j dp₁ h k f₁ in
      let e₃ = rw (distance-suc a b i j, cost_at_lem a b i j x y p q) at e₂ in
      (
        dp₂,
        rw
            (
              e,
              p,
              q,
              f₁.before.rows i (suc j) (omega arith) k,
              f₁.row j (omega arith),
              f₁.before.rows i j (omega arith) (omega arith),
            )
            e₃,
        f₂,
      )

  pub fill_rows_lem :
      (i : ℕ) (dp : List ℕ)
      → i ≤ n
      → Filled 0 dp
      → (dp' : List ℕ) × (fill_rows a b i dp ≡ some dp') × Filled i dp'
  unfolding fill_rows
  fill_rows_lem zero dp h f = (dp, refl, f)
  fill_rows_lem (suc i) dp h f =
      let (dp₁, e, f₁) = fill_rows_lem i dp (omega arith) f in
      let (dp₂, e₂, f₂) = fill_cells_lem i m dp₁ h (omega arith) f₁ in
      (
        dp₂,
        rw (e, e₂),
        record {
          size = f₂.before.size;
          column = f₂.before.column;
          rows = λ p q z w. elim (nat_order p (suc i)) [
            | inl l ↦ f₂.before.rows p q (omega arith) w
            | inr (inl l) ↦ absurd (omega (arith, l, z))
            | inr (inr l) ↦
                subst (λ x. get_elem? dp₂ (cell m x q) ≡ some (distance a b x q)) (sym l)
                  (f₂.row q w)
          ];
        },
      )
