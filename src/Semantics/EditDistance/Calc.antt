-- ===== src/Semantics/EditDistance/Calc.antt =====
-- `Calc` of `TEditDistance`, qumir/semantics/name_resolution/name_resolver.h.
use qumir.Prelude.{
  ℕ, zero, suc, ◌+◌, ◌-◌, ◌*◌, ◌≤◌, ◌<◌, Option, some, List, length, length-append, get_elem?, ◌≡◌,
  nat_order, ◌≢◌, inl, inr, refl, sym, ap, subst, arith,
}
use qumir.Prelude.Segments.{take, length-take}
use qumir.Semantics.EditDistance.{zeros, resize, fill_column, fill_row, calc}
use qumir.Semantics.EditDistance.Reference.{distance}
use qumir.Semantics.EditDistance.Table.{
  cell, cells_differ, stored, store_lem, Filled, in_range, fill_rows_lem,
}

-- The first place keeps its 0 when the places of the first row are filled.
first_kept :
    (m j : ℕ) (old new : ℕ → Option ℕ)
    → new (cell m 0 j) ≡ some j
    → ((i : ℕ) → cell m 0 j ≢ i → new i ≡ old i)
    → old (cell m 0 0) ≡ some 0
    → new (cell m 0 0) ≡ some 0
first_kept m zero old new here kept h = here
first_kept m (suc j) old new here kept h = cc (kept (cell m 0 0) (λ d. omega (arith, d)), h)

module _ (a b : List ℕ) where
  -- The first places of the first rows are filled.
  record Column (i : ℕ) (dp : List ℕ) : Type 0 where
    size : length dp ≡ ((length a) + 1) * ((length b) + 1)
    column : (p : ℕ) → p < i → get_elem? dp (cell (length b) p 0) ≡ some p

  fill_column_lem :
      (i : ℕ) (dp : List ℕ)
      → i ≤ ((length a) + 1)
      → length dp ≡ ((length a) + 1) * ((length b) + 1)
      → (dp' : List ℕ) × (fill_column (length b) i dp ≡ some dp') × Column i dp'
  unfolding fill_column
  fill_column_lem zero dp h l =
      (dp, refl, record { size = l; column = λ p z. absurd (omega (arith, z)) })
  fill_column_lem (suc i) dp h l =
      let (dp₁, e, f₁) = fill_column_lem i dp (omega arith) l in
      let inside = in_range a b i 0 (omega arith) (omega arith) in
      let fits : cell (length b) i 0 < length dp₁ = rw f₁.size inside in
      elim (store_lem (cell (length b) i 0) i dp₁ fits) [
        | stored dp₂ e₂ len here kept ↦ (
          dp₂,
          rw (e, e₂),
          record {
            size = cc (len, f₁.size);
            column = λ p z. elim (nat_order p i) [
              | inl q ↦ cc (
                kept (cell (length b) p 0) (
                    cells_differ (length b) i 0 p 0 (omega arith) (omega arith)
                      (inl (λ d. omega (arith, d, q)))),
                f₁.column p q,
              )
              | inr (inl q) ↦ absurd (omega (arith, q, z))
              | inr (inr q) ↦ subst (λ x. get_elem? dp₂ (cell (length b) x 0) ≡ some x) (sym q) here
            ];
          },
        )
      ]

  -- And so are the first places of the first row.
  record Row (j : ℕ) (dp : List ℕ) : Type 0 where
    before : Column ((length a) + 1) dp
    row : (q : ℕ) → q < j → get_elem? dp (cell (length b) 0 q) ≡ some q

  fill_row_lem :
      (j : ℕ) (dp : List ℕ)
      → j ≤ ((length b) + 1)
      → Column ((length a) + 1) dp
      → (dp' : List ℕ) × (fill_row (length b) j dp ≡ some dp') × Row j dp'
  unfolding fill_row
  fill_row_lem zero dp h f =
      (dp, refl, record { before = f; row = λ q z. absurd (omega (arith, z)) })
  fill_row_lem (suc j) dp h f =
      let (dp₁, e, f₁) = fill_row_lem j dp (omega arith) f in
      let inside = in_range a b 0 j (omega arith) (omega arith) in
      let fits : cell (length b) 0 j < length dp₁ = rw f₁.before.size inside in
      elim (store_lem (cell (length b) 0 j) j dp₁ fits) [
        | stored dp₂ e₂ len here kept ↦ (
          dp₂,
          rw (e, e₂),
          record {
            before = record {
              size = cc (len, f₁.before.size);
              column = λ p z. elim (nat_order 0 p) [
                | inl q ↦ cc (
                  kept (cell (length b) p 0) (
                      cells_differ (length b) 0 j p 0 (omega arith) (omega arith)
                        (inl (λ d. omega (arith, d, q)))),
                  f₁.before.column p z,
                )
                | inr (inl q) ↦ absurd (omega (arith, q))
                | inr (inr q) ↦
                    subst (λ x. get_elem? dp₂ (cell (length b) x 0) ≡ some x) q
                      (first_kept (length b) j (get_elem? dp₁) (get_elem? dp₂) here kept
                        (f₁.before.column 0 (omega arith)))
              ];
            };
            row = λ q z. elim (nat_order q j) [
              | inl l ↦ cc (
                kept (cell (length b) 0 q) (
                    cells_differ (length b) 0 j 0 q (omega arith) (omega arith)
                      (inr (λ d. omega (arith, d, l)))),
                f₁.row q l,
              )
              | inr (inl l) ↦ absurd (omega (arith, l, z))
              | inr (inr l) ↦ subst (λ x. get_elem? dp₂ (cell (length b) 0 x) ≡ some x) (sym l) here
            ];
          },
        )
      ]

length-zeros : (k : ℕ) → length (zeros k) ≡ k
length-zeros zero = refl
length-zeros (suc k) = ap suc (length-zeros k)

length-resize : (k : ℕ) (dp : List ℕ) → length (resize k dp) ≡ k
unfolding resize
length-resize k dp = omega (
  arith,
  length-append (take k dp) (zeros (k - length dp)),
  length-take k dp,
  length-zeros (k - length dp),
)

-- The table is filled, and the last place has the distance.
pub calc-distance :
    (a b dp : List ℕ)
    → (dp' : List ℕ) × (calc a b dp ≡ some (dp', distance a b (length a) (length b)))
unfolding calc
calc-distance a b dp =
    let size : length (resize ((length a + 1) * (length b + 1)) dp)
        ≡ (length a + 1) * (length b + 1) =
      length-resize ((length a + 1) * (length b + 1)) dp in
    let (dp₁, e₁, f₁) = fill_column_lem a b (length a + 1) _ (omega arith) size in
    let (dp₂, e₂, f₂) = fill_row_lem a b (length b + 1) dp₁ (omega arith) f₁ in
    let filled : Filled a b 0 dp₂ = record {
      size = f₂.before.size;
      column = λ p z. f₂.before.column p (omega arith);
      rows = λ p q z w. first_row p q dp₂ z (f₂.row q (omega arith));
    } in
    let (dp₃, e₃, f₃) = fill_rows_lem a b (length a) dp₂ (omega arith) filled in
    (dp₃, rw (e₁, e₂, e₃, f₃.rows (length a) (length b) (omega arith) (omega arith)))
  where
    first_row :
        (p q : ℕ) (dp₂ : List ℕ)
        → p ≤ 0
        → get_elem? dp₂ (cell (length b) 0 q) ≡ some q
        → get_elem? dp₂ (cell (length b) p q) ≡ some (distance a b p q)
    first_row zero q dp₂ z h = unfold distance in h
    first_row (suc p) q dp₂ z h = absurd (omega (arith, z))
