-- ===== src/Examples/EditDistance.antt =====
-- Distances of names.
use qumir.Prelude.{ℕ, some, List, [], ◌∷◌, ◌≡◌, refl}
use qumir.Semantics.EditDistance.{
  calc, resize, store, fill_column, fill_row, fill_cells, fill_rows, cost,
}

-- Two symbols change places, after a call that has left a table.
abbrev name : List ℕ
name = 0x70 ∷ 0x72 ∷ []

abbrev other_name : List ℕ
other_name = 0x72 ∷ 0x70 ∷ []

calc_twice : calc name other_name (7 ∷ 8 ∷ []) ≡ some (0 ∷ 1 ∷ 2 ∷ 1 ∷ 1 ∷ 1 ∷ 2 ∷ 1 ∷ 2 ∷ [], 2)
unfolding calc resize store fill_column fill_row fill_cells fill_rows cost
calc_twice = refl
