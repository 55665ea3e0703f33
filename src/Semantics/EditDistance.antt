-- ===== src/Semantics/EditDistance.antt =====
-- `TEditDistance`, qumir/semantics/name_resolution/name_resolver.h: the distance of two names, for the
-- suggestions. An access of the vector out of its range is `none`.
use qumir.Prelude.{
  ℕ, zero, suc, ◌+◌, ◌-◌, ◌*◌, min, Option, none, some, List, [], ◌∷◌, ◌++◌, ltb, ◌==◌, Eq-nat,
  if◌then◌else◌, length, get_elem?, set, ◌>>=◌,
}
use qumir.Prelude.Segments.{take}
pub mod Reference
pub mod Table
pub mod Calc

-- `n` zeros.
abbrev pub zeros : ℕ → List ℕ
zeros zero = []
zeros (suc n) = 0 ∷ zeros n

-- `DP.resize(n, 0)`
unfoldable pub resize : ℕ → List ℕ → List ℕ
resize n dp = take n dp ++ zeros (n - length dp)

-- `DP[k] = v`
unfoldable pub store : ℕ → ℕ → List ℕ → Option (List ℕ)
store k v dp = if ltb k (length dp) then some (set dp k v) else none

-- The loop `DP[i * (m + 1) + 0] = i`, its first rounds.
unfoldable pub fill_column : ℕ → ℕ → List ℕ → Option (List ℕ)
fill_column m zero dp = some dp
fill_column m (suc i) dp = do dp' ← fill_column m i dp; store (i * (m + 1) + 0) i dp'

-- The loop `DP[0 * (m + 1) + j] = j`, its first rounds.
unfoldable pub fill_row : ℕ → ℕ → List ℕ → Option (List ℕ)
fill_row m zero dp = some dp
fill_row m (suc j) dp = do dp' ← fill_row m j dp; store (0 * (m + 1) + j) j dp'

unfoldable pub cost : ℕ → ℕ → ℕ
cost x y = if x == y then 0 else 1

-- The inner loop in the row after `i`, its first rounds.
unfoldable pub fill_cells : List ℕ → List ℕ → ℕ → ℕ → List ℕ → Option (List ℕ)
fill_cells a b i zero dp = some dp
fill_cells a b i (suc j) dp = do
  dp' ← fill_cells a b i j dp
  x ← get_elem? a i
  y ← get_elem? b j
  deletion ← get_elem? dp' (i * (length b + 1) + suc j)
  insertion ← get_elem? dp' (suc i * (length b + 1) + j)
  substitution ← get_elem? dp' (i * (length b + 1) + j)
  store (suc i * (length b + 1) + suc j)
      (min (deletion + 1) (min (insertion + 1) (substitution + cost x y))) dp'

-- The outer loop, its first rounds.
unfoldable pub fill_rows : List ℕ → List ℕ → ℕ → List ℕ → Option (List ℕ)
fill_rows a b zero dp = some dp
fill_rows a b (suc i) dp = do dp' ← fill_rows a b i dp; fill_cells a b i (length b) dp'

-- `Calc`, with the table of the calls before and the table after it.
unfoldable pub calc : List ℕ → List ℕ → List ℕ → Option (List ℕ × ℕ)
calc a b dp =
    let n = length a in
    let m = length b in
    (do
      dp₁ ← fill_column m (n + 1) (resize ((n + 1) * (m + 1)) dp)
      dp₂ ← fill_row m (m + 1) dp₁
      dp₃ ← fill_rows a b n dp₂
      result ← get_elem? dp₃ (n * (m + 1) + m)
      some (dp₃, result))
