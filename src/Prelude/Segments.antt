-- ===== src/Prelude/Segments.antt =====
-- Parts of lists by native numbers.
use Prim.Native.Nat.{ℕ, zero, suc, ◌+◌, ◌-◌, ◌≤◌, min}
use mathlib.Core.Path.{◌≡◌, refl, ap, ◌∙◌}
use mathlib.Core.List.{List, [], ◌∷◌, ◌++◌}
use native.Mathlib.Omega.{arith}
use qumir.Prelude.Lists.{length}

module _ {ℓ} {A : Type ℓ} where
  abbrev pub take : ℕ → List A → List A
  take zero xs = []
  take (suc n) [] = []
  take (suc n) (x ∷ xs) = x ∷ take n xs

  abbrev pub drop : ℕ → List A → List A
  drop zero xs = xs
  drop (suc n) [] = []
  drop (suc n) (x ∷ xs) = drop n xs

  pub take-append : (n : ℕ) (xs ys : List A) → take (length xs + n) (xs ++ ys) ≡ xs ++ take n ys
  take-append n [] ys = ap (λ (k : ℕ). take k ys) (omega arith)
  take-append n (x ∷ xs) ys =
      let k : suc (length xs) + n ≡ suc (length xs + n) = omega arith in
      ap (λ (m : ℕ). take m (x ∷ (xs ++ ys))) k ∙ ap (λ (zs : List A). x ∷ zs) (take-append n xs ys)

  pub drop-append : (n : ℕ) (xs ys : List A) → drop (length xs + n) (xs ++ ys) ≡ drop n ys
  drop-append n [] ys = ap (λ (k : ℕ). drop k ys) (omega arith)
  drop-append n (x ∷ xs) ys =
      let k : suc (length xs) + n ≡ suc (length xs + n) = omega arith in
      ap (λ (m : ℕ). drop m (x ∷ (xs ++ ys))) k ∙ drop-append n xs ys

  take_nil : (n : ℕ) → take n [] ≡ []
  take_nil zero = refl
  take_nil (suc n) = refl

  pub length-drop : (n : ℕ) (xs : List A) → length (drop n xs) ≡ length xs - n
  length-drop zero xs = omega arith
  length-drop (suc n) [] = omega arith
  length-drop (suc n) (x ∷ xs) = omega (arith, length-drop n xs)

  -- The middle of a list, cut from either end first.
  pub take-drop : (m n : ℕ) (xs : List A) → take (n - m) (drop m xs) ≡ drop m (take n xs)
  take-drop zero n xs = ap (λ (k : ℕ). take k xs) (omega arith)
  take-drop (suc m) zero [] = take_nil (0 - suc m)
  take-drop (suc m) (suc n) [] = take_nil (suc n - suc m)
  take-drop (suc m) zero (x ∷ xs) =
      let k : 0 - suc m ≡ 0 = omega arith in ap (λ (j : ℕ). take j (drop m xs)) k
  take-drop (suc m) (suc n) (x ∷ xs) =
      let k : suc n - suc m ≡ n - m = omega arith in
      ap (λ (j : ℕ). take j (drop m xs)) k ∙ take-drop m n xs

  pub take-take : (m n : ℕ) (xs : List A) → m ≤ n → take m (take n xs) ≡ take m xs
  take-take zero n xs h = refl
  take-take (suc m) zero xs h = absurd (omega arith)
  take-take (suc m) (suc n) [] h = refl
  take-take (suc m) (suc n) (x ∷ xs) h =
      ap (λ (zs : List A). x ∷ zs) (take-take m n xs (omega arith))

  pub take_all : (n : ℕ) (xs : List A) → length xs ≤ n → take n xs ≡ xs
  take_all zero [] h = refl
  take_all (suc n) [] h = refl
  take_all zero (x ∷ xs) h = absurd (omega arith)
  take_all (suc n) (x ∷ xs) h = ap (λ (zs : List A). x ∷ zs) (take_all n xs (omega arith))

  pub drop_all : (n : ℕ) (xs : List A) → length xs ≤ n → drop n xs ≡ []
  drop_all zero [] h = refl
  drop_all (suc n) [] h = refl
  drop_all zero (x ∷ xs) h = absurd (omega arith)
  drop_all (suc n) (x ∷ xs) h = drop_all n xs (omega arith)

  pub length-take : (n : ℕ) (xs : List A) → length (take n xs) ≡ min n (length xs)
  length-take zero xs = omega arith
  length-take (suc n) [] = omega arith
  length-take (suc n) (x ∷ xs) = omega (arith, length-take n xs)
