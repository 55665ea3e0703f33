-- ===== src/Runtime/Comparing/Dictionary.antt =====
-- The order of a dictionary on lists of numbers, and on the bytes of UTF-8.
use qumir.Prelude.{
  ℕ, zero, suc, ◌+◌, ◌/◌, ◌%◌, ◌<◌, ℤ, pos, negsuc, List, [], ◌∷◌, ◌++◌, ltb, ◌==◌, Eq-nat,
  if◌then◌else◌, ◌≡◌, ◌⊎◌, inl, inr, refl, ap, ◌∙◌, arith,
}

-- The order of a dictionary: -1, 0 or 1.
unfoldable pub dictionary_order : List ℕ → List ℕ → ℤ
dictionary_order [] [] = pos 0
dictionary_order [] (y ∷ b) = negsuc 0
dictionary_order (x ∷ a) [] = pos 1
dictionary_order (x ∷ a) (y ∷ b) =
    let later = dictionary_order a b in
    if x == y then later else if ltb x y then negsuc 0 else pos 1

pub below : (x y : ℕ) (a b : List ℕ) → x < y → dictionary_order (x ∷ a) (y ∷ b) ≡ negsuc 0
unfolding dictionary_order
below x y a b h = ground arith

pub above : (x y : ℕ) (a b : List ℕ) → x < y → dictionary_order (y ∷ b) (x ∷ a) ≡ pos 1
unfolding dictionary_order
above x y a b h = ground arith

pub after_same :
    (x y : ℕ) (a b : List ℕ) → x ≡ y → dictionary_order (x ∷ a) (y ∷ b) ≡ dictionary_order a b
unfolding dictionary_order
after_same x y a b h = ground arith

pub after_prefix : (p a b : List ℕ) → dictionary_order (p ++ a) (p ++ b) ≡ dictionary_order a b
after_prefix [] a b = refl
after_prefix (x ∷ p) a b = after_same x x (p ++ a) (p ++ b) refl ∙ after_prefix p a b

then_below :
    (x y : ℕ) (a b : List ℕ)
    → (x < y) ⊎ ((x ≡ y) × (dictionary_order a b ≡ negsuc 0))
    → dictionary_order (x ∷ a) (y ∷ b) ≡ negsuc 0
then_below x y a b (inl h) = below x y a b h
then_below x y a b (inr (e, h)) = after_same x y a b e ∙ h

digits_two : (c d : ℕ) → c < d → (c / 64 < d / 64) ⊎ ((c / 64 ≡ d / 64) × (c % 64 < d % 64))
digits_two c d h = ground arith

pub two_below :
    (k c d : ℕ) (a b : List ℕ)
    → c < d
    → dictionary_order ((k + c / 64) ∷ (128 + c % 64) ∷ a) ((k + d / 64) ∷ (128 + d % 64) ∷ b)
      ≡ negsuc 0
two_below k c d a b h = then_below _ _ _ _ (elim (digits_two c d h) [
  | inl l ↦ inl (omega arith)
  | inr (e, l) ↦ inr (ap (λ x. k + x) e, below _ _ a b (omega arith))
])

pub three_below :
    (k c d : ℕ) (a b : List ℕ)
    → c < d
    → dictionary_order
        ((k + c / 4096) ∷ (128 + c / 64 % 64) ∷ (128 + c % 64) ∷ a)
        ((k + d / 4096) ∷ (128 + d / 64 % 64) ∷ (128 + d % 64) ∷ b)
      ≡ negsuc 0
three_below k c d a b h =
    let up : c / 64 / 64 ≡ c / 4096 = omega arith in
    let up' : d / 64 / 64 ≡ d / 4096 = omega arith in
    elim (digits_two c d h) [
      | inl l ↦ rw (← up, ← up') (two_below k (c / 64) (d / 64) _ _ l)
      | inr (e, l) ↦ then_below _ _ _ _ (
          inr (
            omega (arith, e, up, up'),
            then_below _ _ _ _ (inr (ap (λ x. 128 + x % 64) e, below _ _ a b (omega arith))),
          ))
    ]

pub four_below :
    (k c d : ℕ) (a b : List ℕ)
    → c < d
    → dictionary_order
        ((k + c / 262144) ∷ (128 + c / 4096 % 64) ∷ (128 + c / 64 % 64) ∷ (128 + c % 64) ∷ a)
        ((k + d / 262144) ∷ (128 + d / 4096 % 64) ∷ (128 + d / 64 % 64) ∷ (128 + d % 64) ∷ b)
      ≡ negsuc 0
four_below k c d a b h =
    let up : c / 64 / 4096 ≡ c / 262144 = omega arith in
    let up' : d / 64 / 4096 ≡ d / 262144 = omega arith in
    let mid : c / 64 / 64 ≡ c / 4096 = omega arith in
    let mid' : d / 64 / 64 ≡ d / 4096 = omega arith in
    elim (digits_two c d h) [
      | inl l ↦ rw (← up, ← up', ← mid, ← mid') (three_below k (c / 64) (d / 64) _ _ l)
      | inr (e, l) ↦ then_below _ _ _ _ (
          inr (
            omega (arith, e, up, up'),
            then_below _ _ _ _ (
                inr (
                  omega (arith, e, mid, mid'),
                  then_below _ _ _ _ (inr (ap (λ x. 128 + x % 64) e, below _ _ a b (omega arith))),
                )),
          ))
    ]

-- The other way round the sign changes.
abbrev pub opposite : ℤ → ℤ
opposite (pos zero) = pos zero
opposite (pos (suc n)) = negsuc n
opposite (negsuc n) = pos (suc n)

pub dictionary_order-opposite :
    (a b : List ℕ) → dictionary_order b a ≡ opposite (dictionary_order a b)
unfolding dictionary_order
dictionary_order-opposite [] [] = refl
dictionary_order-opposite [] (y ∷ b) = refl
dictionary_order-opposite (x ∷ a) [] = refl
dictionary_order-opposite (x ∷ a) (y ∷ b) = ground (arith, dictionary_order-opposite a b)
