-- ===== src/Parser/Json/Keys.antt =====
-- The order of keys, `std::string`, in qumir/parser/json.
use qumir.Prelude.{
  ℕ, true, false, List, [], ◌∷◌, ◌≡◌, ◌⊎◌, inl, inr, Bool-cases, refl, arith, ◌==◌, Eq-nat, Eq-list,
  list_beq_iff,
}
use qumir.Parser.Json.{string_less}

pub string_less_irrefl : (s : List ℕ) → string_less s s ≡ false
string_less_irrefl [] = refl
string_less_irrefl (a ∷ s) = ground (arith, string_less_irrefl s)

pub string_less_trans :
    (s t u : List ℕ) → string_less s t ≡ true → string_less t u ≡ true → string_less s u ≡ true
string_less_trans [] [] u h k = absurd (ground arith)
string_less_trans [] (b ∷ t) [] h k = absurd (ground arith)
string_less_trans [] (b ∷ t) (c ∷ u) h k = refl
string_less_trans (a ∷ s) [] u h k = absurd (ground arith)
string_less_trans (a ∷ s) (b ∷ t) [] h k = absurd (ground arith)
string_less_trans (a ∷ s) (b ∷ t) (c ∷ u) h k = ground (arith, string_less_trans s t u)

pub string_less_total :
    (s t : List ℕ) → (string_less s t ≡ true) ⊎ ((s ≡ t) ⊎ (string_less t s ≡ true))
string_less_total [] [] = inr (inl refl)
string_less_total [] (b ∷ t) = inl refl
string_less_total (a ∷ s) [] = inr (inr refl)
string_less_total (a ∷ s) (b ∷ t) = ground (arith, string_less_total s t)

pub string_less_asym : (s t : List ℕ) → string_less s t ≡ true → string_less t s ≡ false
string_less_asym s t h = elim (Bool-cases (string_less t s)) [
  | inl k ↦ cc (string_less_trans s t s h k, string_less_irrefl s)
  | inr k ↦ k
]

pub same_key : (s : List ℕ) → (s == s) ≡ true
same_key s = (list_beq_iff s s).1 refl

pub less-not_same : (s t : List ℕ) → string_less s t ≡ true → (s == t) ≡ false
less-not_same s t h = elim (Bool-cases (s == t)) [
  | inl k ↦ cc (h, (list_beq_iff s t).0 k, string_less_irrefl s)
  | inr k ↦ k
]

pub not_same_sym : (s t : List ℕ) → (s == t) ≡ false → (t == s) ≡ false
not_same_sym s t h = elim (Bool-cases (t == s)) [
  | inl k ↦ cc (h, (list_beq_iff t s).0 k, same_key s)
  | inr k ↦ k
]

-- The tests on two strings, in the three cases.
pub string_order :
    (s t : List ℕ)
    → ((string_less s t ≡ true) × ((s == t) ≡ false))
      ⊎ ((s ≡ t) ⊎ ((string_less s t ≡ false) × ((s == t) ≡ false) × (string_less t s ≡ true)))
string_order s t = elim (string_less_total s t) [
  | inl h ↦ inl (h, less-not_same s t h)
  | inr (inl e) ↦ inr (inl e)
  | inr (inr h) ↦ inr (inr (string_less_asym t s h, not_same_sym t s (less-not_same t s h), h))
]
