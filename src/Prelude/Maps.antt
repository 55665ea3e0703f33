-- ===== src/Prelude/Maps.antt =====
-- Decidable equality as an instance argument, and maps keyed by it.
use mathlib.Core.Path.{◌≡◌, refl}
use mathlib.Core.Logic.{◌↔◌}
use mathlib.Core.Bool.{Bool, true, false, ◌&&◌}
use mathlib.Core.Option.{Option, none, some}
use mathlib.Core.List.{List, [], ◌∷◌}
use Prim.Native.Nat.{ℕ}
use Prim.Native.String.{String}
use native.Mathlib.Omega.{arith}
use text.Mathlib.Text.{◌==◌ as string_beq}
use text.Mathlib.TextEquality.{eq_iff}
use qumir.Prelude.Tests.{nat_eq as nat_beq, nat_eq_iff, if◌then◌else◌}
use qumir.Prelude.Int.{ℤ, int_eq as int_beq, int_eq_iff}

-- A Boolean test that decides equality of keys.
pub record Eq {κ} (K : Type κ) : Type κ where
  pub same_key : K → K → Bool
  pub same_key_iff : (x y : K) → (same_key x y ≡ true) ↔ (x ≡ y)

infix 50 ◌==◌
abbrev pub ◌==◌ {κ} : {K : Type κ} ⦃keys : Eq K⦄ → K → K → Bool
◌==◌ ⦃keys⦄ = keys.same_key

instance abbrev pub Eq-nat : Eq ℕ
Eq-nat = record { same_key = nat_beq; same_key_iff = nat_eq_iff }

instance abbrev pub Eq-int : Eq ℤ
Eq-int = record { same_key = int_beq; same_key_iff = int_eq_iff }

instance abbrev pub Eq-string : Eq String
Eq-string = record { same_key = string_beq; same_key_iff = eq_iff }

module _ {ℓ} {A : Type ℓ} ⦃e : Eq A⦄ where
  abbrev pub list_beq : List A → List A → Bool
  list_beq [] [] = true
  list_beq (x ∷ xs) (y ∷ ys) = x == y && list_beq xs ys
  list_beq _ _ = false

  pub list_beq_iff : (xs ys : List A) → (list_beq xs ys ≡ true) ↔ (xs ≡ ys)
  list_beq_iff [] [] = (λ _. refl, λ _. refl)
  list_beq_iff [] (y ∷ ys) = (λ h. cc, λ h. cc)
  list_beq_iff (x ∷ xs) [] = (λ h. cc, λ h. cc)
  list_beq_iff (x ∷ xs) (y ∷ ys) = ground (arith, e.same_key_iff x y, list_beq_iff xs ys)

  instance abbrev pub Eq-list : Eq (List A)
  Eq-list = record { same_key = list_beq; same_key_iff = list_beq_iff }

-- A map as an association list.
module _ {ℓ κ} {K : Type ℓ} {V : Type κ} ⦃keys : Eq K⦄ where
  -- `find`; the first entry of a key counts.
  unfoldable pub lookup : K → List (K × V) → Option V
  lookup key [] = none
  lookup key ((own, old) ∷ rest) = if own == key then some old else lookup key rest

  -- The assignment to an entry, new ones at the end.
  unfoldable pub insert : K → V → List (K × V) → List (K × V)
  insert key new [] = (key, new) ∷ []
  insert key new ((own, old) ∷ rest) =
      if own == key then (key, new) ∷ rest else (own, old) ∷ insert key new rest

  -- An insertion is seen at its own key and at no other.
  pub lookup-insert :
      (key other : K) (new : V) (map : List (K × V))
      → lookup other (insert key new map) ≡ (if key == other then some new else lookup other map)
  unfolding lookup insert
  lookup-insert key other new [] = refl
  lookup-insert key other new ((own, old) ∷ rest) =
      let later = lookup-insert key other new rest in
      let tests = keys.same_key_iff in
      ground (arith, tests key other, tests own key, tests own other, later)
