-- ===== src/Prelude/Bits.antt =====
-- Laws of `bit_and` and `bit_or` at variables, from the digit recursion that the native operation stands for.
use Prim.Native.Nat.{
  ℕ, zero, suc, ◌+◌, ◌-◌, ◌*◌, ◌/◌, ◌%◌, ◌^◌, ◌≤◌, ◌<◌, min, max, bit_and, bit_or, digits,
  bit_and-bitwise, bit_or-bitwise,
}
use mathlib.Core.Path.{◌≡◌, refl, ap}
use native.Mathlib.Nat.{pow-suc}
use native.Mathlib.Omega.{arith}

-- The recursion with `k` digits left.
abbrev conjunction : ℕ → ℕ → ℕ → ℕ
conjunction k x y = digits (λ z. zero) min k x y

-- Any fuel from `x` on computes `bit_and x y`; `bound` is for the induction.
conjunction_lem : (bound k x y : ℕ) → x ≤ bound → x ≤ k → conjunction k x y ≡ bit_and x y
conjunction_lem bound zero zero y _ _ = omega (arith, bit_and-bitwise 0 y)
conjunction_lem bound (suc k) zero y _ _ = omega (arith, bit_and-bitwise 0 y)
conjunction_lem bound zero (suc x) y _ le = absurd (omega arith)
conjunction_lem zero k (suc x) y le _ = absurd (omega arith)
conjunction_lem (suc bound) (suc k) (suc x) y le fuel =
    let half = suc x / 2 in
    let rest = conjunction_lem bound k half (y / 2) (omega arith) (omega arith) in
    let own = conjunction_lem bound x half (y / 2) (omega arith) (omega arith) in
    omega (arith, rest, own, bit_and-bitwise (suc x) y)

pub bit_and_step : (x y : ℕ) → bit_and x y ≡ bit_and (x / 2) (y / 2) * 2 + min (x % 2) (y % 2)
bit_and_step zero y = omega (arith, bit_and-bitwise 0 y, bit_and-bitwise 0 (y / 2))
bit_and_step (suc x) y =
    let half = conjunction_lem x x (suc x / 2) (y / 2) (omega arith) (omega arith) in
    omega (arith, half, bit_and-bitwise (suc x) y)

-- The word whose `n` low bits are set.
abbrev pub ones : ℕ → ℕ
ones zero = 0
ones (suc n) = ones n * 2 + 1

pow_pos : (k : ℕ) → 0 < 2 ^ k
pow_pos zero = omega arith
pow_pos (suc k) = omega (arith, pow-suc 2 k, pow_pos k)

-- The lowest binary digit of a remainder by an even number.
mod_double : (x p : ℕ) → 0 < p → x % (2 * p) ≡ x / 2 % p * 2 + x % 2
mod_double x p h = grind arith

-- A word splits into its bits under a mask and its bits under the complement.
pub bit_and_complement :
    (n x m : ℕ) → x ≤ ones n → m ≤ ones n → bit_and x (ones n - m) + bit_and x m ≡ x
bit_and_complement zero zero zero hx hm = omega (arith, bit_and-bitwise 0 0)
bit_and_complement zero zero (suc m) hx hm = absurd (omega arith)
bit_and_complement zero (suc x) m hx hm = absurd (omega arith)
bit_and_complement (suc n) x m hx hm =
    let p : (ones (suc n) - m) / 2 ≡ ones n - m / 2 = omega arith in
    let q : (ones (suc n) - m) % 2 ≡ 1 - m % 2 = omega arith in
    let s : bit_and x (ones (suc n) - m)
        ≡ bit_and (x / 2) (ones n - m / 2) * 2 + min (x % 2) (1 - m % 2) =
      rw (← p, ← q) (bit_and_step x (ones (suc n) - m)) in
    omega
      (arith, s, bit_and_step x m, bit_and_complement n (x / 2) (m / 2) (omega arith) (omega arith))

-- No bits under the empty mask; `bound` is for the induction.
unmasked : (bound x : ℕ) → x ≤ bound → bit_and x 0 ≡ 0
unmasked bound zero _ = bit_and-bitwise 0 0
unmasked zero (suc x) le = absurd (omega arith)
unmasked (suc bound) (suc x) le =
    let half = unmasked bound (suc x / 2) (omega arith) in
    omega (arith, half, bit_and_step (suc x) 0)

bit_and-le_fuel : (n x m : ℕ) → m ≤ n → bit_and x m ≤ m
bit_and-le_fuel n x zero h = omega (arith, unmasked x x (omega arith))
bit_and-le_fuel zero x (suc m) h = absurd (omega arith)
bit_and-le_fuel (suc n) x (suc m) h =
    omega (arith, bit_and_step x (suc m), bit_and-le_fuel n (x / 2) (suc m / 2) (omega arith))

pub bit_and-le_right : (x m : ℕ) → bit_and x m ≤ m
bit_and-le_right x m = bit_and-le_fuel m x m (omega arith)

-- A mask of `k` low bits is the remainder by `2 ^ k`.
pub bit_and-ones : (k x : ℕ) → bit_and x (ones k) ≡ x % 2 ^ k
bit_and-ones zero x = omega (arith, unmasked x x (omega arith))
bit_and-ones (suc k) x = ground (
  arith,
  bit_and_step x (ones (suc k)),
  bit_and-ones k (x / 2),
  pow-suc 2 k,
  mod_double x (2 ^ k) (pow_pos k),
)

pub bit_and-zero : (a : ℕ) → bit_and a 0 ≡ 0
bit_and-zero a = unmasked a a (omega arith)

pub bit_and_idem : (n a : ℕ) → a ≤ n → bit_and a a ≡ a
bit_and_idem n zero h = refl
bit_and_idem zero (suc a) h = absurd (omega arith)
bit_and_idem (suc n) (suc a) h =
    omega (arith, bit_and_step (suc a) (suc a), bit_and_idem n (suc a / 2) (omega arith))

-- The recursion of `bit_or` with `k` digits left.
abbrev disjunction : ℕ → ℕ → ℕ → ℕ
disjunction k x y = digits (λ z. z) max k x y

disjunction_lem : (bound k x y : ℕ) → x ≤ bound → x ≤ k → disjunction k x y ≡ bit_or x y
disjunction_lem bound zero zero y _ _ = omega (arith, bit_or-bitwise 0 y)
disjunction_lem bound (suc k) zero y _ _ = omega (arith, bit_or-bitwise 0 y)
disjunction_lem bound zero (suc x) y _ le = absurd (omega arith)
disjunction_lem zero k (suc x) y le _ = absurd (omega arith)
disjunction_lem (suc bound) (suc k) (suc x) y le fuel =
    let half = suc x / 2 in
    let rest = disjunction_lem bound k half (y / 2) (omega arith) (omega arith) in
    let own = disjunction_lem bound x half (y / 2) (omega arith) (omega arith) in
    omega (arith, rest, own, bit_or-bitwise (suc x) y)

bit_or_step : (x y : ℕ) → bit_or x y ≡ bit_or (x / 2) (y / 2) * 2 + max (x % 2) (y % 2)
bit_or_step zero y = omega (arith, bit_or-bitwise 0 y, bit_or-bitwise 0 (y / 2))
bit_or_step (suc x) y =
    let half = disjunction_lem x x (suc x / 2) (y / 2) (omega arith) (omega arith) in
    omega (arith, half, bit_or-bitwise (suc x) y)

nothing_added : (bound x : ℕ) → x ≤ bound → bit_or x 0 ≡ x
nothing_added bound zero _ = bit_or-bitwise 0 0
nothing_added zero (suc x) le = absurd (omega arith)
nothing_added (suc bound) (suc x) le =
    omega (arith, nothing_added bound (suc x / 2) (omega arith), bit_or_step (suc x) 0)

-- A field of `k` bits below a shifted number adds to it.
pub bit_or-shifted : (k x y : ℕ) → y < 2 ^ k → bit_or (x * 2 ^ k) y ≡ x * 2 ^ k + y
bit_or-shifted zero x y lt =
    let e : y ≡ 0 = omega arith in rw e (ground (arith, nothing_added x x (omega arith)))
bit_or-shifted (suc k) x y lt =
    let double : x * 2 ^ suc k ≡ 2 * (x * 2 ^ k) =
      omega (arith, ap (λ (t : ℕ). x * t) (pow-suc 2 k)) in
    let half = bit_or-shifted k x (y / 2) (omega (arith, pow-suc 2 k)) in
    ground (arith, bit_or_step (x * 2 ^ suc k) y, double, half)
