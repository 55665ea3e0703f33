-- ===== src/Ir/Types/Layout/AlignUp.antt =====
-- What `AlignUp` computes, from its bit operations.
use Prim.Native.Nat.{bit_and}
use native.Mathlib.Nat.{pow-suc}
use qumir.Prelude.{ℕ, zero, suc, ◌+◌, ◌-◌, ◌%◌, ◌^◌, ◌≤◌, ◌<◌, ◌≡◌, refl, arith}
use qumir.Prelude.Bits.{
  ones, bit_and_complement, bit_and-zero, bit_and_idem, bit_and-le_right, bit_and-ones,
}
use qumir.Ir.Types.Layout.{align_up}

ones_lem : (k : ℕ) → ones k + 1 ≡ 2 ^ k
ones_lem zero = refl
ones_lem (suc k) = omega (arith, ones_lem k, pow-suc 2 k)

-- Without overflow the sum loses its bits under the mask `align - 1`.
align_up_split :
    (v a : ℕ) → 0 < a → v + a ≤ 2 ^ 32 → align_up v a + bit_and (v + a - 1) (a - 1) ≡ v + a - 1
unfolding align_up
align_up_split v a pos fits =
    let x : (v + a + 2 ^ 32 - 1) % 2 ^ 32 ≡ v + a - 1 = omega arith in
    let m : (a + 2 ^ 32 - 1) % 2 ^ 32 ≡ a - 1 = omega arith in
    rw (x, m) (bit_and_complement 32 (v + a - 1) (a - 1) (omega arith) (omega arith))

-- Rounding up by any alignment from 1 on moves a value by less than the alignment, and never down,
-- as long as the sum fits the machine's integer.
pub align_up_bounds :
    (v a : ℕ) → 0 < a → v + a ≤ 2 ^ 32 → (v ≤ align_up v a) × (align_up v a < v + a)
align_up_bounds v a pos fits =
    omega (arith, align_up_split v a pos fits, bit_and-le_right (v + a - 1) (a - 1))

rounded : (x p : ℕ) → 0 < p → (x - x % p) % p ≡ 0
rounded x p h = grind arith

-- Rounding by a power of two gives a multiple of it.
pub align_up_multiple : (v k : ℕ) → 0 < 2 ^ k → v + 2 ^ k ≤ 2 ^ 32 → align_up v (2 ^ k) % 2 ^ k ≡ 0
align_up_multiple v k positive fits =
    let p = 2 ^ k in
    let mask : 2 ^ k - 1 ≡ ones k = omega (arith, ones_lem k) in
    let low : bit_and (v + 2 ^ k - 1) (2 ^ k - 1) ≡ (v + 2 ^ k - 1) % 2 ^ k =
      rw mask (bit_and-ones k (v + 2 ^ k - 1)) in
    let e : align_up v (2 ^ k) ≡ v + 2 ^ k - 1 - (v + 2 ^ k - 1) % 2 ^ k =
      omega (arith, align_up_split v (2 ^ k) positive fits, low) in
    rw e (rounded (v + 2 ^ k - 1) (2 ^ k) positive)

pub align_up_start : (a : ℕ) → 0 < a → a ≤ 2 ^ 32 → align_up 0 a ≡ 0
align_up_start a positive fits =
    let e : 0 + a - 1 ≡ a - 1 = omega arith in
    let q : bit_and (0 + a - 1) (a - 1) ≡ a - 1 =
      rw e (bit_and_idem (a - 1) (a - 1) (omega arith)) in
    omega (arith, align_up_split 0 a positive (omega arith), q)

-- With alignment 0 the mask has no bits.
pub align_up_zero : (v : ℕ) → align_up v 0 ≡ 0
unfolding align_up
align_up_zero v = bit_and-zero ((v + 0 + 2 ^ 32 - 1) % 2 ^ 32)
