-- ===== src/Runtime/Utf8/RoundTrip.antt =====
-- What is encoded decodes to the same code point.
use qumir.Prelude.{
  ℕ, zero, suc, ◌+◌, ◌*◌, ◌/◌, ◌%◌, ◌^◌, ◌<◌, ◌≤◌, pos, Bool, true, false, not, some, List, [], ◌∷◌,
  ◌++◌, ltb, leb, ◌==◌, Eq-nat, if◌then◌else◌, ◌≡◌, refl, arith, ap, ◌∙◌, Bool-cases, lt→ltb, tests,
  inl, inr, ◌&&◌,
}
use mathlib.Core.List.{append-nil}
use qumir.Prelude.Bits.{bit_and-ones, bit_or-shifted}
use Prim.Native.Nat.{bit_and, bit_or}
use qumir.Runtime.Utf8.{next_bits, str_unicode, continuation, str_from_unicode}

-- The encoding in plain arithmetic.
unfoldable pub encoding : ℕ → List ℕ
encoding c =
    if ltb c 0x80
    then c ∷ []
    else if ltb c 0x800
    then (192 + c / 64) ∷ (128 + c % 64) ∷ []
    else if ltb c 0x10000
    then (224 + c / 4096) ∷ (128 + c / 64 % 64) ∷ (128 + c % 64) ∷ []
    else (240 + c / 262144) ∷ (128 + c / 4096 % 64) ∷ (128 + c / 64 % 64) ∷ (128 + c % 64) ∷ []

continuation_lem : (x : ℕ) → continuation x ≡ 128 + x % 64
continuation_lem x = rw (bit_and-ones 6 x) (bit_or-shifted 6 2 (x % 64) (omega arith))

next_bits_lem : (x c : ℕ) → next_bits x c ≡ x * 64 + c % 64
next_bits_lem x c = rw (bit_and-ones 6 c) (bit_or-shifted 6 x (c % 64) (omega arith))

lead_lem :
    (x : ℕ)
    → (bit_or 0b11000000 (bit_and x 0b00011111) ≡ 192 + x % 32)
      × (bit_or 0b11100000 (bit_and x 0b00001111) ≡ 224 + x % 16)
      × (bit_or 0b11110000 (bit_and x 0b00000111) ≡ 240 + x % 8)
lead_lem x = (
  rw (bit_and-ones 5 x) (bit_or-shifted 5 6 (x % 32) (omega arith)),
  rw (bit_and-ones 4 x) (bit_or-shifted 4 14 (x % 16) (omega arith)),
  rw (bit_and-ones 3 x) (bit_or-shifted 3 30 (x % 8) (omega arith)),
)

-- The bytes of a code point other than 0 are its encoding.
pub str_from_unicode_lem :
    (c : ℕ) → 0 < c → c ≤ 0x10FFFF → str_from_unicode (pos c) ≡ some (encoding c)
unfolding str_from_unicode encoding
str_from_unicode_lem c lo hi = ground (
  arith,
  lead_lem (c / 2 ^ 6),
  lead_lem (c / 2 ^ 12),
  lead_lem (c / 2 ^ 18),
  continuation_lem c,
  continuation_lem (c / 2 ^ 6),
  continuation_lem (c / 2 ^ 12),
)

-- The tests on a first byte.
unfoldable pub all_below : ℕ → (ℕ → Bool) → Bool
all_below zero p = true
all_below (suc n) p = p n && all_below n p

pub all_below_lem : (n x : ℕ) (p : ℕ → Bool) → all_below n p ≡ true → x < n → p x ≡ true
unfolding all_below
all_below_lem zero x p h lt = absurd (omega arith)
all_below_lem (suc n) x p h lt = ground (arith, all_below_lem n x p)

unfoldable pub same : Bool → Bool → Bool
same true b = b
same false b = not b

pub same→eq : (a b : Bool) → same a b ≡ true → a ≡ b
unfolding same
same→eq true true h = refl
same→eq false false h = refl
same→eq _ _ h = cc

pub two_bytes : (c : ℕ) → c < 256 → (bit_and c 0b11100000 == 0b11000000) ≡ (leb 192 c && ltb c 224)
two_bytes c lt = same→eq _ _ (
    all_below_lem 256 c (λ c. same (bit_and c 0b11100000 == 0b11000000) (leb 192 c && ltb c 224))
      table lt)
  where
    table :
        all_below 256 (λ c. same (bit_and c 0b11100000 == 0b11000000) (leb 192 c && ltb c 224))
        ≡ true
    table = unfold all_below same in refl

pub three_bytes :
    (c : ℕ) → c < 256 → (bit_and c 0b11110000 == 0b11100000) ≡ (leb 224 c && ltb c 240)
three_bytes c lt = same→eq _ _ (
    all_below_lem 256 c (λ c. same (bit_and c 0b11110000 == 0b11100000) (leb 224 c && ltb c 240))
      table lt)
  where
    table :
        all_below 256 (λ c. same (bit_and c 0b11110000 == 0b11100000) (leb 224 c && ltb c 240))
        ≡ true
    table = unfold all_below same in refl

pub four_bytes : (c : ℕ) → c < 256 → (bit_and c 0b11111000 == 0b11110000) ≡ (leb 240 c && ltb c 248)
four_bytes c lt = same→eq _ _ (
    all_below_lem 256 c (λ c. same (bit_and c 0b11111000 == 0b11110000) (leb 240 c && ltb c 248))
      table lt)
  where
    table :
        all_below 256 (λ c. same (bit_and c 0b11111000 == 0b11110000) (leb 240 c && ltb c 248))
        ≡ true
    table = unfold all_below same in refl

decode_one : (c : ℕ) (rest : List ℕ) → c < 128 → str_unicode (c ∷ rest) ≡ pos c
unfolding str_unicode
decode_one c rest lt = rw (lt→ltb c 128 lt) refl

decode_two :
    (a b : ℕ) (rest : List ℕ)
    → a < 32
    → b < 64
    → str_unicode ((192 + a) ∷ (128 + b) ∷ rest) ≡ pos (a * 64 + b)
unfolding str_unicode
decode_two a b rest ha hb = ground (
  arith,
  two_bytes (192 + a) (omega arith),
  bit_and-ones 5 (192 + a),
  next_bits_lem (bit_and (192 + a) 31) (128 + b),
)

decode_three :
    (a b d : ℕ) (rest : List ℕ)
    → a < 16
    → b < 64
    → d < 64
    → str_unicode ((224 + a) ∷ (128 + b) ∷ (128 + d) ∷ rest) ≡ pos ((a * 64 + b) * 64 + d)
unfolding str_unicode
decode_three a b d rest ha hb hd =
    let first = bit_and (224 + a) 15 in
    ground (
      arith,
      two_bytes (224 + a) (omega arith),
      three_bytes (224 + a) (omega arith),
      bit_and-ones 4 (224 + a),
      next_bits_lem first (128 + b),
      next_bits_lem (next_bits first (128 + b)) (128 + d),
    )

decode_four :
    (a b d e : ℕ) (rest : List ℕ)
    → a < 8
    → b < 64
    → d < 64
    → e < 64
    → str_unicode ((240 + a) ∷ (128 + b) ∷ (128 + d) ∷ (128 + e) ∷ rest)
      ≡ pos (((a * 64 + b) * 64 + d) * 64 + e)
unfolding str_unicode
decode_four a b d e rest ha hb hd he =
    let first = bit_and (240 + a) 7 in
    let second = next_bits first (128 + b) in
    ground (
      arith,
      two_bytes (240 + a) (omega arith),
      three_bytes (240 + a) (omega arith),
      four_bytes (240 + a) (omega arith),
      bit_and-ones 3 (240 + a),
      next_bits_lem first (128 + b),
      next_bits_lem second (128 + d),
      next_bits_lem (next_bits second (128 + d)) (128 + e),
    )

-- An encoding decodes to its code point, whatever stands after it.
pub str_unicode-encoding :
    (c : ℕ) (rest : List ℕ) → c ≤ 0x10FFFF → str_unicode (encoding c ++ rest) ≡ pos c
unfolding encoding
str_unicode-encoding c rest hi = elim (Bool-cases (ltb c 0x80)) [
  | inl h ↦ rw (encoding, h) (decode_one c rest (omega tests))
  | inr h ↦ elim (Bool-cases (ltb c 0x800)) [
    | inl h2 ↦
        rw (encoding, h, h2)
          (decode_two (c / 64) (c % 64) rest (omega tests) (omega arith) ∙ ap pos (omega arith))
    | inr h2 ↦ elim (Bool-cases (ltb c 0x10000)) [
      | inl h3 ↦
          rw (encoding, h, h2, h3)
            (decode_three (c / 4096) (c / 64 % 64) (c % 64) rest (omega tests) (omega arith)
                (omega arith)
              ∙ ap pos (omega arith))
      | inr h3 ↦
          rw (encoding, h, h2, h3)
            (decode_four (c / 262144) (c / 4096 % 64) (c / 64 % 64) (c % 64) rest (omega arith)
                (omega arith) (omega arith) (omega arith)
              ∙ ap pos (omega arith))
    ]
  ]
]

-- For every code point, the string that `str_from_unicode` makes decodes to that code point: also
-- for 0, whose string is empty, since the zero byte at its end is read.
pub str_unicode-str_from_unicode :
    (c : ℕ)
    → c ≤ 0x10FFFF
    → (s : List ℕ) × (str_from_unicode (pos c) ≡ some s) × (str_unicode s ≡ pos c)
str_unicode-str_from_unicode zero hi =
    ([], unfold str_from_unicode in refl, unfold str_unicode in refl)
str_unicode-str_from_unicode (suc c) hi =
    let whole = str_unicode-encoding (suc c) [] hi in
    (encoding (suc c), str_from_unicode_lem (suc c) (omega arith) hi, rw append-nil at whole)
