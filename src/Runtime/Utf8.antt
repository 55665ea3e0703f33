-- ===== src/Runtime/Utf8.antt =====
-- `str_unicode` and `str_from_unicode`, qumir/runtime/string.cpp, on bytes.
use qumir.Prelude.{
  ℕ, zero, suc, ◌+◌, ◌-◌, ◌*◌, ◌/◌, ◌%◌, ◌^◌, ◌<◌, ℤ, pos, negsuc, Bool, Option, none, some, List,
  [], ◌∷◌, ltb, leb, ◌==◌, Eq-nat, if◌then◌else◌,
}
use Prim.Native.Nat.{bit_and, bit_or}
pub mod RoundTrip

-- `s[i]`: the zero byte stands after the last one.
abbrev pub byte_at : List ℕ → ℕ → ℕ
byte_at [] i = 0
byte_at (b ∷ bs) zero = b
byte_at (b ∷ bs) (suc i) = byte_at bs i

-- `(x << 6) | (c & 0b00111111)`
abbrev pub next_bits : ℕ → ℕ → ℕ
next_bits x c = bit_or (x * 2 ^ 6) (bit_and c 0b00111111)

-- `str_unicode` of a string that is not null.
unfoldable pub str_unicode : List ℕ → ℤ
str_unicode s =
    let c = byte_at s 0 in
    let two = next_bits (bit_and c 0b00011111) (byte_at s 1) in
    let three = next_bits (next_bits (bit_and c 0b00001111) (byte_at s 1)) (byte_at s 2) in
    let four =
      next_bits (next_bits (next_bits (bit_and c 0b00000111) (byte_at s 1)) (byte_at s 2))
        (byte_at s 3) in
    if ltb c 0x80
    then pos c
    else if bit_and c 0b11100000 == 0b11000000
    then pos two
    else if bit_and c 0b11110000 == 0b11100000
    then pos three
    else if bit_and c 0b11111000 == 0b11110000
    then pos four
    else negsuc 0

-- The bytes of a C string: up to the first zero.
abbrev pub c_string : List ℕ → List ℕ
c_string [] = []
c_string (b ∷ bs) = if b == 0 then [] else b ∷ c_string bs

-- `(codepoint >> n) & 0b00111111` with the mark of a byte that continues a symbol.
abbrev pub continuation : ℕ → ℕ
continuation x = bit_or 0b10000000 (bit_and x 0b00111111)

-- `str_from_unicode`, the bytes of the new string; `none` is the null pointer.
unfoldable pub str_from_unicode : ℤ → Option (List ℕ)
str_from_unicode (negsuc n) = some (c_string ((255 - n % 256) ∷ []))
str_from_unicode (pos c) =
    if ltb c 0x80
    then some (c_string (c ∷ []))
    else if ltb c 0x800
    then some (c_string (bit_or 0b11000000 (bit_and (c / 2 ^ 6) 0b00011111) ∷ continuation c ∷ []))
    else if ltb c 0x10000
    then some (
        c_string (
          bit_or 0b11100000 (bit_and (c / 2 ^ 12) 0b00001111)
          ∷ continuation (c / 2 ^ 6)
          ∷ continuation c
          ∷ []))
    else if leb c 0x10FFFF
    then some (
        c_string (
          bit_or 0b11110000 (bit_and (c / 2 ^ 18) 0b00000111)
          ∷ continuation (c / 2 ^ 12)
          ∷ continuation (c / 2 ^ 6)
          ∷ continuation c
          ∷ []))
    else none
