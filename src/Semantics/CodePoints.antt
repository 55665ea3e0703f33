-- ===== src/Semantics/CodePoints.antt =====
-- `calcCodePoint` of `TNameResolver::Suggest`, qumir/semantics/name_resolution/name_resolver.cpp: the
-- code points of a name, from its bytes.
use Prim.Native.Nat.{bit_and, bit_or}
use qumir.Prelude.{ℕ, ◌*◌, ◌%◌, ◌^◌, List, [], ◌∷◌, ◌==◌, Eq-nat, if◌then◌else◌}
pub mod Decoding

-- A code point that is complete when the next symbol starts.
abbrev pub flush : ℕ → List ℕ → List ℕ
flush codepoint cp = if codepoint == 0 then cp else codepoint ∷ cp

-- `(codepoint << 6) | (c & 0x3F)` on 32 bits.
abbrev pub continued : ℕ → ℕ → ℕ
continued codepoint c = bit_or (codepoint * 2 ^ 6 % 2 ^ 32) (bit_and c 0x3F)

-- The loop over the bytes of a name: what it appends to `cp` from here on.
unfoldable pub code_points_from : ℕ → List ℕ → List ℕ
code_points_from codepoint [] = []
code_points_from codepoint (c ∷ s) =
    let single = code_points_from 0 s in
    let more = code_points_from (continued codepoint c) s in
    let two = code_points_from (bit_and c 0x1F) s in
    let three = code_points_from (bit_and c 0x0F) s in
    let four = code_points_from (bit_and c 0x07) s in
    let skipped = code_points_from codepoint s in
    if bit_and c 0x80 == 0
    then flush codepoint (c ∷ single)
    else if bit_and c 0xC0 == 0x80
    then more
    else if bit_and c 0xE0 == 0xC0
    then flush codepoint two
    else if bit_and c 0xF0 == 0xE0
    then flush codepoint three
    else if bit_and c 0xF8 == 0xF0
    then flush codepoint four
    else skipped

-- `calcCodePoint`
unfoldable pub calc_code_points : List ℕ → List ℕ
calc_code_points s = code_points_from 0 s
