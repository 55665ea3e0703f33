-- ===== src/Runtime/Comparing.antt =====
-- `str_concat` and `str_compare`, qumir/runtime/string.cpp. A null pointer is `none`; the two pointers
-- are compared by what they point to, which gives 0 as well where they are one.
use qumir.Prelude.{
  ℕ, zero, suc, ℤ, pos, negsuc, Option, none, some, List, [], ◌∷◌, ◌++◌, ltb, ◌==◌, Eq-nat, Eq-int,
  if◌then◌else◌, min, length,
}
use qumir.Runtime.Utf8.{c_string}
use qumir.Runtime.Strings.{RtString, str_from_lit_with}
pub mod Dictionary
pub mod Order

-- The bytes of a C string, or of an empty one.
abbrev pub bytes_or_empty : Option RtString → List ℕ
bytes_or_empty none = []
bytes_or_empty (some s) = c_string s.bytes

-- `str_concat`
unfoldable pub str_concat : Option RtString → Option RtString → RtString
str_concat a b = str_from_lit_with (bytes_or_empty a ++ bytes_or_empty b)

-- `memcmp` of the first `n` bytes, with a result of -1, 0 or 1.
unfoldable pub memcmp : ℕ → List ℕ → List ℕ → ℤ
memcmp zero a b = pos 0
memcmp (suc n) (x ∷ a) (y ∷ b) =
    let later = memcmp n a b in if x == y then later else if ltb x y then negsuc 0 else pos 1
memcmp (suc n) _ _ = pos 0

-- The comparison of two lengths.
abbrev pub length_order : ℕ → ℕ → ℤ
length_order m n = if ltb m n then negsuc 0 else if ltb n m then pos 1 else pos 0

abbrev pub or_else : ℤ → ℤ → ℤ
or_else (negsuc n) later = negsuc 0
or_else (pos zero) later = later
or_else (pos (suc n)) later = pos 1

-- `str_compare`
unfoldable pub str_compare : Option RtString → Option RtString → ℤ
str_compare none none = pos 0
str_compare none (some b) = negsuc 0
str_compare (some a) none = pos 1
str_compare (some a) (some b) =
    let m = length a.bytes in
    let n = length b.bytes in or_else (memcmp (min m n) a.bytes b.bytes) (length_order m n)
