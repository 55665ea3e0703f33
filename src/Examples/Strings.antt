-- ===== src/Examples/Strings.antt =====
-- Strings of the runtime, qumir/runtime/string.cpp.
use qumir.Prelude.{ℕ, pos, none, some, List, [], ◌∷◌, length, get_elem?, ◌≡◌, refl, arith, All}
use qumir.Runtime.Utf8.{str_unicode, str_from_unicode}
use qumir.Runtime.Utf8.RoundTrip.{encoding, str_unicode-str_from_unicode}
use qumir.Runtime.Strings.{
  RtString, str_from_lit_with, at_least_one, str_slice, str_symbol_at, str_len, with_indices,
  build_utf8_indices, symbol_starts, starts_symbol, index_at, at_most, slice_between,
}
use qumir.Runtime.Strings.Symbols.{IsSymbol, text, HoldsText, fresh, str_from_lit_with-HoldsText}
use qumir.Runtime.Strings.Slices.{code_point_or, str_symbol_at_lem}
use qumir.Runtime.Comparing.{str_compare, memcmp}
use qumir.Runtime.Comparing.Dictionary.{dictionary_order}
use qumir.Runtime.Comparing.Order.{str_compare_lem}

-- Four symbols of one, two, three and four bytes.
abbrev mixed : List ℕ
mixed = 0x61 ∷ 0x41F ∷ 0x20AC ∷ 0x1F600 ∷ []

mixed_symbols : All IsSymbol mixed
mixed_symbols = omega arith

abbrev mixed_bytes : List ℕ
mixed_bytes = 0x61 ∷ 0xD0 ∷ 0x9F ∷ 0xE2 ∷ 0x82 ∷ 0xAC ∷ 0xF0 ∷ 0x9F ∷ 0x98 ∷ 0x80 ∷ []

mixed-text : text mixed ≡ mixed_bytes
unfolding text encoding
mixed-text = refl

abbrev mixed_string : RtString
mixed_string = record { indices = none; symbols = 0; rc = 1; bytes = mixed_bytes }

mixed_held : HoldsText mixed mixed_string
unfolding text encoding
mixed_held = fresh refl refl

-- The middle two symbols.
middle_slice :
    str_slice mixed_string (pos 2) (pos 3)
    ≡ some (
      record mixed_string { indices = some (0 ∷ 1 ∷ 3 ∷ 6 ∷ 10 ∷ []); symbols = 4 },
      some (str_from_lit_with (0xD0 ∷ 0x9F ∷ 0xE2 ∷ 0x82 ∷ 0xAC ∷ [])),
    )
unfolding str_slice slice_between with_indices build_utf8_indices symbol_starts starts_symbol
    index_at at_most at_least_one
middle_slice = refl

str_unicode-str_from_unicode_example :
    (s : List ℕ) × (str_from_unicode (pos 0x20AC) ≡ some s) × (str_unicode s ≡ pos 0x20AC)
str_unicode-str_from_unicode_example = str_unicode-str_from_unicode 0x20AC (omega arith)

str_symbol_at_lem_example :
    (t : RtString) × HoldsText mixed t
    × (str_len mixed_string ≡ (t, length mixed))
    × (str_symbol_at mixed_string (pos 3) ≡ some (t, code_point_or (get_elem? mixed 2)))
str_symbol_at_lem_example = str_symbol_at_lem mixed mixed_string 2 mixed_symbols mixed_held

-- The same text up to its last symbol, which is a larger one here.
abbrev other : List ℕ
other = 0x61 ∷ 0x41F ∷ 0x20AC ∷ 0x1F601 ∷ []

mixed_itself : str_compare (some mixed_string) (some mixed_string) ≡ pos 0
unfolding str_compare memcmp
mixed_itself = refl

str_compare_lem_example :
    str_compare (some mixed_string) (some (str_from_lit_with (text other)))
    ≡ dictionary_order mixed other
str_compare_lem_example =
    str_compare_lem mixed other mixed_string (str_from_lit_with (text other)) mixed_held
      (str_from_lit_with-HoldsText other (text other) refl)
