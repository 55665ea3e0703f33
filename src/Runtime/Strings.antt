-- ===== src/Runtime/Strings.antt =====
-- Strings of the runtime, qumir/runtime/string.h and string.cpp. A string is counted in symbols, that
-- is code points, and symbols are numbered from 1. A null pointer is `none` of an option; an access
-- out of the range of `Utf8Indices` is `none` of the option around a result.
use qumir.Prelude.{
  ℕ, zero, suc, ◌+◌, ◌-◌, ◌%◌, ◌^◌, ◌<◌, ℤ, pos, negsuc, Bool, true, false, not, Option, none, some,
  List, [], ◌∷◌, ◌++◌, ltb, leb, ◌==◌, Eq-nat, if◌then◌else◌, length, get_elem?, ◌>>=◌,
}
use qumir.Prelude.Segments.{take, drop}
use qumir.Runtime.Utf8.{str_unicode, c_string}
use Prim.Native.Nat.{bit_and}
pub mod Symbols
pub mod Slices
pub mod Edits

-- `TString`: `data` has the `Length` bytes before the zero byte at the end, `indices` is
-- `Utf8Indices` with its null pointer.
pub record RtString : Type 0 where
  pub indices : Option (List ℕ)
  pub symbols : ℕ
  pub rc : ℕ
  pub bytes : List ℕ

-- `str_from_lit_`
unfoldable pub str_from_lit_with : List ℕ → RtString
str_from_lit_with bytes = record { indices = none; symbols = 0; rc = 1; bytes = bytes }

-- `str_from_lit`, which takes the bytes up to the first zero.
unfoldable pub str_from_lit : Option (List ℕ) → Option RtString
str_from_lit none = none
str_from_lit (some s) = some (str_from_lit_with (c_string s))

-- A byte that starts a symbol.
unfoldable pub starts_symbol : ℕ → Bool
starts_symbol b = not (bit_and b 0b11000000 == 0b10000000)

-- The loop of `build_utf8_indices`.
unfoldable pub symbol_starts : ℕ → List ℕ → List ℕ
symbol_starts i [] = []
symbol_starts i (b ∷ bs) =
    let later = symbol_starts (suc i) bs in if starts_symbol b then i ∷ later else later

-- `build_utf8_indices`
unfoldable pub build_utf8_indices : RtString → RtString
build_utf8_indices s =
    let starts = symbol_starts 0 s.bytes in
    record s { indices = some (starts ++ length s.bytes ∷ []); symbols = length starts }

-- The start of each operation that counts symbols.
unfoldable pub with_indices : RtString → RtString
with_indices s = elim s.indices [ none ↦ build_utf8_indices s | some indices ↦ s ]

-- `str->Utf8Indices[i]`
unfoldable pub index_at : RtString → ℕ → Option ℕ
index_at s i = elim s.indices [ none ↦ none | some indices ↦ get_elem? indices i ]

-- `str_len`, with the string after it.
unfoldable pub str_len : RtString → RtString × ℕ
str_len s = let t = with_indices s in (t, t.symbols)

-- A position that is raised to 1.
unfoldable pub at_least_one : ℤ → ℕ
at_least_one (negsuc n) = 1
at_least_one (pos zero) = 1
at_least_one (pos (suc n)) = suc n

-- An end position that is lowered to the number of symbols; below 1, all are the same.
unfoldable pub at_most : ℤ → ℕ → ℕ
at_most (negsuc n) symbols = 0
at_most (pos n) symbols = if leb symbols n then symbols else n

-- The end of `str_slice`, of a string with its indices.
unfoldable pub slice_between : RtString → ℕ → ℕ → Option (RtString × Option RtString)
slice_between t first last =
    let part : Option (RtString × Option RtString) = (do
      from ← index_at t (first - 1)
      to ← index_at t last
      some (t, some (str_from_lit_with (take (to - from) (drop from t.bytes))))) in
    if ltb last first then some (t, none) else part

-- `str_slice`
unfoldable pub str_slice : RtString → ℤ → ℤ → Option (RtString × Option RtString)
str_slice s start_symbol end_symbol =
    let t = with_indices s in
    slice_between t (at_least_one start_symbol) (at_most end_symbol t.symbols)

-- The end of `str_symbol_at`, at a position from 1 on.
unfoldable pub symbol_in : RtString → ℕ → Option (RtString × ℤ)
symbol_in t n =
    let found : Option (RtString × ℤ) = (do
      from ← index_at t n
      some (t, str_unicode (drop from t.bytes))) in
    if ltb t.symbols (suc n) then some (t, negsuc 0) else found

-- `str_symbol_at`
unfoldable pub str_symbol_at : RtString → ℤ → Option (RtString × ℤ)
str_symbol_at s (negsuc n) = some (with_indices s, negsuc 0)
str_symbol_at s (pos zero) = some (with_indices s, negsuc 0)
str_symbol_at s (pos (suc n)) = symbol_in (with_indices s) n

-- The end of `str_delete_symbols`, of a string with its indices.
unfoldable pub delete_between : RtString → ℕ → ℕ → Option RtString
delete_between t first last =
    let rest : Option RtString = (do
      start_byte ← index_at t (first - 1)
      end_byte ← index_at t last
      some (str_from_lit_with (take start_byte t.bytes ++ drop end_byte t.bytes))) in
    if ltb last first then some t else rest

-- `startSymbol + count - 1` in 64 bits, for a count of `suc n`; a sum beyond them wraps around.
unfoldable pub end_symbol : ℕ → ℕ → ℤ
end_symbol first n =
    let sum = (first + n) % 2 ^ 64 in
    if ltb sum (2 ^ 63) then pos sum else negsuc (2 ^ 64 - 1 - sum)

-- `str_delete_symbols`: the string that `*s` points to afterwards.
unfoldable pub str_delete_symbols : RtString → ℤ → ℤ → Option RtString
str_delete_symbols s start_symbol (negsuc n) = some (with_indices s)
str_delete_symbols s start_symbol (pos zero) = some (with_indices s)
str_delete_symbols s start_symbol (pos (suc n)) =
    let t = with_indices s in
    let first = at_least_one start_symbol in
    delete_between t first (at_most (end_symbol first n) t.symbols)

-- The end of `str_insert_symbols`, of a string with its indices.
unfoldable pub insert_in : List ℕ → RtString → ℕ → Option RtString
insert_in inserted t symbol = do
  byte ← index_at t (symbol - 1)
  some (str_from_lit_with (take byte t.bytes ++ (c_string inserted ++ drop byte t.bytes)))

-- `str_insert_symbols` into a string that is not null.
unfoldable pub str_insert_symbols : Option (List ℕ) → RtString → ℤ → Option RtString
str_insert_symbols none s at = some s
str_insert_symbols (some inserted) s at =
    let t = with_indices s in insert_in inserted t (at_most (pos (at_least_one at)) (suc t.symbols))
