-- ===== src/Runtime/Strings/Slices.antt =====
-- The operations on symbols, by the text that a string holds.
use qumir.Prelude.{
  ℕ, zero, suc, ◌<◌, ℤ, pos, negsuc, true, false, Option, none, some, List, [], ◌∷◌, ltb, length,
  get_elem?, get_elem?-some, get_elem?-none, ◌≡◌, refl, ap, arith, All,
}
use native.Mathlib.Decide.{dec_lt}
use qumir.Prelude.Segments.{take, drop}
use qumir.Runtime.Utf8.{str_unicode}
use qumir.Runtime.Utf8.RoundTrip.{str_unicode-encoding}
use qumir.Runtime.Strings.{
  RtString, str_from_lit_with, with_indices, at_least_one, symbol_in, str_symbol_at, str_len,
}
use qumir.Runtime.Strings.Symbols.{
  IsSymbol, text, drop-text, IsIndexed, HoldsText, indexed, with_indices-IsIndexed,
}

-- A string for a text: the null pointer for the empty one.
abbrev pub string_of : List ℕ → Option RtString
string_of [] = none
string_of (c ∷ cs) = some (str_from_lit_with (text (c ∷ cs)))

-- The first symbol of a rest of a text.
pub symbol_after :
    (n : ℕ) (cs : List ℕ) (c : ℕ)
    → All IsSymbol cs
    → get_elem? cs n ≡ some c
    → str_unicode (text (drop n cs)) ≡ pos c
unfolding text
symbol_after n [] c h e = absurd (ground (arith, e))
symbol_after zero (d ∷ cs) c h e =
    let same : d ≡ c = cc in rw (← same) (str_unicode-encoding d (text cs) h.0.1)
symbol_after (suc n) (d ∷ cs) c h e = symbol_after n cs c h.1 e

-- The code point at a place of a text, -1 beyond the end.
abbrev pub code_point_or : Option ℕ → ℤ
code_point_or none = negsuc 0
code_point_or (some c) = pos c

symbol_in_lem :
    (cs : List ℕ) (t : RtString) (n : ℕ)
    → All IsSymbol cs
    → IsIndexed cs t
    → symbol_in t n ≡ some (t, code_point_or (get_elem? cs n))
unfolding symbol_in
symbol_in_lem cs t n h i = elim (dec_lt n (length cs)) [
  | yes lt ↦
      let (c, e) = get_elem?-some cs n lt in
      let inside : ltb t.symbols (suc n) ≡ false = ground (arith, i.counted) in
      let here : str_unicode (drop (length (text (take n cs))) t.bytes) ≡ pos c =
        rw i.is_text (rw (drop-text n cs) (symbol_after n cs c h e)) in
      rw (inside, i.starts n (omega arith), e) (ap (λ (z : ℤ). some (t, z)) here)
  | no beyond ↦
      let outside : ltb t.symbols (suc n) ≡ true = ground (arith, i.counted) in
      rw (outside, get_elem?-none cs n (omega arith)) refl
]

-- The length of a string is the number of code points of its text. Its symbol at a position,
-- counted from 1, is the code point there, and -1 beyond the end. Both leave a string that
-- holds the text.
pub str_symbol_at_lem :
    (cs : List ℕ) (s : RtString) (n : ℕ)
    → All IsSymbol cs
    → HoldsText cs s
    → (t : RtString) × HoldsText cs t
      × (str_len s ≡ (t, length cs))
      × (str_symbol_at s (pos (suc n)) ≡ some (t, code_point_or (get_elem? cs n)))
unfolding str_len str_symbol_at
str_symbol_at_lem cs s n h holds =
    let i = with_indices-IsIndexed cs s h holds in
    (
      with_indices s,
      indexed i,
      ap (λ (k : ℕ). (with_indices s, k)) i.counted,
      symbol_in_lem cs (with_indices s) n h i,
    )

pub at_least_one_pos : (a : ℤ) → 0 < at_least_one a
unfolding at_least_one
at_least_one_pos (negsuc n) = omega arith
at_least_one_pos (pos zero) = omega arith
at_least_one_pos (pos (suc n)) = omega arith

-- The last symbol that a slice may have: the end, or the end of the text.
abbrev pub last_symbol : ℤ → ℕ
last_symbol (negsuc n) = 0
last_symbol (pos n) = n
