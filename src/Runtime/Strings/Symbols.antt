-- ===== src/Runtime/Strings/Symbols.antt =====
-- The symbols of a string that encodes code points.
use qumir.Prelude.{
  ℕ, zero, suc, ◌+◌, ◌<◌, ◌≤◌, ◌/◌, ◌%◌, true, false, not, ◌&&◌, none, some, List, [], ◌∷◌, ◌++◌,
  ltb, leb, Eq-nat, length, get_elem?, ◌≡◌, refl, sym, ap, ◌∙◌, arith, tests, Bool-cases, inl, inr,
  All, length-append,
}
use mathlib.Core.List.{append_assoc}
use qumir.Prelude.Segments.{take, drop, take-append, drop-append}
use qumir.Runtime.Utf8.RoundTrip.{encoding, all_below, all_below_lem, same, same→eq}
use qumir.Runtime.Strings.{
  RtString, str_from_lit_with, starts_symbol, symbol_starts, build_utf8_indices, with_indices,
  index_at,
}

-- A code point that a string can hold: 0 ends a string.
abbrev pub IsSymbol : ℕ → Type 0
IsSymbol c = (0 < c) × (c ≤ 0x10FFFF)

-- The bytes of a text.
unfoldable pub text : List ℕ → List ℕ
text [] = []
text (c ∷ cs) = encoding c ++ text cs

starts_table : all_below 256 (λ b. same (starts_symbol b) (not (leb 128 b && ltb b 192))) ≡ true
unfolding all_below same starts_symbol
starts_table = refl

pub starts_symbol_lem : (b : ℕ) → b < 256 → starts_symbol b ≡ not (leb 128 b && ltb b 192)
starts_symbol_lem b lt = same→eq _ _ (
    all_below_lem 256 b (λ c. same (starts_symbol c) (not (leb 128 c && ltb c 192))) starts_table
      lt)

first_starts : (b : ℕ) → b < 256 → b < 128 → starts_symbol b ≡ true
first_starts b h lt = ground (arith, starts_symbol_lem b h)

lead_starts : (b : ℕ) → b < 256 → 192 ≤ b → starts_symbol b ≡ true
lead_starts b h le = ground (arith, starts_symbol_lem b h)

inner_continues : (x : ℕ) → x < 64 → starts_symbol (128 + x) ≡ false
inner_continues x lt = ground (arith, starts_symbol_lem (128 + x) (omega arith))

moved :
    (i : ℕ) (rest : List ℕ) {j k : ℕ} → j ≡ k → i ∷ symbol_starts j rest ≡ i ∷ symbol_starts k rest
moved i rest e = ap (λ (n : ℕ). i ∷ symbol_starts n rest) e

-- An encoding starts one symbol, at its first byte.
symbol_starts-encoding :
    (c i : ℕ) (rest : List ℕ)
    → c ≤ 0x10FFFF
    → symbol_starts i (encoding c ++ rest) ≡ i ∷ symbol_starts (length (encoding c) + i) rest
unfolding symbol_starts encoding
symbol_starts-encoding c i rest hi = elim (Bool-cases (ltb c 0x80)) [
  | inl h ↦
      rw (encoding, h, first_starts c (omega tests) (omega tests)) (moved i rest (omega arith))
  | inr h ↦ elim (Bool-cases (ltb c 0x800)) [
    | inl h2 ↦
        rw
          (
            encoding,
            h,
            h2,
            lead_starts (192 + c / 64) (omega tests) (omega arith),
            inner_continues (c % 64) (omega arith),
          )
          (moved i rest (omega arith))
    | inr h2 ↦ elim (Bool-cases (ltb c 0x10000)) [
      | inl h3 ↦
          rw
            (
              encoding,
              h,
              h2,
              h3,
              lead_starts (224 + c / 4096) (omega tests) (omega arith),
              inner_continues (c / 64 % 64) (omega arith),
              inner_continues (c % 64) (omega arith),
            )
            (moved i rest (omega arith))
      | inr h3 ↦
          rw
            (
              encoding,
              h,
              h2,
              h3,
              lead_starts (240 + c / 262144) (omega arith) (omega arith),
              inner_continues (c / 4096 % 64) (omega arith),
              inner_continues (c / 64 % 64) (omega arith),
              inner_continues (c % 64) (omega arith),
            )
            (moved i rest (omega arith))
    ]
  ]
]

pub length-symbol_starts :
    (cs : List ℕ) (i : ℕ) → All IsSymbol cs → length (symbol_starts i (text cs)) ≡ length cs
unfolding text symbol_starts
length-symbol_starts [] i h = refl
length-symbol_starts (c ∷ cs) i h =
    rw (symbol_starts-encoding c i (text cs) h.0.1)
      (ap suc (length-symbol_starts cs (length (encoding c) + i) h.1))

-- Where a symbol starts, and at the number of symbols the end.
pub symbol_starts_lem :
    (cs : List ℕ) (i k : ℕ)
    → All IsSymbol cs
    → k ≤ length cs
    → get_elem? (symbol_starts i (text cs) ++ (length (text cs) + i) ∷ []) k
      ≡ some (length (text (take k cs)) + i)
unfolding text symbol_starts
symbol_starts_lem [] i zero h le = refl
symbol_starts_lem [] i (suc k) h le = absurd (omega arith)
symbol_starts_lem (c ∷ cs) i zero h le =
    rw (symbol_starts-encoding c i (text cs) h.0.1) (ap some (omega arith))
symbol_starts_lem (c ∷ cs) i (suc k) h le =
    let own = length (encoding c) in
    let end : length (encoding c ++ text cs) + i ≡ length (text cs) + (own + i) =
      omega (arith, length-append {0} (encoding c) (text cs)) in
    let start : length (text (take k cs)) + (own + i)
        ≡ length (encoding c ++ text (take k cs)) + i =
      omega (arith, length-append {0} (encoding c) (text (take k cs))) in
    rw (symbol_starts-encoding c i (text cs) h.0.1, end)
      (symbol_starts_lem cs (own + i) k h.1 (omega arith) ∙ ap some start)

-- The bytes before and after the start of a symbol.
pub take-text :
    (k : ℕ) (cs : List ℕ) → take (length (text (take k cs))) (text cs) ≡ text (take k cs)
unfolding text
take-text zero cs = refl
take-text (suc k) [] = refl
take-text (suc k) (c ∷ cs) = rw (length-append (encoding c) (text (take k cs))) (
    take-append (length (text (take k cs))) (encoding c) (text cs)
    ∙ ap (λ (bs : List ℕ). encoding c ++ bs) (take-text k cs))

pub drop-text :
    (k : ℕ) (cs : List ℕ) → drop (length (text (take k cs))) (text cs) ≡ text (drop k cs)
unfolding text
drop-text zero cs = refl
drop-text (suc k) [] = refl
drop-text (suc k) (c ∷ cs) =
    rw (length-append (encoding c) (text (take k cs)))
      (drop-append (length (text (take k cs))) (encoding c) (text cs) ∙ drop-text k cs)

pub text-append : (cs ds : List ℕ) → text (cs ++ ds) ≡ text cs ++ text ds
unfolding text
text-append [] ds = refl
text-append (c ∷ cs) ds =
    ap (λ (bs : List ℕ). encoding c ++ bs) (text-append cs ds)
    ∙ sym (append_assoc (encoding c) (text cs) (text ds))

-- A string with its indices, for a text.
pub record IsIndexed (cs : List ℕ) (s : RtString) : Type 0 where
  pub is_text : s.bytes ≡ text cs
  pub counted : s.symbols ≡ length cs
  pub starts : (k : ℕ) → k ≤ length cs → index_at s k ≡ some (length (text (take k cs)))
  pub kept : with_indices s ≡ s

-- A string that holds a text: its indices are not there, or are those of the text.
pub data HoldsText (cs : List ℕ) (s : RtString) : Type 0 where
  fresh : s.indices ≡ none → s.bytes ≡ text cs → HoldsText cs s
  indexed : IsIndexed cs s → HoldsText cs s

pub str_from_lit_with-HoldsText :
    (cs : List ℕ) (bytes : List ℕ) → bytes ≡ text cs → HoldsText cs (str_from_lit_with bytes)
unfolding str_from_lit_with
str_from_lit_with-HoldsText cs bytes e = fresh refl e

built-IsIndexed :
    (cs : List ℕ) (s : RtString)
    → All IsSymbol cs
    → s.bytes ≡ text cs
    → IsIndexed cs (build_utf8_indices s)
unfolding build_utf8_indices with_indices index_at
built-IsIndexed cs s h e = record {
  is_text = e;
  counted = rw e (length-symbol_starts cs 0 h);
  starts = λ k le.
      let end : length (text cs) ≡ length (text cs) + 0 = omega arith in
      let start : length (text (take k cs)) + 0 ≡ length (text (take k cs)) = omega arith in
      rw (e, end) (symbol_starts_lem cs 0 k h le ∙ ap some start);
  kept = refl;
}

pub with_indices-IsIndexed :
    (cs : List ℕ) (s : RtString) → All IsSymbol cs → HoldsText cs s → IsIndexed cs (with_indices s)
unfolding with_indices
with_indices-IsIndexed cs s h (fresh e q) = rw (with_indices, e) (built-IsIndexed cs s h q)
with_indices-IsIndexed cs s h (indexed i) = rw i.kept i
