-- ===== src/Runtime/Comparing/Order.antt =====
-- `str_compare` of qumir/runtime/string.cpp orders texts by their code points.
use qumir.Prelude.{
  ℕ, suc, ◌+◌, ◌/◌, ◌%◌, ◌<◌, ℤ, pos, negsuc, true, some, List, [], ◌∷◌, ◌++◌, ltb, ◌==◌, Eq-nat,
  if◌then◌else◌, min, length, ◌≡◌, inl, inr, refl, sym, ap, ap₂, nat_order, ◌∙◌, arith, tests,
  Bool-cases,
}
use qumir.Runtime.Utf8.RoundTrip.{encoding}
use qumir.Runtime.Strings.{RtString}
use qumir.Runtime.Strings.Symbols.{text, HoldsText, fresh, indexed}
use qumir.Runtime.Comparing.{memcmp, length_order, or_else, str_compare}
use qumir.Runtime.Comparing.Dictionary.{
  dictionary_order, opposite, below, above, after_same, after_prefix, two_below, three_below,
  four_below, dictionary_order-opposite,
}

first_bytes :
    (x y : ℕ) (early late whole : ℤ)
    → or_else early late ≡ whole
    → or_else (if x == y then early else if ltb x y then negsuc 0 else pos 1) late
      ≡ (if x == y then whole else if ltb x y then negsuc 0 else pos 1)
first_bytes x y early late whole h = ground (arith, h)

length_order_lem :
    (a b : List ℕ)
    → or_else (memcmp (min (length a) (length b)) a b) (length_order (length a) (length b))
      ≡ dictionary_order a b
unfolding memcmp dictionary_order
length_order_lem [] [] = refl
length_order_lem [] (y ∷ b) =
    let e : min 0 (suc (length b)) ≡ 0 = omega arith in rw e (ground arith)
length_order_lem (x ∷ a) [] =
    let e : min (suc (length a)) 0 ≡ 0 = omega arith in rw e (ground arith)
length_order_lem (x ∷ a) (y ∷ b) =
    let e : min (suc (length a)) (suc (length b)) ≡ suc (min (length a) (length b)) = omega arith in
    let later : length_order (suc (length a)) (suc (length b))
        ≡ length_order (length a) (length b) =
      ground arith in
    rw (e, later) (first_bytes x y _ _ _ (length_order_lem a b))

-- The bytes of a smaller code point come first.
encoding-below :
    (c d : ℕ) (a b : List ℕ)
    → c < d
    → dictionary_order (encoding c ++ a) (encoding d ++ b) ≡ negsuc 0
unfolding encoding
encoding-below c d a b h = elim (Bool-cases (ltb d 0x80)) [
  | inl hd ↦ let hc : ltb c 0x80 ≡ true = ground arith in rw (hd, hc) (below c d a b h)
  | inr hd ↦ elim (Bool-cases (ltb c 0x80)) [
    | inl hc ↦ elim (Bool-cases (ltb d 0x800)) [
      | inl hd2 ↦ rw (hd, hd2, hc) (below c _ _ _ (omega tests))
      | inr hd2 ↦ elim (Bool-cases (ltb d 0x10000)) [
        | inl hd3 ↦ rw (hd, hd2, hd3, hc) (below c _ _ _ (omega tests))
        | inr hd3 ↦ rw (hd, hd2, hd3, hc) (below c _ _ _ (omega tests))
      ]
    ]
    | inr hc ↦ elim (Bool-cases (ltb d 0x800)) [
      | inl hd2 ↦
          let hc2 : ltb c 0x800 ≡ true = ground arith in
          rw (hd, hd2, hc, hc2) (two_below 192 c d a b h)
      | inr hd2 ↦ elim (Bool-cases (ltb c 0x800)) [
        | inl hc2 ↦ elim (Bool-cases (ltb d 0x10000)) [
          | inl hd3 ↦ rw (hd, hd2, hd3, hc, hc2) (below _ _ _ _ (omega tests))
          | inr hd3 ↦ rw (hd, hd2, hd3, hc, hc2) (below _ _ _ _ (omega tests))
        ]
        | inr hc2 ↦ elim (Bool-cases (ltb d 0x10000)) [
          | inl hd3 ↦
              let hc3 : ltb c 0x10000 ≡ true = ground arith in
              rw (hd, hd2, hd3, hc, hc2, hc3) (three_below 224 c d a b h)
          | inr hd3 ↦ elim (Bool-cases (ltb c 0x10000)) [
            | inl hc3 ↦ rw (hd, hd2, hd3, hc, hc2, hc3) (below _ _ _ _ (omega tests))
            | inr hc3 ↦ rw (hd, hd2, hd3, hc, hc2, hc3) (four_below 240 c d a b h)
          ]
        ]
      ]
    ]
  ]
]

encoding-first : (c : ℕ) → (x : ℕ) × (rest : List ℕ) × (encoding c ≡ x ∷ rest)
unfolding encoding
encoding-first c = elim (Bool-cases (ltb c 0x80)) [
  | inl h ↦ (c, [], rw h refl)
  | inr h ↦ elim (Bool-cases (ltb c 0x800)) [
    | inl h2 ↦ (192 + c / 64, (128 + c % 64) ∷ [], rw (h, h2) refl)
    | inr h2 ↦ elim (Bool-cases (ltb c 0x10000)) [
      | inl h3 ↦ (224 + c / 4096, (128 + c / 64 % 64) ∷ (128 + c % 64) ∷ [], rw (h, h2, h3) refl)
      | inr h3 ↦ (
        240 + c / 262144,
        (128 + c / 4096 % 64) ∷ (128 + c / 64 % 64) ∷ (128 + c % 64) ∷ [],
        rw (h, h2, h3) refl,
      )
    ]
  ]
]

dictionary_order-text :
    (cs ds : List ℕ) → dictionary_order (text cs) (text ds) ≡ dictionary_order cs ds
unfolding text dictionary_order
dictionary_order-text [] [] = refl
dictionary_order-text [] (d ∷ ds) = let (x, rest, e) = encoding-first d in rw e refl
dictionary_order-text (c ∷ cs) [] = let (x, rest, e) = encoding-first c in rw e refl
dictionary_order-text (c ∷ cs) (d ∷ ds) = elim (nat_order c d) [
  | inl l ↦ encoding-below c d (text cs) (text ds) l ∙ sym (below c d cs ds l)
  | inr (inl l) ↦
      dictionary_order-opposite (encoding d ++ text ds) (encoding c ++ text cs)
      ∙ ap opposite (encoding-below d c (text ds) (text cs) l)
      ∙ sym (above d c ds cs l)
  | inr (inr e) ↦
      ap (λ (x : ℕ). dictionary_order (encoding c ++ text cs) (encoding x ++ text ds)) (sym e)
      ∙ after_prefix (encoding c) (text cs) (text ds)
      ∙ dictionary_order-text cs ds
      ∙ sym (after_same c d cs ds e)
]

bytes-text : (cs : List ℕ) (s : RtString) → HoldsText cs s → s.bytes ≡ text cs
bytes-text cs s (fresh e q) = q
bytes-text cs s (indexed i) = i.is_text

-- Two strings that hold texts compare as the texts in the order of a dictionary, by the numbers of
-- their code points.
pub str_compare_lem :
    (cs ds : List ℕ) (s t : RtString)
    → HoldsText cs s
    → HoldsText ds t
    → str_compare (some s) (some t) ≡ dictionary_order cs ds
unfolding str_compare
str_compare_lem cs ds s t h k =
    length_order_lem s.bytes t.bytes
    ∙ ap₂ dictionary_order (bytes-text cs s h) (bytes-text ds t k)
    ∙ dictionary_order-text cs ds
