-- ===== src/Semantics/CodePoints/Decoding.antt =====
-- `calcCodePoint` of qumir/semantics/name_resolution/name_resolver.cpp on the bytes of a text.
use Prim.Native.Nat.{bit_and}
use qumir.Prelude.{
  ℕ, ◌+◌, ◌*◌, ◌/◌, ◌%◌, ◌^◌, ◌<◌, ◌≤◌, true, false, ◌&&◌, List, [], ◌∷◌, ◌++◌, ltb, leb, ◌==◌,
  Eq-nat, if◌then◌else◌, ◌≡◌, refl, ap, ◌∙◌, arith, tests, Bool-cases, inl, inr, All, lt→ltb,
}
use qumir.Prelude.Bits.{bit_and-ones, bit_or-shifted}
use qumir.Runtime.Utf8.RoundTrip.{
  encoding, all_below, all_below_lem, same, same→eq, two_bytes, three_bytes, four_bytes,
}
use qumir.Runtime.Strings.Symbols.{IsSymbol, text}
use qumir.Semantics.CodePoints.{flush, continued, code_points_from, calc_code_points}

single_byte : (c : ℕ) → c < 256 → (bit_and c 0x80 == 0) ≡ ltb c 128
single_byte c lt =
    same→eq _ _ (all_below_lem 256 c (λ c. same (bit_and c 0x80 == 0) (ltb c 128)) table lt)
  where
    table : all_below 256 (λ c. same (bit_and c 0x80 == 0) (ltb c 128)) ≡ true
    table = unfold all_below same in refl

inner_byte : (c : ℕ) → c < 256 → (bit_and c 0xC0 == 0x80) ≡ (leb 128 c && ltb c 192)
inner_byte c lt =
    same→eq _ _
      (all_below_lem 256 c (λ c. same (bit_and c 0xC0 == 0x80) (leb 128 c && ltb c 192)) table lt)
  where
    table : all_below 256 (λ c. same (bit_and c 0xC0 == 0x80) (leb 128 c && ltb c 192)) ≡ true
    table = unfold all_below same in refl

first_step :
    (p c : ℕ) (s : List ℕ)
    → c < 128
    → code_points_from p (c ∷ s) ≡ flush p (c ∷ code_points_from 0 s)
unfolding code_points_from
first_step p c s h = rw (single_byte c (omega arith), lt→ltb c 128 h)

continued_lem : (p x : ℕ) → x < 64 → p < 2 ^ 26 → continued p (128 + x) ≡ p * 64 + x
continued_lem p x h k =
    let low : bit_and (128 + x) 0x3F ≡ x = bit_and-ones 6 (128 + x) ∙ omega arith in
    let high : p * 2 ^ 6 % 2 ^ 32 ≡ p * 2 ^ 6 = omega arith in
    rw (low, high) (bit_or-shifted 6 p x h)

inner_step :
    (p x : ℕ) (s : List ℕ)
    → x < 64
    → p < 2 ^ 26
    → code_points_from p ((128 + x) ∷ s) ≡ code_points_from (p * 64 + x) s
unfolding code_points_from
inner_step p x s h k = ground (
  arith,
  single_byte (128 + x) (omega arith),
  inner_byte (128 + x) (omega arith),
  ap (λ q. code_points_from q s) (continued_lem p x h k),
)

lead_step :
    (p a : ℕ) (s : List ℕ)
    → a < 32
    → code_points_from p ((192 + a) ∷ s) ≡ flush p (code_points_from a s)
unfolding code_points_from
lead_step p a s h =
    let bits : bit_and (192 + a) 0x1F ≡ a = bit_and-ones 5 (192 + a) ∙ omega arith in
    ground (
      arith,
      single_byte (192 + a) (omega arith),
      inner_byte (192 + a) (omega arith),
      two_bytes (192 + a) (omega arith),
      ap (λ q. code_points_from q s) bits,
    )

long_lead_step :
    (p a : ℕ) (s : List ℕ)
    → a < 16
    → code_points_from p ((224 + a) ∷ s) ≡ flush p (code_points_from a s)
unfolding code_points_from
long_lead_step p a s h =
    let bits : bit_and (224 + a) 0x0F ≡ a = bit_and-ones 4 (224 + a) ∙ omega arith in
    ground (
      arith,
      single_byte (224 + a) (omega arith),
      inner_byte (224 + a) (omega arith),
      two_bytes (224 + a) (omega arith),
      three_bytes (224 + a) (omega arith),
      ap (λ q. code_points_from q s) bits,
    )

longest_lead_step :
    (p a : ℕ) (s : List ℕ)
    → a < 8
    → code_points_from p ((240 + a) ∷ s) ≡ flush p (code_points_from a s)
unfolding code_points_from
longest_lead_step p a s h =
    let bits : bit_and (240 + a) 0x07 ≡ a = bit_and-ones 3 (240 + a) ∙ omega arith in
    ground (
      arith,
      single_byte (240 + a) (omega arith),
      inner_byte (240 + a) (omega arith),
      two_bytes (240 + a) (omega arith),
      three_bytes (240 + a) (omega arith),
      four_bytes (240 + a) (omega arith),
      ap (λ q. code_points_from q s) bits,
    )

moved :
    (p : ℕ) (s : List ℕ) {q r : ℕ}
    → q ≡ r
    → flush p (code_points_from q s) ≡ flush p (code_points_from r s)
moved p s e = ap (λ (q : ℕ). flush p (code_points_from q s)) e

-- The bytes of a code point that takes several leave it to be completed.
code_points_from-encoding :
    (p c : ℕ) (s : List ℕ)
    → ltb c 0x80 ≡ false
    → c ≤ 0x10FFFF
    → code_points_from p (encoding c ++ s) ≡ flush p (code_points_from c s)
unfolding encoding
code_points_from-encoding p c s h hi = elim (Bool-cases (ltb c 0x800)) [
  | inl h2 ↦
      rw
        (
          h,
          h2,
          lead_step p (c / 64) ((128 + c % 64) ∷ s) (omega tests),
          inner_step (c / 64) (c % 64) s (omega arith) (omega tests),
        )
        (moved p s (omega arith))
  | inr h2 ↦ elim (Bool-cases (ltb c 0x10000)) [
    | inl h3 ↦
        rw
          (
            h,
            h2,
            h3,
            long_lead_step p (c / 4096) ((128 + c / 64 % 64) ∷ (128 + c % 64) ∷ s) (omega tests),
            inner_step (c / 4096) (c / 64 % 64) ((128 + c % 64) ∷ s) (omega arith) (omega tests),
            inner_step (c / 4096 * 64 + c / 64 % 64) (c % 64) s (omega arith) (omega tests),
          )
          (moved p s (omega arith))
    | inr h3 ↦
        rw
          (
            h,
            h2,
            h3,
            longest_lead_step p (c / 262144)
                ((128 + c / 4096 % 64) ∷ (128 + c / 64 % 64) ∷ (128 + c % 64) ∷ s) (omega arith),
            inner_step (c / 262144) (c / 4096 % 64) ((128 + c / 64 % 64) ∷ (128 + c % 64) ∷ s)
                (omega arith) (omega arith),
            inner_step (c / 262144 * 64 + c / 4096 % 64) (c / 64 % 64) ((128 + c % 64) ∷ s)
                (omega arith) (omega arith),
            inner_step ((c / 262144 * 64 + c / 4096 % 64) * 64 + c / 64 % 64) (c % 64) s
                (omega arith) (omega arith),
          )
          (moved p s (omega arith))
  ]
]

-- The symbols of a text without the last one where that takes several bytes.
unfoldable pub without_wide_last : List ℕ → List ℕ
without_wide_last [] = []
without_wide_last (c ∷ []) = if ltb c 0x80 then c ∷ [] else []
without_wide_last (c ∷ d ∷ cs) = c ∷ without_wide_last (d ∷ cs)

abbrev after : ℕ → List ℕ → List ℕ
after p [] = []
after p (c ∷ cs) = flush p (without_wide_last (c ∷ cs))

narrow_first :
    (c : ℕ) (cs : List ℕ) → ltb c 0x80 ≡ true → c ∷ after 0 cs ≡ without_wide_last (c ∷ cs)
unfolding without_wide_last
narrow_first c [] h = rw h refl
narrow_first c (d ∷ cs) h = refl

wide_first : (c : ℕ) (cs : List ℕ) → ltb c 0x80 ≡ false → after c cs ≡ without_wide_last (c ∷ cs)
unfolding without_wide_last
wide_first c [] h = rw h refl
wide_first c (d ∷ cs) h = let positive : (c == 0) ≡ false = ground arith in rw positive refl

code_points_from-text :
    (p : ℕ) (cs : List ℕ) → All IsSymbol cs → code_points_from p (text cs) ≡ after p cs
unfolding text code_points_from encoding without_wide_last
code_points_from-text p [] h = refl
code_points_from-text p (c ∷ cs) h = elim (Bool-cases (ltb c 0x80)) [
  | inl narrow ↦
      rw
        (
          encoding,
          narrow,
          first_step p c (text cs) (omega tests),
          code_points_from-text 0 cs h.1,
          narrow_first c cs narrow,
        )
        refl
  | inr wide ↦
      rw
        (
          code_points_from-encoding p c (text cs) wide h.0.1,
          code_points_from-text c cs h.1,
          wide_first c cs wide,
        )
        refl
]

-- The code points of a text are its symbols in their order, but for a last one that takes several
-- bytes: it is never added, since no byte of a next symbol follows it.
pub calc_code_points_lem :
    (cs : List ℕ) → All IsSymbol cs → calc_code_points (text cs) ≡ without_wide_last cs
unfolding calc_code_points without_wide_last
calc_code_points_lem [] h = code_points_from-text 0 [] h
calc_code_points_lem (c ∷ cs) h = code_points_from-text 0 (c ∷ cs) h
