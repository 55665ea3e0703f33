-- ===== src/Ir/TmpTypes.antt =====
-- `SetType` and `GetTmpType`, qumir/ir/builder.cpp: the types of the temporaries as a map.
use qumir.Prelude.{
  ℕ, zero, suc, ◌<◌, ◌≢◌, ℤ, pos, negsuc, Option, none, some, List, [], ◌∷◌, ◌≡◌, refl, sym, ◌∙◌,
  arith, get_elem?, get_elem?-set_self, get_elem?-set_ne, Option-cases, length, set, if◌then◌else◌,
  ◌==◌, Eq-int, nat_eq_iff, Bool-cases, inl, inr,
}
use qumir.Ir.Instr.{Function, get_tmp_type, set_type, grow}

-- The type at an index, -1 beyond the end.
abbrev type_or_unknown : Option ℤ → ℤ
type_or_unknown none = negsuc 0
type_or_unknown (some t) = t

grow_read :
    (n j : ℕ) (types : List ℤ)
    → type_or_unknown (get_elem? (grow n (negsuc 0) types) j) ≡ type_or_unknown (get_elem? types j)
grow_read zero j types = refl
grow_read (suc n) zero [] = refl
grow_read (suc n) (suc j) [] = grow_read n j []
grow_read (suc n) zero (t ∷ types) = refl
grow_read (suc n) (suc j) (t ∷ types) = grow_read n j types

length-grow_lt : (n i : ℕ) (types : List ℤ) → i < n → i < length (grow n (negsuc 0) types)
length-grow_lt zero i types lt = absurd (omega arith)
length-grow_lt (suc n) zero [] lt = omega arith
length-grow_lt (suc n) (suc i) [] lt = omega (arith, length-grow_lt n i [] (omega arith))
length-grow_lt (suc n) zero (t ∷ types) lt = omega arith
length-grow_lt (suc n) (suc i) (t ∷ types) lt =
    omega (arith, length-grow_lt n i types (omega arith))

get_tmp_type_read :
    (f : Function) (j : ℕ) → get_tmp_type f (pos j) ≡ type_or_unknown (get_elem? f.tmp_types j)
unfolding get_tmp_type
get_tmp_type_read f j = elim (Option-cases (get_elem? f.tmp_types j)) [
  | inl e ↦ rw (get_tmp_type, e) refl
  | inr (t, e) ↦ rw (get_tmp_type, e) refl
]

-- A temporary that is given a type has it, and every other temporary keeps its own, also where the
-- list of types grows.
set_type_lem :
    (f g : Function) (i : ℕ) (k type_id : ℤ)
    → set_type f (pos i) type_id ≡ some g
    → get_tmp_type g k ≡ (if pos i == k then type_id else get_tmp_type f k)
unfolding set_type get_tmp_type
set_type_lem f g i (negsuc j) type_id h = refl
set_type_lem f g i (pos j) type_id h =
    let grown = grow (suc i) (negsuc 0) f.tmp_types in
    let e : g.tmp_types ≡ set grown i type_id = ground (arith, h) in
    get_tmp_type_read g j
    ∙ rw e (elim (Bool-cases (pos i == pos j)) [
      | inl same ↦
          let q : i ≡ j = (nat_eq_iff i j).0 same in
          rw
            (
              same,
              ← q,
              get_elem?-set_self grown i type_id
                  (length-grow_lt (suc i) i f.tmp_types (omega arith)),
            )
            refl
      | inr other ↦
          let ne : i ≢ j = λ q. absurd (ground (arith, nat_eq_iff i j)) in
          rw (other, get_elem?-set_ne grown i j type_id ne)
            (grow_read (suc i) j f.tmp_types ∙ sym (get_tmp_type_read f j))
    ])
