-- ===== src/Ir/Types/Layout/Total.antt =====
-- The recursion of `SizeInBytes`, qumir/ir/type.cpp, into the fields of structures.
use qumir.Prelude.{
  ℕ, zero, suc, ◌+◌, ◌<◌, ℤ, pos, negsuc, Option, some, List, [], ◌∷◌, ◌≡◌, ◌∙◌, sym, refl, ap,
  arith, length, get_elem?, get_elem?-none, get_elem?-lt, All, min, max, Option-cases, inl, inr,
}
use native.Mathlib.Decide.{dec_lt}
use qumir.Ir.Types.{Kind, struct, TypeTable, type_at}
use qumir.Ir.Types.Describe.{Shape, structure, kind_shape, shape_at, IsDescribed}
use qumir.Ir.Types.Layout.{
  align_up, align_of_size, struct_loop, struct_size, kind_size, entry_size, size_fuel,
  size_in_bytes,
}

-- A field's type is an entry older than the structure, or an id below 0, which has a fixed size.
abbrev pub FieldBelow : ℕ → ℤ → Type 0
FieldBelow n (pos j) = j < n
FieldBelow n (negsuc j) = Unit

-- No structure holds itself.
abbrev pub IsAcyclic : TypeTable → Type 0
IsAcyclic t = (n : ℕ) (fs : List ℤ) → shape_at t n ≡ some (structure fs) → All (FieldBelow n) fs

abbrev Answers : (ℤ → Option ℕ) → ℤ → Type 0
Answers size f = (n : ℕ) × (size f ≡ some n)

module _ (t : TypeTable) where
  struct_loop_total :
      (size : ℤ → Option ℕ) (fs : List ℤ) (off mx : ℕ)
      → All (Answers size) fs
      → (r : ℕ × ℕ) × (struct_loop t size fs off mx ≡ some r)
  unfolding struct_loop
  struct_loop_total size [] off mx h = ((off, mx), refl)
  struct_loop_total size (f ∷ fs) off mx h =
      let (n, e) = h.0 in
      let a = align_of_size t f n in
      let (r, p) = struct_loop_total size fs (align_up off a + n) (max mx a) h.1 in (r, rw e p)

  struct_size_total :
      (size : ℤ → Option ℕ) (fs : List ℤ)
      → All (Answers size) fs
      → (r : ℕ) × (struct_size t size fs ≡ some r)
  unfolding struct_size
  struct_size_total size fs h =
      let ((o, m), p) = struct_loop_total size fs 0 1 h in (align_up o (min m 16), rw p)

  -- Every kind but a structure has a size of its own.
  kind_size_total :
      (size : ℤ → Option ℕ) (k : Kind) (a : ℤ) (s : Shape)
      → kind_shape t k a ≡ some s
      → ((fs : List ℤ) → s ≡ structure fs → All (Answers size) fs)
      → (r : ℕ) × (kind_size t size k a ≡ some r)
  unfolding kind_size
  kind_size_total size struct (negsuc i) s e h = absurd (ground arith)
  kind_size_total size struct (pos i) s e h = elim (Option-cases (get_elem? t.structs i)) [
    | inl q ↦ absurd (ground arith)
    | inr (fs, q) ↦ let (r, p) = struct_size_total size fs (h fs (ground arith)) in (r, rw q p)
  ]
  kind_size_total size _ a s e h = (_, refl)

  module _ (d : IsDescribed t) (acyclic : IsAcyclic t) where
    Answers-below :
        (f n : ℕ) (fs : List ℤ)
        → ((j : ℕ) → j < n → Answers (size_fuel t (suc f)) (pos j))
        → All (FieldBelow n) fs
        → All (Answers (size_fuel t (suc f))) fs
    unfolding size_fuel
    Answers-below f n [] h below = tt
    Answers-below f n (pos j ∷ fs) h below = (h j below.0, Answers-below f n fs h below.1)
    Answers-below f n (negsuc j ∷ fs) h below = ((8, refl), Answers-below f n fs h below.1)

    size_fuel_total : (f n : ℕ) → n < f → Answers (size_fuel t (suc f)) (pos n)
    unfolding size_fuel shape_at
    size_fuel_total zero n h = absurd (omega arith)
    size_fuel_total (suc f) n h = elim (Option-cases (get_elem? t.types n)) [
      | inl e ↦ (8, rw e)
      | inr (x, e) ↦
          let (s, p) = d n (get_elem?-lt t.types n x e) in
          let q : kind_shape t x.kind x.aux ≡ some s = rw e at p in
          let (r, z) = kind_size_total (size_fuel t (suc f)) x.kind x.aux s q λ fs w.
            Answers-below f n fs (λ j lt. size_fuel_total f j (omega arith))
              (acyclic n fs (p ∙ ap some w)) in
          (r, rw e z)
    ]

    -- `SizeInBytes` returns for every id, in range or not.
    size_in_bytes-Answers : (id : ℤ) → Answers (size_in_bytes t) id
    unfolding size_in_bytes
    size_in_bytes-Answers (negsuc i) = (8, refl)
    size_in_bytes-Answers (pos n) = elim (dec_lt n (length t.types)) [
      | yes h ↦ size_fuel_total (length t.types) n h
      | no h ↦ (8, rw (get_elem?-none t.types n (omega arith), size_fuel))
    ]

  -- More answers for the fields give the same answer for the structure.
  module _ (size size' : ℤ → Option ℕ)
      (more : (x : ℤ) (r : ℕ) → size x ≡ some r → size' x ≡ some r) where
    struct_loop_more :
        (fs : List ℤ) (off mx : ℕ) (r : ℕ × ℕ)
        → struct_loop t size fs off mx ≡ some r
        → struct_loop t size' fs off mx ≡ some r
    unfolding struct_loop
    struct_loop_more [] off mx r h = h
    struct_loop_more (f ∷ fs) off mx r h = elim (Option-cases (size f)) [
      | inl e ↦ absurd (ground arith)
      | inr (n, e) ↦
          let a = align_of_size t f n in
          rw (more f n e) (struct_loop_more fs (align_up off a + n) (max mx a) r (rw e at h))
    ]

    struct_size_more :
        (fs : List ℤ) (r : ℕ) → struct_size t size fs ≡ some r → struct_size t size' fs ≡ some r
    unfolding struct_size
    struct_size_more fs r h = elim (Option-cases (struct_loop t size fs 0 1)) [
      | inl e ↦ absurd (ground arith)
      | inr (p, e) ↦ rw (struct_loop_more fs 0 1 p e) (rw e at h)
    ]

    kind_size_more :
        (k : Kind) (a : ℤ) (r : ℕ) → kind_size t size k a ≡ some r → kind_size t size' k a ≡ some r
    unfolding kind_size
    kind_size_more struct (negsuc i) r h = h
    kind_size_more struct (pos i) r h = elim (Option-cases (get_elem? t.structs i)) [
      | inl e ↦ absurd (ground arith)
      | inr (fs, e) ↦ rw e (struct_size_more fs r (rw e at h))
    ]
    kind_size_more _ a r h = h

  size_fuel_more :
      (f : ℕ) (id : ℤ) (r : ℕ) → size_fuel t f id ≡ some r → size_fuel t (suc f) id ≡ some r
  unfolding size_fuel
  size_fuel_more zero id r h = absurd (ground arith)
  size_fuel_more (suc f) id r h = elim (Option-cases (type_at t id)) [
    | inl e ↦ rw e (rw e at h)
    | inr (x, e) ↦ rw e (
        kind_size_more (size_fuel t f) (size_fuel t (suc f)) (size_fuel_more f) x.kind x.aux r
          (rw e at h))
  ]

-- On a table whose entries all have shapes and whose structures hold older types only, `SizeInBytes`
-- answers every id, and its answers satisfy the recursive equation of the source: the fuel is enough.
pub size_in_bytes_lem :
    (t : TypeTable) (id : ℤ)
    → IsDescribed t
    → IsAcyclic t
    → ((n : ℕ) × (size_in_bytes t id ≡ some n))
      × (size_in_bytes t id ≡ entry_size t (size_in_bytes t) (type_at t id))
unfolding size_in_bytes size_fuel
size_in_bytes_lem t id d acyclic =
    let (r, p) = size_in_bytes-Answers t d acyclic id in
    (
      (r, p),
      elim (Option-cases (type_at t id)) [
        | inl e ↦ rw e refl
        | inr (x, e) ↦
            let q : kind_size t (size_fuel t (length t.types)) x.kind x.aux ≡ some r = rw e at p in
            rw e (
              q
              ∙ sym (
                  kind_size_more t (size_fuel t (length t.types)) (size_in_bytes t)
                    (size_fuel_more t (length t.types)) x.kind x.aux r q))
      ],
    )
