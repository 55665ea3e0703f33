-- ===== src/Ir/Types/Layout/Fields.antt =====
-- Where `FieldOffset` places the fields of a structure, against `SizeInBytes`.
use qumir.Ir.Types.Layout.Placing.{Fits, align_bounds, struct_loop_end, loop-Placed}
use qumir.Prelude.{
  ℕ, zero, suc, ◌+◌, ◌%◌, ◌^◌, ◌≤◌, ◌<◌, ℤ, pos, negsuc, some, List, [], ◌∷◌, ◌≡◌, ◌∙◌, sym, refl,
  ap, arith, get_elem?, min, max, Option, Option-cases, inl, inr,
}
use qumir.Ir.Types.{Kind, struct, IrType, TypeTable, Eq-kind, type_at}
use qumir.Ir.Types.Describe.{structure, kind_shape, shape_at, IsDescribed}
use qumir.Ir.Types.Layout.{
  align_up, align_of_size, struct_loop, struct_size, kind_size, entry_size, size_in_bytes,
  offset_loop, align_in_bytes, get_struct_fields, field_offset, struct_fields,
}
use qumir.Ir.Types.Layout.AlignUp.{align_up_start, align_up_zero, align_up_bounds}
use qumir.Ir.Types.Layout.Total.{IsAcyclic, size_in_bytes_lem}

-- What `shape_at` says of a structure, as the offsets and the size read it.
structure_reads :
    (t : TypeTable) (n : ℕ) (fs : List ℤ)
    → shape_at t n ≡ some (structure fs)
    → (get_struct_fields t (pos n) ≡ some fs)
      × (entry_size t (size_in_bytes t) (type_at t (pos n)) ≡ struct_size t (size_in_bytes t) fs)
unfolding shape_at get_struct_fields kind_size
structure_reads t n fs h = elim (Option-cases (get_elem? t.types n)) [
  | inl e ↦ absurd (ground arith)
  | inr (x, e) ↦ rw e (kind_reads x.kind x.aux (rw e at h))
]
  where
    kind_reads :
        (k : Kind) (a : ℤ)
        → kind_shape t k a ≡ some (structure fs)
        → (struct_fields t k a ≡ some fs)
          × (kind_size t (size_in_bytes t) k a ≡ struct_size t (size_in_bytes t) fs)
    kind_reads struct (pos i) w = elim (Option-cases (get_elem? t.structs i)) [
      | inl e ↦ absurd (ground arith)
      | inr (gs, e) ↦ let q : gs ≡ fs = ground arith in rw (e, q) (refl, refl)
    ]
    kind_reads struct (negsuc i) w = absurd (ground arith)
    kind_reads _ a w = absurd (ground arith)

module _ (t : TypeTable) (id : ℕ) (fs : List ℤ) (described : IsDescribed t) (acyclic : IsAcyclic t)
    (shape : shape_at t id ≡ some (structure fs)) where
  struct_size_lem : size_in_bytes t (pos id) ≡ struct_size t (size_in_bytes t) fs
  struct_size_lem =
      (size_in_bytes_lem t (pos id) described acyclic).1 ∙ (structure_reads t id fs shape).1

  field_offset_lem : (i : ℕ) → field_offset t (pos id) i ≡ offset_loop t (size_in_bytes t) fs i 0
  unfolding field_offset
  field_offset_lem i = rw ((structure_reads t id fs shape).0) refl

  -- The end of the loop is inside the size.
  struct_size_end :
      (s : ℕ)
      → Fits t (size_in_bytes t) fs 0
      → size_in_bytes t (pos id) ≡ some s
      → (r : ℕ × ℕ) × (struct_loop t (size_in_bytes t) fs 0 1 ≡ some r) × (r.0 ≤ s)
  unfolding struct_size
  struct_size_end s fits e =
      let q : struct_size t (size_in_bytes t) fs ≡ some s = sym struct_size_lem ∙ e in
      elim (Option-cases (struct_loop t (size_in_bytes t) fs 0 1)) [
        | inl w ↦ absurd (ground arith)
        | inr ((o, mx), w) ↦
            let ends = struct_loop_end t (size_in_bytes t) fs 0 1 (o, mx) fits w in
            let up = align_up_bounds o (min mx 16) (omega arith) (omega arith) in
            ((o, mx), w, ground arith)
      ]

-- The fields of a structure whose fields have sizes above 0 and which fits an `int` do not overlap:
-- a field ends at or before the offset of each later one, and the later one ends inside the size of the
-- structure.
pub fields_disjoint :
    (t : TypeTable) (id i j m n : ℕ) (f g : ℤ) (fs : List ℤ)
    → IsDescribed t
    → IsAcyclic t
    → shape_at t id ≡ some (structure fs)
    → Fits t (size_in_bytes t) fs 0
    → i < j
    → get_elem? fs i ≡ some f
    → get_elem? fs j ≡ some g
    → size_in_bytes t f ≡ some m
    → size_in_bytes t g ≡ some n
    → (a b s : ℕ) × (field_offset t (pos id) i ≡ some a)
      × (field_offset t (pos id) j ≡ some b)
      × (size_in_bytes t (pos id) ≡ some s)
      × (a + m ≤ b)
      × (b + n ≤ s)
fields_disjoint t id i j m n f g fs d ac shape fits lt ei ej si sj =
    let size = size_in_bytes t in
    let p = loop-Placed t size fs 0 i m f fits ei si in
    let q = loop-Placed t size fs 0 j n g fits ej sj in
    let (s, es) = (size_in_bytes_lem t (pos id) d ac).0 in
    let (r, er, le) = struct_size_end t id fs d ac shape s fits es in
    (
      p.at,
      q.at,
      s,
      field_offset_lem t id fs d ac shape i ∙ p.found,
      field_offset_lem t id fs d ac shape j ∙ q.found,
      es,
      p.before j q.at lt q.found,
      omega (arith, q.ends 1 r er, le),
    )

-- A field whose alignment is a power of two lies at a multiple of it, in a structure whose fields have
-- sizes above 0 and which fits an `int`.
pub field_aligned :
    (t : TypeTable) (id i n k : ℕ) (f : ℤ) (fs : List ℤ)
    → IsDescribed t
    → IsAcyclic t
    → shape_at t id ≡ some (structure fs)
    → Fits t (size_in_bytes t) fs 0
    → get_elem? fs i ≡ some f
    → size_in_bytes t f ≡ some n
    → align_in_bytes t f ≡ some (2 ^ k)
    → (a : ℕ) × (field_offset t (pos id) i ≡ some a) × (a % 2 ^ k ≡ 0)
unfolding align_in_bytes
field_aligned t id i n k f fs d ac shape fits ei si al =
    let p = loop-Placed t (size_in_bytes t) fs 0 i n f fits ei si in
    (p.at, field_offset_lem t id fs d ac shape i ∙ p.found, p.aligned k (ground arith))

align_of_zero :
    (t : TypeTable) (z : ℤ) (x : IrType) → type_at t z ≡ some x → align_of_size t z 0 ≡ 0
unfolding align_of_size
align_of_zero t z x e = rw (e, align_of_size) (ground arith)

-- Behind a field of size 0 the loop starts from 0 again.
zero_offsets :
    (t : TypeTable) (size : ℤ → Option ℕ) (fs : List ℤ) (i off mx m : ℕ) (z g : ℤ) (r : ℕ × ℕ)
    → struct_loop t size fs off mx ≡ some r
    → get_elem? fs i ≡ some z
    → get_elem? fs (suc i) ≡ some g
    → size z ≡ some 0
    → align_of_size t z 0 ≡ 0
    → size g ≡ some m
    → 0 < m
    → (offset_loop t size fs i off ≡ some 0) × (offset_loop t size fs (suc i) off ≡ some 0)
unfolding struct_loop offset_loop
zero_offsets t size [] i off mx m z g r e ez eg sz az sg lo = absurd (ground (arith, ez))
zero_offsets t size (f ∷ []) zero off mx m z g r e ez eg sz az sg lo = absurd (ground (arith, eg))
zero_offsets t size (f ∷ h ∷ fs) zero off mx m z g r e ez eg sz az sg lo =
    let is_z : f ≡ z = cc in
    let is_g : h ≡ g = cc in
    let (low, high) = align_bounds t size g m lo in
    rw (is_z, is_g, sz, sg, az, align_up_zero off)
      (refl, ap some (align_up_start (align_of_size t g m) low (omega (arith, high))))
zero_offsets t size (f ∷ fs) (suc i) off mx m z g r e ez eg sz az sg lo =
    elim (Option-cases (size f)) [
      | inl q ↦ absurd (ground (arith, q, e))
      | inr (n, q) ↦
          let a = align_of_size t f n in
          rw q (
            zero_offsets t size fs i (align_up off a + n) (max mx a) m z g r (rw q at e) ez eg sz az
              sg lo)
    ]

-- A field of size 0 has alignment 0, and `AlignUp` with it is 0 whatever the offset. In a structure
-- whose first field has a size above 0, the later field of size 0 and the field behind it, where that has
-- a size above 0, are placed at offset 0, on top of the first.
pub zero_size_overlaps :
    (t : TypeTable) (id i n m : ℕ) (f z g : ℤ) (fs : List ℤ) (x : IrType)
    → IsDescribed t
    → IsAcyclic t
    → shape_at t id ≡ some (structure (f ∷ fs))
    → size_in_bytes t f ≡ some n
    → 0 < n
    → get_elem? fs i ≡ some z
    → type_at t z ≡ some x
    → size_in_bytes t z ≡ some 0
    → get_elem? fs (suc i) ≡ some g
    → size_in_bytes t g ≡ some m
    → 0 < m
    → (align_in_bytes t z ≡ some 0)
      × ((offset : ℕ) → align_up offset 0 ≡ 0)
      × (field_offset t (pos id) 0 ≡ some 0)
      × (field_offset t (pos id) (suc i) ≡ some 0)
      × (field_offset t (pos id) (suc (suc i)) ≡ some 0)
unfolding offset_loop struct_size align_in_bytes
zero_size_overlaps t id i n m f z g fs x d ac shape ef pf iz ex ez ig eg pg =
    let size = size_in_bytes t in
    let (low, high) = align_bounds t size f n pf in
    let first = align_up_start (align_of_size t f n) low (omega (arith, high)) in
    let (s, es) = (size_in_bytes_lem t (pos id) d ac).0 in
    let whole : struct_size t size (f ∷ fs) ≡ some s =
      sym (struct_size_lem t id (f ∷ fs) d ac shape) ∙ es in
    let (r, er) : (r : ℕ × ℕ) × (struct_loop t size (f ∷ fs) 0 1 ≡ some r) =
      elim (Option-cases (struct_loop t size (f ∷ fs) 0 1)) [
        | inl w ↦ absurd (ground (arith, w, whole))
        | inr (r, w) ↦ (r, w)
      ] in
    let (at, behind) =
      zero_offsets t size (f ∷ fs) (suc i) 0 1 m z g r er iz ig ez (align_of_zero t z x ex) eg pg in
    (
      rw (ez, align_of_zero t z x ex) refl,
      align_up_zero,
      field_offset_lem t id (f ∷ fs) d ac shape 0 ∙ rw ef (ap some first),
      field_offset_lem t id (f ∷ fs) d ac shape (suc i) ∙ at,
      field_offset_lem t id (f ∷ fs) d ac shape (suc (suc i)) ∙ behind,
    )
