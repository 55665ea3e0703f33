-- ===== src/Ir/Types/Interning.antt =====
-- `I`, `Ptr`, `Func` and `Struct` of qumir/ir/type.cpp against the view of `Describe`.
use qumir.Ir.Types.Growing.{Grows, request_hit, request_id, request_miss}
use qumir.Prelude.{
  ℕ, suc, ◌<◌, ℤ, pos, none, some, ◌≡◌, ◌↔◌, sym, ap, ◌∙◌, arith, length, length-snoc, lookup,
  Option-cases, Bool-cases, inl, inr, Eq-int, Eq-list,
}
use native.Mathlib.Decide.{dec_lt}
use qumir.Ir.Types.{TypeTable, Eq-kind, Eq-sig, empty_table}
use qumir.Ir.Types.Describe.{
  Shape, scalar, pointer, function, structure, IsShape, shape_beq, shape_beq_iff, shape_at, cached,
  request, IsDescribed, shape_at-last, shape_at-earlier, shape_at-beyond, shape_at-lt,
}

-- The caches and the entries hold the same shapes.
pub record IsInterned (t : TypeTable) : Type 0 where
  pub described : IsDescribed t
  pub found : (n : ℕ) (s : Shape) → shape_at t n ≡ some s → cached t s ≡ some (pos n)
  pub held :
      (s : Shape) (i : ℤ) → cached t s ≡ some i → (n : ℕ) × (i ≡ pos n) × (shape_at t n ≡ some s)

-- Growth keeps the invariant.
module _ (t t' : TypeTable) (s : Shape) (v : IsInterned t) (g : Grows t t' s)
    (miss : cached t s ≡ none) where
  grown_length : length t'.types ≡ suc (length t.types)
  grown_length = rw g.appends.last (length-snoc t.types g.entry)

  grown_last : shape_at t' (length t.types) ≡ some s
  grown_last = shape_at-last t t' g.entry s g.appends g.new

  grown_earlier : (n : ℕ) → n < length t.types → shape_at t' n ≡ shape_at t n
  grown_earlier n lt = shape_at-earlier t t' g.entry s g.appends g.new v.described n lt

  grown_beyond : (n : ℕ) → length t.types < n → shape_at t' n ≡ none
  grown_beyond n lt = shape_at-beyond t t' g.entry s g.appends g.new n lt

  grown_IsDescribed : IsDescribed t'
  grown_IsDescribed n lt = elim (dec_lt n (length t.types)) [
    | yes p ↦ let (r, q) = v.described n p in (r, grown_earlier n p ∙ q)
    | no p ↦ let e : n ≡ length t.types = omega (arith, grown_length) in (s, rw e grown_last)
  ]

  grown_found : (n : ℕ) (r : Shape) → shape_at t' n ≡ some r → cached t' r ≡ some (pos n)
  grown_found n r h = elim (dec_lt n (length t.types)) [
    | yes p ↦
        let q = v.found n r (sym (grown_earlier n p) ∙ h) in
        ground (arith, g.caches r, shape_beq_iff s r, q, miss)
    | no p ↦ elim (dec_lt (length t.types) n) [
      | yes q ↦ absurd (ground (arith, grown_beyond n q))
      | no q ↦
          let e : n ≡ length t.types = omega arith in
          ground (arith, g.caches r, shape_beq_iff s r, grown_last)
    ]
  ]

  grown_held :
      (r : Shape) (i : ℤ) → cached t' r ≡ some i → (n : ℕ) × (i ≡ pos n) × (shape_at t' n ≡ some r)
  grown_held r i h = elim (Bool-cases (shape_beq s r)) [
    | inl same ↦
        let e : s ≡ r = (shape_beq_iff s r).0 same in
        (length t.types, ground (arith, g.caches r), rw (← e) grown_last)
    | inr other ↦
        let (n, p, q) = v.held r i (ground (arith, g.caches r)) in
        (n, p, grown_earlier n (shape_at-lt t n r q) ∙ q)
  ]

  grown-IsInterned : IsInterned t'
  grown-IsInterned = record {
    described = grown_IsDescribed;
    found = grown_found;
    held = grown_held;
  }

pub IsInterned-empty : IsInterned empty_table
unfolding shape_at cached lookup
IsInterned-empty = record {
  described = λ n h. absurd (omega arith);
  found = λ n s h. absurd (ground arith);
  held = λ s i h. empty_held s i h;
}
  where
    empty_held :
        (s : Shape) (i : ℤ)
        → cached empty_table s ≡ some i
        → (n : ℕ) × (i ≡ pos n) × (shape_at empty_table n ≡ some s)
    empty_held (scalar k) i h = absurd (ground arith)
    empty_held (pointer k) i h = absurd (ground arith)
    empty_held (function k) i h = absurd (ground arith)
    empty_held (structure k) i h = absurd (ground arith)

-- Interning a shape keeps the caches and the entries in agreement: every entry has a shape, and the
-- caches map a shape to an id exactly when the entry of that id has the shape.
pub request-IsInterned :
    (t : TypeTable) (s : Shape) → IsInterned t → IsShape s → IsInterned (request s t).0
request-IsInterned t s v ok = elim (Option-cases (cached t s)) [
  | inl miss ↦ grown-IsInterned t (request s t).0 s v (request_miss t s ok miss) miss
  | inr (i, hit) ↦ rw (request_hit t s i hit) v
]

request_facts :
    (t : TypeTable) (s : Shape)
    → IsInterned t
    → IsShape s
    → ((n : ℕ) × ((request s t).1 ≡ pos n) × (shape_at (request s t).0 n ≡ some s))
      × ((n : ℕ) (r : Shape) → shape_at t n ≡ some r → shape_at (request s t).0 n ≡ some r)
      × (request s (request s t).0 ≡ request s t)
request_facts t s v ok = elim (Option-cases (cached t s)) [
  | inl miss ↦
      let g = request_miss t s ok miss in
      let t' = (request s t).0 in
      let last = grown_last t t' s v g miss in
      (
        (length t.types, request_id t s miss, last),
        λ n r h. grown_earlier t t' s v g miss n (shape_at-lt t n r h) ∙ h,
        request_hit t' s (pos (length t.types))
              (grown_found t t' s v g miss (length t.types) s last)
            ∙ ap (λ i. (t', i)) (sym (request_id t s miss)),
      )
  | inr (i, hit) ↦
      let (n, p, q) = v.held s i hit in
      let e = request_hit t s i hit in ((n, rw e p, rw e q), λ m r h. rw e h, rw e e)
]

-- In an interned table the id that a request returns stands for the requested shape in the new table,
-- and a second request returns the same id and leaves the table as it is.
pub request_lem :
    (t : TypeTable) (s : Shape)
    → IsInterned t
    → IsShape s
    → ((n : ℕ) × ((request s t).1 ≡ pos n) × (shape_at (request s t).0 n ≡ some s))
      × (request s (request s t).0 ≡ request s t)
request_lem t s v ok = let (new, old, again) = request_facts t s v ok in (new, again)

-- In an interned table an id that stands for a shape still stands for it after any request.
pub request-shape_at :
    (t : TypeTable) (s : Shape) (n : ℕ) (r : Shape)
    → IsInterned t
    → IsShape s
    → shape_at t n ≡ some r
    → shape_at (request s t).0 n ≡ some r
request-shape_at t s n r v ok h = let (new, old, again) = request_facts t s v ok in old n r h

-- Equal shapes have equal ids and different shapes different ones: two requests, one after the
-- other, return the same id exactly when they ask for the same shape.
pub request_injective :
    (t : TypeTable) (r s : Shape)
    → IsInterned t
    → IsShape r
    → IsShape s
    → ((request r t).1 ≡ (request s (request r t).0).1) ↔ (r ≡ s)
request_injective t r s v okr oks =
    let (idr, old, again) = request_facts t r v okr in
    let t' = (request r t).0 in
    let v' = request-IsInterned t r v okr in
    let (ids, old', again') = request_facts t' s v' oks in
    let keep = old' idr.0 r idr.2 in
    (
      λ e. let e' : idr.0 ≡ ids.0 = cc in cc (keep, ids.2, e'),
      λ e. ap (λ p. p.1) (sym (again)) ∙ ap (λ x. (request x t').1) e,
    )
