-- ===== src/Semantics/Suggestions/Closest.antt =====
-- What one round of the loops of `TNameResolver::Suggest` keeps: the best suggestion is the closest of
-- the names that have been checked.
use qumir.Prelude.{
  ℕ, ◌+◌, ◌≤◌, ◌<◌, String, true, ◌&&◌, Option, none, some, List, ◌∷◌, ltb, leb, ltb→lt, ◌==◌,
  Eq-nat, Eq-string, length, ◌≡◌, ◌⊎◌, inl, inr, refl, subst, ap, arith, Bool-cases,
}
use qumir.Semantics.EditDistance.Reference.{
  Edits, start, deleted, inserted, replaced, distance, distance_reached,
}
use qumir.Semantics.EditDistance.Calc.{calc-distance}
use qumir.Semantics.Suggestions.{
  Suggestion, Search, has_name, is_closer, max_distance, improve, points, consider,
}

-- The distance of two names.
abbrev pub apart : List ℕ → List ℕ → ℕ
apart a b = distance a b (length a) (length b)

-- An edit makes a name longer by one symbol at most.
length_bound : (a b : List ℕ) {i j n : ℕ} → Edits a b i j n → j ≤ i + n
length_bound a b start = omega arith
length_bound a b (deleted e) = omega (arith, length_bound a b e)
length_bound a b (inserted e) = omega (arith, length_bound a b e)
length_bound a b (replaced p q e) = omega (arith, length_bound a b e)

long_names : (a b : List ℕ) → length a + max_distance < length b → max_distance < apart a b
long_names a b h =
    let bound =
      length_bound a b (distance_reached a b (length a) (length b) (omega arith) (omega arith)) in
    omega (arith, bound, h)

-- A name at this distance is too far, or not closer than the best.
abbrev pub IsCovered : Option Suggestion → ℕ → Type 0
IsCovered best d = (max_distance < d) ⊎ ((b : Suggestion) × (best ≡ some b) × (b.distance ≤ d))

new-IsCovered :
    (required : Option String) (name : String) (d : ℕ) (best : Option Suggestion)
    → IsCovered (improve required name d best) d
unfolding improve
new-IsCovered required name d none = elim (Bool-cases (leb d max_distance)) [
  | inl h ↦ rw h (inr (_, refl, omega arith))
  | inr h ↦ rw h (inl (ground arith))
]
new-IsCovered required name d (some b) =
    elim (Bool-cases (ltb d b.distance && leb d max_distance)) [
      | inl h ↦ rw h (inr (_, refl, omega arith))
      | inr h ↦ rw h (elim (Bool-cases (leb d max_distance)) [
        | inl k ↦ inr (b, refl, ground arith)
        | inr k ↦ inl (ground arith)
      ])
    ]

kept-IsCovered :
    (required : Option String) (name : String) (d d' : ℕ) (best : Option Suggestion)
    → IsCovered best d'
    → IsCovered (improve required name d best) d'
unfolding improve
kept-IsCovered required name d d' best (inl h) = inl h
kept-IsCovered required name d d' none (inr (b, e, h)) = absurd (cc e)
kept-IsCovered required name d d' (some c) (inr (b, e, h)) =
    let same : c ≡ b = cc e in
    let far : c.distance ≡ b.distance = ap (λ (x : Suggestion). x.distance) same in
    elim (Bool-cases (ltb d c.distance && leb d max_distance)) [
      | inl k ↦ rw k (inr (_, refl, ground (arith, far)))
      | inr k ↦ rw k (inr (b, e, h))
    ]

-- Names that have been checked stay so.
abbrev pub Keeps : Search → Search → Type 0
Keeps s s' = (n : String) → has_name s.checked n ≡ true → has_name s'.checked n ≡ true

same_name : (n : String) → (n == n) ≡ true
same_name n = (Eq-string.same_key_iff n n).1 refl

added_first : (n : String) (ns : List String) → has_name (n ∷ ns) n ≡ true
added_first n ns = rw (same_name n) refl

added_kept : (c n : String) (ns : List String) → has_name ns n ≡ true → has_name (c ∷ ns) n ≡ true
added_kept c n ns h = elim (Bool-cases (c == n)) [ inl e ↦ rw e refl | inr e ↦ rw e h ]

added_cases :
    (c n : String) (ns : List String)
    → has_name (c ∷ ns) n ≡ true
    → (c ≡ n) ⊎ (has_name ns n ≡ true)
added_cases c n ns h = elim (Bool-cases (c == n)) [
  | inl e ↦ inl ((Eq-string.same_key_iff c n).0 e)
  | inr e ↦ inr (rw e at h)
]

option_same {ℓ} : {A : Type ℓ} {a b : A} → some a ≡ some b → a ≡ b
option_same e = cc e

module _ (bytes : String → List ℕ) (name_points : List ℕ) where
  -- How far a name is from the one looked for.
  abbrev pub far : String → ℕ
  far n = apart name_points (points bytes n)

  -- The best suggestion is near, and none of the names that have been checked is closer.
  pub record IsClosest (s : Search) : Type 0 where
    pub near :
        (b : Suggestion) → s.best ≡ some b → (b.distance ≤ max_distance) × (far b.name ≡ b.distance)
    pub covered : (n : String) → has_name s.checked n ≡ true → IsCovered s.best (far n)

  near_improve :
      (required : Option String) (name : String) (d : ℕ) (best : Option Suggestion)
      → far name ≡ d
      → ((b : Suggestion) → best ≡ some b → (b.distance ≤ max_distance) × (far b.name ≡ b.distance))
      → (b : Suggestion) → improve required name d best ≡ some b
      → (b.distance ≤ max_distance) × (far b.name ≡ b.distance)
  unfolding improve
  near_improve required name d best q near b e =
      elim (Bool-cases (is_closer d best && leb d max_distance)) [
        | inl k ↦
            let made : some (record { name = name; required_module = required; distance = d })
                ≡ some b =
              rw k at e in
            let same = option_same made in
            subst (λ (x : Suggestion). (x.distance ≤ max_distance) × (far x.name ≡ x.distance)) same
              (ground arith, q)
        | inr k ↦ near b (rw k at e)
      ]

  -- A search in which one more name is checked, and perhaps suggested.
  one_more :
      (c : String) (s s' : Search)
      → IsClosest s
      → s'.checked ≡ c ∷ s.checked
      → ((b : Suggestion)
          → s'.best ≡ some b
          → (b.distance ≤ max_distance) × (far b.name ≡ b.distance))
      → IsCovered s'.best (far c)
      → ((d : ℕ) → IsCovered s.best d → IsCovered s'.best d)
      → IsClosest s' × Keeps s s' × (has_name s'.checked c ≡ true)
  one_more c s s' h e near new old = (
    record {
      near = near;
      covered = λ n k. elim (added_cases c n s.checked (rw e at k)) [
        | inl q ↦ subst (λ x. IsCovered s'.best (far x)) q new
        | inr k' ↦ old (far n) (h.covered n k')
      ];
    },
    λ n k. rw e (added_kept c n s.checked k),
    rw e (added_first c s.checked),
  )

  -- A round of a loop returns, and the name is checked.
  pub consider_lem :
      (required : Option String) (c : String) (s : Search)
      → IsClosest s
      → (s' : Search) × (consider bytes name_points required c s ≡ some s')
        × IsClosest s'
        × Keeps s s'
        × (has_name s'.checked c ≡ true)
  unfolding consider
  consider_lem required c s h = elim (Bool-cases (has_name s.checked c)) [
    | inl e ↦ (s, rw e refl, h, λ n k. k, e)
    | inr e ↦
        elim (Bool-cases (ltb (length name_points + max_distance) (length (points bytes c)))) [
          | inl l ↦
              let s' = record s { checked = c ∷ s.checked } in
              let long = long_names name_points (points bytes c) (ltb→lt _ _ l) in
              let (closest, kept, there) = one_more c s s' h refl h.near (inl long) (λ d k. k) in
              (s', rw (e, l) refl, closest, kept, there)
          | inr l ↦
              let (dp, q) = calc-distance name_points (points bytes c) s.table in
              let s' : Search = record {
                checked = c ∷ s.checked;
                best = improve required c (far c) s.best;
                table = dp;
              } in
              let (closest, kept, there) =
                one_more c s s' h refl (near_improve required c (far c) s.best refl h.near)
                  (new-IsCovered required c (far c) s.best)
                  (λ d k. kept-IsCovered required c (far c) d s.best k) in
              (s', rw (e, l, q) refl, closest, kept, there)
        ]
  ]
