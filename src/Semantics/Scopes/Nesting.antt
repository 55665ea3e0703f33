-- ===== src/Semantics/Scopes/Nesting.antt =====
-- Scopes are nested, so a lookup ends, and finds the innermost declaration.
use qumir.Prelude.{
  ℕ, zero, suc, ◌<◌, ◌≤◌, pos, String, Option, none, some, List, [], ◌∷◌, ◌++◌, ◌≡◌, refl, sym, ap,
  subst, ◌∙◌, ◌↔◌, ◌⊎◌, inl, inr, arith, Eq-nat, Eq-string, lookup, length, get_elem?, get_elem?-lt,
  Option-cases,
}
use qumir.Semantics.Scopes.{
  Scope, Symbol, Resolver, found_or, new_scope, lookup_from, lookup_symbol,
}

-- The parent of a scope is an older one.
pub record IsNested (r : Resolver) : Type 0 where
  pub older : (i p : ℕ) (s : Scope) → get_elem? r.scopes i ≡ some s → s.parent ≡ some p → p < i

last-of_snoc :
    (ss : List Scope) (x s : Scope) (i : ℕ)
    → get_elem? (ss ++ x ∷ []) i ≡ some s
    → (get_elem? ss i ≡ some s) ⊎ ((i ≡ length ss) × (s ≡ x))
last-of_snoc [] x s zero h = inr (refl, cc)
last-of_snoc [] x s (suc i) h = cc
last-of_snoc (y ∷ ss) x s zero h = inl h
last-of_snoc (y ∷ ss) x s (suc i) h = elim (last-of_snoc ss x s i h) [
  | inl e ↦ inl e
  | inr (e, q) ↦ inr (ap suc e, q)
]

-- A new scope whose parent is there keeps the scopes nested.
pub new_scope-IsNested :
    (r : Resolver) (p : ℕ) (func_scope : Option ℕ)
    → IsNested r
    → p < length r.scopes
    → IsNested (new_scope (some p) func_scope r).0
unfolding new_scope
new_scope-IsNested r p func_scope nested lt = record {
  older = λ i q s e h. elim (last-of_snoc r.scopes _ s i e) [
    | inl old ↦ nested.older i q s old h
    | inr (at, new) ↦
        let parent : some p ≡ some q = sym (ap (λ (x : Scope). x.parent) new) ∙ h in
        let same : p ≡ q = cc in rw (at, ← same) lt
  ];
}

pub lookup_from_round :
    (r : Resolver) (name : String) (f i : ℕ) (s : Scope)
    → get_elem? r.scopes i ≡ some s
    → lookup_from (suc f) name (some i) r
      ≡ found_or (lookup name s.names) r (lookup_from f name s.parent r)
unfolding lookup_from
lookup_from_round r name f i s e = rw (lookup_from, e) refl

lookup_from_nowhere :
    (r : Resolver) (name : String) (f i : ℕ)
    → get_elem? r.scopes i ≡ none
    → lookup_from (suc f) name (some i) r ≡ none
unfolding lookup_from
lookup_from_nowhere r name f i e = rw (lookup_from, e) refl

lookup_from-none : (r : Resolver) (name : String) (f : ℕ) → lookup_from f name none r ≡ none
unfolding lookup_from
lookup_from-none r name zero = refl
lookup_from-none r name (suc f) = refl

lookup_from_empty : (r : Resolver) (name : String) (i : ℕ) → lookup_from zero name (some i) r ≡ none
unfolding lookup_from
lookup_from_empty r name i = refl

-- A pointer to a scope is null, or below a bound.
abbrev pub IsBelow : ℕ → Option ℕ → Type 0
IsBelow f none = Unit
IsBelow f (some i) = i < f

pub parent-IsBelow :
    (r : Resolver) (i f : ℕ) (s : Scope)
    → IsNested r
    → get_elem? r.scopes i ≡ some s
    → i ≤ f
    → IsBelow f s.parent
parent-IsBelow r i f s nested e le = elim (Option-cases s.parent) [
  | inl h ↦ subst (IsBelow f) (sym h) tt
  | inr (p, h) ↦ subst (IsBelow f) (sym h) (omega (arith, nested.older i p s e h))
]

-- Fuel above the index of the scope is enough, and more makes no difference.
lookup_from_fuel :
    (r : Resolver) (name : String)
    → IsNested r
    → (f g : ℕ) (q : Option ℕ) → IsBelow f q
    → IsBelow g q
    → lookup_from f name q r ≡ lookup_from g name q r
lookup_from_fuel r name nested f g none hf hg =
    lookup_from-none r name f ∙ sym (lookup_from-none r name g)
lookup_from_fuel r name nested zero g (some i) hf hg = absurd (omega arith)
lookup_from_fuel r name nested (suc f) zero (some i) hf hg = absurd (omega arith)
lookup_from_fuel r name nested (suc f) (suc g) (some i) hf hg =
    elim (Option-cases (get_elem? r.scopes i)) [
      | inl e ↦ lookup_from_nowhere r name f i e ∙ sym (lookup_from_nowhere r name g i e)
      | inr (s, e) ↦
          let below_f = parent-IsBelow r i f s nested e (omega arith) in
          let below_g = parent-IsBelow r i g s nested e (omega arith) in
          lookup_from_round r name f i s e
          ∙ ap (found_or (lookup name s.names) r)
              (lookup_from_fuel r name nested f g s.parent below_f below_g)
          ∙ sym (lookup_from_round r name g i s e)
    ]

-- What a lookup finds from a scope, or from a null pointer.
abbrev pub lookup_outside : String → Option ℕ → Resolver → Option Symbol
lookup_outside name none r = none
lookup_outside name (some p) r = lookup_symbol name (pos p) r

lookup_outside_lem :
    (r : Resolver) (name : String)
    → IsNested r
    → (q : Option ℕ) → IsBelow (length r.scopes) q
    → lookup_from (length r.scopes) name q r ≡ lookup_outside name q r
unfolding lookup_symbol
lookup_outside_lem r name nested none below = lookup_from-none r name (length r.scopes)
lookup_outside_lem r name nested (some p) below =
    lookup_from_fuel r name nested (length r.scopes) (suc (length r.scopes)) (some p) below
      (omega arith)

lookup_symbol_round :
    (r : Resolver) (name : String) (i : ℕ) (s : Scope)
    → IsNested r
    → get_elem? r.scopes i ≡ some s
    → lookup_symbol name (pos i) r
      ≡ found_or (lookup name s.names) r (lookup_outside name s.parent r)
unfolding lookup_symbol
lookup_symbol_round r name i s nested e =
    let inside = get_elem?-lt r.scopes i s e in
    let below = parent-IsBelow r i (length r.scopes) s nested e (omega arith) in
    lookup_from_round r name (length r.scopes) i s e
    ∙ ap (found_or (lookup name s.names) r) (lookup_outside_lem r name nested s.parent below)

-- What a name means in a scope, by its id: its own declaration, and where it has none, what the name
-- means in the parent.
pub data Resolves (r : Resolver) (name : String) (id : ℕ) : ℕ → Type 0 where
  own :
      {i : ℕ} (s : Scope)
      → get_elem? r.scopes i ≡ some s
      → lookup name s.names ≡ some id
      → Resolves r name id i
  outer :
      {i : ℕ} (s : Scope) (p : ℕ)
      → get_elem? r.scopes i ≡ some s
      → lookup name s.names ≡ none
      → s.parent ≡ some p
      → Resolves r name id p
      → Resolves r name id i

Resolves-lookup :
    (r : Resolver) (name : String) (id i : ℕ)
    → IsNested r
    → Resolves r name id i
    → lookup_symbol name (pos i) r ≡ get_elem? r.symbols id
Resolves-lookup r name id i nested (own s e q) = lookup_symbol_round r name i s nested e ∙ rw q refl
Resolves-lookup r name id i nested (outer s p e q h m) =
    lookup_symbol_round r name i s nested e ∙ rw (q, h) (Resolves-lookup r name id p nested m)

lookup_from-Resolves :
    (r : Resolver) (name : String) (f : ℕ) (q : Option ℕ) (symbol : Symbol)
    → lookup_from f name q r ≡ some symbol
    → (i : ℕ) × (q ≡ some i)
      × (id : ℕ) × Resolves r name id i
      × (get_elem? r.symbols id ≡ some symbol)
lookup_from-Resolves r name f none symbol h = absurd (ground (arith, h, lookup_from-none r name f))
lookup_from-Resolves r name zero (some i) symbol h =
    absurd (ground (arith, h, lookup_from_empty r name i))
lookup_from-Resolves r name (suc f) (some i) symbol h = elim (Option-cases (get_elem? r.scopes i)) [
  | inl e ↦ absurd (ground (arith, h, lookup_from_nowhere r name f i e))
  | inr (s, e) ↦
      let step = lookup_from_round r name f i s e in
      elim (Option-cases (lookup name s.names)) [
        | inr (id, q) ↦ (i, refl, id, own s e q, cc)
        | inl q ↦
            let (p, at, id, m, found) =
              lookup_from-Resolves r name f s.parent symbol (rw q at (sym step ∙ h)) in
            (i, refl, id, outer s p e q at m, found)
      ]
]

-- In nested scopes, a lookup from a scope finds a symbol exactly where the name means the symbol's id
-- there: the scope declares it, or does not declare the name and it means this id in its parent. In
-- particular the loop never stops early, and an inner declaration hides an outer one.
pub lookup_symbol_lem :
    (r : Resolver) (name : String) (i : ℕ) (symbol : Symbol)
    → IsNested r
    → (lookup_symbol name (pos i) r ≡ some symbol)
      ↔ ((id : ℕ) × Resolves r name id i × (get_elem? r.symbols id ≡ some symbol))
unfolding lookup_symbol
lookup_symbol_lem r name i symbol nested = (
  λ h.
      let (j, same, id, m, found) =
        lookup_from-Resolves r name (suc (length r.scopes)) (some i) symbol h in
      let at : j ≡ i = cc in (id, subst (Resolves r name id) at m, found),
  λ (id, m, found). Resolves-lookup r name id i nested m ∙ found,
)
