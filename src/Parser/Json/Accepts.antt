-- ===== src/Parser/Json/Accepts.antt =====
-- What `parse` of qumir/parser/json/parser.cpp accepts, and that its fuel is enough.
use qumir.Prelude.{
  ℕ, zero, suc, ◌<◌, Bool, true, false, Option, none, some, List, [], ◌∷◌, length, ◌≡◌, ◌≢◌, ◌↔◌,
  inl, inr, Bool-cases, refl, ap, subst, arith, if◌then◌else◌, ◌==◌, nat_eq_iff, Eq-nat, Eq-list,
  list_beq_iff,
}
use qumir.Parser.Json.{
  Token, operator, string_token, integer_token, float_token, keyword, other_token, Json,
  string_value, float_value, integer_value, boolean_value, null_value, object_value, array_value,
  Elements, no_elements, and_element, JsonMembers, no_members, and_member, Task, done, failed,
  out_of_fuel, ◌>>=◌, next, unget, is_operator, elements, array, members, object, keyword_value,
  value, all_read, parse, true_name, false_name, null_name,
}
use qumir.Parser.Json.Printing.{
  written, more_elements, more_members, sorted, sorted_elements, sorted_members, length-written,
}
use qumir.Parser.Json.RoundTrip.{parse-written}

-- A task that does not run out of fuel, and whose result is as described.
abbrev Yields {ℓ} : {A : Type ℓ} → (A → Type 0) → Task A → Type 0
Yields P (done a) = P a
Yields P (failed t message) = Unit
Yields P out_of_fuel = ⊥

module _ {ℓ κ} {A : Type ℓ} {B : Type κ} where
  Yields-then :
      (P : A → Type 0) (Q : B → Type 0) (t : Task A) (f : A → Task B)
      → Yields P t
      → ((a : A) → P a → Yields Q (f a))
      → Yields Q (t >>= f)
  Yields-then P Q (done a) f h k = k a h
  Yields-then P Q (failed t message) f h k = tt
  Yields-then P Q out_of_fuel f h k = h

Yields-if {ℓ} :
    {A : Type ℓ} (P : A → Type 0) (b : Bool) (t u : Task A)
    → (b ≡ true → Yields P t)
    → Yields P u
    → Yields P (if b then t else u)
Yields-if P true t u h k = h refl
Yields-if P false t u h k = k

next_lem :
    (c : ℕ) (ts : List Token) → is_operator c (next ts).0 ≡ true → ts ≡ operator c ∷ (next ts).1
next_lem c (operator d ∷ ts) h = ground (arith, nat_eq_iff d c)
next_lem c [] h = absurd (ground arith)
next_lem c (_ ∷ ts) h = absurd (ground arith)

unget-next : (ts : List Token) → unget (next ts).0 (next ts).1 ≡ ts
unget-next [] = refl
unget-next (t ∷ ts) = refl

module _ (sort : JsonMembers → JsonMembers) where
  -- The tokens are those of a value, and it is what was read but for the order of members.
  abbrev ValueRead : List Token → Json × List Token → Type 0
  ValueRead ts (v, rest) = (w : Json) × (ts ≡ written w rest) × (v ≡ sorted sort w)

  abbrev ElementsRead : List Token → Elements × List Token → Type 0
  ElementsRead ts (vs, rest) =
      (w : Json) × (ws : Elements) × (ts ≡ written w (more_elements ws rest))
      × (vs ≡ and_element (sorted sort w) (sorted_elements sort ws))

  abbrev MembersRead : List Token → JsonMembers × List Token → Type 0
  MembersRead ts (ms, rest) =
      (k : List ℕ) × (w : Json) × (ws : JsonMembers) × (ts
        ≡ string_token k ∷ operator 0x3A ∷ written w (more_members ws rest))
      × (ms ≡ and_member k (sorted sort w) (sorted_members sort ws))

  abbrev ReadsBelow : ℕ → (List Token → Task (Json × List Token)) → Type 0
  ReadsBelow n read = (ts : List Token) → length ts < n → Yields (ValueRead ts) (read ts)

  module _ (read : List Token → Task (Json × List Token)) (n : ℕ) (reads : ReadsBelow n read) where
    elements_lem :
        (fuel : ℕ) (ts : List Token)
        → length ts < n
        → length ts < fuel
        → Yields (ElementsRead ts) (elements read fuel ts)
    unfolding elements written sorted
    elements_lem zero ts h h' = absurd (omega arith)
    elements_lem (suc fuel) ts h h' =
        Yields-then (ValueRead ts) (ElementsRead ts) (read ts) _ (reads ts h) λ (v, ts₁) (w, p, q).
          let ts₂ = (next ts₁).1 in
          Yields-if (ElementsRead ts) (is_operator 0x5D (next ts₁).0) _ _
            (λ e. (w, no_elements, cc (p, next_lem 0x5D ts₁ e), cc q))
            (Yields-if (ElementsRead ts) (is_operator 0x2C (next ts₁).0) _ _
              (λ e.
                let p₁ = next_lem 0x2C ts₁ e in
                let shorter = length-written w ts₁ in
                Yields-then (ElementsRead ts₂) (ElementsRead ts) (elements read fuel ts₂) _
                  (elements_lem fuel ts₂ (omega (arith, ap length p, ap length p₁))
                    (omega (arith, ap length p, ap length p₁)))
                  λ (vs, rest) (x, xs, p₂, q₂). (w, and_element x xs, cc (p, p₁, p₂), cc (q, q₂)))
              tt)

    members_lem :
        (fuel : ℕ) (ts : List Token)
        → length ts < n
        → length ts < fuel
        → Yields (MembersRead ts) (members read fuel ts)
    unfolding members written sorted
    members_lem zero ts h h' = absurd (omega arith)
    members_lem (suc fuel) (string_token k ∷ ts) h h' =
        let ts₂ = (next ts).1 in
        let whole = string_token k ∷ ts in
        Yields-if (MembersRead whole) (is_operator 0x3A (next ts).0) _ _
          (λ c.
            let p₀ = next_lem 0x3A ts c in
            Yields-then (ValueRead ts₂) (MembersRead whole) (read ts₂) _
              (reads ts₂ (omega (arith, ap length p₀)))
              λ (v, ts₃) (w, p, q).
                let ts₄ = (next ts₃).1 in
                Yields-if (MembersRead whole) (is_operator 0x7D (next ts₃).0) _ _
                  (λ e. (k, w, no_members, cc (p₀, p, next_lem 0x7D ts₃ e), cc q))
                  (Yields-if (MembersRead whole) (is_operator 0x2C (next ts₃).0) _ _
                    (λ e.
                      let p₁ = next_lem 0x2C ts₃ e in
                      let shorter = length-written w ts₃ in
                      Yields-then (MembersRead ts₄) (MembersRead whole) (members read fuel ts₄) _
                        (members_lem fuel ts₄
                          (omega (arith, ap length p₀, ap length p, ap length p₁))
                          (omega (arith, ap length p₀, ap length p, ap length p₁)))
                        λ (ms, rest) (l, x, xs, p₂, q₂).
                          (k, w, and_member l x xs, cc (p₀, p, p₁, p₂), cc (q, q₂)))
                    tt))
          tt
    members_lem (suc fuel) _ h h' = tt

    array_lem :
        (ts : List Token)
        → length ts < n
        → Yields (ValueRead (operator 0x5B ∷ ts)) (array read n ts)
    unfolding array written sorted
    array_lem ts h =
        let whole = operator 0x5B ∷ ts in
        Yields-if (ValueRead whole) (is_operator 0x5D (next ts).0) _ _
          (λ e. (array_value no_elements, ap (λ us. operator 0x5B ∷ us) (next_lem 0x5D ts e), refl))
          (Yields-then (ElementsRead ts) (ValueRead whole)
            (elements read n (unget (next ts).0 (next ts).1)) _
            (rw unget-next (elements_lem n ts h h))
            λ (vs, rest) (w, ws, p, q). (array_value (and_element w ws), cc p, cc q))

    object_lem :
        (ts : List Token)
        → length ts < n
        → Yields (ValueRead (operator 0x7B ∷ ts)) (object sort read n ts)
    unfolding object written sorted
    object_lem ts h =
        let whole = operator 0x7B ∷ ts in
        Yields-if (ValueRead whole) (is_operator 0x7D (next ts).0) _ _
          (λ e. (object_value no_members, ap (λ us. operator 0x7B ∷ us) (next_lem 0x7D ts e), refl))
          (Yields-then (MembersRead ts) (ValueRead whole)
            (members read n (unget (next ts).0 (next ts).1)) _
            (rw unget-next (members_lem n ts h h))
            λ (ms, rest) (k, w, ws, p, q).
              (object_value (and_member k w ws), cc p, ap (λ ys. object_value (sort ys)) q))

  abbrev KeywordRead : List ℕ → List Token → Option Json → Type 0
  KeywordRead name ts none = Unit
  KeywordRead name ts (some v) = ValueRead (keyword name ∷ ts) (v, ts)

  KeywordRead-if :
      (name : List ℕ) (ts : List Token) (known : List ℕ) (v : Json) (o : Option Json)
      → ValueRead (keyword known ∷ ts) (v, ts)
      → KeywordRead name ts o
      → KeywordRead name ts (if name == known then some v else o)
  KeywordRead-if name ts known v o h k = elim (Bool-cases (name == known)) [
    | inl e ↦ rw (e, (list_beq_iff name known).0 e) h
    | inr e ↦ rw e k
  ]

  keyword_value_lem : (name : List ℕ) (ts : List Token) → KeywordRead name ts (keyword_value name)
  unfolding keyword_value written sorted
  keyword_value_lem name ts =
      KeywordRead-if name ts true_name (boolean_value true) _ (boolean_value true, refl, refl)
        (KeywordRead-if name ts false_name (boolean_value false) _ (boolean_value false, refl, refl)
          (KeywordRead-if name ts null_name null_value _ (null_value, refl, refl) tt))

  KeywordRead-Yields :
      (name : List ℕ) (ts : List Token) (o : Option Json)
      → KeywordRead name ts o
      → Yields (ValueRead (keyword name ∷ ts)) (elim o [
        | none ↦ failed (some (keyword name)) "unexpected keyword"
        | some v ↦ done (v, ts)
      ])
  KeywordRead-Yields name ts none h = tt
  KeywordRead-Yields name ts (some v) h = h

  value_lem : (n : ℕ) → ReadsBelow n (value sort n)
  unfolding value written sorted
  value_lem zero ts h = absurd (omega arith)
  value_lem (suc n) [] h = tt
  value_lem (suc n) (operator c ∷ ts) h =
      let whole = operator c ∷ ts in
      Yields-if (ValueRead whole) (c == 0x7B) _ _
        (λ e.
          rw ((nat_eq_iff c 0x7B).0 e) (object_lem (value sort n) n (value_lem n) ts (omega arith)))
        (Yields-if (ValueRead whole) (c == 0x5B) _ _
          (λ e.
            rw ((nat_eq_iff c 0x5B).0 e)
              (array_lem (value sort n) n (value_lem n) ts (omega arith)))
          tt)
  value_lem (suc n) (string_token s ∷ ts) h = (string_value s, refl, refl)
  value_lem (suc n) (integer_token x ∷ ts) h = (integer_value x, refl, refl)
  value_lem (suc n) (float_token x ∷ ts) h = (float_value x, refl, refl)
  value_lem (suc n) (keyword name ∷ ts) h =
      KeywordRead-Yields name ts (keyword_value name) (keyword_value_lem name ts)
  value_lem (suc n) (other_token name ∷ ts) h = tt

  all_read_lem :
      (ts : List Token) (v : Json) (rest : List Token)
      → ValueRead ts (v, rest)
      → Yields (λ w. ValueRead ts (w, [])) (all_read v (next rest).0)
  unfolding all_read
  all_read_lem ts v [] h = h
  all_read_lem ts v (t ∷ rest) h = tt

  parse-Yields : (ts : List Token) → Yields (λ v. ValueRead ts (v, [])) (parse sort ts)
  unfolding parse
  parse-Yields ts =
      Yields-then (ValueRead ts) (λ v. ValueRead ts (v, [])) (value sort (suc (length ts)) ts) _
        (value_lem (suc (length ts)) ts (omega arith)) λ (v, rest) h. all_read_lem ts v rest h

-- `Parse` returns a value or an error on every sequence of tokens, whatever the sort of the members does:
-- the fuel that `parse` hands out is never used up.
pub parse_settles :
    (sort : JsonMembers → JsonMembers) (ts : List Token) → parse sort ts ≢ out_of_fuel
parse_settles sort ts e = subst (Yields (λ v. ValueRead sort ts (v, []))) e (parse-Yields sort ts)

-- Whatever the sort of the members does, `Parse` accepts a sequence of tokens exactly where it is a JSON
-- value written out, and returns that value with the sort applied to the members of each object, inner
-- objects first.
pub parse_iff :
    (sort : JsonMembers → JsonMembers) (ts : List Token) (v : Json)
    → (parse sort ts ≡ done v) ↔ ((w : Json) × (ts ≡ written w []) × (v ≡ sorted sort w))
parse_iff sort ts v = (
  λ e. subst (Yields (λ u. ValueRead sort ts (u, []))) e (parse-Yields sort ts),
  λ (w, p, q). cc (p, q, parse-written sort w),
)
