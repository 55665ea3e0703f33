-- ===== src/Parser/Json/RoundTrip.antt =====
-- `value` and `parse` of qumir/parser/json/parser.cpp on the tokens of a value.
use qumir.Prelude.{ℕ, zero, suc, ◌<◌, true, false, List, [], ◌∷◌, length, ◌≡◌, refl, arith}
use qumir.Parser.Json.{
  Token, operator, string_token, Json, string_value, float_value, integer_value, boolean_value,
  null_value, object_value, array_value, Elements, no_elements, and_element, JsonMembers,
  no_members, and_member, Task, done, ◌>>=◌, next, unget, is_operator, elements, array, members,
  object, keyword_value, value, all_read, parse,
}
use qumir.Parser.Json.Printing.{
  written, more_elements, more_members, sorted, sorted_elements, sorted_members, length-written,
  not_closing,
}

unget-next : (ts : List Token) → unget (next ts).0 (next ts).1 ≡ ts
unget-next [] = refl
unget-next (t ∷ ts) = refl

-- An array whose first token does not close it is read by the loop.
array-elements :
    (read : List Token → Task (Json × List Token)) (fuel : ℕ) (ts : List Token)
    → is_operator 0x5D (next ts).0 ≡ false
    → array read fuel ts ≡ (elements read fuel ts >>= λ r. done (array_value r.0, r.1))
unfolding array
array-elements read fuel ts h = rw (h, unget-next ts)

module _ (sort : JsonMembers → JsonMembers) where
  -- With this fuel the value is read back.
  abbrev IsReadBack : ℕ → Json → Type 0
  IsReadBack n v =
      (ts : List Token)
      → length (written v ts) < n
      → value sort n (written v ts) ≡ done (sorted sort v, ts)

  mutual
    unfolding value elements members written sorted keyword_value array object

    value-written : (v : Json) (n : ℕ) → IsReadBack n v
    value-written v zero ts h = absurd (omega arith)
    value-written (object_value no_members) (suc n) ts h = refl
    value-written (object_value (and_member k v ms)) (suc n) ts h =
        rw (members-more k v ms n n ts (value-written v n) (omega arith) (omega arith))
    value-written (array_value no_elements) (suc n) ts h = refl
    value-written (array_value (and_element v vs)) (suc n) ts h = rw (
      array-elements (value sort n) n (written v (more_elements vs ts))
          (not_closing v (more_elements vs ts)).0,
      elements-more v vs n n ts (value-written v n) (omega arith) (omega arith),
    )
    value-written (boolean_value true) (suc n) ts h = refl
    value-written (boolean_value false) (suc n) ts h = refl
    value-written (string_value s) (suc n) ts h = refl
    value-written (float_value x) (suc n) ts h = refl
    value-written (integer_value x) (suc n) ts h = refl
    value-written null_value (suc n) ts h = refl

    elements-more :
        (v : Json) (vs : Elements) (n fuel : ℕ) (ts : List Token)
        → IsReadBack n v
        → length (written v (more_elements vs ts)) < n
        → length (written v (more_elements vs ts)) < fuel
        → elements (value sort n) fuel (written v (more_elements vs ts))
          ≡ done (and_element (sorted sort v) (sorted_elements sort vs), ts)
    elements-more v vs n zero ts r h h' = absurd (omega arith)
    elements-more v no_elements n (suc fuel) ts r h h' = rw (r (operator 0x5D ∷ ts) h)
    elements-more v (and_element w vs) n (suc fuel) ts r h h' =
        let shorter = length-written v (more_elements (and_element w vs) ts) in
        rw (
          r (more_elements (and_element w vs) ts) h,
          elements-more w vs n fuel ts (value-written w n) (omega arith) (omega arith),
        )

    members-more :
        (k : List ℕ) (v : Json) (ms : JsonMembers) (n fuel : ℕ) (ts : List Token)
        → IsReadBack n v
        → length (written v (more_members ms ts)) < n
        → length (written v (more_members ms ts)) < fuel
        → members
            (value sort n)
            fuel
            (string_token k ∷ operator 0x3A ∷ written v (more_members ms ts))
          ≡ done (and_member k (sorted sort v) (sorted_members sort ms), ts)
    members-more k v ms n zero ts r h h' = absurd (omega arith)
    members-more k v no_members n (suc fuel) ts r h h' = rw (r (operator 0x7D ∷ ts) h)
    members-more k v (and_member l w ms) n (suc fuel) ts r h h' =
        let shorter = length-written v (more_members (and_member l w ms) ts) in
        rw (
          r (more_members (and_member l w ms) ts) h,
          members-more l w ms n fuel ts (value-written w n) (omega arith) (omega arith),
        )

  pub parse-written : (v : Json) → parse sort (written v []) ≡ done (sorted sort v)
  unfolding parse all_read
  parse-written v = rw (value-written v (suc (length (written v []))) [] (omega arith))
