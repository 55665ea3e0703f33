-- ===== src/Parser/Json/Printing.antt =====
-- How a JSON value is written as tokens: what the parser of qumir/parser/json/parser.cpp reads.
use qumir.Prelude.{◌<◌, true, false, List, ◌∷◌, length, ◌≡◌, refl, arith}
use qumir.Parser.Json.{
  Token, operator, string_token, integer_token, float_token, keyword, Json, string_value,
  float_value, integer_value, boolean_value, null_value, object_value, array_value, Elements,
  no_elements, and_element, JsonMembers, no_members, and_member, next, is_operator, true_name,
  false_name, null_name,
}

-- The tokens of a value, before those that follow it. `and_elements` starts with a comma where there
-- are elements left.
unfoldable mutual
  pub written : Json → List Token → List Token
  written (string_value s) ts = string_token s ∷ ts
  written (float_value x) ts = float_token x ∷ ts
  written (integer_value n) ts = integer_token n ∷ ts
  written (boolean_value true) ts = keyword true_name ∷ ts
  written (boolean_value false) ts = keyword false_name ∷ ts
  written null_value ts = keyword null_name ∷ ts
  written (object_value no_members) ts = operator 0x7B ∷ operator 0x7D ∷ ts
  written (object_value (and_member k v ms)) ts =
      operator 0x7B ∷ string_token k ∷ operator 0x3A ∷ written v (more_members ms ts)
  written (array_value no_elements) ts = operator 0x5B ∷ operator 0x5D ∷ ts
  written (array_value (and_element v vs)) ts = operator 0x5B ∷ written v (more_elements vs ts)

  pub more_elements : Elements → List Token → List Token
  more_elements no_elements ts = operator 0x5D ∷ ts
  more_elements (and_element v vs) ts = operator 0x2C ∷ written v (more_elements vs ts)

  pub more_members : JsonMembers → List Token → List Token
  more_members no_members ts = operator 0x7D ∷ ts
  more_members (and_member k v ms) ts =
      operator 0x2C ∷ string_token k ∷ operator 0x3A ∷ written v (more_members ms ts)

module _ (sort : JsonMembers → JsonMembers) where
  -- The value with the members of each object sorted.
  unfoldable mutual
    pub sorted : Json → Json
    sorted (string_value s) = string_value s
    sorted (float_value x) = float_value x
    sorted (integer_value n) = integer_value n
    sorted (boolean_value b) = boolean_value b
    sorted null_value = null_value
    sorted (object_value ms) = object_value (sort (sorted_members ms))
    sorted (array_value vs) = array_value (sorted_elements vs)

    pub sorted_elements : Elements → Elements
    sorted_elements no_elements = no_elements
    sorted_elements (and_element v vs) = and_element (sorted v) (sorted_elements vs)

    pub sorted_members : JsonMembers → JsonMembers
    sorted_members no_members = no_members
    sorted_members (and_member k v ms) = and_member k (sorted v) (sorted_members ms)

-- A value takes at least one token.
mutual
  unfolding written

  pub length-written : (v : Json) (ts : List Token) → length ts < length (written v ts)
  length-written (object_value no_members) ts = omega arith
  length-written (object_value (and_member k v ms)) ts =
      omega (arith, length-written v (more_members ms ts), length-more_members ms ts)
  length-written (array_value no_elements) ts = omega arith
  length-written (array_value (and_element v vs)) ts =
      omega (arith, length-written v (more_elements vs ts), length-more_elements vs ts)
  length-written (boolean_value true) ts = omega arith
  length-written (boolean_value false) ts = omega arith
  length-written (string_value s) ts = omega arith
  length-written (float_value x) ts = omega arith
  length-written (integer_value n) ts = omega arith
  length-written null_value ts = omega arith

  pub length-more_elements :
      (vs : Elements) (ts : List Token) → length ts < length (more_elements vs ts)
  length-more_elements no_elements ts = omega arith
  length-more_elements (and_element v vs) ts =
      omega (arith, length-written v (more_elements vs ts), length-more_elements vs ts)

  pub length-more_members :
      (ms : JsonMembers) (ts : List Token) → length ts < length (more_members ms ts)
  length-more_members no_members ts = omega arith
  length-more_members (and_member k v ms) ts =
      omega (arith, length-written v (more_members ms ts), length-more_members ms ts)

-- No value starts with a bracket that closes one.
pub not_closing :
    (v : Json) (ts : List Token)
    → (is_operator 0x5D (next (written v ts)).0 ≡ false)
      × (is_operator 0x7D (next (written v ts)).0 ≡ false)
unfolding written
not_closing (object_value no_members) ts = (refl, refl)
not_closing (object_value (and_member k v ms)) ts = (refl, refl)
not_closing (array_value no_elements) ts = (refl, refl)
not_closing (array_value (and_element v vs)) ts = (refl, refl)
not_closing (boolean_value true) ts = (refl, refl)
not_closing (boolean_value false) ts = (refl, refl)
not_closing (string_value s) ts = (refl, refl)
not_closing (float_value x) ts = (refl, refl)
not_closing (integer_value n) ts = (refl, refl)
not_closing null_value ts = (refl, refl)
