-- ===== src/Examples/Json.antt =====
-- The JSON parser on a text.
use qumir.Prelude.{pos, none, true, List, [], ◌∷◌, ◌≡◌, ◌≢◌, ◌↔◌, ◌⊎◌, some, refl}
use qumir.Parser.Json.{
  Token, operator, string_token, integer_token, keyword, Json, integer_value, boolean_value,
  object_value, array_value, and_element, no_elements, JsonMembers, no_members, and_member, done,
  failed, out_of_fuel, value, elements, array, members, object, keyword_value, parse, all_read, get,
}
use qumir.Parser.Json.Printing.{written, sorted}
use qumir.Parser.Json.Accepts.{parse_settles, parse_iff}
use qumir.Parser.Json.Members.{AreSorted, HasMember, get-parse}
use qumir.Examples.JsonSort.{sort_members, sort_members-IsSort}

-- {"b": [true], "a": 7}
abbrev two_members : JsonMembers
two_members =
    and_member (0x62 ∷ []) (array_value (and_element (boolean_value true) no_elements))
      (and_member (0x61 ∷ []) (integer_value (pos 7)) no_members)

abbrev text : List Token
text =
    operator 0x7B
    ∷ string_token (0x62 ∷ [])
    ∷ operator 0x3A
    ∷ operator 0x5B
    ∷ keyword (0x74 ∷ 0x72 ∷ 0x75 ∷ 0x65 ∷ [])
    ∷ operator 0x5D
    ∷ operator 0x2C
    ∷ string_token (0x61 ∷ [])
    ∷ operator 0x3A
    ∷ integer_token (pos 7)
    ∷ operator 0x7D
    ∷ []

two_members-written : written (object_value two_members) [] ≡ text
unfolding written
two_members-written = refl

-- The members change places.
parsed_text :
    parse sort_members text
    ≡ done (
        object_value (
          and_member (0x61 ∷ []) (integer_value (pos 7)) (
            and_member
              (0x62 ∷ [])
              (array_value (and_element (boolean_value true) no_elements))
              no_members)))
unfolding parse value elements array members object keyword_value all_read
parsed_text = refl

-- [7
open_array :
    parse sort_members (operator 0x5B ∷ integer_token (pos 7) ∷ [])
    ≡ failed none "expected ',' or ']'"
unfolding parse value elements array
open_array = refl

parse_settles_example : parse sort_members text ≢ out_of_fuel
parse_settles_example = parse_settles sort_members text

parse_iff_example :
    (parse sort_members text ≡ done (sorted sort_members (object_value two_members))) ↔ (
      (w : Json) × (text ≡ written w [])
      × (sorted sort_members (object_value two_members) ≡ sorted sort_members w))
parse_iff_example = parse_iff sort_members text (sorted sort_members (object_value two_members))

get-parse_example :
    (ns : JsonMembers) × (parse sort_members (written (object_value two_members) [])
      ≡ done (object_value ns))
    × AreSorted ns
    × ((((w : Json) → ¬ (HasMember (0x61 ∷ []) w two_members)) × (get (0x61 ∷ []) ns ≡ none))
        ⊎ ((w : Json) × HasMember (0x61 ∷ []) w two_members
            × (get (0x61 ∷ []) ns ≡ some (sorted sort_members w))))
get-parse_example = get-parse sort_members two_members (0x61 ∷ []) sort_members-IsSort
