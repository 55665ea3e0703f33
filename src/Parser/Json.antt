-- ===== src/Parser/Json.antt =====
-- The JSON values of qumir/parser/json/node.h and their parser, qumir/parser/json/parser.cpp, on the
-- tokens that the lexer has read. Locations of tokens are left out, and a value is a tree where the
-- source has pointers to nodes that `TJson` owns.
use qumir.Prelude.{
  ℕ, zero, suc, ℤ, String, Bool, true, false, Option, none, some, List, [], ◌∷◌, ltb, ◌==◌, Eq-nat,
  Eq-list, if◌then◌else◌, length,
}
pub mod Printing
pub mod RoundTrip
pub mod Accepts
pub mod Keys
pub mod Members

-- `TToken`: an operator is a character; a double is its bit pattern, a name its bytes. The token at
-- the end of the input, an operator -1, is `none` where an option of a token stands.
pub data Token : Type 0 where
  operator : ℕ → Token
  string_token : List ℕ → Token
  integer_token : ℤ → Token
  float_token : ℕ → Token
  keyword : List ℕ → Token
  other_token : List ℕ → Token

-- `IValue` and its classes.
mutual
  pub data Json : Type 0 where
    string_value : List ℕ → Json
    float_value : ℕ → Json
    integer_value : ℤ → Json
    boolean_value : Bool → Json
    null_value : Json
    object_value : JsonMembers → Json
    array_value : Elements → Json

  pub data Elements : Type 0 where
    no_elements : Elements
    and_element : Json → Elements → Elements

  pub data JsonMembers : Type 0 where
    no_members : JsonMembers
    and_member : List ℕ → Json → JsonMembers → JsonMembers

-- `TJsonTask`: the result of a task, or a `TError` at a token.
pub data Task {ℓ} (A : Type ℓ) : Type ℓ where
  done : A → Task A
  failed : Option Token → String → Task A
  out_of_fuel : Task A

infixl 5 ◌>>=◌
abbrev pub ◌>>=◌ {ℓ κ} : {A : Type ℓ} {B : Type κ} → Task A → (A → Task B) → Task B
done a >>= f = f a
failed t message >>= f = failed t message
out_of_fuel >>= f = out_of_fuel

-- `Next` of the token stream.
abbrev pub next : List Token → Option Token × List Token
next [] = (none, [])
next (t ∷ ts) = (some t, ts)

-- `Unget`
abbrev pub unget : Option Token → List Token → List Token
unget none ts = ts
unget (some t) ts = t ∷ ts

-- `token.Type == TToken::Operator && token.Value.i64 == c`
abbrev pub is_operator : ℕ → Option Token → Bool
is_operator c (some (operator d)) = d == c
is_operator c _ = false

-- `<` of `std::string`.
abbrev pub string_less : List ℕ → List ℕ → Bool
string_less [] [] = false
string_less [] (b ∷ t) = true
string_less (a ∷ s) [] = false
string_less (a ∷ s) (b ∷ t) = let later = string_less s t in if a == b then later else ltb a b

-- The loop of `array`.
unfoldable pub elements :
    (List Token → Task (Json × List Token)) → ℕ → List Token → Task (Elements × List Token)
elements value zero ts = out_of_fuel
elements value (suc fuel) ts = do
  (v, ts₁) ← value ts
  let (token, ts₂) = next ts₁
  let later : Task (Elements × List Token) = (do
    (vs, ts₃) ← elements value fuel ts₂
    done (and_element v vs, ts₃))
  if is_operator 0x5D token
      then done (and_element v no_elements, ts₂)
      else if is_operator 0x2C token
      then later
      else failed token "expected ',' or ']'"

-- `array`, after its bracket.
unfoldable pub array :
    (List Token → Task (Json × List Token)) → ℕ → List Token → Task (Json × List Token)
array value fuel ts =
    let (token, ts₁) = next ts in
    if is_operator 0x5D token
    then done (array_value no_elements, ts₁)
    else (do (vs, ts₂) ← elements value fuel (unget token ts₁); done (array_value vs, ts₂))

-- The key of a member.
abbrev pub key_of : Option Token → Option (List ℕ)
key_of (some (string_token key)) = some key
key_of _ = none

-- The loop of `object`, without the sorting at its end.
unfoldable pub members :
    (List Token → Task (Json × List Token)) → ℕ → List Token → Task (JsonMembers × List Token)
members value zero ts = out_of_fuel
members value (suc fuel) ts =
    let (key_token, ts₁) = next ts in
    let (colon_token, ts₂) = next ts₁ in
    let member : List ℕ → Task (JsonMembers × List Token) = λ key. (do
      (v, ts₃) ← value ts₂
      let (token, ts₄) = next ts₃
      let later : Task (JsonMembers × List Token) = (do
        (ms, ts₅) ← members value fuel ts₄
        done (and_member key v ms, ts₅))
      if is_operator 0x7D token
          then done (and_member key v no_members, ts₄)
          else if is_operator 0x2C token
          then later
          else failed token "expected ',' or '}' in object") in
    elim (key_of key_token) [
      | none ↦ failed key_token "expected string key in object"
      | some key ↦
          if is_operator 0x3A colon_token
          then member key
          else failed colon_token "expected ':' after key in object"
    ]

-- `object`, after its brace. `sort` is `std::sort` of the members by their keys, which promises no order
-- of members with one key.
unfoldable pub object :
    (JsonMembers → JsonMembers)
    → (List Token → Task (Json × List Token))
    → ℕ
    → List Token
    → Task (Json × List Token)
object sort value fuel ts =
    let (token, ts₁) = next ts in
    if is_operator 0x7D token
    then done (object_value (sort no_members), ts₁)
    else (do (ms, ts₂) ← members value fuel (unget token ts₁); done (object_value (sort ms), ts₂))

abbrev pub true_name : List ℕ
true_name = 0x74 ∷ 0x72 ∷ 0x75 ∷ 0x65 ∷ []

abbrev pub false_name : List ℕ
false_name = 0x66 ∷ 0x61 ∷ 0x6C ∷ 0x73 ∷ 0x65 ∷ []

abbrev pub null_name : List ℕ
null_name = 0x6E ∷ 0x75 ∷ 0x6C ∷ 0x6C ∷ []

-- The value of a keyword.
unfoldable pub keyword_value : List ℕ → Option Json
keyword_value name =
    if name == true_name
    then some (boolean_value true)
    else if name == false_name
    then some (boolean_value false)
    else if name == null_name
    then some null_value
    else none

-- `value`, with fuel for the depth of the brackets and for each of the loops.
unfoldable pub value : (JsonMembers → JsonMembers) → ℕ → List Token → Task (Json × List Token)
value sort zero ts = out_of_fuel
value sort (suc fuel) [] = failed none "unexpected operator"
value sort (suc fuel) (operator c ∷ ts) =
    if c == 0x7B
    then object sort (value sort fuel) fuel ts
    else if c == 0x5B
    then array (value sort fuel) fuel ts
    else failed (some (operator c)) "unexpected operator"
value sort (suc fuel) (string_token s ∷ ts) = done (string_value s, ts)
value sort (suc fuel) (integer_token n ∷ ts) = done (integer_value n, ts)
value sort (suc fuel) (float_token x ∷ ts) = done (float_value x, ts)
value sort (suc fuel) (keyword name ∷ ts) = elim (keyword_value name) [
  | none ↦ failed (some (keyword name)) "unexpected keyword"
  | some v ↦ done (v, ts)
]
value sort (suc fuel) (other_token name ∷ ts) =
    failed (some (other_token name)) "unexpected token type"

-- The end of `TParser::Parse`.
unfoldable pub all_read : Json → Option Token → Task Json
all_read v none = done v
all_read v (some t) = failed (some t) "unexpected token after JSON value"

-- `TParser::Parse`
unfoldable pub parse : (JsonMembers → JsonMembers) → List Token → Task Json
parse sort ts = do (v, rest) ← value sort (suc (length ts)) ts; all_read v (next rest).0

-- `TObject::Get`: the first member whose key is not less than the key, where the keys are sorted.
unfoldable pub get : List ℕ → JsonMembers → Option Json
get key no_members = none
get key (and_member k v ms) =
    let later = get key ms in if string_less k key then later else if k == key then some v else none
