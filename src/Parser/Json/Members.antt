-- ===== src/Parser/Json/Members.antt =====
-- `TObject::Get` of qumir/parser/json/node.cpp, a binary search in members that `std::sort` has put in
-- the order of their keys.
use qumir.Prelude.{
  ℕ, true, false, none, some, List, [], ◌≡◌, ◌≢◌, ◌↔◌, ◌⊎◌, inl, inr, Bool-cases, Option-cases,
  refl, arith, ◌==◌, Eq-nat, Eq-list, list_beq_iff,
}
use qumir.Parser.Json.{
  Json, object_value, JsonMembers, no_members, and_member, done, string_less, get, parse,
}
use qumir.Parser.Json.Keys.{
  string_less_irrefl, string_less_trans, string_less_total, same_key, string_order,
}
use qumir.Parser.Json.Printing.{written, sorted, sorted_members}
use qumir.Parser.Json.RoundTrip.{parse-written}

-- A member with this key and value.
abbrev pub HasMember : List ℕ → Json → JsonMembers → Type 0
HasMember key w no_members = ⊥
HasMember key w (and_member k v ms) = ((k ≡ key) × (v ≡ w)) ⊎ HasMember key w ms

-- No member comes before the key, at the front of the list.
abbrev pub IsAbove : List ℕ → JsonMembers → Type 0
IsAbove k no_members = Unit
IsAbove k (and_member l w ms) = string_less l k ≡ false

-- The keys are in order.
unfoldable pub AreSorted : JsonMembers → Type 0
AreSorted no_members = Unit
AreSorted (and_member k v ms) = IsAbove k ms × AreSorted ms

-- What `std::sort` by keys promises: the keys are in order afterwards, and the members are the same.
pub record IsSort (sort : JsonMembers → JsonMembers) : Type 0 where
  pub ordered : (ms : JsonMembers) → AreSorted (sort ms)
  pub same :
      (ms : JsonMembers) (key : List ℕ) (w : Json) → HasMember key w ms ↔ HasMember key w (sort ms)

-- A key that is below the first one is the key of no member.
nothing_below :
    (key k : List ℕ) (v w : Json) (ms : JsonMembers)
    → string_less key k ≡ true
    → AreSorted (and_member k v ms)
    → ¬ (HasMember key w (and_member k v ms))
unfolding AreSorted
nothing_below key k v w ms h s (inl (e, q)) =
    absurd (ground (arith, rw e at h, string_less_irrefl key))
nothing_below key k v w no_members h s (inr m) = m
nothing_below key k v w (and_member l u ms) h (a, s) (inr m) = elim (string_less_total l k) [
  | inl b ↦ absurd (ground (arith, a, b))
  | inr (inl e) ↦ nothing_below key l u w ms (rw e h) s m
  | inr (inr b) ↦ nothing_below key l u w ms (string_less_trans key k l h b) s m
]

-- What is found is a member.
get-HasMember :
    (key : List ℕ) (w : Json) (ms : JsonMembers) → get key ms ≡ some w → HasMember key w ms
unfolding get
get-HasMember key w no_members h = absurd (ground (arith, h))
get-HasMember key w (and_member k v ms) h = elim (Bool-cases (string_less k key)) [
  | inl b ↦ inr (get-HasMember key w ms (rw b at h))
  | inr b ↦ elim (Bool-cases (k == key)) [
    | inl e ↦ let found = rw (b, e) at h in inl ((list_beq_iff k key).0 e, cc)
    | inr e ↦ absurd (ground (arith, b, e, h))
  ]
]

-- Where members are in order, one that is there is not missed.
get_complete :
    (key : List ℕ) (w : Json) (ms : JsonMembers)
    → AreSorted ms
    → HasMember key w ms
    → get key ms ≢ none
unfolding get AreSorted
get_complete key w no_members s m h = m
get_complete key w (and_member k v ms) s m h = elim (string_order k key) [
  | inl (b, d) ↦ elim m [
    | inl (e, q) ↦ absurd (ground (arith, rw e at b, string_less_irrefl key))
    | inr m' ↦ get_complete key w ms s.1 m' (rw b at h)
  ]
  | inr (inl e) ↦
      let found : get key (and_member key v ms) ≡ none = rw e at h in
      absurd (ground (arith, found, same_key key, string_less_irrefl key))
  | inr (inr (b, d, below)) ↦ nothing_below key k v w ms below s m
]

module _ (sort : JsonMembers → JsonMembers) where
  sorted_members-HasMember :
      (key : List ℕ) (w : Json) (ms : JsonMembers)
      → HasMember key w ms
      → HasMember key (sorted sort w) (sorted_members sort ms)
  unfolding sorted
  sorted_members-HasMember key w no_members m = m
  sorted_members-HasMember key w (and_member k v ms) (inl (e, q)) = inl (e, rw q refl)
  sorted_members-HasMember key w (and_member k v ms) (inr m) =
      inr (sorted_members-HasMember key w ms m)

  -- A member of the object with inner objects sorted was there before.
  unsorted_member :
      (key : List ℕ) (u : Json) (ms : JsonMembers)
      → HasMember key u (sorted_members sort ms)
      → (w : Json) × HasMember key w ms × (u ≡ sorted sort w)
  unfolding sorted
  unsorted_member key u no_members m = absurd m
  unsorted_member key u (and_member k v ms) (inl (e, q)) = (v, inl (e, refl), cc q)
  unsorted_member key u (and_member k v ms) (inr m) =
      let (w, h, q) = unsorted_member key u ms m in (w, inr h, q)

-- Where the sort puts the keys in order and keeps the members, the tokens of an object with members in
-- any order are parsed to an object whose keys are in order. Either no member has a key and `Get` finds
-- nothing under it in the parsed object, or `Get` finds the value of a member with the key, with the
-- objects inside it sorted.
pub get-parse :
    (sort : JsonMembers → JsonMembers) (ms : JsonMembers) (key : List ℕ)
    → IsSort sort
    → (ns : JsonMembers) × (parse sort (written (object_value ms) []) ≡ done (object_value ns))
      × AreSorted ns
      × ((((w : Json) → ¬ (HasMember key w ms)) × (get key ns ≡ none))
          ⊎ ((w : Json) × HasMember key w ms × (get key ns ≡ some (sorted sort w))))
unfolding sorted
get-parse sort ms key laws =
    let inner = sorted_members sort ms in
    let ns = sort inner in
    let ordered = laws.ordered inner in
    (
      ns,
      parse-written sort (object_value ms),
      ordered,
      elim (Option-cases (get key ns)) [
        | inl e ↦ inl (
          λ w m.
              let kept = sorted_members-HasMember sort key w ms m in
              get_complete key (sorted sort w) ns ordered
                ((laws.same inner key (sorted sort w)).0 kept) e,
          e,
        )
        | inr (u, e) ↦
            let (w, m, q) =
              unsorted_member sort key u ms
                ((laws.same inner key u).1 (get-HasMember key u ns e)) in
            inr (w, m, cc)
      ],
    )
