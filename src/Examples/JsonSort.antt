-- ===== src/Examples/JsonSort.antt =====
-- A sort of members by insertion, in the place of `std::sort` in the tests of the JSON parser.
use qumir.Prelude.{ℕ, true, List, ◌≡◌, inl, inr, Bool-cases, if◌then◌else◌}
use qumir.Parser.Json.{Json, JsonMembers, no_members, and_member, string_less}
use qumir.Parser.Json.Keys.{string_less_asym}
use qumir.Parser.Json.Members.{HasMember, IsAbove, AreSorted, IsSort}

abbrev pub insert_sorted : List ℕ → Json → JsonMembers → JsonMembers
insert_sorted key v no_members = and_member key v no_members
insert_sorted key v (and_member k w ms) =
    let later = insert_sorted key v ms in
    if string_less k key then and_member k w later else and_member key v (and_member k w ms)

abbrev pub sort_members : JsonMembers → JsonMembers
sort_members no_members = no_members
sort_members (and_member key v ms) = insert_sorted key v (sort_members ms)

IsAbove-insert_sorted :
    (l k : List ℕ) (v : Json) (ms : JsonMembers)
    → string_less l k ≡ true
    → IsAbove l ms
    → IsAbove l (insert_sorted k v ms)
IsAbove-insert_sorted l k v no_members h a = string_less_asym l k h
IsAbove-insert_sorted l k v (and_member l' w ms) h a = elim (Bool-cases (string_less l' k)) [
  | inl e ↦ rw e a
  | inr e ↦ rw e (string_less_asym l k h)
]

insert_sorted-AreSorted :
    (k : List ℕ) (v : Json) (ms : JsonMembers) → AreSorted ms → AreSorted (insert_sorted k v ms)
unfolding AreSorted
insert_sorted-AreSorted k v no_members s = (tt, tt)
insert_sorted-AreSorted k v (and_member l w ms) (a, s) = elim (Bool-cases (string_less l k)) [
  | inl e ↦ rw e (IsAbove-insert_sorted l k v ms e a, insert_sorted-AreSorted k v ms s)
  | inr e ↦ rw e (e, (a, s))
]

sort_members-AreSorted : (ms : JsonMembers) → AreSorted (sort_members ms)
unfolding AreSorted
sort_members-AreSorted no_members = tt
sort_members-AreSorted (and_member k v ms) =
    insert_sorted-AreSorted k v (sort_members ms) (sort_members-AreSorted ms)

inserted :
    (key k : List ℕ) (w v : Json) (ms : JsonMembers)
    → HasMember key w (and_member k v ms)
    → HasMember key w (insert_sorted k v ms)
inserted key k w v no_members m = m
inserted key k w v (and_member l u ms) m = elim (Bool-cases (string_less l k)) [
  | inr e ↦ rw e m
  | inl e ↦ rw e (elim m [
    | inl h ↦ inr (inserted key k w v ms (inl h))
    | inr (inl h) ↦ inl h
    | inr (inr h) ↦ inr (inserted key k w v ms (inr h))
  ])
]

uninserted :
    (key k : List ℕ) (w v : Json) (ms : JsonMembers)
    → HasMember key w (insert_sorted k v ms)
    → HasMember key w (and_member k v ms)
uninserted key k w v no_members m = m
uninserted key k w v (and_member l u ms) m = elim (Bool-cases (string_less l k)) [
  | inr e ↦ rw e at m
  | inl e ↦ elim (rw e at m) [
    | inl h ↦ inr (inl h)
    | inr h ↦ elim (uninserted key k w v ms h) [ inl g ↦ inl g | inr g ↦ inr (inr g) ]
  ]
]

kept :
    (key : List ℕ) (w : Json) (ms : JsonMembers)
    → HasMember key w ms
    → HasMember key w (sort_members ms)
kept key w no_members m = m
kept key w (and_member k v ms) (inl h) = inserted key k w v (sort_members ms) (inl h)
kept key w (and_member k v ms) (inr m) =
    inserted key k w v (sort_members ms) (inr (kept key w ms m))

had :
    (key : List ℕ) (w : Json) (ms : JsonMembers)
    → HasMember key w (sort_members ms)
    → HasMember key w ms
had key w no_members m = m
had key w (and_member k v ms) m = elim (uninserted key k w v (sort_members ms) m) [
  | inl h ↦ inl h
  | inr h ↦ inr (had key w ms h)
]

pub sort_members-IsSort : IsSort sort_members
sort_members-IsSort = record {
  ordered = sort_members-AreSorted;
  same = λ ms key w. (kept key w ms, had key w ms);
}
