-- ===== src/Semantics/Suggestions.antt =====
-- `TNameResolver::Suggest`, qumir/semantics/name_resolution/name_resolver.cpp. The bytes of a name are
-- a parameter. The code points that the source keeps with a symbol are computed each time, which gives
-- the same. An access out of its range, and fuel that is used up, is `none`.
use qumir.Prelude.{
  ℕ, zero, suc, ◌+◌, ℤ, pos, negsuc, String, Bool, true, false, not, ◌&&◌, Option, none, some, List,
  [], ◌∷◌, ltb, leb, ◌==◌, Eq-nat, Eq-string, if◌then◌else◌, length, get_elem?, ◌>>=◌,
}
use qumir.Semantics.Nodes.{Node, params_of}
use qumir.Semantics.Scopes.{Symbol, Scope, Resolver}
use qumir.Semantics.EditDistance.{calc}
use qumir.Semantics.CodePoints.{calc_code_points}
pub mod Closest
pub mod Outside
pub mod Visible

-- `TSuggestion`, whose `OriginalName` is the name looked for.
pub record Suggestion : Type 0 where
  pub name : String
  pub required_module : Option String
  pub distance : ℕ

-- `checkedNames`, `bestSuggestion` and the table of `EditDistanceCalculator`. A distance of INT32_MAX
-- is `none`.
pub record Search : Type 0 where
  pub checked : List String
  pub best : Option Suggestion
  pub table : List ℕ

abbrev pub has_name : List String → String → Bool
has_name [] name = false
has_name (n ∷ ns) name = if n == name then true else has_name ns name

-- `TMaybeNode<TFunDecl>`
abbrev pub is_fun_decl : Node → Bool
is_fun_decl node = elim (params_of node) [ none ↦ false | some ps ↦ true ]

-- `MAX_DISTANCE`
abbrev pub max_distance : ℕ
max_distance = 2

-- `distance < bestSuggestion.Distance`
abbrev pub is_closer : ℕ → Option Suggestion → Bool
is_closer d none = true
is_closer d (some b) = ltb d b.distance

-- A new best suggestion; where none has been found yet it is the first.
unfoldable pub improve : Option String → String → ℕ → Option Suggestion → Option Suggestion
improve required candidate d best =
    if is_closer d best && leb d max_distance
    then some (record { name = candidate; required_module = required; distance = d })
    else best

module _ (bytes : String → List ℕ) where
  abbrev pub points : String → List ℕ
  points name = calc_code_points (bytes name)

  -- One round of the loops over names; the module is that of a function of a module.
  unfoldable pub consider : List ℕ → Option String → String → Search → Option Search
  consider name_points required candidate s =
      let seen = record s { checked = candidate ∷ s.checked } in
      let compared : Option Search = (do
        r ← calc name_points (points candidate) s.table
        some (record seen { best = improve required candidate r.1 s.best; table = r.0 })) in
      if has_name s.checked candidate
      then some s
      else if ltb (length name_points + max_distance) (length (points candidate))
      then some seen
      else compared

  -- The loop over the symbols of a scope.
  unfoldable pub search_symbols : List ℕ → Bool → Resolver → List ℕ → Search → Option Search
  search_symbols name_points include_functions r [] s = some s
  search_symbols name_points include_functions r (id ∷ ids) s = do
    symbol ← get_elem? r.symbols id
    s' ←
        if not include_functions && is_fun_decl symbol.node
        then some s
        else consider name_points none symbol.name s
    search_symbols name_points include_functions r ids s'

  -- The loop over the scopes, outwards.
  unfoldable pub search_scopes : ℕ → List ℕ → Bool → Resolver → Option ℕ → Search → Option Search
  search_scopes fuel name_points include_functions r none s = some s
  search_scopes zero name_points include_functions r (some i) s = none
  search_scopes (suc fuel) name_points include_functions r (some i) s = do
    scope ← get_elem? r.scopes i
    s' ← search_symbols name_points include_functions r scope.symbols s
    search_scopes fuel name_points include_functions r scope.parent s'

  -- The loop over the functions of a module.
  unfoldable pub search_functions : List ℕ → String → List String → Search → Option Search
  search_functions name_points required [] s = some s
  search_functions name_points required (f ∷ fs) s = do
    s' ← consider name_points (some required) f s
    search_functions name_points required fs s'

  -- The loop over the modules, with the names of their functions.
  unfoldable pub search_modules : List ℕ → List (String × List String) → Search → Option Search
  search_modules name_points [] s = some s
  search_modules name_points ((required, fs) ∷ ms) s = do
    s' ← search_functions name_points required fs s
    search_modules name_points ms s'

  -- The search in modules, where nothing has been found in the scopes.
  unfoldable pub search_outside :
      List ℕ → Bool → List (String × List String) → Search → Option Search
  search_outside name_points include_functions modules s =
      let found = search_modules name_points modules s in
      elim s.best [ some b ↦ some s | none ↦ if include_functions then found else some s ]

  -- `Suggest`, with the search at its end.
  unfoldable pub suggest :
      String → ℤ → Bool → List (String × List String) → Resolver → List ℕ → Option Search
  suggest name (negsuc i) include_functions modules r table =
      some (record { checked = []; best = none; table = table })
  suggest name (pos i) include_functions modules r table =
      let start : Search = record { checked = []; best = none; table = table } in
      let searched : Option Search = (do
        s ← search_scopes (suc (length r.scopes)) (points name) include_functions r (some i) start
        search_outside (points name) include_functions modules s) in
      if ltb i (length r.scopes) then searched else some start
