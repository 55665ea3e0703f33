-- ===== src/Semantics/Suggestions/Visible.antt =====
-- `TNameResolver::Suggest` of qumir/semantics/name_resolution/name_resolver.cpp on all visible symbols.
use qumir.Prelude.{
  ℕ, ◌<◌, String, Bool, true, false, not, ◌&&◌, Option, none, some, List, length, get_elem?, All,
  ◌≡◌,
}
use qumir.Semantics.Scopes.{Symbol, Scope, Resolver}
use qumir.Semantics.Suggestions.{Search, has_name, is_fun_decl}
use qumir.Semantics.Suggestions.Closest.{apart}
use qumir.Runtime.Strings.Symbols.{IsSymbol}
use qumir.Semantics.CodePoints.Decoding.{without_wide_last}

-- The ids in a scope are those of symbols.
pub record HasSymbols (r : Resolver) : Type 0 where
  pub known :
      (i : ℕ) (s : Scope)
      → get_elem? r.scopes i ≡ some s
      → All (λ id. id < length r.symbols) s.symbols

-- From a scope outwards.
pub data Outwards (r : Resolver) : ℕ → ℕ → Type 0 where
  here : {i : ℕ} → Outwards r i i
  outside :
      {i p j : ℕ} (s : Scope)
      → get_elem? r.scopes i ≡ some s
      → s.parent ≡ some p
      → Outwards r p j
      → Outwards r i j

-- A symbol that may be suggested.
abbrev pub IsShown : Bool → Symbol → Type 0
IsShown include_functions symbol = (not include_functions && is_fun_decl symbol.node) ≡ false

module _ (bytes : String → List ℕ) (name_points : List ℕ) (include_functions : Bool)
    (r : Resolver) where
  -- The symbols with these ids have been checked.
  abbrev AreChecked : List ℕ → Search → Type 0
  AreChecked ids s =
      (k id : ℕ) (symbol : Symbol)
      → get_elem? ids k ≡ some id
      → get_elem? r.symbols id ≡ some symbol
      → IsShown include_functions symbol
      → has_name s.checked symbol.name ≡ true

  -- The symbols in the scopes from one outwards have been checked.
  abbrev AllChecked : ℕ → Search → Type 0
  AllChecked i s =
      (j : ℕ) (scope : Scope)
      → Outwards r i j
      → get_elem? r.scopes j ≡ some scope
      → AreChecked scope.symbols s

  abbrev AllCheckedFrom : Option ℕ → Search → Type 0
  AllCheckedFrom none s = Unit
  AllCheckedFrom (some i) s = AllChecked i s

module _ (letters : String → List ℕ) (are_symbols : (n : String) → All IsSymbol (letters n)) where
  -- The edits between two names as `Suggest` sees them: without a last letter of several bytes.
  abbrev pub letters_apart : String → String → ℕ
  letters_apart m n = apart (without_wide_last (letters m)) (without_wide_last (letters n))
