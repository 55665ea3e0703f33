-- ===== src/Examples/Suggestions.antt =====
-- Suggestions for a name that is not declared.
use qumir.Prelude.{
  ℕ, pos, negsuc, String, false, Option, none, some, List, [], ◌∷◌, ◌≡◌, refl, ◌==◌, Eq-string,
  if◌then◌else◌,
}
use qumir.Semantics.Nodes.{null_node, params_of}
use qumir.Semantics.Scopes.{Scope, Symbol, Resolver}
use qumir.Semantics.CodePoints.{calc_code_points, code_points_from}
use qumir.Semantics.EditDistance.{
  calc, resize, store, fill_column, fill_row, fill_cells, fill_rows, cost,
}
use qumir.Semantics.Suggestions.{
  improve, consider, search_symbols, search_scopes, search_modules, search_outside, suggest,
}
use qumir.Runtime.Utf8.RoundTrip.{encoding}
use qumir.Runtime.Strings.Symbols.{text}

abbrev sample_letters : String → List ℕ
sample_letters name =
    if name == "ab"
    then 0x61 ∷ 0x62 ∷ []
    else if name == "abc"
    then 0x61 ∷ 0x62 ∷ 0x63 ∷ []
    else 0x78 ∷ 0x79 ∷ 0x7A ∷ []

abbrev sample_symbol : ℕ → String → Symbol
sample_symbol id name = record {
  id = id;
  scope_id = id;
  scope_level_idx = 0;
  func_level_idx = negsuc 0;
  func_scope_id = none;
  name = name;
  node = null_node;
}

abbrev sample_scope : Option ℕ → ℕ → String → Scope
sample_scope parent id name = record {
  parent = parent;
  func_scope = none;
  symbols = id ∷ [];
  func_symbols = [];
  names = (name, id) ∷ [];
  allows_redeclare = false;
  root_level = false;
}

-- `ab` in the root scope, `xyz` in a block.
abbrev two_scopes : Resolver
two_scopes = record {
  scopes = sample_scope none 0 "ab" ∷ sample_scope (some 0) 1 "xyz" ∷ [];
  symbols = sample_symbol 0 "ab" ∷ sample_symbol 1 "xyz" ∷ [];
}

suggested :
    suggest (λ n. text (sample_letters n)) "abc" (pos 1) false [] two_scopes []
    ≡ some (record {
      checked = "ab" ∷ "xyz" ∷ [];
      best = some (record { name = "ab"; required_module = none; distance = 1 });
      table = 0 ∷ 1 ∷ 2 ∷ 1 ∷ 0 ∷ 1 ∷ 2 ∷ 1 ∷ 0 ∷ 3 ∷ 2 ∷ 1 ∷ [];
    })
unfolding text encoding suggest search_scopes search_symbols search_outside search_modules consider
    improve calc resize store fill_column fill_row fill_cells fill_rows cost calc_code_points
    code_points_from params_of
suggested = refl
