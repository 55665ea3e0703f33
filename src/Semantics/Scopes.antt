-- ===== src/Semantics/Scopes.antt =====
-- The scopes and symbols of the name resolver, qumir/semantics/name_resolution/name_resolver.h and
-- name_resolver.cpp, where overloads are not allowed.
use qumir.Prelude.{
  ℕ, zero, suc, ◌+◌, ℤ, pos, negsuc, String, Bool, true, false, Option, none, some, List, [], ◌∷◌,
  ◌++◌, ◌==◌, Eq-nat, Eq-string, lookup, insert, length, get_elem?, set, if◌then◌else◌, ◌>>=◌,
}
use qumir.Semantics.Nodes.{Node}
pub mod Nesting
pub mod Declared

-- `TSymbol`; `func_level_idx` is -1 outside a function.
pub record Symbol : Type 0 where
  pub id : ℕ
  pub scope_id : ℕ
  pub scope_level_idx : ℕ
  pub func_level_idx : ℤ
  pub func_scope_id : Option ℕ
  pub name : String
  pub node : Node

-- `TScope`. A pointer to a scope is its index in the resolver's list, which is its `Id`.
pub record Scope : Type 0 where
  pub parent : Option ℕ
  pub func_scope : Option ℕ
  pub symbols : List ℕ
  pub func_symbols : List ℕ
  pub names : List (String × ℕ)
  pub allows_redeclare : Bool
  pub root_level : Bool

-- `Scopes` and `Symbols` of `TNameResolver`.
pub record Resolver : Type 0 where
  pub scopes : List Scope
  pub symbols : List Symbol

abbrev pub no_scopes : Resolver
no_scopes = record { scopes = []; symbols = [] }

-- `NewScope`
unfoldable pub new_scope : Option ℕ → Option ℕ → Resolver → Resolver × ℕ
new_scope parent func_scope r =
    let fresh : Scope = record {
      parent = parent;
      func_scope = func_scope;
      symbols = [];
      func_symbols = [];
      names = [];
      allows_redeclare = false;
      root_level = false;
    } in
    (record r { scopes = r.scopes ++ fresh ∷ [] }, length r.scopes)

unfoldable pub mark_root : ℕ → List Scope → List Scope
mark_root i scopes = elim (get_elem? scopes i) [
  | none ↦ scopes
  | some s ↦ set scopes i (record s { root_level = true })
]

-- `GetOrCreateRootScope`
unfoldable pub get_or_create_root_scope : Resolver → Resolver × ℕ
get_or_create_root_scope r = elim r.scopes [
  | [] ↦
      let made = new_scope none none r in
      (record (made.0) { scopes = mark_root made.1 (made.0).scopes }, made.1)
  | s ∷ ss ↦ (r, 0)
]

-- A symbol that a scope declares, or what is found outside it.
abbrev pub found_or : Option ℕ → Resolver → Option Symbol → Option Symbol
found_or none r outer = outer
found_or (some id) r outer = get_elem? r.symbols id

-- The loop of `Lookup`, from a scope outwards. The fuel is one more than the number of scopes.
unfoldable pub lookup_from : ℕ → String → Option ℕ → Resolver → Option Symbol
lookup_from fuel name none r = none
lookup_from zero name (some i) r = none
lookup_from (suc fuel) name (some i) r = elim (get_elem? r.scopes i) [
  | none ↦ none
  | some s ↦ found_or (lookup name s.names) r (lookup_from fuel name s.parent r)
]

-- `Lookup`
unfoldable pub lookup_symbol : String → ℤ → Resolver → Option Symbol
lookup_symbol name (negsuc i) r = none
lookup_symbol name (pos i) r = lookup_from (suc (length r.scopes)) name (some i) r

-- `GetSymbolNode`
unfoldable pub get_symbol_node : ℕ → Resolver → Option Node
get_symbol_node id r = do s ← get_elem? r.symbols id; some s.node

abbrev pub add_once : ℕ → List ℕ → List ℕ
add_once i [] = i ∷ []
add_once i (j ∷ js) = if i == j then j ∷ js else j ∷ add_once i js

-- The end of `Declare`: the symbol is entered into the sets of the function's scope,
unfoldable pub enter_func : ℕ → Option ℕ → List Scope → List Scope
enter_func id none scopes = scopes
enter_func id (some f) scopes = elim (get_elem? scopes f) [
  | none ↦ scopes
  | some s ↦ set scopes f (record s { func_symbols = add_once id s.func_symbols })
]

-- and into the set and the names of its own scope.
unfoldable pub enter_own : String → ℕ → ℕ → List Scope → List Scope
enter_own name id own scopes = elim (get_elem? scopes own) [
  | none ↦ scopes
  | some s ↦
      set scopes own (record s { symbols = add_once id s.symbols; names = insert name id s.names })
]

unfoldable pub enter_symbol : String → ℕ → ℕ → Option ℕ → List Scope → List Scope
enter_symbol name id own func_scope scopes = enter_own name id own (enter_func id func_scope scopes)

-- `FunctionLevelIdx` of a new symbol.
unfoldable pub func_level : Option ℕ → List Scope → ℤ
func_level none scopes = negsuc 0
func_level (some f) scopes = elim (get_elem? scopes f) [
  | none ↦ negsuc 0
  | some s ↦ pos (length s.func_symbols)
]

-- `Declare`, for a node that is no function or where overloads are not allowed; `none` is the error of a
-- second declaration.
unfoldable pub declare : String → Node → ℕ → Option ℕ → Resolver → Option (Resolver × ℕ)
declare name node own func_scope r = do
  s ← get_elem? r.scopes own
  elim (lookup name s.names) [
    | some id ↦
        if s.allows_redeclare
        then some (record r { scopes = enter_symbol name id own func_scope r.scopes }, id)
        else none
    | none ↦
        let id = length r.symbols in
        let fresh : Symbol = record {
          id = id;
          scope_id = own;
          scope_level_idx = length s.symbols;
          func_level_idx = func_level func_scope r.scopes;
          func_scope_id = func_scope;
          name = name;
          node = node;
        } in
        some (
          record r {
            scopes = enter_symbol name id own func_scope r.scopes;
            symbols = r.symbols ++ fresh ∷ [];
          },
          id,
        )
  ]

-- `GetGlobals`, the ids of it.
unfoldable pub get_globals : Resolver → List ℕ
get_globals r = elim r.scopes [ [] ↦ [] | s ∷ ss ↦ s.symbols ]
