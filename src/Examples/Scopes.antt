-- ===== src/Examples/Scopes.antt =====
-- Scopes for the theorems on the name resolver.
use qumir.Prelude.{
  true, suc, zero, Eq-string, ℕ, pos, negsuc, none, some, [], ◌∷◌, ◌<◌, ◌++◌, ◌≡◌, ◌↔◌, ◌⊎◌, length,
  refl, arith, get_elem?, lookup, insert, false,
}
use qumir.Semantics.Nodes.{null_node}
use qumir.Semantics.Scopes.{
  Scope, Symbol, Resolver, no_scopes, new_scope, get_or_create_root_scope, lookup_symbol, declare,
  enter_symbol, enter_func, enter_own, func_level, mark_root,
}
use qumir.Semantics.Scopes.Nesting.{IsNested, new_scope-IsNested, lookup_symbol_lem, Resolves}
use qumir.Semantics.Scopes.Declared.{lookup_symbol-declare}

abbrev empty_scope : Scope
empty_scope = record {
  parent = none;
  func_scope = none;
  symbols = [];
  func_symbols = [];
  names = [];
  allows_redeclare = false;
  root_level = false;
}

abbrev one_scope : Resolver
one_scope = record { scopes = empty_scope ∷ []; symbols = [] }

abbrev with_block : Resolver
with_block = record {
  scopes = empty_scope ∷ record empty_scope { parent = some 0 } ∷ [];
  symbols = [];
}

abbrev with_block_scope : Scope
with_block_scope = record empty_scope { parent = some 0 }

one_scope-IsNested : IsNested one_scope
one_scope-IsNested = record { older = in_range }
  where
    in_range :
        (i p : ℕ) (s : Scope) → get_elem? (empty_scope ∷ []) i ≡ some s → s.parent ≡ some p → p < i
    in_range zero p s e h = ground (arith, e, h)
    in_range (suc i) p s e h = ground (arith, e)

block_made : (new_scope (some 0) none one_scope).0 ≡ with_block
unfolding new_scope
block_made = refl

with_block-IsNested : IsNested with_block
with_block-IsNested =
    rw (← block_made) (new_scope-IsNested one_scope 0 none one_scope-IsNested (omega arith))

abbrev x_symbol : Symbol
x_symbol = record {
  id = 0;
  scope_id = 1;
  scope_level_idx = 0;
  func_level_idx = negsuc 0;
  func_scope_id = none;
  name = "x";
  node = null_node;
}

abbrev declared_x : Resolver
declared_x = record {
  scopes =
      empty_scope
      ∷ record empty_scope { parent = some 0; symbols = 0 ∷ []; names = ("x", 0) ∷ [] }
      ∷ [];
  symbols = x_symbol ∷ [];
}

x_declared : declare "x" null_node 1 none with_block ≡ some (declared_x, 0)
unfolding declare enter_symbol enter_func enter_own func_level lookup insert
x_declared = refl

lookup_symbol-declare_example :
    ((lookup "x" with_block_scope.names ≡ none)
      × (x : Symbol) × (declared_x.symbols ≡ with_block.symbols ++ x ∷ [])
      × (0 ≡ length with_block.symbols)
      × (x.name ≡ "x")
      × (x.node ≡ null_node)
      × (x.scope_id ≡ 1)
      × (x.id ≡ 0)
      × (lookup_symbol "x" (pos 1) declared_x ≡ some x))
    ⊎ ((lookup "x" with_block_scope.names ≡ some 0)
        × (with_block_scope.allows_redeclare ≡ true)
        × (declared_x.symbols ≡ with_block.symbols)
        × (lookup_symbol "x" (pos 1) declared_x ≡ lookup_symbol "x" (pos 1) with_block))
lookup_symbol-declare_example =
    lookup_symbol-declare with_block declared_x "x" null_node 1 0 none with_block_scope refl
      x_declared

-- A block inside the one that declares `x`.
abbrev with_inner : Resolver
with_inner = record declared_x {
  scopes = declared_x.scopes ++ record empty_scope { parent = some 1 } ∷ [];
}

with_inner-IsNested : IsNested with_inner
with_inner-IsNested = record { older = in_range }
  where
    in_range :
        (i p : ℕ) (s : Scope) → get_elem? with_inner.scopes i ≡ some s → s.parent ≡ some p → p < i
    in_range zero p s e h = ground (arith, e, h)
    in_range (suc zero) p s e h = ground (arith, e, h)
    in_range (suc (suc zero)) p s e h = ground (arith, e, h)
    in_range (suc (suc (suc i))) p s e h = absurd (ground (arith, e))

lookup_symbol_lem_example :
    (lookup_symbol "x" (pos 2) with_inner ≡ some x_symbol)
    ↔ ((id : ℕ) × Resolves with_inner "x" id 2 × (get_elem? with_inner.symbols id ≡ some x_symbol))
lookup_symbol_lem_example = lookup_symbol_lem with_inner "x" 2 x_symbol with_inner-IsNested

-- The root scope is made once.
root_made :
    get_or_create_root_scope no_scopes
    ≡ (record { scopes = record empty_scope { root_level = true } ∷ []; symbols = [] }, 0)
unfolding get_or_create_root_scope new_scope mark_root
root_made = refl
