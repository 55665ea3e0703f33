-- ===== src/Semantics/Scopes/Declared.antt =====
-- A declared name is found from its scope.
use qumir.Prelude.{
  ℕ, ◌<◌, pos, String, Option, none, some, List, [], ◌∷◌, ◌++◌, true, ◌≡◌, refl, sym, subst, ap,
  ap₂, ◌∙◌, ◌⊎◌, inl, inr, Bool-cases, get_elem?-snoc_last, arith, Eq-nat, Eq-string, lookup,
  insert, lookup-insert, length, get_elem?, get_elem?-lt, get_elem?-set_self, length-set,
  Option-cases, get_elem?-some,
}
use qumir.Semantics.Nodes.{Node}
use qumir.Semantics.Scopes.{
  Scope, Symbol, Resolver, add_once, enter_func, enter_own, lookup_symbol, enter_symbol, declare,
  func_level,
}
use qumir.Semantics.Scopes.Nesting.{lookup_from_round}

length-enter_func :
    (id : ℕ) (func_scope : Option ℕ) (scopes : List Scope)
    → length (enter_func id func_scope scopes) ≡ length scopes
unfolding enter_func
length-enter_func id none scopes = refl
length-enter_func id (some f) scopes = elim (Option-cases (get_elem? scopes f)) [
  | inl e ↦ rw (enter_func, e) refl
  | inr (s, e) ↦ rw (enter_func, e) (length-set scopes f _)
]

-- The scope that a name is entered into.
enter_own_lem :
    (name : String) (id own : ℕ) (scopes : List Scope)
    → own < length scopes
    → (s : Scope) × (get_elem? (enter_own name id own scopes) own ≡ some s)
      × (lookup name s.names ≡ some id)
unfolding enter_own
enter_own_lem name id own scopes lt =
    let (s, e) = get_elem?-some scopes own lt in
    let entered : Scope = record s {
      symbols = add_once id s.symbols;
      names = insert name id s.names;
    } in
    (
      entered,
      rw (enter_own, e) (get_elem?-set_self scopes own entered lt),
      lookup-insert name name id s.names ∙ rw (Eq-string.same_key_iff name name).1 refl,
    )

entered_lookup :
    (name : String) (id own : ℕ) (func_scope : Option ℕ) (scopes : List Scope)
    (symbols : List Symbol)
    → own < length scopes
    → lookup_symbol name
        (pos own)
        (record { scopes = enter_symbol name id own func_scope scopes; symbols = symbols })
      ≡ get_elem? symbols id
unfolding lookup_symbol enter_symbol
entered_lookup name id own func_scope scopes symbols lt =
    let inside = enter_func id func_scope scopes in
    let (s, e, q) =
      enter_own_lem name id own inside (omega (arith, length-enter_func id func_scope scopes)) in
    let r : Resolver = record { scopes = enter_own name id own inside; symbols = symbols } in
    lookup_from_round r name (length r.scopes) own s e ∙ rw q refl

declare_scopes :
    (r r' : Resolver) (name : String) (node : Node) (own id : ℕ) (func_scope : Option ℕ)
    → declare name node own func_scope r ≡ some (r', id)
    → (own < length r.scopes) × (r'.scopes ≡ enter_symbol name id own func_scope r.scopes)
unfolding declare
declare_scopes r r' name node own id func_scope h = elim (Option-cases (get_elem? r.scopes own)) [
  | inl e ↦ absurd (ground (arith, e, h))
  | inr (s, e) ↦ (
    get_elem?-lt r.scopes own s e,
    elim (Option-cases (lookup name s.names)) [
      | inl q ↦ ground (arith, e, q, h)
      | inr (old, q) ↦ ground (arith, e, q, h)
    ],
  )
]

found_symbol :
    (r r' : Resolver) (name : String) (node : Node) (own id : ℕ) (func_scope : Option ℕ)
    → declare name node own func_scope r ≡ some (r', id)
    → lookup_symbol name (pos own) r' ≡ get_elem? r'.symbols id
found_symbol r r' name node own id func_scope h =
    let (lt, e) = declare_scopes r r' name node own id func_scope h in
    let found = entered_lookup name id own func_scope r.scopes r'.symbols lt in
    subst
      (λ (scopes : List Scope).
        lookup_symbol name (pos own) (record { scopes = scopes; symbols = r'.symbols })
        ≡ get_elem? r'.symbols id)
      (sym e) found

lookup_own :
    (r : Resolver) (name : String) (own id : ℕ) (s : Scope)
    → get_elem? r.scopes own ≡ some s
    → lookup name s.names ≡ some id
    → lookup_symbol name (pos own) r ≡ get_elem? r.symbols id
unfolding lookup_symbol
lookup_own r name own id s e q = lookup_from_round r name (length r.scopes) own s e ∙ rw q refl

-- A declaration that makes a symbol.
record Makes (r r' : Resolver) (name : String) (node : Node) (own id : ℕ) : Type 0 where
  symbol : Symbol
  symbols : r'.symbols ≡ r.symbols ++ symbol ∷ []
  at : id ≡ length r.symbols
  named : symbol.name ≡ name
  of_node : symbol.node ≡ node
  numbered : symbol.id ≡ id
  in_scope : symbol.scope_id ≡ own

declare_new :
    (r r' : Resolver) (name : String) (node : Node) (own id : ℕ) (func_scope : Option ℕ) (s : Scope)
    → get_elem? r.scopes own ≡ some s
    → lookup name s.names ≡ none
    → declare name node own func_scope r ≡ some (r', id)
    → Makes r r' name node own id
unfolding declare
declare_new r r' name node own id func_scope s e q h =
    let fresh : Symbol = record {
      id = length r.symbols;
      scope_id = own;
      scope_level_idx = length s.symbols;
      func_level_idx = func_level func_scope r.scopes;
      func_scope_id = func_scope;
      name = name;
      node = node;
    } in
    let made : (
      record r {
        scopes = enter_symbol name (length r.symbols) own func_scope r.scopes;
        symbols = r.symbols ++ fresh ∷ [];
      },
      length r.symbols,
    )
        ≡ (r', id) =
      ground (arith, e, q, h) in
    let at : length r.symbols ≡ id = ap (λ (x : Resolver × ℕ). x.1) made in
    record {
      symbol = fresh;
      symbols = sym (ap (λ (x : Resolver × ℕ). (x.0).symbols) made);
      at = sym at;
      named = refl;
      of_node = refl;
      numbered = at;
      in_scope = refl;
    }

declare_again :
    (r r' : Resolver) (name : String) (node : Node) (own id old : ℕ) (func_scope : Option ℕ)
    (s : Scope)
    → get_elem? r.scopes own ≡ some s
    → lookup name s.names ≡ some old
    → declare name node own func_scope r ≡ some (r', id)
    → (s.allows_redeclare ≡ true) × (old ≡ id) × (r'.symbols ≡ r.symbols)
unfolding declare
declare_again r r' name node own id old func_scope s e q h = elim (Bool-cases s.allows_redeclare) [
  | inl allowed ↦
      let made : (record r { scopes = enter_symbol name old own func_scope r.scopes }, old)
          ≡ (r', id) =
        ground (arith, e, q, allowed, h) in
      (
        allowed,
        ap (λ (x : Resolver × ℕ). x.1) made,
        sym (ap (λ (x : Resolver × ℕ). (x.0).symbols) made),
      )
  | inr refused ↦ absurd (ground (arith, e, q, refused, h))
]

-- After a declaration that succeeds in a scope, either the scope did not have the name, one symbol with
-- this name, node and scope, and with the returned id, which is its place, is put behind the others, and
-- a lookup of the name from the scope finds it; or the scope had the name with the returned id and allows
-- a second declaration, no symbol is added, and a lookup of the name finds what it found before.
pub lookup_symbol-declare :
    (r r' : Resolver) (name : String) (node : Node) (own id : ℕ) (func_scope : Option ℕ) (s : Scope)
    → get_elem? r.scopes own ≡ some s
    → declare name node own func_scope r ≡ some (r', id)
    → ((lookup name s.names ≡ none)
        × (x : Symbol) × (r'.symbols ≡ r.symbols ++ x ∷ [])
        × (id ≡ length r.symbols)
        × (x.name ≡ name)
        × (x.node ≡ node)
        × (x.scope_id ≡ own)
        × (x.id ≡ id)
        × (lookup_symbol name (pos own) r' ≡ some x))
      ⊎ ((lookup name s.names ≡ some id)
          × (s.allows_redeclare ≡ true)
          × (r'.symbols ≡ r.symbols)
          × (lookup_symbol name (pos own) r' ≡ lookup_symbol name (pos own) r))
lookup_symbol-declare r r' name node own id func_scope s e h =
    let found = found_symbol r r' name node own id func_scope h in
    elim (Option-cases (lookup name s.names)) [
      | inl q ↦
          let m = declare_new r r' name node own id func_scope s e q h in
          let last : get_elem? r'.symbols id ≡ some m.symbol =
            ap₂ (λ (xs : List Symbol) (i : ℕ). get_elem? xs i) m.symbols m.at
            ∙ get_elem?-snoc_last r.symbols m.symbol in
          inl
            (q, m.symbol, m.symbols, m.at, m.named, m.of_node, m.in_scope, m.numbered, found ∙ last)
      | inr (old, q) ↦
          let (allowed, same, symbols) =
            declare_again r r' name node own id old func_scope s e q h in
          let had : lookup name s.names ≡ some id = q ∙ ap some same in
          inr (
            had,
            allowed,
            symbols,
            found
                ∙ ap (λ (xs : List Symbol). get_elem? xs id) symbols
                ∙ sym (lookup_own r name own id s e had),
          )
    ]
