-- ===== src/Semantics/Assignment.antt =====
-- `TDefiniteAssignmentChecker`, qumir/semantics/definite_assignment/definite_assignment.cpp: which
-- variables have a value when an expression is reached. Locations of errors are left out.
use qumir.Prelude.{
  ℕ, ℤ, pos, String, Bool, true, false, not, ◌&&◌, ◌||◌, Option, none, some, List, [], ◌∷◌, ◌==◌,
  Eq-nat, ltb, length, if◌then◌else◌,
}
use qumir.Semantics.Scopes.{Resolver, lookup_symbol, get_symbol_node, get_globals}
use qumir.Semantics.Nodes.{
  Node, Nodes, Param, null_node, block, if_expr, while_stmt, repeat_stmt, for_stmt, times_stmt,
  assign, var_stmt, ident, fun_decl, fun_without_body, field_assign, field_access, index_expr,
  multi_index_expr, call_expr, lazy_binary, jump_stmt, return_expr, other_node, no_nodes, and_node,
  is_null, is_array, is_reference, is_var_stmt, params_of, ident_name,
}
pub mod Check
pub mod Runs
pub mod Sets
pub mod Keeps
pub mod Covered
pub mod Parts
pub mod Arguments
pub mod Sound

-- `TError`: an error, or those of a block or a call together.
mutual
  pub data CheckError : Type 0 where
    not_defined : String → CheckError
    not_assigned : String → CheckError
    param_not_defined : String → CheckError
    several : CheckErrors → CheckError

  pub data CheckErrors : Type 0 where
    no_errors : CheckErrors
    and_error : CheckError → CheckErrors → CheckErrors

-- `std::expected`; `fault` is an access out of range or through a null pointer.
pub data Checked {ℓ} (A : Type ℓ) : Type ℓ where
  ok : A → Checked A
  err : CheckError → Checked A
  fault : Checked A

infixl 5 ◌>>=◌
abbrev pub ◌>>=◌ {ℓ κ} : {A : Type ℓ} {B : Type κ} → Checked A → (A → Checked B) → Checked B
ok a >>= f = f a
err e >>= f = err e
fault >>= f = fault

-- `TAssignedSet`, the ids of symbols.
abbrev pub AssignedSet : Type 0
AssignedSet = List ℕ

abbrev pub has : AssignedSet → ℕ → Bool
has [] i = false
has (j ∷ js) i = i == j || has js i

abbrev pub add : ℕ → AssignedSet → AssignedSet
add i s = if has s i then s else i ∷ s

-- The loops of `Intersect`.
abbrev pub both : AssignedSet → AssignedSet → AssignedSet
both [] b = []
both (i ∷ a) b = if has b i then add i (both a b) else both a b

-- `Intersect`
unfoldable pub intersect : AssignedSet → AssignedSet → AssignedSet
intersect a b = if ltb (length a) (length b) then both a b else both b a

-- `Union`
unfoldable pub union : AssignedSet → AssignedSet → AssignedSet
union a [] = a
union a (i ∷ b) = union (add i a) b

-- `Context` and `GlobalAssigned`.
pub record Checker : Type 0 where
  pub context : Resolver
  pub global_assigned : AssignedSet

-- The constructor.
unfoldable pub new_checker : Resolver → Checker
new_checker r = record { context = r; global_assigned = union [] (get_globals r) }

-- `GetSymbolId`
unfoldable pub symbol_id : Checker → String → ℤ → Checked ℕ
symbol_id c name scope = elim (lookup_symbol name scope c.context) [
  | none ↦ err (not_defined name)
  | some s ↦ ok s.id
]

-- `GetSymbolNode`; a null pointer is `null_node`.
unfoldable pub symbol_node : Checker → String → ℤ → Checked Node
symbol_node c name scope = do
  id ← symbol_id c name scope
  ok (elim (get_symbol_node id c.context) [ none ↦ null_node | some n ↦ n ])

-- `TMaybeNode<TVarStmt>` of a symbol's node.
unfoldable pub is_var : Checker → ℕ → Bool
is_var c id = elim (get_symbol_node id c.context) [ none ↦ false | some n ↦ is_var_stmt n ]

-- `CheckIdent`
unfoldable pub check_ident : Checker → ℤ → String → AssignedSet → Checked AssignedSet
check_ident c scope name assigned = do
  id ← symbol_id c name scope
  if is_var c id && not (has assigned id) then err (not_assigned name) else ok assigned

-- A write to a variable.
unfoldable pub mark : Checker → ℤ → String → AssignedSet → Checked AssignedSet
mark c scope name assigned = do id ← symbol_id c name scope; ok (add id assigned)

-- A write to a field of a variable; a name that is not found is passed over.
unfoldable pub mark_object : Checker → ℤ → Node → AssignedSet → AssignedSet
mark_object c scope object assigned = elim (ident_name object) [
  | none ↦ assigned
  | some name ↦ elim (symbol_id c name scope) [
    | ok id ↦ add id assigned
    | err e ↦ assigned
    | fault ↦ assigned
  ]
]

-- How a parameter takes its argument.
pub data Passing : Type 0 where
  by_array in_or_inout out_only : Passing

unfoldable pub passing : Param → Passing
passing p =
    if is_array p.type
    then by_array
    else if is_reference p.type && not p.readable
    then out_only
    else in_or_inout

-- An argument of an `out` parameter: the variable that the call writes.
unfoldable pub out_argument : Checker → ℤ → Node → AssignedSet → Checked AssignedSet
unfolding mark
out_argument c scope arg result = elim (ident_name arg) [
  | none ↦ ok result
  | some name ↦ mark c scope name result
]

-- Parameters beyond the arguments: an access out of range, but for arrays, which are skipped.
only_arrays : List Param → Bool
only_arrays [] = true
only_arrays (p ∷ ps) = is_array p.type && only_arrays ps

-- The parameters of a function, looked up in the scope of its body.
unfoldable pub add_params : Checker → ℤ → List Param → AssignedSet → Checked AssignedSet
add_params c scope [] assigned = ok assigned
add_params c scope (p ∷ ps) assigned = elim (lookup_symbol p.name scope c.context) [
  | none ↦ err (param_not_defined p.name)
  | some s ↦ add_params c scope ps (add s.id assigned)
]
