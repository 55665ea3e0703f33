-- ===== src/Examples/Assignment.antt =====
-- Programs for the check of assignments, qumir/semantics/definite_assignment.
use qumir.Prelude.{lookup, ℕ, pos, negsuc, String, false, true, none, List, [], ◌∷◌, ◌≡◌, refl}
use qumir.Ast.Types.{integer_type, int64}
use qumir.Semantics.Nodes.{
  Node, Param, null_node, block, if_expr, assign, var_stmt, ident, fun_decl, other_node,
  return_expr, no_nodes, and_node, is_null, is_array, is_var_stmt,
}
use qumir.Semantics.Scopes.{
  Resolver, Scope, Symbol, lookup_from, lookup_symbol, get_symbol_node, get_globals,
}
use qumir.Semantics.Assignment.{
  new_checker, ok, err, several, and_error, no_errors, not_assigned, union, intersect, symbol_id,
  check_ident, mark, add_params, is_var,
}
use qumir.Semantics.Assignment.Check.{check, check_program}
use qumir.Semantics.Assignment.Sets.{Within-refl, Within}
use qumir.Semantics.Assignment.Runs.{Runs, done, bad_read, goes_on, write, read}
use qumir.Semantics.Assignment.Covered.{Covered}
use qumir.Semantics.Assignment.Sound.{check_program_sound, check-IsGood}

abbrev variable : String → Node
variable name = var_stmt name (integer_type int64) no_nodes null_node

abbrev scope_with : List ℕ → List (String × ℕ) → Scope
scope_with symbols names = record {
  parent = none;
  func_scope = none;
  symbols = symbols;
  func_symbols = [];
  names = names;
  allows_redeclare = false;
  root_level = false;
}

abbrev symbol_with : ℕ → String → Node → Symbol
symbol_with id name node = record {
  id = id;
  scope_id = 1;
  scope_level_idx = id;
  func_level_idx = negsuc 0;
  func_scope_id = none;
  name = name;
  node = node;
}

-- n is a parameter, x a variable that both branches assign before it is returned.
abbrev both_branches : Node
both_branches = block (pos 1) (
    and_node (variable "x") (
      and_node
        (if_expr (ident "n") (assign "x" (ident "n")) (assign "x" (other_node "Number" no_nodes)))
        (and_node (return_expr (ident "x")) no_nodes)))

abbrev parameter : Param
parameter = record { name = "n"; type = integer_type int64; readable = true }

abbrev declaration : Node → Node
declaration body = fun_decl (parameter ∷ []) (pos 1) (and_node body no_nodes)

abbrev resolver : Resolver
resolver = record {
  scopes =
      scope_with (0 ∷ []) (("f", 0) ∷ []) ∷ scope_with (1 ∷ 2 ∷ []) (("n", 1) ∷ ("x", 2) ∷ []) ∷ [];
  symbols =
      symbol_with 0 "f" (declaration both_branches)
      ∷ symbol_with 1 "n" (variable "n")
      ∷ symbol_with 2 "x" (variable "x")
      ∷ [];
}

abbrev program : Node
program = block (pos 0) (and_node (declaration both_branches) no_nodes)

program_checked : check_program resolver program ≡ ok (0 ∷ [])
unfolding check_program new_checker check add_params lookup_symbol lookup_from lookup
    get_symbol_node get_globals union intersect symbol_id check_ident mark is_var is_var_stmt
    is_null is_array
program_checked = refl

-- Without an else, x may have no value.
abbrev one_branch : Node
one_branch = block (pos 1) (
    and_node (if_expr (ident "n") (assign "x" (ident "n")) null_node)
      (and_node (return_expr (ident "x")) no_nodes))

one_branch_refused :
    check_program resolver (declaration one_branch)
    ≡ err (several (and_error (several (and_error (not_assigned "x") no_errors)) no_errors))
unfolding check_program new_checker check add_params lookup_symbol lookup_from lookup
    get_symbol_node get_globals union intersect symbol_id check_ident mark is_var is_var_stmt
    is_null is_array
one_branch_refused = refl

program-Covered : Covered (new_checker resolver) (pos 0) program
unfolding Covered
program-Covered = ((((refl, tt), ((tt, tt, tt), (tt, tt))), tt), tt)

globals_assigned : (new_checker resolver).global_assigned ≡ 0 ∷ []
unfolding new_checker get_globals union
globals_assigned = refl

check_program_sound_example : ¬ Runs (new_checker resolver) (pos 0) program (0 ∷ []) (bad_read "x")
check_program_sound_example =
    check_program_sound resolver program "x" (0 ∷ []) (0 ∷ []) program-Covered program_checked
      (rw globals_assigned (Within-refl (0 ∷ [])))

abbrev assign_x : Node
assign_x = assign "x" (ident "n")

assign_x-Covered : Covered (new_checker resolver) (pos 1) assign_x
unfolding Covered
assign_x-Covered = tt

assign_x_checked : check (new_checker resolver) (pos 1) assign_x (1 ∷ []) ≡ ok (2 ∷ 1 ∷ [])
unfolding new_checker check add_params lookup_symbol lookup_from lookup get_symbol_node get_globals
    union intersect symbol_id check_ident mark is_var is_var_stmt is_null is_array
assign_x_checked = refl

assign_x_run : Runs (new_checker resolver) (pos 1) assign_x (1 ∷ []) (done (2 ∷ 1 ∷ []))
unfolding Runs read write new_checker check add_params lookup_symbol lookup_from lookup
    get_symbol_node get_globals union intersect symbol_id check_ident mark is_var is_var_stmt
    is_null is_array
assign_x_run = goes_on (1 ∷ []) refl refl

check-IsGood_example : Within (2 ∷ 1 ∷ []) (2 ∷ 1 ∷ [])
check-IsGood_example =
    check-IsGood (new_checker resolver) (pos 1) assign_x (1 ∷ []) (2 ∷ 1 ∷ []) (1 ∷ []) (2 ∷ 1 ∷ [])
      assign_x-Covered assign_x_checked (Within-refl (1 ∷ [])) assign_x_run
