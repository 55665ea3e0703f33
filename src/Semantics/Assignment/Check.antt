-- ===== src/Semantics/Assignment/Check.antt =====
-- `CheckExpr` of qumir/semantics/definite_assignment/definite_assignment.cpp and the functions that it
-- dispatches to, each over the checks of the parts of its node.
use qumir.Prelude.{
  ℤ, pos, Bool, not, ◌&&◌, Option, none, some, List, [], ◌∷◌, Eq-nat, if◌then◌else◌,
}
use qumir.Semantics.Scopes.{Resolver}
use qumir.Semantics.Nodes.{
  Node, Nodes, Param, null_node, block, if_expr, while_stmt, repeat_stmt, for_stmt, times_stmt,
  assign, var_stmt, ident, fun_decl, fun_without_body, field_assign, field_access, index_expr,
  multi_index_expr, call_expr, lazy_binary, jump_stmt, return_expr, other_node, no_nodes, and_node,
  is_null, is_array, params_of, ident_name,
}
use qumir.Semantics.Assignment.{
  AssignedSet, CheckError, CheckErrors, Checked, Checker, Passing, add_params, and_error, by_array,
  check_ident, err, fault, in_or_inout, intersect, mark, mark_object, new_checker, no_errors, ok,
  only_arrays, out_argument, out_only, passing, several, symbol_node, union, ◌>>=◌,
}

-- What a loop that collects errors ends in: the set and the errors, or `none` for a fault.
abbrev pub Collected : Type 0
Collected = Option (AssignedSet × CheckErrors)

abbrev pub collect : CheckError → Collected → Collected
collect e none = none
collect e (some (s, es)) = some (s, and_error e es)

abbrev pub report : Collected → Checked AssignedSet
report none = fault
report (some (s, no_errors)) = ok s
report (some (s, and_error e es)) = err (several (and_error e es))

-- The check of a part of an expression.
abbrev pub Checks : Type 0
Checks = AssignedSet → Checked AssignedSet

-- The end of `CheckIfExpr`: `IfExpr->Else` is a null pointer or was checked.
abbrev pub join : Bool → AssignedSet → AssignedSet → AssignedSet → AssignedSet
join no_else before then_out else_out = if no_else then before else intersect then_out else_out

-- `CheckIfExpr`
abbrev pub check_if : Checks → Checks → Checks → Bool → Checks
check_if cond then_part else_part no_else s = do
  after ← cond s
  then_out ← then_part after
  else_out ← else_part after
  ok (join no_else s then_out else_out)

-- `CheckWhile`
abbrev pub check_while : Checks → Checks → Checks
check_while cond body s = do after ← cond s; _ ← body after; ok s

-- `CheckRepeat`
abbrev pub check_repeat : Checks → Checks → Checks
check_repeat body cond s = do after ← body s; _ ← cond after; ok s

-- `CheckFor`
abbrev pub check_for : Checks → Checks → Checks → Checks → Checks → Checks
check_for from to step write_var body s = do
  s1 ← from s
  s2 ← to s1
  s3 ← step s2
  s4 ← write_var s3
  _ ← body s4
  ok s

-- `CheckTimes`
abbrev pub check_times : Checks → Checks → Checks
check_times count body s = do after ← count s; _ ← body after; ok s

-- `CheckAssign`
abbrev pub check_assign : Checks → Checks → Checks
check_assign value write_var s = do out ← value s; write_var out

-- `CheckVar`; a null pointer as the initial value changes nothing.
abbrev pub check_var : Bool → Checks → Checks → Checks
check_var without_value init write_var s =
    if without_value then ok s else (init s >>= λ out. write_var out)

-- `CheckFunDecl`
abbrev pub check_fun_decl : Checked AssignedSet → Checks → Checks
check_fun_decl params body s = do initial ← params; _ ← body initial; ok s

-- A statement in error leaves the set of the block as it is.
abbrev pub next_stmt : Checked AssignedSet → AssignedSet → (AssignedSet → Collected) → Collected
next_stmt (ok out) s rest = rest (union s out)
next_stmt (err e) s rest = collect e (rest s)
next_stmt fault s rest = none

-- The start of `CheckCall`: the parameters of the function that the callee names, if it names one.
unfoldable pub callee_found : Checker → ℤ → Node → Checked (Option (List Param))
callee_found c sc callee = elim (ident_name callee) [
  | none ↦ ok none
  | some name ↦ symbol_node c name sc >>= λ n. ok (params_of n)
]

abbrev pub take_args :
    Option (List Param) → AssignedSet → (List Param → Collected) → Checked AssignedSet
take_args none s args = ok s
take_args (some ps) s args = report (args ps)

-- One argument: what the call has assigned with it.
abbrev pub argument :
    Passing → Checked AssignedSet → Checked AssignedSet → AssignedSet → Checked AssignedSet
argument by_array read written result = ok result
argument in_or_inout read written result = read >>= λ _. ok result
argument out_only read written result = written

-- An argument in error leaves the set of the call as it is.
abbrev pub next_arg : Checked AssignedSet → AssignedSet → (AssignedSet → Collected) → Collected
next_arg (ok result') result rest = rest result'
next_arg (err e) result rest = collect e (rest result)
next_arg fault result rest = none

unfoldable mutual
  unfolding only_arrays

  -- `CheckExpr`, with the functions that it dispatches to.
  pub check : Checker → ℤ → Node → AssignedSet → Checked AssignedSet
  check c sc null_node s = ok s
  check c sc (block own stmts) s = report (check_stmts c own stmts s)
  check c sc (if_expr cond then_expr else_expr) s =
      check_if (check c sc cond) (check c sc then_expr) (check c sc else_expr) (is_null else_expr) s
  check c sc (while_stmt cond body) s = check_while (check c sc cond) (check c sc body) s
  check c sc (repeat_stmt body cond) s = check_repeat (check c sc body) (check c sc cond) s
  check c sc (for_stmt name from to step body) s =
      check_for (check c sc from) (check c sc to) (check c sc step) (mark c sc name)
        (check c sc body) s
  check c sc (times_stmt count body) s = check_times (check c sc count) (check c sc body) s
  check c sc (assign name value) s = check_assign (check c sc value) (mark c sc name) s
  check c sc (var_stmt name ty bounds init) s =
      check_var (is_null init && not (is_array ty)) (check c sc init) (mark c sc name) s
  check c sc (ident name) s = check_ident c sc name s
  check c sc (fun_decl ps own stmts) s =
      check_fun_decl (add_params c own ps c.global_assigned)
        (λ initial. report (check_stmts c own stmts initial)) s
  check c sc (fun_without_body ps) s = fault
  check c sc (field_assign object field value) s = do
    out ← check c sc value s
    ok (mark_object c sc object out)
  check c sc (field_access object field) s = check c sc object s
  check c sc (index_expr collection ty index) s =
      let both_checked = (do out ← check c sc collection s; check c sc index out) in
      if is_array ty then ok s else both_checked
  check c sc (multi_index_expr collection indices) s = ok s
  check c sc (call_expr callee args) s =
      callee_found c sc callee >>= λ found. take_args found s (λ ps. check_args c sc ps args s s)
  check c sc (lazy_binary left right) s = do out ← check c sc left s; check c sc right out
  check c sc (jump_stmt to) s = ok s
  check c sc (return_expr value) s = check c sc value s
  check c sc (other_node name children) s = check_children c sc children s

  -- The loop over the children of a node.
  pub check_children : Checker → ℤ → Nodes → AssignedSet → Checked AssignedSet
  check_children c sc no_nodes s = ok s
  check_children c sc (and_node x xs) s = do out ← check c sc x s; check_children c sc xs out

  -- The loop of `CheckBlock`.
  pub check_stmts : Checker → ℤ → Nodes → AssignedSet → Collected
  check_stmts c sc no_nodes s = some (s, no_errors)
  check_stmts c sc (and_node x xs) s = next_stmt (check c sc x s) s (λ s'. check_stmts c sc xs s')

  -- The loop of `CheckCall` over the parameters; `result` is what the call has assigned so far.
  pub check_args : Checker → ℤ → List Param → Nodes → AssignedSet → AssignedSet → Collected
  check_args c sc [] args s result = some (result, no_errors)
  check_args c sc (p ∷ ps) no_nodes s result =
      if only_arrays (p ∷ ps) then some (result, no_errors) else none
  check_args c sc (p ∷ ps) (and_node a rest) s result =
      let read = check c sc a s in
      let written = out_argument c sc a result in
      next_arg (argument (passing p) read written result) result (λ r. check_args c sc ps rest s r)

-- `Check`
unfoldable pub check_program : Resolver → Node → Checked AssignedSet
check_program r root = check (new_checker r) (pos 0) root (new_checker r).global_assigned
