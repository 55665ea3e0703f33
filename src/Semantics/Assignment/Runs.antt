-- ===== src/Semantics/Assignment/Runs.antt =====
-- What a run of an expression may do to the set of variables that have a value: the executions that the
-- check of assignments is meant to cover.
use qumir.Prelude.{ℤ, String, not, ◌&&◌, ◌≡◌, ◌⊎◌, Option, none, some, List, [], ◌∷◌, if◌then◌else◌}
use qumir.Semantics.Nodes.{
  Node, Nodes, Param, Jump, null_node, block, if_expr, while_stmt, repeat_stmt, for_stmt,
  times_stmt, assign, var_stmt, ident, fun_decl, fun_without_body, field_assign, field_access,
  index_expr, multi_index_expr, call_expr, lazy_binary, jump_stmt, return_expr, other_node,
  no_nodes, and_node, to_end, to_next, to_caller, is_null, is_array, ident_name,
}
use qumir.Semantics.Assignment.{
  Checker, ok, err, fault, AssignedSet, has, symbol_id, is_var, mark, mark_object, passing, Passing,
  by_array, in_or_inout, out_only, out_argument, add_params,
}
use qumir.Semantics.Assignment.Check.{callee_found}

-- How a run goes on: it is done, it jumps, or it reads a variable that has no value.
pub data Outcome : Type 0 where
  done : AssignedSet → Outcome
  jumped : Jump → AssignedSet → Outcome
  bad_read : String → Outcome

-- The runs of a part of the program, from a set of variables that have a value.
abbrev pub Run : Type 1
Run = AssignedSet → Outcome → Type 0

abbrev pub skip : Run
skip before o = o ≡ done before

-- One part after another; a jump or a bad read ends both.
pub data Then (first second : Run) (before : AssignedSet) : Outcome → Type 0 where
  goes_on :
      {o : Outcome} (between : AssignedSet)
      → first before (done between)
      → second between o
      → Then first second before o
  jumps :
      (to : Jump) (out : AssignedSet)
      → first before (jumped to out)
      → Then first second before (jumped to out)
  fails : (name : String) → first before (bad_read name) → Then first second before (bad_read name)

-- A loop of rounds. It may end where `test` is done; `break` ends it, `continue` starts the next round,
-- and `return` leaves it.
pub data Loop (test round : Run) : AssignedSet → Outcome → Type 0 where
  ends : {before out : AssignedSet} → test before (done out) → Loop test round before (done out)
  test_fails :
      {before : AssignedSet} {name : String}
      → test before (bad_read name)
      → Loop test round before (bad_read name)
  goes_round :
      {before out : AssignedSet} {o : Outcome}
      → round before (done out)
      → Loop test round out o
      → Loop test round before o
  breaks :
      {before out : AssignedSet}
      → round before (jumped to_end out)
      → Loop test round before (done out)
  continues :
      {before out : AssignedSet} {o : Outcome}
      → round before (jumped to_next out)
      → Loop test round out o
      → Loop test round before o
  returns :
      {before out : AssignedSet}
      → round before (jumped to_caller out)
      → Loop test round before (jumped to_caller out)
  round_fails :
      {before : AssignedSet} {name : String}
      → round before (bad_read name)
      → Loop test round before (bad_read name)

-- The body of a `repeat`: `continue` goes to the test.
pub data ToTest (body : Run) (before : AssignedSet) : Outcome → Type 0 where
  reaches : {o : Outcome} → body before o → ToTest body before o
  cut_short : (out : AssignedSet) → body before (jumped to_next out) → ToTest body before (done out)

-- A read of a name: a variable must have a value.
unfoldable pub read : Checker → ℤ → String → AssignedSet → Outcome
read c sc name before = elim (symbol_id c name sc) [
  | ok id ↦ if is_var c id && not (has before id) then bad_read name else done before
  | err e ↦ bad_read name
  | fault ↦ bad_read name
]

-- A write to a name gives it a value.
unfoldable pub write : Checker → ℤ → String → AssignedSet → Outcome
write c sc name before = elim (mark c sc name before) [
  | ok out ↦ done out
  | err e ↦ bad_read name
  | fault ↦ bad_read name
]

-- The writes of a call's `out` parameters, which happen when it returns.
unfoldable pub write_outs : Checker → ℤ → List Param → Nodes → AssignedSet → AssignedSet
write_outs c sc [] args before = before
write_outs c sc (p ∷ ps) no_nodes before = before
write_outs c sc (p ∷ ps) (and_node a rest) before =
    let written : AssignedSet = elim (passing p) [
      | out_only ↦ elim (out_argument c sc a before) [
        | ok out ↦ out
        | err e ↦ before
        | fault ↦ before
      ]
      | by_array ↦ before
      | in_or_inout ↦ before
    ] in
    write_outs c sc ps rest written

-- The function that a callee names, its parameters.
unfoldable pub callee_params : Checker → ℤ → Node → Option (List Param)
callee_params c sc callee = elim (callee_found c sc callee) [
  | ok found ↦ found
  | err e ↦ none
  | fault ↦ none
]

abbrev pub Either : Run → Run → Run
Either first second before o = first before o ⊎ second before o

-- The runs of an argument: a variable that is passed as an array or to an `out` parameter is not read.
abbrev pub Passed : Passing → Option String → Run → Run
Passed in_or_inout name value = value
Passed by_array none value = value
Passed by_array (some name) value = skip
Passed out_only none value = value
Passed out_only (some name) value = skip

unfoldable mutual
  -- A function's body runs when it is called, with its parameters and the globals; here it may be run
  -- where it is declared, and only a bad read of it is told.
  pub Runs : Checker → ℤ → Node → Run
  Runs c sc null_node = skip
  Runs c sc (block own stmts) = RunsAll c own stmts
  Runs c sc (if_expr cond then_expr else_expr) =
      Then (Runs c sc cond) (Either (Runs c sc then_expr) (Runs c sc else_expr))
  Runs c sc (while_stmt cond body) = Loop (Runs c sc cond) (Then (Runs c sc cond) (Runs c sc body))
  Runs c sc (repeat_stmt body cond) =
      let round : Run = Then (ToTest (Runs c sc body)) (Runs c sc cond) in Loop round round
  Runs c sc (for_stmt name from to step body) =
      let bounds : Run = Then (Runs c sc from) (Then (Runs c sc to) (Runs c sc step)) in
      let step_to : Run = λ before o. o ≡ write c sc name before in
      Then bounds (Loop skip (Then step_to (Runs c sc body)))
  Runs c sc (times_stmt count body) = Then (Runs c sc count) (Loop skip (Runs c sc body))
  Runs c sc (assign name value) = Then (Runs c sc value) (λ before o. o ≡ write c sc name before)
  Runs c sc (var_stmt name ty bounds init) =
      let declared : Run =
        if is_null init && not (is_array ty)
        then skip
        else (λ before o. o ≡ write c sc name before) in
      Then (RunsAll c sc bounds) (Then (Runs c sc init) declared)
  Runs c sc (ident name) = λ before o. o ≡ read c sc name before
  Runs c sc (fun_decl ps own stmts) = λ before o.
      (o ≡ done before)
      ⊎ ((initial : AssignedSet) × (name : String) × (add_params c own ps c.global_assigned
            ≡ ok initial)
          × RunsAll c own stmts initial (bad_read name)
          × (o ≡ bad_read name))
  Runs c sc (fun_without_body ps) = skip
  Runs c sc (field_assign object field value) =
      Then (Runs c sc value) (λ before o. o ≡ done (mark_object c sc object before))
  Runs c sc (field_access object field) = Runs c sc object
  Runs c sc (index_expr collection ty index) =
      Then (if is_array ty then skip else Runs c sc collection) (Runs c sc index)
  Runs c sc (multi_index_expr collection indices) = RunsAll c sc indices
  Runs c sc (call_expr callee args) = elim (callee_params c sc callee) [
    | none ↦ Then (Runs c sc callee) (RunsAll c sc args)
    | some ps ↦ Then (RunsArgs c sc ps args) (λ before o. o ≡ done (write_outs c sc ps args before))
  ]
  Runs c sc (lazy_binary left right) = Then (Runs c sc left) (Either skip (Runs c sc right))
  Runs c sc (jump_stmt to) = λ before o. o ≡ jumped to before
  Runs c sc (return_expr value) = Then (Runs c sc value) (λ before o. o ≡ jumped to_caller before)
  Runs c sc (other_node name children) = RunsAll c sc children

  pub RunsAll : Checker → ℤ → Nodes → Run
  RunsAll c sc no_nodes = skip
  RunsAll c sc (and_node x xs) = Then (Runs c sc x) (RunsAll c sc xs)

  pub RunsArgs : Checker → ℤ → List Param → Nodes → Run
  RunsArgs c sc [] args = skip
  RunsArgs c sc (p ∷ ps) no_nodes = skip
  RunsArgs c sc (p ∷ ps) (and_node a rest) =
      Then (Passed (passing p) (ident_name a) (Runs c sc a)) (RunsArgs c sc ps rest)
