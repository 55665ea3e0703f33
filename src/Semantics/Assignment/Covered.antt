-- ===== src/Semantics/Assignment/Covered.antt =====
-- The part of the language whose runs the check of assignments covers.
use qumir.Prelude.{
  ℤ, String, Bool, true, false, not, ◌&&◌, ◌≡◌, refl, inl, inr, Option, some, List, [], ◌∷◌,
  Bool-cases,
}
use qumir.Semantics.Nodes.{
  Node, Nodes, Param, null_node, block, if_expr, while_stmt, repeat_stmt, for_stmt, times_stmt,
  assign, var_stmt, ident, fun_decl, fun_without_body, field_assign, field_access, index_expr,
  multi_index_expr, call_expr, lazy_binary, jump_stmt, return_expr, other_node, no_nodes, and_node,
  is_array, ident_name,
}
use qumir.Semantics.Assignment.{
  Checker, AssignedSet, has, symbol_id, passing, Passing, by_array, in_or_inout, out_only,
  check_ident, is_var,
}
use qumir.Semantics.Assignment.Check.{check, check_children}
use qumir.Semantics.Assignment.Runs.{Runs, callee_params}
use qumir.Semantics.Assignment.Keeps.{
  Ensures, holds, has_error, Ensures-bind, Ensures-from, NeverContinues,
}

-- Expressions that write no variable: the right operands of `&&` and `||`.
unfoldable mutual
  pub reads_only : Node → Bool
  reads_only (ident name) = true
  reads_only (lazy_binary left right) = reads_only left && reads_only right
  reads_only (field_access object field) = reads_only object
  reads_only (other_node name children) = all_read_only children
  reads_only _ = false

  pub all_read_only : Nodes → Bool
  all_read_only no_nodes = true
  all_read_only (and_node x xs) = reads_only x && all_read_only xs

abbrev pub CoveredArg : Passing → Type 0 → Option String → Type 0
CoveredArg in_or_inout value name = value
CoveredArg by_array value name = (n : String) × (name ≡ some n)
CoveredArg out_only value name = (n : String) × (name ≡ some n)

-- What the check looks at: it passes over the indices of arrays, the bounds of a declared array and the
-- arguments of a callee that names no function; it takes both operands of `&&` and `||` as
-- evaluated, and the test of a `repeat` as reached from the end of its body only.
unfoldable mutual
  pub Covered : Checker → ℤ → Node → Type 0
  Covered c sc null_node = Unit
  Covered c sc (block own stmts) = CoveredAll c own stmts
  Covered c sc (if_expr cond then_expr else_expr) =
      Covered c sc cond × Covered c sc then_expr × Covered c sc else_expr
  Covered c sc (while_stmt cond body) = Covered c sc cond × Covered c sc body
  Covered c sc (repeat_stmt body cond) =
      Covered c sc body × Covered c sc cond × NeverContinues (Runs c sc body)
  Covered c sc (for_stmt name from to step body) =
      Covered c sc from × Covered c sc to × Covered c sc step × Covered c sc body
  Covered c sc (times_stmt count body) = Covered c sc count × Covered c sc body
  Covered c sc (assign name value) = Covered c sc value
  Covered c sc (var_stmt name ty bounds init) = (bounds ≡ no_nodes) × Covered c sc init
  Covered c sc (ident name) = Unit
  Covered c sc (fun_decl ps own stmts) = CoveredAll c own stmts
  Covered c sc (fun_without_body ps) = Unit
  Covered c sc (field_assign object field value) = Covered c sc value
  Covered c sc (field_access object field) = Covered c sc object
  Covered c sc (index_expr collection ty index) =
      (is_array ty ≡ false) × Covered c sc collection × Covered c sc index
  Covered c sc (multi_index_expr collection indices) = indices ≡ no_nodes
  Covered c sc (call_expr callee args) =
      (ps : List Param) × (callee_params c sc callee ≡ some ps) × CoveredArgs c sc ps args
  Covered c sc (lazy_binary left right) =
      Covered c sc left × Covered c sc right × (reads_only right ≡ true)
  Covered c sc (jump_stmt to) = Unit
  Covered c sc (return_expr value) = Covered c sc value
  Covered c sc (other_node name children) = CoveredAll c sc children

  pub CoveredAll : Checker → ℤ → Nodes → Type 0
  CoveredAll c sc no_nodes = Unit
  CoveredAll c sc (and_node x xs) = Covered c sc x × CoveredAll c sc xs

  -- The arguments of a call: arrays and those of `out` parameters are variables.
  pub CoveredArgs : Checker → ℤ → List Param → Nodes → Type 0
  CoveredArgs c sc [] args = Unit
  CoveredArgs c sc (p ∷ ps) no_nodes = Unit
  CoveredArgs c sc (p ∷ ps) (and_node a rest) =
      CoveredArg (passing p) (Covered c sc a) (ident_name a) × CoveredArgs c sc ps rest

check_ident_lem :
    (c : Checker) (sc : ℤ) (name : String) (s : AssignedSet)
    → Ensures (λ t. t ≡ s) (check_ident c sc name s)
unfolding check_ident
check_ident_lem c sc name s = Ensures-from (symbol_id c name sc) λ id e.
    elim (Bool-cases (is_var c id && not (has s id))) [
      | inl h ↦ rw h has_error
      | inr h ↦ rw h (holds refl)
    ]

pub and_true : (a b : Bool) → (a && b) ≡ true → (a ≡ true) × (b ≡ true)
and_true true true h = (refl, refl)
and_true _ _ h = cc

mutual
  unfolding reads_only check

  pub reads_only_lem :
      (c : Checker) (sc : ℤ) (n : Node) (s : AssignedSet)
      → reads_only n ≡ true
      → Ensures (λ t. t ≡ s) (check c sc n s)
  reads_only_lem c sc (ident name) s h = check_ident_lem c sc name s
  reads_only_lem c sc (lazy_binary left right) s h =
      let (l, r) = and_true (reads_only left) (reads_only right) h in
      Ensures-bind (reads_only_lem c sc left s l) λ t e. rw e (reads_only_lem c sc right s r)
  reads_only_lem c sc (field_access object field) s h = reads_only_lem c sc object s h
  reads_only_lem c sc (other_node name children) s h = all_read_only_lem c sc children s h
  reads_only_lem c sc _ s h = cc

  all_read_only_lem :
      (c : Checker) (sc : ℤ) (ns : Nodes) (s : AssignedSet)
      → all_read_only ns ≡ true
      → Ensures (λ t. t ≡ s) (check_children c sc ns s)
  all_read_only_lem c sc no_nodes s h = holds refl
  all_read_only_lem c sc (and_node x xs) s h =
      let (l, r) = and_true (reads_only x) (all_read_only xs) h in
      Ensures-bind (reads_only_lem c sc x s l) λ t e. rw e (all_read_only_lem c sc xs s r)
