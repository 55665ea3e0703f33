-- ===== src/Ast/Returns/Walk.antt =====
-- `NormalizeFunctions`, qumir/semantics/return_normalization/pass.cpp: the walk over all functions.
pub mod Own
pub mod Settles
use qumir.Prelude.{ℕ, zero, suc, ◌+◌, Bool, true, false, ◌||◌, Option, none, some, ◌>>=◌}
use qumir.Ast.Exprs.{
  FunHead, Expr, null_expr, return_expr, cleanup_exit, block, if_expr, fun_decl, fun_without_body,
  other_node, Exprs, no_exprs, and_expr,
}
use qumir.Ast.Returns.{normalize_function}

-- The loop over the children of a node.
unfoldable pub walk : (Expr → Option (Bool × Expr)) → Exprs → Option (Bool × Exprs)
walk visit no_exprs = some (false, no_exprs)
walk visit (and_expr e es) = do
  (c, e') ← visit e
  (c', es') ← walk visit es
  some (c' || c, and_expr e' es')

-- The statements of a body, which stays a body.
abbrev pub stmts_of : Exprs → Option Exprs → Exprs
stmts_of old (some new) = new
stmts_of old none = old

-- The walk, with fuel for its depth: a new body is walked in its turn.
unfoldable pub normalize_functions : ℕ → Expr → Option (Bool × Expr)
unfolding walk normalize_function
normalize_functions zero e = none
normalize_functions (suc fuel) null_expr = some (false, null_expr)
normalize_functions (suc fuel) (fun_decl head stmts) = do
  let (changed, body) = normalize_function head (some stmts)
  (c, new) ← walk (normalize_functions fuel) (stmts_of stmts body)
  some (c || changed, fun_decl head new)
normalize_functions (suc fuel) (fun_without_body head) = some (false, fun_without_body head)
normalize_functions (suc fuel) (return_expr value) = do
  (c, value') ← normalize_functions fuel value
  some (c, return_expr value')
normalize_functions (suc fuel) (cleanup_exit kind value cleanups) = do
  (c, value') ← normalize_functions fuel value
  (c', cleanups') ← walk (normalize_functions fuel) cleanups
  some (c' || c, cleanup_exit kind value' cleanups')
normalize_functions (suc fuel) (block stmts) = do
  (c, stmts') ← walk (normalize_functions fuel) stmts
  some (c, block stmts')
normalize_functions (suc fuel) (if_expr cond then_expr else_expr) = do
  (c, cond') ← normalize_functions fuel cond
  (c', then_expr') ← normalize_functions fuel then_expr
  (c'', else_expr') ← normalize_functions fuel else_expr
  some (c'' || (c' || c), if_expr cond' then_expr' else_expr')
normalize_functions (suc fuel) (other_node name children) = do
  (c, children') ← walk (normalize_functions fuel) children
  some (c, other_node name children')

-- A bound of the depth of the walk: a function's body grows by two nodes at most.
unfoldable mutual
  pub walk_depth : Expr → ℕ
  walk_depth null_expr = 1
  walk_depth (return_expr value) = suc (walk_depth value)
  walk_depth (cleanup_exit kind value cleanups) = suc (walk_depth value + walk_depths cleanups)
  walk_depth (block stmts) = suc (walk_depths stmts)
  walk_depth (if_expr cond then_expr else_expr) =
      suc (walk_depth cond + walk_depth then_expr + walk_depth else_expr)
  walk_depth (fun_decl head stmts) = 3 + walk_depths stmts
  walk_depth (fun_without_body head) = 1
  walk_depth (other_node name children) = suc (walk_depths children)

  pub walk_depths : Exprs → ℕ
  walk_depths no_exprs = 0
  walk_depths (and_expr e es) = walk_depth e + walk_depths es

-- `ReturnNormalizationPass`
unfoldable pub return_normalization : Expr → Option (Bool × Expr)
unfolding normalize_functions walk_depth
return_normalization e = normalize_functions (walk_depth e) e
