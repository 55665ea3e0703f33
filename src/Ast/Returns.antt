-- ===== src/Ast/Returns.antt =====
-- `AlwaysReturns`, qumir/semantics/return_analysis.cpp, and `NormalizeFunction`,
-- qumir/semantics/return_normalization/pass.cpp.
pub mod Falling
pub mod Walk
use qumir.Prelude.{
  String, Bool, true, false, not, ◌&&◌, ◌||◌, Option, none, some, if◌then◌else◌, ◌==◌, Eq-string,
}
use qumir.Ast.Types.{AstType, null_type, void_type, future_type}
use qumir.Ast.Exprs.{
  CleanupExitKind, exit_break, exit_continue, exit_return, FunHead, Expr, null_expr, return_expr,
  cleanup_exit, block, if_expr, fun_decl, fun_without_body, other_node, Exprs, no_exprs, and_expr,
}

abbrev pub is_return : CleanupExitKind → Bool
is_return exit_return = true
is_return _ = false

abbrev pub is_null : Expr → Bool
is_null null_expr = true
is_null _ = false

unfoldable mutual
  pub always_returns : Expr → Bool
  always_returns (return_expr value) = true
  always_returns (cleanup_exit kind value cleanups) = is_return kind
  always_returns (block stmts) = any_returns stmts
  always_returns (if_expr cond then_expr else_expr) =
      not (is_null else_expr) && always_returns then_expr && always_returns else_expr
  always_returns null_expr = false
  always_returns (fun_decl head stmts) = false
  always_returns (fun_without_body head) = false
  always_returns (other_node name children) = false

  -- The loop over the statements of a block.
  pub any_returns : Exprs → Bool
  any_returns no_exprs = false
  any_returns (and_expr stmt stmts) = always_returns stmt || any_returns stmts

abbrev pub is_void : AstType → Bool
is_void void_type = true
is_void _ = false

-- `FutureResultType`; a null pointer stands for no result.
abbrev pub future_result_type : AstType → AstType
future_result_type (future_type ty) = ty
future_result_type _ = null_type

-- The return type if there is no result of a future.
abbrev pub or_else : AstType → AstType → AstType
or_else null_type ty = ty
or_else result ty = result

-- `IsVoidReturn`
unfoldable pub is_void_return : FunHead → Bool
is_void_return head = is_void (or_else (future_result_type head.ret_type) head.ret_type)

abbrev pub has_body : Option Exprs → Bool
has_body none = false
has_body (some stmts) = true

-- `IsExternal`
unfoldable pub is_external : FunHead → Option Exprs → Bool
is_external head body = not (head.mangled_name == "") && not (head.cacheable && has_body body)

-- `statements.push_back(…)`
abbrev pub push_back : Exprs → Expr → Exprs
push_back no_exprs e = and_expr e no_exprs
push_back (and_expr x xs) e = and_expr x (push_back xs e)

-- `statements.back()` becomes a return of it.
abbrev pub return_back : Exprs → Exprs
return_back no_exprs = no_exprs
return_back (and_expr x no_exprs) = and_expr (return_expr x) no_exprs
return_back (and_expr x (and_expr y ys)) = and_expr x (return_back (and_expr y ys))

abbrev pub is_empty : Exprs → Bool
is_empty no_exprs = true
is_empty (and_expr x xs) = false

-- What the function does with its statements, and whether it changes them.
unfoldable pub normalize_stmts : FunHead → Exprs → Bool × Exprs
unfolding is_void_return any_returns
normalize_stmts head stmts =
    if any_returns stmts
    then (false, stmts)
    else if is_void_return head
    then (true, push_back stmts (return_expr null_expr))
    else if is_empty stmts
    then (false, stmts)
    else (true, return_back stmts)

-- `NormalizeFunction`: the body is the statements of a block, or none.
unfoldable pub normalize_function : FunHead → Option Exprs → Bool × Option Exprs
unfolding is_external normalize_stmts
normalize_function head none = (false, none)
normalize_function head (some stmts) =
    if is_external head (some stmts)
    then (false, some stmts)
    else let (changed, new) = normalize_stmts head stmts in (changed, some new)
