-- ===== src/Ast/Exprs.antt =====
-- Expressions of the AST, qumir/parser/ast.h, as far as the analysis of returns reads them.
use qumir.Prelude.{String, Bool}
use qumir.Ast.Types.{AstType}

-- `ECleanupExitKind`
pub data CleanupExitKind : Type 0 where
  exit_break exit_continue exit_return : CleanupExitKind

-- `TFunDecl` without its body: what decides on external functions, and `RetType`.
pub record FunHead : Type 0 where
  pub mangled_name : String
  pub cacheable : Bool
  pub ret_type : AstType

-- `TExprPtr`: a null pointer, or a node. The body of a function is a block, given by its statements, or
-- a null pointer. A node of another class has its name and its children.
mutual
  pub data Expr : Type 0 where
    null_expr : Expr
    return_expr : Expr → Expr
    cleanup_exit : CleanupExitKind → Expr → Exprs → Expr
    block : Exprs → Expr
    if_expr : Expr → Expr → Expr → Expr
    fun_decl : FunHead → Exprs → Expr
    fun_without_body : FunHead → Expr
    other_node : String → Exprs → Expr

  pub data Exprs : Type 0 where
    no_exprs : Exprs
    and_expr : Expr → Exprs → Exprs
