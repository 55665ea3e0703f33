-- ===== src/Examples/Returns.antt =====
-- Small bodies of functions for the theorems on qumir/semantics/return_analysis.cpp and
-- qumir/semantics/return_normalization/pass.cpp.
use qumir.Prelude.{Bool, false, some, ◌≡◌, refl}
use qumir.Ast.Types.{void_type, future_type}
use qumir.Ast.Exprs.{
  fun_decl, exit_return, FunHead, Expr, null_expr, return_expr, cleanup_exit, block, if_expr,
  other_node, no_exprs, and_expr,
}
use qumir.Ast.Returns.{always_returns}
use qumir.Ast.Returns.Walk.{return_normalization}
use qumir.Ast.Returns.Walk.Settles.{IsNormal, return_normalization_lem}
use qumir.Ast.Returns.Falling.{at_end, Ends, always_returns_lem}

abbrev one : Expr
one = other_node "Number" no_exprs

-- `if 1 then return 1 else { 1; return }`, the second return behind a cleanup.
abbrev both_return : Expr
both_return =
    if_expr one (return_expr one)
      (block (and_expr one (and_expr (cleanup_exit exit_return null_expr no_exprs) no_exprs)))

always_returns_lem_example : ¬ (Ends both_return at_end)
unfolding always_returns
always_returns_lem_example = always_returns_lem both_return refl

-- A function whose result is awaited, and is nothing.
abbrev silent : FunHead
silent = record { mangled_name = ""; cacheable = false; ret_type = future_type void_type }

-- A module with a function that falls through.
abbrev program : Expr
program = block (and_expr (fun_decl silent (and_expr one no_exprs)) no_exprs)

return_normalization_lem_example :
    (c : Bool) × (e : Expr) × (return_normalization program ≡ some (c, e))
    × IsNormal e
    × (always_returns e ≡ always_returns program)
return_normalization_lem_example = return_normalization_lem program
