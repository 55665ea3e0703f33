-- ===== src/Semantics/Nodes.antt =====
-- Expressions of the AST, qumir/parser/ast.h, as far as the check of assignments reads them.
use qumir.Prelude.{ℤ, String, Bool, true, false, Option, none, some, List}
use qumir.Ast.Types.{AstType, array_type, reference_type}

-- Where a jump goes: `TBreakStmt`, `TContinueStmt` and `TReturnExpr`.
pub data Jump : Type 0 where
  to_end to_next to_caller : Jump

-- A parameter of a `TFunDecl`; `readable` is the flag of the type that a reference refers to.
pub record Param : Type 0 where
  pub name : String
  pub type : AstType
  pub readable : Bool

-- `TExprPtr`: a null pointer, or a node. A block has its scope, a function its parameters and the
-- block of its body. The operands of `&&` and `||` stand in a node of their own, since the second may
-- stay unevaluated. A node of a class that the check does not tell apart has its name and its children.
mutual
  pub data Node : Type 0 where
    null_node : Node
    block : ℤ → Nodes → Node
    if_expr : Node → Node → Node → Node
    while_stmt : Node → Node → Node
    repeat_stmt : Node → Node → Node
    for_stmt : String → Node → Node → Node → Node → Node
    times_stmt : Node → Node → Node
    assign : String → Node → Node
    var_stmt : String → AstType → Nodes → Node → Node
    ident : String → Node
    fun_decl : List Param → ℤ → Nodes → Node
    fun_without_body : List Param → Node
    field_assign : Node → String → Node → Node
    field_access : Node → String → Node
    index_expr : Node → AstType → Node → Node
    multi_index_expr : Node → Nodes → Node
    call_expr : Node → Nodes → Node
    lazy_binary : Node → Node → Node
    jump_stmt : Jump → Node
    return_expr : Node → Node
    other_node : String → Nodes → Node

  pub data Nodes : Type 0 where
    no_nodes : Nodes
    and_node : Node → Nodes → Nodes

unfoldable pub is_null : Node → Bool
is_null null_node = true
is_null _ = false

-- `TMaybeType<TArrayType>`
unfoldable pub is_array : AstType → Bool
is_array (array_type ty arity) = true
is_array _ = false

unfoldable pub is_reference : AstType → Bool
is_reference (reference_type ty) = true
is_reference _ = false

-- `TMaybeNode<TVarStmt>`
unfoldable pub is_var_stmt : Node → Bool
is_var_stmt (var_stmt name ty bounds init) = true
is_var_stmt _ = false

-- `TMaybeNode<TFunDecl>`, and its `Params`.
unfoldable pub params_of : Node → Option (List Param)
params_of (fun_decl ps body_scope stmts) = some ps
params_of (fun_without_body ps) = some ps
params_of _ = none

-- `TMaybeNode<TIdentExpr>`, and its `Name`.
unfoldable pub ident_name : Node → Option String
ident_name (ident name) = some name
ident_name _ = none
