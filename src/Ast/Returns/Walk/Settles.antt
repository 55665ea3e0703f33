-- ===== src/Ast/Returns/Walk/Settles.antt =====
-- `ReturnNormalizationPass`, qumir/semantics/return_normalization/pass.cpp, on a whole program.
use qumir.Ast.Returns.Walk.Own.{is_settled, own, own_depth, own_settled}
use qumir.Prelude.{ℕ, zero, suc, ◌≤◌, Bool, true, false, ◌||◌, Option, some, ◌≡◌, refl, ap₂, arith}
use qumir.Ast.Exprs.{
  FunHead, Expr, null_expr, return_expr, cleanup_exit, block, if_expr, fun_decl, fun_without_body,
  other_node, Exprs, no_exprs, and_expr,
}
use qumir.Ast.Returns.{
  always_returns, any_returns, is_null, is_empty, is_external, normalize_function,
}
use qumir.Ast.Returns.Walk.{
  walk, normalize_functions, walk_depth, walk_depths, return_normalization,
}

-- No function in the expression needs normalization.
unfoldable mutual
  pub IsNormal : Expr → Type 0
  IsNormal null_expr = Unit
  IsNormal (return_expr value) = IsNormal value
  IsNormal (cleanup_exit kind value cleanups) = IsNormal value × AreNormal cleanups
  IsNormal (block stmts) = AreNormal stmts
  IsNormal (if_expr cond then_expr else_expr) =
      IsNormal cond × IsNormal then_expr × IsNormal else_expr
  IsNormal (fun_decl head stmts) = (is_settled head stmts ≡ true) × AreNormal stmts
  IsNormal (fun_without_body head) = Unit
  IsNormal (other_node name children) = AreNormal children

  pub AreNormal : Exprs → Type 0
  AreNormal no_exprs = Unit
  AreNormal (and_expr e es) = IsNormal e × AreNormal es

-- What a visited expression has in common with the old one, and that it is normal.
record Visited (e e' : Expr) : Type 0 where
  returns : always_returns e' ≡ always_returns e
  null : is_null e' ≡ is_null e
  normal : IsNormal e'

record VisitedAll (es es' : Exprs) : Type 0 where
  any : any_returns es' ≡ any_returns es
  empty : is_empty es' ≡ is_empty es
  normal : AreNormal es'

abbrev IsVisit : (Expr → Option (Bool × Expr)) → ℕ → Type 0
IsVisit visit fuel =
    (e : Expr)
    → walk_depth e ≤ fuel
    → (c : Bool) × (e' : Expr) × (visit e ≡ some (c, e')) × Visited e e'

walk_lem :
    (visit : Expr → Option (Bool × Expr)) (fuel : ℕ) (es : Exprs)
    → IsVisit visit fuel
    → walk_depths es ≤ fuel
    → (c : Bool) × (es' : Exprs) × (walk visit es ≡ some (c, es')) × VisitedAll es es'
unfolding walk walk_depth any_returns IsNormal
walk_lem visit fuel no_exprs h le =
    (false, no_exprs, refl, record { any = refl; empty = refl; normal = tt })
walk_lem visit fuel (and_expr e es) h le =
    let (c, e', q, v) = h e (omega arith) in
    let (c', es', q', vs) = walk_lem visit fuel es h (omega arith) in
    (
      c' || c,
      and_expr e' es',
      rw (q, q') refl,
      record {
        any = ap₂ (λ x y. x || y) v.returns vs.any;
        empty = refl;
        normal = (v.normal, vs.normal);
      },
    )

is_settled_same :
    (head : FunHead) (a b : Exprs)
    → any_returns b ≡ any_returns a
    → is_empty b ≡ is_empty a
    → is_settled head a ≡ true
    → is_settled head b ≡ true
unfolding is_external
is_settled_same head a b r z h = rw (r, z) h

normalize_functions-IsVisit : (fuel : ℕ) → IsVisit (normalize_functions fuel) fuel
unfolding normalize_functions walk_depth always_returns IsNormal
normalize_functions-IsVisit zero null_expr le = absurd (omega arith)
normalize_functions-IsVisit zero _ le = absurd (omega arith)
normalize_functions-IsVisit (suc fuel) null_expr le =
    (false, null_expr, refl, record { returns = refl; null = refl; normal = tt })
normalize_functions-IsVisit (suc fuel) (fun_without_body head) le =
    (false, fun_without_body head, refl, record { returns = refl; null = refl; normal = tt })
normalize_functions-IsVisit (suc fuel) (return_expr value) le =
    let (c, e, q, v) = normalize_functions-IsVisit fuel value (omega arith) in
    (c, return_expr e, rw q refl, record { returns = refl; null = refl; normal = v.normal })
normalize_functions-IsVisit (suc fuel) (cleanup_exit kind value cleanups) le =
    let (c, e, q, v) = normalize_functions-IsVisit fuel value (omega arith) in
    let (c', es, q', vs) =
      walk_lem (normalize_functions fuel) fuel cleanups (normalize_functions-IsVisit fuel)
        (omega arith) in
    (
      c' || c,
      cleanup_exit kind e es,
      rw (q, q') refl,
      record { returns = refl; null = refl; normal = (v.normal, vs.normal) },
    )
normalize_functions-IsVisit (suc fuel) (block stmts) le =
    let (c, es, q, vs) =
      walk_lem (normalize_functions fuel) fuel stmts (normalize_functions-IsVisit fuel)
        (omega arith) in
    (c, block es, rw q refl, record { returns = vs.any; null = refl; normal = vs.normal })
normalize_functions-IsVisit (suc fuel) (other_node name children) le =
    let (c, es, q, vs) =
      walk_lem (normalize_functions fuel) fuel children (normalize_functions-IsVisit fuel)
        (omega arith) in
    (c, other_node name es, rw q refl, record { returns = refl; null = refl; normal = vs.normal })
normalize_functions-IsVisit (suc fuel) (if_expr cond then_expr else_expr) le =
    let (c, e, q, v) = normalize_functions-IsVisit fuel cond (omega arith) in
    let (c', e', q', v') = normalize_functions-IsVisit fuel then_expr (omega arith) in
    let (c'', e'', q'', v'') = normalize_functions-IsVisit fuel else_expr (omega arith) in
    (
      c'' || (c' || c),
      if_expr e e' e'',
      rw (q, q', q'') refl,
      record {
        returns = rw (v''.null, v'.returns, v''.returns) refl;
        null = refl;
        normal = (v.normal, v'.normal, v''.normal);
      },
    )
normalize_functions-IsVisit (suc fuel) (fun_decl head stmts) le =
    let (c, es, q, vs) =
      walk_lem (normalize_functions fuel) fuel (own head stmts) (normalize_functions-IsVisit fuel)
        (omega (arith, own_depth head stmts)) in
    let changed = (normalize_function head (some stmts)).0 in
    let settled =
      is_settled_same head (own head stmts) es vs.any vs.empty (own_settled head stmts) in
    (
      c || changed,
      fun_decl head es,
      rw q refl,
      record { returns = refl; null = refl; normal = (settled, vs.normal) },
    )

-- The pass ends on every program, and then no function in it needs normalization: each is external,
-- always returns, or is no void function and has no statement; and what always returned still does.
pub return_normalization_lem :
    (e : Expr)
    → (c : Bool) × (e' : Expr) × (return_normalization e ≡ some (c, e'))
      × IsNormal e'
      × (always_returns e' ≡ always_returns e)
unfolding return_normalization
return_normalization_lem e =
    let (c, e', q, v) = normalize_functions-IsVisit (walk_depth e) e (omega arith) in
    (c, e', q, v.normal, v.returns)
