-- ===== src/Ast/Returns/Walk/Own.antt =====
-- `NormalizeFunction`, qumir/semantics/return_normalization/pass.cpp, on the statements of one function.
use qumir.Prelude.{
  suc, ◌+◌, ◌≤◌, Bool, true, false, not, ◌||◌, ◌&&◌, some, ◌≡◌, refl, sym, subst, arith, Bool-cases,
  inl, inr,
}
use qumir.Ast.Exprs.{FunHead, Expr, null_expr, return_expr, Exprs, no_exprs, and_expr}
use qumir.Ast.Returns.{
  any_returns, is_empty, is_void_return, is_external, push_back, return_back, normalize_stmts,
  normalize_function,
}
use qumir.Ast.Returns.Falling.{normalize_stmts_lem}
use qumir.Ast.Returns.Walk.{stmts_of, walk_depth, walk_depths}

-- A function with these statements needs no normalization: it is external, it always returns, or it has
-- nothing that it could return.
abbrev pub is_settled : FunHead → Exprs → Bool
is_settled head stmts =
    is_external head (some stmts)
    || any_returns stmts
    || (not (is_void_return head) && is_empty stmts)

walk_depths-push_back :
    (es : Exprs) (e : Expr) → walk_depths (push_back es e) ≡ walk_depths es + walk_depth e
unfolding walk_depth
walk_depths-push_back no_exprs e = omega arith
walk_depths-push_back (and_expr x xs) e = omega (arith, walk_depths-push_back xs e)

walk_depths-return_back : (es : Exprs) → walk_depths (return_back es) ≤ suc (walk_depths es)
unfolding walk_depth
walk_depths-return_back no_exprs = omega arith
walk_depths-return_back (and_expr x no_exprs) = omega arith
walk_depths-return_back (and_expr x (and_expr y ys)) =
    omega (arith, walk_depths-return_back (and_expr y ys))

-- The statements after the normalization of the function itself.
abbrev pub own : FunHead → Exprs → Exprs
own head es = stmts_of es (normalize_function head (some es)).1

pub own_depth : (head : FunHead) (es : Exprs) → walk_depths (own head es) ≤ 2 + walk_depths es
unfolding normalize_function normalize_stmts walk_depth
own_depth head es = elim (Bool-cases (is_external head (some es))) [
  | inl x ↦ rw x (omega arith)
  | inr x ↦ elim (Bool-cases (any_returns es)) [
    | inl r ↦ rw (x, r) (omega arith)
    | inr r ↦ elim (Bool-cases (is_void_return head)) [
      | inl v ↦ rw (x, r, v) (omega (arith, walk_depths-push_back es (return_expr null_expr)))
      | inr v ↦ elim (Bool-cases (is_empty es)) [
        | inl z ↦ rw (x, r, v, z) (omega arith)
        | inr z ↦ rw (x, r, v, z) (omega (arith, walk_depths-return_back es))
      ]
    ]
  ]
]

or_first : (a b c : Bool) → a ≡ true → (a || b || c) ≡ true
or_first a b c h = rw h refl

or_second : (a b c : Bool) → b ≡ true → (a || b || c) ≡ true
or_second true b c h = refl
or_second false b c h = rw h refl

or_third : (a b c : Bool) → c ≡ true → (a || b || c) ≡ true
or_third true b c h = refl
or_third false true c h = refl
or_third false false c h = h

own_external : (head : FunHead) (es : Exprs) → is_external head (some es) ≡ true → own head es ≡ es
unfolding normalize_function
own_external head es e = rw e refl

own_internal :
    (head : FunHead) (es : Exprs)
    → is_external head (some es) ≡ false
    → own head es ≡ (normalize_stmts head es).1
unfolding normalize_function
own_internal head es e = rw e refl

own_nothing :
    (head : FunHead) (es : Exprs)
    → is_void_return head ≡ false
    → is_empty es ≡ true
    → (normalize_stmts head es).1 ≡ es
unfolding normalize_stmts
own_nothing head es v z = elim (Bool-cases (any_returns es)) [
  | inl r ↦ rw r refl
  | inr r ↦ rw (r, v, z) refl
]

Settled_nothing :
    (head : FunHead) (es : Exprs)
    → is_void_return head ≡ false
    → is_empty es ≡ true
    → is_settled head es ≡ true
Settled_nothing head es v z =
    or_third (is_external head (some es)) (any_returns es)
      (not (is_void_return head) && is_empty es) (rw (v, z) refl)

pub own_settled : (head : FunHead) (es : Exprs) → is_settled head (own head es) ≡ true
own_settled head es =
    let Good : Exprs → Type 0 = λ s. is_settled head s ≡ true in
    let new = (normalize_stmts head es).1 in
    elim (Bool-cases (is_external head (some es))) [
      | inl x ↦ subst Good (sym (own_external head es x)) (
          or_first (is_external head (some es)) (any_returns es)
            (not (is_void_return head) && is_empty es) x)
      | inr x ↦
          subst Good (sym (own_internal head es x))
            (elim (Bool-cases (is_void_return head || not (is_empty es))) [
              | inl h ↦
                  or_second (is_external head (some new)) (any_returns new)
                    (not (is_void_return head) && is_empty new) (normalize_stmts_lem head es h)
              | inr h ↦
                  let v : is_void_return head ≡ false =
                    nothing_void (is_void_return head) (is_empty es) h in
                  let z : is_empty es ≡ true =
                    nothing_empty (is_void_return head) (is_empty es) h in
                  subst Good (sym (own_nothing head es v z)) (Settled_nothing head es v z)
            ])
    ]
  where
    nothing_void : (a b : Bool) → (a || not b) ≡ false → a ≡ false
    nothing_void a b h = ground arith

    nothing_empty : (a b : Bool) → (a || not b) ≡ false → b ≡ true
    nothing_empty a b h = ground arith
