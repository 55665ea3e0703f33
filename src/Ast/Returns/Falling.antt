-- ===== src/Ast/Returns/Falling.antt =====
-- How bodies of functions can end, for qumir/semantics/return_analysis.cpp and
-- qumir/semantics/return_normalization/pass.cpp.
use qumir.Prelude.{
  Bool, true, false, not, ◌||◌, Option, none, some, ◌≡◌, ◌≢◌, ◌⊎◌, inl, inr, refl, sym, subst, ◌∙◌,
  arith, ap, Bool-cases,
}
use qumir.Ast.Exprs.{
  fun_without_body, CleanupExitKind, exit_return, FunHead, Expr, null_expr, return_expr,
  cleanup_exit, block, if_expr, fun_decl, other_node, Exprs, no_exprs, and_expr,
}
use qumir.Ast.Returns.{
  always_returns, any_returns, is_void_return, is_external, push_back, return_back, is_empty,
  normalize_stmts, normalize_function,
}

-- How an expression that ends can end: at its end, by a return, or out of a loop.
pub data Ending : Type 0 where
  at_end returned out_of_loop : Ending

abbrev pub exit_ending : CleanupExitKind → Ending
exit_ending exit_return = returned
exit_ending _ = out_of_loop

-- The endings of an expression. A condition may hold or not, and a node that the analysis does not know
-- may end in any way.
unfoldable mutual
  pub Ends : Expr → Ending → Type 0
  Ends null_expr c = c ≡ at_end
  Ends (return_expr value) c = c ≡ returned
  Ends (cleanup_exit kind value cleanups) c = c ≡ exit_ending kind
  Ends (block stmts) c = EndsAll stmts c
  Ends (if_expr cond then_expr else_expr) c = Ends then_expr c ⊎ Ends else_expr c
  Ends (fun_decl head stmts) c = c ≡ at_end
  Ends (fun_without_body head) c = c ≡ at_end
  Ends (other_node name children) c = Unit

  pub EndsAll : Exprs → Ending → Type 0
  EndsAll no_exprs c = c ≡ at_end
  EndsAll (and_expr x xs) c = (Ends x c × (c ≢ at_end)) ⊎ (Ends x at_end × EndsAll xs c)

mutual
  unfolding always_returns Ends

  always_returns-Ends : (e : Expr) → always_returns e ≡ true → Ends e at_end → ⊥
  always_returns-Ends null_expr h c = absurd (ground arith)
  always_returns-Ends (return_expr value) h c = cc
  always_returns-Ends (cleanup_exit exit_return value cleanups) h c = cc
  always_returns-Ends (cleanup_exit _ value cleanups) h c = absurd (ground arith)
  always_returns-Ends (block stmts) h c = any_returns-EndsAll stmts h c
  always_returns-Ends (if_expr cond then_expr else_expr) h (inl c) =
      always_returns-Ends then_expr (ground arith) c
  always_returns-Ends (if_expr cond then_expr else_expr) h (inr c) =
      always_returns-Ends else_expr (ground arith) c
  always_returns-Ends (fun_decl head stmts) h c = absurd (ground arith)
  always_returns-Ends (fun_without_body head) h c = absurd (ground arith)
  always_returns-Ends (other_node name children) h c = absurd (ground arith)

  any_returns-EndsAll : (es : Exprs) → any_returns es ≡ true → EndsAll es at_end → ⊥
  any_returns-EndsAll no_exprs h c = absurd (ground arith)
  any_returns-EndsAll (and_expr x xs) h (inl (c, ne)) = ne refl
  any_returns-EndsAll (and_expr x xs) h (inr (c, cs)) = elim (Bool-cases (always_returns x)) [
    | inl e ↦ always_returns-Ends x e c
    | inr e ↦ any_returns-EndsAll xs (ground arith) cs
  ]

-- An expression that the analysis accepts never ends at its end: it returns, or leaves a loop.
pub always_returns_lem : (e : Expr) → always_returns e ≡ true → ¬ (Ends e at_end)
always_returns_lem e h = always_returns-Ends e h

pub any_returns-push_back :
    (es : Exprs) (v : Expr) → any_returns (push_back es (return_expr v)) ≡ true
unfolding any_returns
any_returns-push_back no_exprs v = refl
any_returns-push_back (and_expr x xs) v = ground (arith, any_returns-push_back xs v)

pub any_returns-return_back :
    (es : Exprs) → is_empty es ≡ false → any_returns (return_back es) ≡ true
unfolding any_returns
any_returns-return_back no_exprs h = absurd (ground arith)
any_returns-return_back (and_expr x no_exprs) h = refl
any_returns-return_back (and_expr x (and_expr y ys)) h =
    ground (arith, any_returns-return_back (and_expr y ys) refl)

-- The statements of a function that is void, or has a statement, always return once normalized.
pub normalize_stmts_lem :
    (head : FunHead) (es : Exprs)
    → (is_void_return head || not (is_empty es)) ≡ true
    → any_returns (normalize_stmts head es).1 ≡ true
unfolding normalize_stmts
normalize_stmts_lem head es h =
    ground (arith, any_returns-push_back es null_expr, any_returns-return_back es)

normalize_stmts_twice :
    (head : FunHead) (es : Exprs)
    → normalize_stmts head (normalize_stmts head es).1 ≡ (false, (normalize_stmts head es).1)
unfolding normalize_stmts
normalize_stmts_twice head es = elim (Bool-cases (any_returns es)) [
  | inl e ↦ rw e (rw e refl)
  | inr e ↦ elim (Bool-cases (is_void_return head)) [
    | inl v ↦ rw (e, v) (rw (any_returns-push_back es null_expr) refl)
    | inr v ↦ elim (Bool-cases (is_empty es)) [
      | inl z ↦ rw (e, v, z) (rw (z, e) refl)
      | inr z ↦ rw (e, v, z) (rw (any_returns-return_back es z) refl)
    ]
  ]
]

external_body :
    (head : FunHead) (es : Exprs)
    → is_external head (some es) ≡ true
    → normalize_function head (some es) ≡ (false, some es)
unfolding normalize_function
external_body head es e = rw e refl

internal_body :
    (head : FunHead) (es : Exprs)
    → is_external head (some es) ≡ false
    → normalize_function head (some es)
      ≡ ((normalize_stmts head es).0, some (normalize_stmts head es).1)
unfolding normalize_function
internal_body head es e = rw e refl

is_external_any :
    (head : FunHead) (a b : Exprs) → is_external head (some a) ≡ is_external head (some b)
unfolding is_external
is_external_any head a b = refl

-- A second normalization of a function changes nothing.
normalize_function_twice :
    (head : FunHead) (body : Option Exprs)
    → normalize_function head (normalize_function head body).1
      ≡ (false, (normalize_function head body).1)
unfolding normalize_function
normalize_function_twice head none = refl
normalize_function_twice head (some es) =
    let Settled : Option Exprs → Type 0 = λ b. normalize_function head b ≡ (false, b) in
    let result : Bool × Option Exprs → Option Exprs = λ p. p.1 in
    let new = (normalize_stmts head es).1 in
    elim (Bool-cases (is_external head (some es))) [
      | inl e ↦ subst Settled (sym (ap result (external_body head es e))) (external_body head es e)
      | inr e ↦ subst Settled (sym (ap result (internal_body head es e))) (
          internal_body head new (is_external_any head new es ∙ e)
          ∙ ap (λ (p : Bool × Exprs). (p.0, some p.1)) (normalize_stmts_twice head es))
    ]
