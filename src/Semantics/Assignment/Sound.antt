-- ===== src/Semantics/Assignment/Sound.antt =====
-- An expression that passes the check reads no variable before it has a value.
use qumir.Prelude.{ℤ, pos, String, not, ◌&&◌, ◌≡◌, refl, subst, inl, inr, List, [], ◌∷◌, Bool-cases}
use qumir.Ast.Types.{AstType}
use qumir.Semantics.Nodes.{
  Node, Nodes, Param, null_node, block, if_expr, while_stmt, repeat_stmt, for_stmt, times_stmt,
  assign, var_stmt, ident, fun_decl, fun_without_body, field_assign, field_access, index_expr,
  multi_index_expr, call_expr, lazy_binary, jump_stmt, return_expr, other_node, no_nodes, and_node,
  to_caller, is_null, is_array,
}
use qumir.Semantics.Scopes.{Resolver}
use qumir.Semantics.Assignment.{
  Checker, AssignedSet, Checked, ok, ◌>>=◌, union, add_params, new_checker,
}
use qumir.Semantics.Assignment.Check.{
  report, Collected, check, check_children, check_stmts, check_args, next_stmt, check_program,
}
use qumir.Semantics.Assignment.Sets.{Within, Within-refl, Within-intersect}
use qumir.Semantics.Assignment.Runs.{Run, Runs, RunsAll, done, bad_read, skip, Then, Either}
use qumir.Semantics.Assignment.Keeps.{
  Ensures, holds, has_error, has_fault, Ensures-bind, Ensures-from, Ensures-result, Ensures-collect,
  Keeps, Keeps-skip, Keeps-Then, Keeps-weaken, Keeps-Either, Keeps-Loop, Keeps-ToTest, Keeps-write,
  Keeps-read,
}
use qumir.Semantics.Assignment.Covered.{Covered, CoveredAll, CoveredArgs, reads_only_lem, and_true}
use qumir.Semantics.Assignment.Parts.{
  is_null→eq, Keeps-jump, Keeps-if, Keeps-mark_object, Keeps-union, PassesArgs,
}
use qumir.Semantics.Assignment.Arguments.{one_arg, Ensures-weaken, no_params, few_args, call-Keeps}

-- A declaration of a function runs no statement, or tells a bad read of its body.
Keeps-fun_decl :
    (c : Checker) (own : ℤ) (ps : List Param) (stmts : Nodes) (s initial : AssignedSet)
    → add_params c own ps c.global_assigned ≡ ok initial
    → Ensures (Keeps initial (RunsAll c own stmts)) (report (check_stmts c own stmts initial))
    → Ensures
        (Keeps s (Runs c own (fun_decl ps own stmts)))
        (report (check_stmts c own stmts initial) >>= λ _. ok s)
unfolding Runs
Keeps-fun_decl c own ps stmts s initial e body = Ensures-bind body λ t k. holds (record {
  grows = Within-refl s;
  runs = λ from o w r. elim r [
    | inl q ↦ rw q w
    | inr (start, name, q, bad, _) ↦
        let same : start ≡ initial = cc in
        absurd (
          k.runs initial (bad_read name) (Within-refl initial)
            (subst (λ x. RunsAll c own stmts x (bad_read name)) same bad))
  ];
})

Ensures-both :
    {P Q : AssignedSet → Type 0} {r : Checked AssignedSet}
    → Ensures P r
    → Ensures Q r
    → Ensures (λ a. P a × Q a) r
Ensures-both (holds {a} h) k = holds (h, Ensures-result k refl)
Ensures-both has_error k = has_error
Ensures-both has_fault k = has_fault

-- The right operand of `&&` or `||`, which may stay unevaluated.
Keeps-lazy :
    {s out t : AssignedSet} {left right : Run}
    → Keeps s left out
    → Keeps out right t
    → t ≡ out
    → Keeps s (Then left (Either skip right)) t
Keeps-lazy {out} p q e =
    let either = Keeps-Either (Keeps-skip out) q in
    Keeps-Then p
      (Keeps-weaken either q.grows (Within-intersect (rw e (Within-refl out)) (Within-refl _)))

declared-Keeps :
    (c : Checker) (sc : ℤ) (name : String) (ty : AstType) (bounds : Nodes) (init : Node)
    (s : AssignedSet)
    → bounds ≡ no_nodes
    → Ensures (Keeps s (Runs c sc init)) (check c sc init s)
    → Ensures
        (Keeps s (Runs c sc (var_stmt name ty bounds init)))
        (check c sc (var_stmt name ty bounds init) s)
unfolding check Runs
declared-Keeps c sc name ty bounds init s b own =
    elim (Bool-cases (is_null init && not (is_array ty))) [
      | inl e ↦
          let n : init ≡ null_node =
            is_null→eq init ((and_true (is_null init) (not (is_array ty)) e).0) in
          rw (b, e, n)
            (holds (Keeps-Then (Keeps-skip s) (Keeps-Then (Keeps-skip s) (Keeps-skip s))))
      | inr e ↦
          rw (b, e)
            (Ensures-bind own λ out p.
              Ensures-weaken (Keeps-write c sc name out)
                λ t q. Keeps-Then (Keeps-skip s) (Keeps-Then p q))
    ]

-- A statement of a block, then the others.
next_stmt-Keeps :
    {part rest : Run} {r : Checked AssignedSet} (s : AssignedSet) (others : AssignedSet → Collected)
    → Ensures (Keeps s part) r
    → ((s' : AssignedSet) → Ensures (Keeps s' rest) (report (others s')))
    → Ensures (Keeps s (Then part rest)) (report (next_stmt r s others))
next_stmt-Keeps s others (holds {a} p) k =
    Ensures-weaken (k (union s a)) λ t q. Keeps-Then (Keeps-union p) q
next_stmt-Keeps s others (has_error {e}) k = Ensures-collect e (others s)
next_stmt-Keeps s others has_fault k = has_fault

mutual
  unfolding check Runs Covered

  check-Keeps :
      (c : Checker) (sc : ℤ) (n : Node) (s : AssignedSet)
      → Covered c sc n
      → Ensures (Keeps s (Runs c sc n)) (check c sc n s)
  check-Keeps c sc null_node s v = holds (Keeps-skip s)
  check-Keeps c sc (block own stmts) s v = stmts-Keeps c own stmts s v
  check-Keeps c sc (if_expr cond then_expr else_expr) s v =
      Ensures-bind (check-Keeps c sc cond s v.0) λ after p.
        Ensures-bind (check-Keeps c sc then_expr after v.1) λ t q.
          Ensures-bind (check-Keeps c sc else_expr after v.2)
            λ u r. holds (Keeps-if (is_null else_expr) p q r)
  check-Keeps c sc (while_stmt cond body) s v =
      Ensures-bind (check-Keeps c sc cond s v.0) λ after p.
        Ensures-bind (check-Keeps c sc body after v.1) λ t q. holds (Keeps-Loop p (Keeps-Then p q))
  check-Keeps c sc (repeat_stmt body cond) s v =
      Ensures-bind (check-Keeps c sc body s v.0) λ after p.
        Ensures-bind (check-Keeps c sc cond after v.1)
          λ t q. let round = Keeps-Then (Keeps-ToTest p v.2) q in holds (Keeps-Loop round round)
  check-Keeps c sc (for_stmt name from to step body) s v =
      Ensures-bind (check-Keeps c sc from s v.0) λ s1 p1.
        Ensures-bind (check-Keeps c sc to s1 v.1) λ s2 p2.
          Ensures-bind (check-Keeps c sc step s2 v.2) λ s3 p3.
            Ensures-bind (Keeps-write c sc name s3) λ s4 p4.
              Ensures-bind (check-Keeps c sc body s4 v.3) λ s5 p5.
                let bounds = Keeps-Then p1 (Keeps-Then p2 p3) in
                let rounds = Keeps-Loop (Keeps-skip s3) (Keeps-Then p4 p5) in
                holds (Keeps-weaken (Keeps-Then bounds rounds) (Within-refl s) bounds.grows)
  check-Keeps c sc (times_stmt count body) s v =
      Ensures-bind (check-Keeps c sc count s v.0) λ after p.
        Ensures-bind (check-Keeps c sc body after v.1) λ t q.
          let rounds = Keeps-Loop (Keeps-skip after) q in
          holds (Keeps-weaken (Keeps-Then p rounds) (Within-refl s) p.grows)
  check-Keeps c sc (assign name value) s v =
      Ensures-bind (check-Keeps c sc value s v)
        λ out p. Ensures-weaken (Keeps-write c sc name out) λ t q. Keeps-Then p q
  check-Keeps c sc (var_stmt name ty bounds init) s v =
      declared-Keeps c sc name ty bounds init s v.0 (check-Keeps c sc init s v.1)
  check-Keeps c sc (ident name) s v = Keeps-read c sc name s
  check-Keeps c sc (fun_decl ps own stmts) s v =
      Ensures-from (add_params c own ps c.global_assigned)
        λ initial e. Keeps-fun_decl c own ps stmts s initial e (stmts-Keeps c own stmts initial v)
  check-Keeps c sc (fun_without_body ps) s v = has_fault
  check-Keeps c sc (field_assign object field value) s v =
      Ensures-bind (check-Keeps c sc value s v)
        λ out p. holds (Keeps-Then p (Keeps-mark_object c sc object out))
  check-Keeps c sc (field_access object field) s v = check-Keeps c sc object s v
  check-Keeps c sc (index_expr collection ty index) s v = rw v.0 (
      Ensures-bind (check-Keeps c sc collection s v.1)
        λ out p. Ensures-weaken (check-Keeps c sc index out v.2) λ t q. Keeps-Then p q)
  check-Keeps c sc (multi_index_expr collection indices) s v = rw v (holds (Keeps-skip s))
  check-Keeps c sc (call_expr callee args) s v =
      call-Keeps c sc callee args s v.0 v.1 (args-Keeps c sc v.0 args s s v.2)
  check-Keeps c sc (lazy_binary left right) s v =
      Ensures-bind (check-Keeps c sc left s v.0) λ out p.
        Ensures-weaken
          (Ensures-both (check-Keeps c sc right out v.1) (reads_only_lem c sc right out v.2))
          λ t q. Keeps-lazy p q.0 q.1
  check-Keeps c sc (jump_stmt to) s v = holds (Keeps-jump to s)
  check-Keeps c sc (return_expr value) s v =
      Ensures-weaken (check-Keeps c sc value s v) λ t p. Keeps-Then p (Keeps-jump to_caller t)
  check-Keeps c sc (other_node name children) s v = children-Keeps c sc children s v

  children-Keeps :
      (c : Checker) (sc : ℤ) (ns : Nodes) (s : AssignedSet)
      → CoveredAll c sc ns
      → Ensures (Keeps s (RunsAll c sc ns)) (check_children c sc ns s)
  children-Keeps c sc no_nodes s v = holds (Keeps-skip s)
  children-Keeps c sc (and_node x xs) s v =
      Ensures-bind (check-Keeps c sc x s v.0)
        λ out p. Ensures-weaken (children-Keeps c sc xs out v.1) λ t q. Keeps-Then p q

  stmts-Keeps :
      (c : Checker) (sc : ℤ) (ns : Nodes) (s : AssignedSet)
      → CoveredAll c sc ns
      → Ensures (Keeps s (RunsAll c sc ns)) (report (check_stmts c sc ns s))
  stmts-Keeps c sc no_nodes s v = holds (Keeps-skip s)
  stmts-Keeps c sc (and_node x xs) s v =
      next_stmt-Keeps s (λ s'. check_stmts c sc xs s') (check-Keeps c sc x s v.0)
        (λ s'. stmts-Keeps c sc xs s' v.1)

  args-Keeps :
      (c : Checker) (sc : ℤ) (ps : List Param) (ns : Nodes) (s result : AssignedSet)
      → CoveredArgs c sc ps ns
      → Ensures (PassesArgs c sc ps ns s result) (report (check_args c sc ps ns s result))
  args-Keeps c sc [] ns s result v = holds (no_params c sc ns s result)
  args-Keeps c sc (p ∷ ps) no_nodes s result v = few_args c sc p ps s result
  args-Keeps c sc (p ∷ ps) (and_node a rest) s result v =
      one_arg c sc p ps a rest s result v.0 (λ h. check-Keeps c sc a s h)
        (λ r. args-Keeps c sc ps rest s r v.1)

-- In a program that passes the check, in the part of the language that it covers, no run reads a
-- variable that has no value: neither the statements of the root, from the globals on, nor the body
-- of a function, from the globals and its parameters on.
pub check_program_sound :
    (r : Resolver) (root : Node) (name : String) (out from : AssignedSet)
    → Covered (new_checker r) (pos 0) root
    → check_program r root ≡ ok out
    → Within (new_checker r).global_assigned from
    → ¬ Runs (new_checker r) (pos 0) root from (bad_read name)
unfolding check_program
check_program_sound r root name out from v e w bad =
    let c = new_checker r in
    let kept = Ensures-result (check-Keeps c (pos 0) root c.global_assigned v) e in
    kept.runs from (bad_read name) w bad

-- What the check returns has a value after every run that is done: for an expression in the part of
-- the language that it covers, in any scope, and from any set with the variables that had a value.
pub check-IsGood :
    (c : Checker) (sc : ℤ) (n : Node) (s t from out : AssignedSet)
    → Covered c sc n
    → check c sc n s ≡ ok t
    → Within s from
    → Runs c sc n from (done out)
    → Within t out
check-IsGood c sc n s t from out v e w r =
    (Ensures-result (check-Keeps c sc n s v) e).runs from (done out) w r
