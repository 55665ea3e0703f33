-- ===== src/Semantics/Assignment/Arguments.antt =====
-- What the check promises of the arguments of a call.
use qumir.Prelude.{
  ℕ, ℤ, ◌≡◌, refl, ap, subst, inl, inr, ◌⊎◌, arith, Option, some, none, List, [], ◌∷◌, Bool-cases,
}
use qumir.Semantics.Nodes.{Node, Nodes, Param, call_expr, no_nodes, and_node, ident_name}
use qumir.Semantics.Assignment.{
  Checker, AssignedSet, Checked, ok, err, fault, ◌>>=◌, add, mark, symbol_id, passing, Passing,
  by_array, in_or_inout, out_only, out_argument, only_arrays,
}
use qumir.Semantics.Assignment.Check.{
  report, Collected, check, check_args, next_arg, callee_found, take_args,
}
use qumir.Semantics.Assignment.Sets.{Within-refl}
use qumir.Semantics.Assignment.Runs.{
  Run, Runs, RunsAll, RunsArgs, done, Then, write_outs, callee_params,
}
use qumir.Semantics.Assignment.Keeps.{
  Ensures, holds, has_error, has_fault, Ensures-collect, Keeps, Keeps-skip, Keeps-Then,
}
use qumir.Semantics.Assignment.Covered.{Covered, CoveredArg}
use qumir.Semantics.Assignment.Parts.{PassesArgs, skip_arg, value_arg, out_arg}

Passing-cases : (m : Passing) → (m ≡ by_array) ⊎ ((m ≡ in_or_inout) ⊎ (m ≡ out_only))
Passing-cases by_array = inl refl
Passing-cases in_or_inout = inr (inl refl)
Passing-cases out_only = inr (inr refl)

pub Ensures-weaken {ℓ κ κ'} :
    {A : Type ℓ} {P : A → Type κ} {Q : A → Type κ'} {r : Checked A}
    → Ensures P r
    → ((a : A) → P a → Q a)
    → Ensures Q r
Ensures-weaken (holds {a} h) f = holds (f a h)
Ensures-weaken has_error f = has_error
Ensures-weaken has_fault f = has_fault

-- An argument that is read, then the others.
next_value :
    {P Q : AssignedSet → Type 0} {r : Checked AssignedSet} (result : AssignedSet)
    (others : AssignedSet → Collected)
    → Ensures P r
    → ((read : AssignedSet) → P read → Ensures Q (report (others result)))
    → Ensures Q (report (next_arg (r >>= λ _. ok result) result others))
next_value result others (holds {a} h) k = k a h
next_value result others (has_error {e}) k = Ensures-collect e (others result)
next_value result others has_fault k = has_fault

-- An argument that is written, then the others.
next_out :
    {Q : AssignedSet → Type 0} (r : Checked ℕ) (result : AssignedSet)
    (others : AssignedSet → Collected)
    → ((id : ℕ) → r ≡ ok id → Ensures Q (report (others (add id result))))
    → Ensures Q (report (next_arg (r >>= λ id. ok (add id result)) result others))
next_out (ok id) result others k = k id refl
next_out (err e) result others k = Ensures-collect e (others result)
next_out fault result others k = has_fault

-- The arguments from one on.
pub one_arg :
    (c : Checker) (sc : ℤ) (p : Param) (ps : List Param) (a : Node) (rest : Nodes)
    (s result : AssignedSet)
    → CoveredArg (passing p) (Covered c sc a) (ident_name a)
    → (Covered c sc a → Ensures (Keeps s (Runs c sc a)) (check c sc a s))
    → ((result' : AssignedSet)
        → Ensures (PassesArgs c sc ps rest s result') (report (check_args c sc ps rest s result')))
    → Ensures
        (PassesArgs c sc (p ∷ ps) (and_node a rest) s result)
        (report (check_args c sc (p ∷ ps) (and_node a rest) s result))
unfolding check out_argument mark
one_arg c sc p ps a rest s result cover own others = elim (Passing-cases (passing p)) [
  | inl e ↦
      let (n, q) = subst (λ m. CoveredArg m (Covered c sc a) (ident_name a)) e cover in
      rw e (Ensures-weaken (others result) (λ t h. skip_arg c sc p ps a rest s result t n e q h))
  | inr (inl e) ↦
      let covered = subst (λ m. CoveredArg m (Covered c sc a) (ident_name a)) e cover in
      rw e (
        next_value result (λ r. check_args c sc ps rest s r) (own covered)
          (λ read k.
            Ensures-weaken (others result)
              (λ t h. value_arg c sc p ps a rest s read result t e k h)))
  | inr (inr e) ↦
      let (n, q) = subst (λ m. CoveredArg m (Covered c sc a) (ident_name a)) e cover in
      rw (e, check_args, out_argument, q)
        (next_out (symbol_id c n sc) result (λ r. check_args c sc ps rest s r)
          (λ id i.
            Ensures-weaken (others (add id result))
              (λ t h. out_arg c sc p ps a rest s result t n id e q i h)))
]

pub no_args :
    (c : Checker) (sc : ℤ) (ps : List Param) (s result : AssignedSet)
    → PassesArgs c sc ps no_nodes s result result
unfolding Runs write_outs
no_args c sc [] s result = record {
  grows = Within-refl result;
  reads = Keeps-skip s;
  writes = λ from w. w;
}
no_args c sc (p ∷ ps) s result = record {
  grows = Within-refl result;
  reads = Keeps-skip s;
  writes = λ from w. w;
}

pub no_params :
    (c : Checker) (sc : ℤ) (args : Nodes) (s result : AssignedSet)
    → PassesArgs c sc [] args s result result
unfolding Runs write_outs
no_params c sc no_nodes s result = record {
  grows = Within-refl result;
  reads = Keeps-skip s;
  writes = λ from w. w;
}
no_params c sc (and_node a rest) s result = record {
  grows = Within-refl result;
  reads = Keeps-skip s;
  writes = λ from w. w;
}

-- Parameters without arguments.
pub few_args :
    (c : Checker) (sc : ℤ) (p : Param) (ps : List Param) (s result : AssignedSet)
    → Ensures
        (PassesArgs c sc (p ∷ ps) no_nodes s result)
        (report (check_args c sc (p ∷ ps) no_nodes s result))
unfolding check Runs write_outs
few_args c sc p ps s result = elim (Bool-cases (only_arrays (p ∷ ps))) [
  | inl e ↦ rw (check_args, e) (holds (no_args c sc (p ∷ ps) s result))
  | inr e ↦ rw (check_args, e) has_fault
]

-- A call of a function that is found.
callee_found_lem :
    (c : Checker) (sc : ℤ) (callee : Node) (ps : List Param)
    → callee_params c sc callee ≡ some ps
    → callee_found c sc callee ≡ ok (some ps)
unfolding callee_params
callee_found_lem c sc callee ps h = ground (arith, h)

runs_call :
    (c : Checker) (sc : ℤ) (callee : Node) (args : Nodes) (ps : List Param)
    → callee_params c sc callee ≡ some ps
    → Runs c sc (call_expr callee args)
      ≡ Then (RunsArgs c sc ps args) (λ before o. o ≡ done (write_outs c sc ps args before))
unfolding Runs
runs_call c sc callee args ps e =
    ap
      (λ (found : Option (List Param)). elim found as (λ _. Run) [
        | none ↦ Then (Runs c sc callee) (RunsAll c sc args)
        | some qs ↦
            Then (RunsArgs c sc qs args) (λ before o. o ≡ done (write_outs c sc qs args before))
      ])
      e

check_call :
    (c : Checker) (sc : ℤ) (callee : Node) (args : Nodes) (s : AssignedSet) (ps : List Param)
    → callee_params c sc callee ≡ some ps
    → check c sc (call_expr callee args) s ≡ report (check_args c sc ps args s s)
unfolding check
check_call c sc callee args s ps e =
    ap
      (λ (found : Checked (Option (List Param))).
        found >>= λ o. take_args o s (λ qs. check_args c sc qs args s s))
      (callee_found_lem c sc callee ps e)

pub call-Keeps :
    (c : Checker) (sc : ℤ) (callee : Node) (args : Nodes) (s : AssignedSet) (ps : List Param)
    → callee_params c sc callee ≡ some ps
    → Ensures (PassesArgs c sc ps args s s) (report (check_args c sc ps args s s))
    → Ensures (Keeps s (Runs c sc (call_expr callee args))) (check c sc (call_expr callee args) s)
call-Keeps c sc callee args s ps e h =
    rw (runs_call c sc callee args ps e, check_call c sc callee args s ps e)
      (Ensures-weaken h (λ t p.
        Keeps-Then p.reads
          (record { grows = p.grows; runs = λ from o w r. rw r (p.writes from w) })))
