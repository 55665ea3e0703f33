-- ===== src/Semantics/Assignment/Parts.antt =====
-- What the check promises of the ends of its cases: jumps, writes, branches and arguments.
use qumir.Prelude.{
  ℕ, ℤ, String, Bool, true, false, ◌≡◌, refl, inl, inr, ◌⊎◌, some, List, ◌∷◌, Option-cases,
  if◌then◌else◌,
}
use qumir.Semantics.Nodes.{Node, Nodes, Param, Jump, null_node, and_node, is_null, ident_name}
use qumir.Semantics.Assignment.{
  Checker, AssignedSet, Checked, CheckError, ok, err, fault, add, union, mark, mark_object,
  symbol_id, passing, by_array, in_or_inout, out_only, out_argument,
}
use qumir.Semantics.Assignment.Check.{join}
use qumir.Semantics.Assignment.Sets.{
  Within, Within-refl, Within-trans, Within-add, add_mono, union-Within, Within-union_left,
}
use qumir.Semantics.Assignment.Runs.{
  Run, Runs, RunsArgs, done, jumped, skip, Then, Either, write_outs, write,
}
use qumir.Semantics.Assignment.Keeps.{
  Ensures, holds, Keeps, Keeps-skip, Keeps-Then, Keeps-weaken, Keeps-Either, Keeps-write,
}

pub is_null→eq : (n : Node) → is_null n ≡ true → n ≡ null_node
unfolding is_null
is_null→eq null_node h = refl
is_null→eq _ h = cc

pub Checked-cases {ℓ} :
    {A : Type ℓ} (r : Checked A)
    → ((a : A) × (r ≡ ok a)) ⊎ (((e : CheckError) × (r ≡ err e)) ⊎ (r ≡ fault))
Checked-cases (ok a) = inl (a, refl)
Checked-cases (err e) = inr (inl (e, refl))
Checked-cases fault = inr (inr refl)

pub Keeps-jump : (to : Jump) (s : AssignedSet) → Keeps s (λ before o. o ≡ jumped to before) s
Keeps-jump to s = record { grows = Within-refl s; runs = λ from o w r. rw r w }

-- The end of an `if`: without an `else`, what was assigned before it.
pub Keeps-if :
    {s after t u : AssignedSet} {cond first second : Run} (no_else : Bool)
    → Keeps s cond after
    → Keeps after first t
    → Keeps after second u
    → Keeps s (Then cond (Either first second)) (join no_else s t u)
Keeps-if {s} true p q r =
    let whole = Keeps-Then p (Keeps-Either q r) in Keeps-weaken whole (Within-refl s) whole.grows
Keeps-if false p q r = Keeps-Then p (Keeps-Either q r)

-- A write to a field of a variable adds a variable or none.
mark_object-cases :
    (c : Checker) (sc : ℤ) (object : Node)
    → ((s : AssignedSet) → mark_object c sc object s ≡ s)
      ⊎ ((id : ℕ) × ((s : AssignedSet) → mark_object c sc object s ≡ add id s))
unfolding mark_object
mark_object-cases c sc object = elim (Option-cases (ident_name object)) [
  | inl e ↦ inl (λ s. rw (mark_object, e) refl)
  | inr (name, e) ↦ elim (Checked-cases (symbol_id c name sc)) [
    | inl (id, q) ↦ inr (id, λ s. rw (mark_object, e, q) refl)
    | inr (inl (x, q)) ↦ inl (λ s. rw (mark_object, e, q) refl)
    | inr (inr q) ↦ inl (λ s. rw (mark_object, e, q) refl)
  ]
]

pub Keeps-mark_object :
    (c : Checker) (sc : ℤ) (object : Node) (s : AssignedSet)
    → Keeps s (λ before o. o ≡ done (mark_object c sc object before)) (mark_object c sc object s)
Keeps-mark_object c sc object s = elim (mark_object-cases c sc object) [
  | inl e ↦ record { grows = rw (e s) (Within-refl s); runs = λ from o w r. rw (r, e s, e from) w }
  | inr (id, e) ↦ record {
    grows = rw (e s) (Within-add id s);
    runs = λ from o w r. rw (r, e s, e from) (add_mono id w);
  }
]

-- A declaration of a variable: without a value, nothing is assigned.
pub Keeps-declared :
    (c : Checker) (sc : ℤ) (name : String) (s : AssignedSet) (skipped : Bool)
    → Ensures
        (Keeps s (if skipped then skip else (λ before o. o ≡ write c sc name before)))
        (if skipped then ok s else mark c sc name s)
Keeps-declared c sc name s true = holds (Keeps-skip s)
Keeps-declared c sc name s false = Keeps-write c sc name s

-- A statement of a block.
pub Keeps-union : {s t : AssignedSet} {part : Run} → Keeps s part t → Keeps s part (union s t)
Keeps-union {s} {t} p =
    Keeps-weaken p (Within-union_left s t) (union-Within p.grows (Within-refl t))

-- What the arguments of a call read, and what it writes.
pub record PassesArgs (c : Checker) (sc : ℤ) (ps : List Param) (args : Nodes)
    (s result after : AssignedSet) : Type 0 where
  pub grows : Within result after
  pub reads : Keeps s (RunsArgs c sc ps args) s
  pub writes :
      (from : AssignedSet) → Within result from → Within after (write_outs c sc ps args from)

-- The three ways to pass an argument.
pub skip_arg :
    (c : Checker) (sc : ℤ) (p : Param) (ps : List Param) (a : Node) (rest : Nodes)
    (s result after : AssignedSet) (n : String)
    → passing p ≡ by_array
    → ident_name a ≡ some n
    → PassesArgs c sc ps rest s result after
    → PassesArgs c sc (p ∷ ps) (and_node a rest) s result after
unfolding Runs write_outs
skip_arg c sc p ps a rest s result after n e q h = record {
  grows = h.grows;
  reads = rw (e, q) (Keeps-Then (Keeps-skip s) h.reads);
  writes = λ from w. rw (write_outs, e) (h.writes from w);
}

pub value_arg :
    (c : Checker) (sc : ℤ) (p : Param) (ps : List Param) (a : Node) (rest : Nodes)
    (s read result after : AssignedSet)
    → passing p ≡ in_or_inout
    → Keeps s (Runs c sc a) read
    → PassesArgs c sc ps rest s result after
    → PassesArgs c sc (p ∷ ps) (and_node a rest) s result after
unfolding Runs write_outs
value_arg c sc p ps a rest s read result after e k h = record {
  grows = h.grows;
  reads = rw e (Keeps-Then (Keeps-weaken k (Within-refl s) k.grows) h.reads);
  writes = λ from w. rw (write_outs, e) (h.writes from w);
}

pub out_arg :
    (c : Checker) (sc : ℤ) (p : Param) (ps : List Param) (a : Node) (rest : Nodes)
    (s result after : AssignedSet) (n : String) (id : ℕ)
    → passing p ≡ out_only
    → ident_name a ≡ some n
    → symbol_id c n sc ≡ ok id
    → PassesArgs c sc ps rest s (add id result) after
    → PassesArgs c sc (p ∷ ps) (and_node a rest) s result after
unfolding Runs write_outs out_argument
out_arg c sc p ps a rest s result after n id e q i h = record {
  grows = Within-trans (Within-add id result) h.grows;
  reads = rw (e, q) (Keeps-Then (Keeps-skip s) h.reads);
  writes = λ from w.
      rw (write_outs, e, out_argument, q, mark, i) (h.writes (add id from) (add_mono id w));
}
