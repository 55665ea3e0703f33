-- ===== src/Semantics/Assignment/Keeps.antt =====
-- What the check promises of the runs of a part of the program, and the rules for putting parts together.
use qumir.Prelude.{
  ℕ, String, ℤ, false, not, ◌&&◌, ◌≡◌, refl, subst, inl, inr, arith, some, none, Bool-cases,
}
use qumir.Semantics.Nodes.{to_next}
use qumir.Semantics.Assignment.{
  Checker, AssignedSet, Checked, ok, err, fault, CheckError, ◌>>=◌, has, add, intersect, mark,
  symbol_id, check_ident, is_var,
}
use qumir.Semantics.Assignment.Check.{Collected, collect, report}
use qumir.Semantics.Assignment.Sets.{
  Within, Within-refl, Within-trans, Within-add, add_mono, intersect-Within_left,
  intersect-Within_right, Within-intersect,
}
use qumir.Semantics.Assignment.Runs.{
  Run, Outcome, done, jumped, bad_read, skip, Then, goes_on, jumps, fails, Loop, ends, test_fails,
  goes_round, breaks, continues, returns, round_fails, ToTest, reaches, cut_short, Either, read,
  write,
}

-- A result, where there is one, has the property.
pub data Ensures {ℓ κ} {A : Type ℓ} (P : A → Type κ) : Checked A → Type (ℓ ⊔ κ) where
  holds : {a : A} → P a → Ensures P (ok a)
  has_error : {e : CheckError} → Ensures P (err e)
  has_fault : Ensures P fault

module _ {ℓ κ ℓ' κ'} {A : Type ℓ} {P : A → Type κ} {B : Type ℓ'} {Q : B → Type κ'} where
  pub Ensures-bind :
      {r : Checked A} {f : A → Checked B}
      → Ensures P r
      → ((a : A) → P a → Ensures Q (f a))
      → Ensures Q (r >>= f)
  Ensures-bind (holds {a} h) k = k a h
  Ensures-bind has_error k = has_error
  Ensures-bind has_fault k = has_fault

pub Ensures-from {ℓ ℓ' κ'} :
    {A : Type ℓ} {B : Type ℓ'} {Q : B → Type κ'} (r : Checked A) {f : A → Checked B}
    → ((a : A) → r ≡ ok a → Ensures Q (f a))
    → Ensures Q (r >>= f)
Ensures-from (ok a) k = k a refl
Ensures-from (err e) k = has_error
Ensures-from fault k = has_fault

pub Ensures-result {ℓ κ} :
    {A : Type ℓ} {P : A → Type κ} {r : Checked A} {a : A} → Ensures P r → r ≡ ok a → P a
Ensures-result {P} {a} (holds {a = b} h) e = let q : b ≡ a = cc in subst P q h
Ensures-result has_error e = cc
Ensures-result has_fault e = cc

pub Ensures-collect {κ} :
    {P : AssignedSet → Type κ} (e : CheckError) (r : Collected) → Ensures P (report (collect e r))
Ensures-collect e none = has_fault
Ensures-collect e (some (s, es)) = has_error

-- An outcome with what `after` has, or with what `before` has where it jumps; no bad read.
abbrev pub IsGood : AssignedSet → AssignedSet → Outcome → Type 0
IsGood before after (done out) = Within after out
IsGood before after (jumped to out) = Within before out
IsGood before after (bad_read name) = ⊥

-- The runs of a part keep what has a value before it, and add what is in `after`.
pub record Keeps (before : AssignedSet) (part : Run) (after : AssignedSet) : Type 0 where
  pub grows : Within before after
  pub runs :
      (from : AssignedSet) (o : Outcome) → Within before from → part from o → IsGood before after o

pub Keeps-skip : (s : AssignedSet) → Keeps s skip s
Keeps-skip s = record { grows = Within-refl s; runs = λ from o w e. rw e w }

earlier-IsGood :
    {s t : AssignedSet} (u : AssignedSet) (o : Outcome) → Within s t → IsGood t u o → IsGood s u o
earlier-IsGood u (done out) w h = h
earlier-IsGood u (jumped to out) w h = Within-trans w h
earlier-IsGood u (bad_read name) w h = h

Then-IsGood :
    {s t u : AssignedSet} {first second : Run}
    → Keeps s first t
    → Keeps t second u
    → (from : AssignedSet) (o : Outcome) → Within s from
    → Then first second from o
    → IsGood s u o
Then-IsGood p q from o w (goes_on between r1 r2) =
    earlier-IsGood _ o p.grows (q.runs between o (p.runs from (done between) w r1) r2)
Then-IsGood p q from o w (jumps to out r) = p.runs from (jumped to out) w r
Then-IsGood p q from o w (fails name r) = absurd (p.runs from (bad_read name) w r)

pub Keeps-Then :
    {s t u : AssignedSet} {first second : Run}
    → Keeps s first t
    → Keeps t second u
    → Keeps s (Then first second) u
Keeps-Then p q = record { grows = Within-trans p.grows q.grows; runs = Then-IsGood p q }

weaken-IsGood :
    (s : AssignedSet) {t u : AssignedSet} (o : Outcome) → Within u t → IsGood s t o → IsGood s u o
weaken-IsGood s (done out) w h = Within-trans w h
weaken-IsGood s (jumped to out) w h = h
weaken-IsGood s (bad_read name) w h = h

pub Keeps-weaken :
    {s t u : AssignedSet} {part : Run} → Keeps s part t → Within s u → Within u t → Keeps s part u
Keeps-weaken p grows w = record {
  grows = grows;
  runs = λ from o h r. weaken-IsGood _ o w (p.runs from o h r);
}

pub Keeps-Either :
    {s t u : AssignedSet} {first second : Run}
    → Keeps s first t
    → Keeps s second u
    → Keeps s (Either first second) (intersect t u)
Keeps-Either {s} {t} {u} p q = record {
  grows = Within-intersect p.grows q.grows;
  runs = λ from o w r. elim r [
    | inl r1 ↦ weaken-IsGood _ o (intersect-Within_left t u) (p.runs from o w r1)
    | inr r2 ↦ weaken-IsGood _ o (intersect-Within_right t u) (q.runs from o w r2)
  ];
}

Loop-IsGood :
    {s t u : AssignedSet} {test round : Run}
    → Keeps s test t
    → Keeps s round u
    → {from : AssignedSet} {o : Outcome} → Loop test round from o
    → Within s from
    → IsGood s s o
Loop-IsGood p q (ends r) w = Within-trans p.grows (p.runs _ _ w r)
Loop-IsGood p q (test_fails r) w = absurd (p.runs _ _ w r)
Loop-IsGood p q (goes_round r more) w = Loop-IsGood p q more (Within-trans q.grows (q.runs _ _ w r))
Loop-IsGood p q (breaks r) w = q.runs _ _ w r
Loop-IsGood p q (continues r more) w = Loop-IsGood p q more (q.runs _ _ w r)
Loop-IsGood p q (returns r) w = q.runs _ _ w r
Loop-IsGood p q (round_fails r) w = absurd (q.runs _ _ w r)

pub Keeps-Loop :
    {s t u : AssignedSet} {test round : Run}
    → Keeps s test t
    → Keeps s round u
    → Keeps s (Loop test round) s
Keeps-Loop {s} p q = record { grows = Within-refl s; runs = λ from o w r. Loop-IsGood p q r w }

-- No run of a part ends in `continue`.
abbrev pub NeverContinues : Run → Type 0
NeverContinues part = (from out : AssignedSet) → ¬ part from (jumped to_next out)

ToTest-IsGood :
    {s t : AssignedSet} {body : Run}
    → Keeps s body t
    → NeverContinues body
    → (from : AssignedSet) (o : Outcome) → Within s from
    → ToTest body from o
    → IsGood s t o
ToTest-IsGood p never from o w (reaches r) = p.runs from o w r
ToTest-IsGood p never from o w (cut_short out r) = absurd (never from out r)

pub Keeps-ToTest :
    {s t : AssignedSet} {body : Run}
    → Keeps s body t
    → NeverContinues body
    → Keeps s (ToTest body) t
Keeps-ToTest p never = record { grows = p.grows; runs = ToTest-IsGood p never }

write_lem :
    (c : Checker) (sc : ℤ) (name : String) (s : AssignedSet) (id : ℕ)
    → symbol_id c name sc ≡ ok id
    → write c sc name s ≡ done (add id s)
unfolding write mark
write_lem c sc name s id e = rw (write, mark, e) refl

pub Keeps-write :
    (c : Checker) (sc : ℤ) (name : String) (s : AssignedSet)
    → Ensures (Keeps s (λ before o. o ≡ write c sc name before)) (mark c sc name s)
unfolding mark
Keeps-write c sc name s = Ensures-from (symbol_id c name sc) λ id e. holds (record {
  grows = Within-add id s;
  runs = λ from o w r. rw (r, write_lem c sc name from id e) (add_mono id w);
})

-- A read is good where the variable has a value.
read_lem :
    (c : Checker) (sc : ℤ) (name : String) (s from : AssignedSet) (id : ℕ)
    → symbol_id c name sc ≡ ok id
    → (is_var c id && not (has s id)) ≡ false
    → Within s from
    → read c sc name from ≡ done from
unfolding read
read_lem c sc name s from id e h w = rw (read, e) (ground (arith, w.apply id))

pub Keeps-read :
    (c : Checker) (sc : ℤ) (name : String) (s : AssignedSet)
    → Ensures (Keeps s (λ before o. o ≡ read c sc name before)) (check_ident c sc name s)
unfolding check_ident
Keeps-read c sc name s = Ensures-from (symbol_id c name sc) λ id e.
    elim (Bool-cases (is_var c id && not (has s id))) [
      | inl h ↦ rw h has_error
      | inr h ↦ rw h (
          holds (record {
            grows = Within-refl s;
            runs = λ from o w r. rw (r, read_lem c sc name s from id e h w) w;
          }))
    ]
