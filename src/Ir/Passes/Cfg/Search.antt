-- ===== src/Ir/Passes/Cfg/Search.antt =====
-- The search of `ComputeRPO`, qumir/ir/passes/analysis/cfg.cpp: what it adds to its state.
use native.Mathlib.Decide.{dec_lt}
use mathlib.Core.List.{append_assoc}
use qumir.Prelude.{
  ℕ, zero, suc, ◌+◌, ◌<◌, ◌≤◌, ℤ, true, false, ◌||◌, Option, some, List, [], ◌∷◌, ◌++◌, ◌>>=◌, ◌≡◌,
  refl, sym, ap, ◌∙◌, arith, ◌==◌, Eq-nat, nat_eq_iff, get_elem?, All, if◌then◌else◌, Option-cases,
  Bool-cases, inl, inr,
}
use qumir.Ir.Instr.{Block, index_of}
use qumir.Ir.Passes.Cfg.{contains, Visit, visit_all, dfs}

contains-append : (x : ℕ) (a b : List ℕ) → contains x (a ++ b) ≡ (contains x a || contains x b)
contains-append x [] b = refl
contains-append x (y ∷ a) b = ground (arith, contains-append x a b)

abbrev pub Distinct : List ℕ → Type 0
Distinct [] = Unit
Distinct (x ∷ xs) = (contains x xs ≡ false) × Distinct xs

Distinct-append :
    (a b : List ℕ)
    → Distinct a
    → Distinct b
    → ((x : ℕ) → contains x a ≡ true → contains x b ≡ false)
    → Distinct (a ++ b)
Distinct-append [] b da db h = db
Distinct-append (x ∷ a) b da db h = (
  ground (arith, contains-append x a b, h x, nat_eq_iff x x),
  Distinct-append a b da.1 db (λ y c. h y (ground arith)),
)

-- The labels below `n` that are not seen.
abbrev pub unseen : ℕ → List ℕ → ℕ
unseen zero s = 0
unseen (suc n) s = (if contains n s then 0 else 1) + unseen n s

unseen-le :
    (n : ℕ) (s s' : List ℕ)
    → ((x : ℕ) → contains x s ≡ true → contains x s' ≡ true)
    → unseen n s' ≤ unseen n s
unseen-le zero s s' h = omega arith
unseen-le (suc n) s s' h = ground (arith, h n, unseen-le n s s' h)

unseen_beyond : (n l : ℕ) (s : List ℕ) → n ≤ l → unseen n (l ∷ s) ≡ unseen n s
unseen_beyond zero l s h = refl
unseen_beyond (suc n) l s h = ground (arith, unseen_beyond n l s (omega arith), nat_eq_iff l n)

pub unseen_cons :
    (n l : ℕ) (s : List ℕ) → l < n → contains l s ≡ false → suc (unseen n (l ∷ s)) ≡ unseen n s
unseen_cons zero l s h c = absurd (omega arith)
unseen_cons (suc n) l s h c = elim (dec_lt l n) [
  | yes lt ↦ ground (arith, unseen_cons n l s lt c, nat_eq_iff l n)
  | no ge ↦
      let e : l ≡ n = omega arith in
      ground (arith, e, unseen_beyond n l s (omega arith), nat_eq_iff l n)
]

module _ (label2idx : List ℤ) (bs : List Block) where
  -- The successors of the block with a label.
  abbrev pub successors_of : ℕ → Option (List ℕ)
  successors_of l = do i ← index_of label2idx l; b ← get_elem? bs i; some b.succ

  -- Each label below `n` has a block, whose successors are such labels.
  abbrev pub IsLinked : ℕ → Type 0
  IsLinked n = (l : ℕ) → l < n → (s : List ℕ) × (successors_of l ≡ some s) × All (λ x. x < n) s

  -- What the search adds between two states.
  pub record Grown (v v' : Visit) : Type 0 where
    pub new : List ℕ
    pub order : v'.rpo ≡ new ++ v.rpo
    pub seen : (x : ℕ) → contains x v'.seen ≡ (contains x new || contains x v.seen)
    pub fresh : (x : ℕ) → contains x new ≡ true → contains x v.seen ≡ false
    pub distinct : Distinct new
    pub closed :
        (x y : ℕ) (s : List ℕ)
        → contains x new ≡ true
        → successors_of x ≡ some s
        → contains y s ≡ true
        → contains y v'.seen ≡ true

  Grown-refl : (v : Visit) → Grown v v
  Grown-refl v = record {
    new = [];
    order = refl;
    seen = λ x. refl;
    fresh = λ x h. absurd (ground arith);
    distinct = tt;
    closed = λ x y s h. absurd (ground arith);
  }

  Grown-trans : (u v w : Visit) → Grown u v → Grown v w → Grown u w
  Grown-trans u v w g h = record {
    new = h.new ++ g.new;
    order = h.order ∙ ap (λ z. h.new ++ z) g.order ∙ sym (append_assoc h.new g.new u.rpo);
    seen = λ x. ground (arith, contains-append x h.new g.new, g.seen x, h.seen x);
    fresh = λ x c. ground (arith, contains-append x h.new g.new, g.seen x, g.fresh x, h.fresh x, c);
    distinct =
        Distinct-append h.new g.new h.distinct g.distinct
          (λ x c. ground (arith, g.seen x, h.fresh x c));
    closed = λ x y s c e m. elim (Bool-cases (contains x h.new)) [
      | inl here ↦ h.closed x y s here e m
      | inr other ↦
          let old = g.closed x y s (ground (arith, contains-append x h.new g.new, c)) e m in
          ground (arith, h.seen y, old)
    ];
  }

  -- A search that ends in a state with the label seen.
  abbrev pub Reaches : ℕ → Visit → Option Visit → Type 0
  Reaches l v r = (v' : Visit) × (r ≡ some v') × Grown v v' × (contains l v'.seen ≡ true)

  -- The search from any unseen label below `n` ends, with `fuel` above the number of unseen labels.
  abbrev pub IsSearch : ℕ → ℕ → Type 0
  IsSearch n fuel =
      (l : ℕ) (v : Visit)
      → l < n
      → contains l v.seen ≡ false
      → unseen n v.seen < fuel
      → Reaches l v (dfs label2idx bs fuel l v)

  Grown-unseen : (n : ℕ) (u v : Visit) → Grown u v → unseen n v.seen ≤ unseen n u.seen
  Grown-unseen n u v g = unseen-le n u.seen v.seen (λ x c. ground (arith, g.seen x, c))

  pub visit_all_lem :
      (n fuel : ℕ) (ls : List ℕ) (v : Visit)
      → IsSearch n fuel
      → All (λ x. x < n) ls
      → unseen n v.seen < fuel
      → (w : Visit) × (visit_all (dfs label2idx bs fuel) ls v ≡ some w)
        × Grown v w
        × ((y : ℕ) → contains y ls ≡ true → contains y w.seen ≡ true)
  unfolding visit_all
  visit_all_lem n fuel [] v dive below enough =
      (v, refl, Grown-refl v, λ y c. absurd (ground arith))
  visit_all_lem n fuel (l ∷ ls) v dive below enough = elim (Bool-cases (contains l v.seen)) [
    | inl old ↦
        let (w, e, g, all) = visit_all_lem n fuel ls v dive below.1 enough in
        (w, rw (old, e) refl, g, λ y c. ground (arith, all y, g.seen y, nat_eq_iff l y, old, c))
    | inr new ↦
        let (u, e, g, seen) = dive l v below.0 new enough in
        let less = Grown-unseen n v u g in
        let (w, e', g', all) = visit_all_lem n fuel ls u dive below.1 (omega arith) in
        (
          w,
          rw (new, e, e') refl,
          Grown-trans v u w g g',
          λ y c. ground (arith, all y, g'.seen y, nat_eq_iff l y, seen, c),
        )
  ]

  -- The label itself, in front of what the search from its successors added.
  pub Grown-label :
      (l : ℕ) (s : List ℕ) (v w : Visit)
      → contains l v.seen ≡ false
      → successors_of l ≡ some s
      → ((y : ℕ) → contains y s ≡ true → contains y w.seen ≡ true)
      → Grown (record v { seen = l ∷ v.seen }) w
      → Grown v (record w { rpo = l ∷ w.rpo })
  Grown-label l s v w new e all g = record {
    new = l ∷ g.new;
    order = ap (λ z. l ∷ z) g.order;
    seen = λ x. ground (arith, g.seen x);
    fresh = λ x c. ground (arith, g.fresh x, nat_eq_iff l x, new, c);
    distinct = (ground (arith, g.fresh l, nat_eq_iff l l), g.distinct);
    closed = λ x y s' c e' m. elim (Bool-cases (l == x)) [
      | inl same ↦
          let q : l ≡ x = (nat_eq_iff l x).0 same in
          let q' : s ≡ s' = cc (e, e', q) in all y (rw q' m)
      | inr other ↦ g.closed x y s' (ground arith) e' m
    ];
  }

  Grown-seen_label :
      (l : ℕ) (v w : Visit) → Grown (record v { seen = l ∷ v.seen }) w → contains l w.seen ≡ true
  Grown-seen_label l v w g = ground (arith, g.seen l, nat_eq_iff l l)

  pub dfs_step :
      (fuel l : ℕ) (s : List ℕ) (v w : Visit)
      → successors_of l ≡ some s
      → visit_all (dfs label2idx bs fuel) s (record v { seen = l ∷ v.seen }) ≡ some w
      → dfs label2idx bs (suc fuel) l v ≡ some (record w { rpo = l ∷ w.rpo })
  unfolding dfs
  dfs_step fuel l s v w e h = elim (Option-cases (index_of label2idx l)) [
    | inl none_here ↦ absurd (ground arith)
    | inr (i, at) ↦ elim (Option-cases (get_elem? bs i)) [
      | inl none_here ↦ absurd (ground arith)
      | inr (b, found) ↦
          let q : b.succ ≡ s = ground (arith, e, at, found) in
          let h' : visit_all (dfs label2idx bs fuel) b.succ (record v { seen = l ∷ v.seen })
              ≡ some w =
            rw q h in
          rw (at, found, h') refl
    ]
  ]

  pub dfs_lem : (n fuel : ℕ) → IsLinked n → IsSearch n fuel
  dfs_lem n zero linked l v lt new enough = absurd (omega arith)
  dfs_lem n (suc fuel) linked l v lt new enough =
      let (s, e, below) = linked l lt in
      let less = unseen_cons n l v.seen lt new in
      let (w, q, g, all) =
        visit_all_lem n fuel s (record v { seen = l ∷ v.seen }) (dfs_lem n fuel linked) below
          (omega arith) in
      (
        record w { rpo = l ∷ w.rpo },
        dfs_step fuel l s v w e q,
        Grown-label l s v w new e all g,
        Grown-seen_label l v w g,
      )
