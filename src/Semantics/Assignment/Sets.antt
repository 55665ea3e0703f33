-- ===== src/Semantics/Assignment/Sets.antt =====
-- The sets of assigned variables by their members.
use qumir.Prelude.{
  ℕ, true, ◌&&◌, ◌||◌, ◌≡◌, refl, [], ◌∷◌, ◌==◌, Eq-nat, nat_eq_iff, Bool-cases, inl, inr, arith,
}
use qumir.Semantics.Assignment.{AssignedSet, has, add, both, intersect, union}

pub has-add : (i j : ℕ) (s : AssignedSet) → has (add i s) j ≡ (j == i || has s j)
has-add i j s = elim (Bool-cases (has s i)) [
  | inl old ↦ rw old (ground (arith, nat_eq_iff j i, old))
  | inr new ↦ rw new refl
]

has-both : (a b : AssignedSet) (j : ℕ) → has (both a b) j ≡ (has a j && has b j)
has-both [] b j = refl
has-both (i ∷ a) b j = elim (Bool-cases (has b i)) [
  | inl e ↦ rw (e, has-add i j (both a b), has-both a b j) (ground (arith, nat_eq_iff j i, e))
  | inr e ↦ rw (e, has-both a b j) (ground (arith, nat_eq_iff j i, e))
]

pub has-intersect : (a b : AssignedSet) (j : ℕ) → has (intersect a b) j ≡ (has a j && has b j)
unfolding intersect
has-intersect a b j = ground (arith, has-both a b j, has-both b a j)

pub has-union : (a b : AssignedSet) (j : ℕ) → has (union a b) j ≡ (has a j || has b j)
unfolding union
has-union a [] j = ground arith
has-union a (i ∷ b) j = ground (arith, has-union (add i a) b j, has-add i j a)

-- One set within another.
pub record Within (s t : AssignedSet) : Type 0 where
  pub apply : (i : ℕ) → has s i ≡ true → has t i ≡ true

pub Within-refl : (s : AssignedSet) → Within s s
Within-refl s = record { apply = λ i h. h }

pub Within-trans : {s t u : AssignedSet} → Within s t → Within t u → Within s u
Within-trans f g = record { apply = λ i h. g.apply i (f.apply i h) }

pub Within-add : (i : ℕ) (s : AssignedSet) → Within s (add i s)
Within-add i s = record { apply = λ j h. ground (arith, has-add i j s) }

pub add_mono : (i : ℕ) {s t : AssignedSet} → Within s t → Within (add i s) (add i t)
add_mono i {s} {t} f = record {
  apply = λ j h. ground (arith, has-add i j s, has-add i j t, f.apply j);
}

pub Within-union_left : (s t : AssignedSet) → Within s (union s t)
Within-union_left s t = record { apply = λ j h. ground (arith, has-union s t j) }

pub union-Within : {s t u : AssignedSet} → Within s u → Within t u → Within (union s t) u
union-Within {s} {t} f g = record {
  apply = λ j h. ground (arith, has-union s t j, f.apply j, g.apply j);
}

pub intersect-Within_left : (s t : AssignedSet) → Within (intersect s t) s
intersect-Within_left s t = record { apply = λ j h. ground (arith, has-intersect s t j) }

pub intersect-Within_right : (s t : AssignedSet) → Within (intersect s t) t
intersect-Within_right s t = record { apply = λ j h. ground (arith, has-intersect s t j) }

pub Within-intersect : {s t u : AssignedSet} → Within u s → Within u t → Within u (intersect s t)
Within-intersect {s} {t} f g = record {
  apply = λ j h. ground (arith, has-intersect s t j, f.apply j, g.apply j);
}
