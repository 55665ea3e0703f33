-- ===== src/Semantics/Suggestions/Outside.antt =====
-- The search in modules at the end of `TNameResolver::Suggest`,
-- qumir/semantics/name_resolution/name_resolver.cpp.
use qumir.Prelude.{
  ℕ, String, Bool, true, false, Option, none, some, List, [], ◌∷◌, if◌then◌else◌, ◌≡◌, refl,
}
use qumir.Semantics.Suggestions.{
  Suggestion, Search, search_functions, search_modules, search_outside,
}
use qumir.Semantics.Suggestions.Closest.{Keeps, IsClosest, consider_lem}

module _ (bytes : String → List ℕ) (name_points : List ℕ) where
  -- What a loop gives: a search that has gone on.
  pub record GoesOn (s s' : Search) : Type 0 where
    pub closest : IsClosest bytes name_points s'
    pub kept : Keeps s s'

  search_functions_lem :
      (required : String) (fs : List String) (s : Search)
      → IsClosest bytes name_points s
      → (s' : Search) × (search_functions bytes name_points required fs s ≡ some s') × GoesOn s s'
  unfolding search_functions
  search_functions_lem required [] s h = (s, refl, record { closest = h; kept = λ n k. k })
  search_functions_lem required (f ∷ fs) s h =
      let (s₁, e, h₁, k₁, here₁) = consider_lem bytes name_points (some required) f s h in
      let (s₂, e₂, g) = search_functions_lem required fs s₁ h₁ in
      (s₂, rw (e, e₂) refl, record { closest = g.closest; kept = λ n k. g.kept n (k₁ n k) })

  search_modules_lem :
      (ms : List (String × List String)) (s : Search)
      → IsClosest bytes name_points s
      → (s' : Search) × (search_modules bytes name_points ms s ≡ some s') × GoesOn s s'
  unfolding search_modules
  search_modules_lem [] s h = (s, refl, record { closest = h; kept = λ n k. k })
  search_modules_lem ((required, fs) ∷ ms) s h =
      let (s₁, e, g₁) = search_functions_lem required fs s h in
      let (s₂, e₂, g) = search_modules_lem ms s₁ g₁.closest in
      (s₂, rw (e, e₂) refl, record { closest = g.closest; kept = λ n k. g.kept n (g₁.kept n k) })

  -- The search in modules is gone on with or left out.
  chosen :
      (best : Option Suggestion) (include_functions : Bool) (s s₁ : Search) (found : Option Search)
      → found ≡ some s₁
      → GoesOn s s₁
      → IsClosest bytes name_points s
      → (s' : Search) × ((elim best [
        | some b ↦ some s
        | none ↦ if include_functions then found else some s
      ])
          ≡ some s')
        × GoesOn s s'
  chosen (some b) include_functions s s₁ found e g h =
      (s, refl, record { closest = h; kept = λ n k. k })
  chosen none true s s₁ found e g h = (s₁, e, g)
  chosen none false s s₁ found e g h = (s, refl, record { closest = h; kept = λ n k. k })

  pub search_outside_lem :
      (include_functions : Bool) (ms : List (String × List String)) (s : Search)
      → IsClosest bytes name_points s
      → (s' : Search) × (search_outside bytes name_points include_functions ms s ≡ some s')
        × GoesOn s s'
  unfolding search_outside
  search_outside_lem include_functions ms s h =
      let (s₁, e, g) = search_modules_lem ms s h in
      chosen s.best include_functions s s₁ (search_modules bytes name_points ms s) e g h
