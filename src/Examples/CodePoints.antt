-- ===== src/Examples/CodePoints.antt =====
-- The code points of names.
use qumir.Prelude.{ℕ, List, [], ◌∷◌, ◌≡◌, refl, arith, All}
use qumir.Runtime.Utf8.RoundTrip.{encoding}
use qumir.Runtime.Strings.Symbols.{IsSymbol, text}
use qumir.Semantics.CodePoints.{calc_code_points, code_points_from}
use qumir.Semantics.CodePoints.Decoding.{without_wide_last, calc_code_points_lem}

-- Two names that differ in the last letter.
abbrev first_name : List ℕ
first_name = 0x434 ∷ 0x43E ∷ 0x43C ∷ []

abbrev second_name : List ℕ
second_name = 0x434 ∷ 0x43E ∷ 0x43A ∷ []

first_name-IsSymbol : All IsSymbol first_name
first_name-IsSymbol = omega arith

same_code_points : calc_code_points (text first_name) ≡ calc_code_points (text second_name)
unfolding calc_code_points code_points_from text encoding
same_code_points = refl

calc_code_points_lem_example : calc_code_points (text first_name) ≡ without_wide_last first_name
calc_code_points_lem_example = calc_code_points_lem first_name first_name-IsSymbol
