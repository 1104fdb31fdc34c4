-- ===== src/Printf/Tests.antt =====
-- Runs of `printint`, and an instance of the theorem about it.
use mit_operating_system_eng.Base.{◌-◌, ◌^◌, ◌≡◌, refl, true, [], ◌∷◌}
use mit_operating_system_eng.Printf.{printint, fill, print_back}

minus_42 : printint (2 ^ 64 - 42) 10 true [] ≡ 45 ∷ 52 ∷ 50 ∷ []
unfolding printint fill print_back
minus_42 = refl
