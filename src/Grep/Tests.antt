-- ===== src/Grep/Tests.antt =====
-- Runs of the matcher of user/grep.c, and an instance of the theorem about it.
use mit_operating_system_eng.Base.{ℕ, ◌≡◌, refl, ◌↔◌, true, false, List, [], ◌∷◌}
use mit_operating_system_eng.Grep.{match, match_from, matchhere}
use mit_operating_system_eng.Grep.Matching.{Matches, match_lem}

-- ab*c$
abbrev pattern1 : List ℕ
pattern1 = 97 ∷ 98 ∷ 42 ∷ 99 ∷ 36 ∷ []

-- xabbc
abbrev line : List ℕ
line = 120 ∷ 97 ∷ 98 ∷ 98 ∷ 99 ∷ []

finds : match pattern1 line ≡ true
unfolding match match_from matchhere
finds = refl

anchored : match (94 ∷ pattern1) line ≡ false
unfolding match match_from matchhere
anchored = refl

match_lem_example : (match pattern1 line ≡ true) ↔ Matches pattern1 line
match_lem_example = match_lem pattern1 line
