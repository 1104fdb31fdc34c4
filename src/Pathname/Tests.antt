-- ===== src/Pathname/Tests.antt =====
-- A run of `skipelem` of kernel/fs.c, and an instance of the theorem about it.
use mit_operating_system_eng.Base.{ℕ, ◌≡◌, some, List, [], ◌∷◌, map, take, refl, arith}
use mit_operating_system_eng.Pathname.{dirsiz, skip_slashes, word, after_word, skipelem, elements}
use mit_operating_system_eng.Pathname.Elements.{split, elements_lem}

-- ///a//bb
abbrev path : List ℕ
path = 47 ∷ 47 ∷ 47 ∷ 97 ∷ 47 ∷ 47 ∷ 98 ∷ 98 ∷ []

skips_one : skipelem path ≡ some (97 ∷ [], 98 ∷ 98 ∷ [])
unfolding skipelem skip_slashes word after_word
skips_one = refl

elements_lem_example : elements 8 path ≡ map (take dirsiz) (split [] path)
elements_lem_example = elements_lem 8 path (omega arith)
