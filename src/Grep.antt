-- ===== src/Grep.antt =====
-- The matcher of user/grep.c. A C string is the list of its bytes before the null byte.
pub mod Pattern
pub mod Sound
pub mod Matching
mod Tests
use mit_operating_system_eng.Base.{
  ℕ, Bool, true, false, ◌&&◌, ◌||◌, List, [], ◌∷◌, ◌==◌, if◌then◌else◌,
}

abbrev pub caret : ℕ
caret = 94

abbrev pub dollar : ℕ
dollar = 36

abbrev pub star_sign : ℕ
star_sign = 42

abbrev pub dot : ℕ
dot = 46

abbrev pub accepts : ℕ → ℕ → Bool
accepts c t = c == dot || c == t

-- `matchstar`, where `rest` is `matchhere` of the pattern after the star.
unfoldable pub matchstar : ℕ → (List ℕ → Bool) → List ℕ → Bool
matchstar c rest [] = rest []
matchstar c rest (t ∷ text) =
    let more = matchstar c rest text in rest (t ∷ text) || (accepts c t && more)

-- The last test of `matchhere`: the next character, and then the rest.
unfoldable pub matchchar : ℕ → (List ℕ → Bool) → List ℕ → Bool
matchchar c rest [] = false
matchchar c rest (t ∷ text) = accepts c t && rest text

abbrev pub is_end : List ℕ → Bool
is_end [] = true
is_end (t ∷ text) = false

unfoldable pub matchhere : List ℕ → List ℕ → Bool
unfolding matchstar matchchar
matchhere [] text = true
matchhere (c ∷ []) text = if c == dollar then is_end text else matchchar c (matchhere []) text
matchhere (c ∷ d ∷ re) text = elim (d == star_sign) [
  | true ↦ matchstar c (matchhere re) text
  | false ↦ matchchar c (matchhere (d ∷ re)) text
]

-- The loop of `match`, which tries each suffix of the text, the empty one too.
unfoldable pub match_from : List ℕ → List ℕ → Bool
match_from re [] = matchhere re []
match_from re (t ∷ text) = let later = match_from re text in matchhere re (t ∷ text) || later

unfoldable pub match : List ℕ → List ℕ → Bool
match [] text = match_from [] text
match (c ∷ re) text = if c == caret then matchhere re text else match_from (c ∷ re) text
