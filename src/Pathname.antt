-- ===== src/Pathname.antt =====
-- `skipelem` of kernel/fs.c, and the path elements that the loop of `namex` goes through. A path is
-- the list of the bytes of the string, without the null byte at its end.
pub mod Elements
mod Tests
use mit_operating_system_eng.Base.{
  ℕ, zero, suc, Bool, true, false, Option, none, some, List, [], ◌∷◌, take, ◌==◌, if◌then◌else◌,
}

abbrev pub dirsiz : ℕ
dirsiz = 14

-- the character '/'
abbrev pub slash : ℕ
slash = 47

unfoldable pub skip_slashes : List ℕ → List ℕ
skip_slashes [] = []
skip_slashes (c ∷ cs) = let rest = skip_slashes cs in if c == slash then rest else c ∷ cs

-- The bytes up to the next slash, and those from it on.
unfoldable pub word : List ℕ → List ℕ
word [] = []
word (c ∷ cs) = let rest = word cs in if c == slash then [] else c ∷ rest

unfoldable pub after_word : List ℕ → List ℕ
after_word [] = []
after_word (c ∷ cs) = let rest = after_word cs in if c == slash then c ∷ cs else rest

-- The next element, of which `name` has room for the first DIRSIZ bytes, and the path after it.
unfoldable pub skipelem : List ℕ → Option (List ℕ × List ℕ)
skipelem path = elim (skip_slashes path) [
  | [] ↦ none
  | c ∷ cs ↦ some (take dirsiz (word (c ∷ cs)), skip_slashes (after_word (c ∷ cs)))
]

-- The elements that `namex` looks up, in `fuel` rounds at most.
unfoldable pub elements : ℕ → List ℕ → List (List ℕ)
elements zero path = []
elements (suc fuel) path = elim (skipelem path) [
  | none ↦ []
  | some (name, rest) ↦ name ∷ elements fuel rest
]
