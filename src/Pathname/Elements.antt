-- ===== src/Pathname/Elements.antt =====
-- The elements of a path, against a description that splits it at the slashes.
use mit_operating_system_eng.Base.{
  ℕ, zero, suc, ◌≤◌, ◌≡◌, refl, sym, ap, ◌∙◌, ◌⊎◌, inl, inr, true, false, none, some, List, [], ◌∷◌,
  ◌++◌, map, length, take, ◌==◌, if◌then◌else◌, Bool-cases, arith,
}
use mit_operating_system_eng.Pathname.{
  dirsiz, slash, skip_slashes, word, after_word, skipelem, elements,
}

-- Empty parts do not count.
abbrev pub put_part : List ℕ → List (List ℕ) → List (List ℕ)
put_part [] parts = parts
put_part (c ∷ cs) parts = (c ∷ cs) ∷ parts

-- The parts between the slashes, `part` being what has been read of the first.
pub split : List ℕ → List ℕ → List (List ℕ)
split part [] = put_part part []
split part (c ∷ cs) =
    let cut = split [] cs in
    let more = split (part ++ (c ∷ [])) cs in if c == slash then put_part part cut else more

append_assoc : (xs ys zs : List ℕ) → (xs ++ ys) ++ zs ≡ xs ++ (ys ++ zs)
append_assoc [] ys zs = refl
append_assoc (x ∷ xs) ys zs = ap (λ l. x ∷ l) (append_assoc xs ys zs)

append_nil : (xs : List ℕ) → xs ++ [] ≡ xs
append_nil [] = refl
append_nil (x ∷ xs) = ap (λ l. x ∷ l) (append_nil xs)

module _ (c : ℕ) (cs : List ℕ) where
  -- One step of each, at a slash and at another character.
  split-slash :
      (part : List ℕ) → (c == slash) ≡ true → split part (c ∷ cs) ≡ put_part part (split [] cs)
  unfolding split
  split-slash part e = rw e refl

  split-char :
      (part : List ℕ) → (c == slash) ≡ false → split part (c ∷ cs) ≡ split (part ++ (c ∷ [])) cs
  unfolding split
  split-char part e = rw e refl

  skip-slash : (c == slash) ≡ true → skip_slashes (c ∷ cs) ≡ skip_slashes cs
  unfolding skip_slashes
  skip-slash e = rw e refl

  skip-char : (c == slash) ≡ false → skip_slashes (c ∷ cs) ≡ c ∷ cs
  unfolding skip_slashes
  skip-char e = rw e refl

  word-slash : (c == slash) ≡ true → (word (c ∷ cs) ≡ []) × (after_word (c ∷ cs) ≡ c ∷ cs)
  unfolding word after_word
  word-slash e = (rw e refl, rw e refl)

  word-char :
      (c == slash) ≡ false → (word (c ∷ cs) ≡ c ∷ word cs) × (after_word (c ∷ cs) ≡ after_word cs)
  unfolding word after_word
  word-char e = (rw e refl, rw e refl)

skip-nil : skip_slashes [] ≡ []
unfolding skip_slashes
skip-nil = refl

split-skip : (path : List ℕ) → split [] (skip_slashes path) ≡ split [] path
split-skip [] = rw skip-nil refl
split-skip (c ∷ cs) = elim (Bool-cases (c == slash)) [
  | inl e ↦ rw (skip-slash c cs e, split-slash c cs [] e) (split-skip cs)
  | inr e ↦ rw (skip-char c cs e) refl
]

split-word-nil :
    (part : List ℕ) → split part [] ≡ put_part (part ++ word []) (split [] (after_word []))
unfolding split word after_word
split-word-nil part = rw (append_nil part) refl

split-word :
    (part path : List ℕ)
    → split part path ≡ put_part (part ++ word path) (split [] (after_word path))
split-word part [] = split-word-nil part
split-word part (c ∷ cs) = elim (Bool-cases (c == slash)) [
  | inl e ↦
      let (no_word, all) = word-slash c cs e in
      rw (no_word, all, append_nil part, split-slash c cs part e, split-slash c cs [] e) refl
  | inr e ↦
      let (more, rest) = word-char c cs e in
      rw (more, rest, split-char c cs part e, sym (append_assoc part (c ∷ []) (word cs)))
        (split-word (part ++ (c ∷ [])) cs)
]

length-skip : (path : List ℕ) → length (skip_slashes path) ≤ length path
unfolding skip_slashes
length-skip [] = omega arith
length-skip (c ∷ cs) = ground (arith, length-skip cs)

length-after : (path : List ℕ) → length (after_word path) ≤ length path
unfolding after_word
length-after [] = omega arith
length-after (c ∷ cs) = ground (arith, length-after cs)

skip-head :
    (path : List ℕ) (c : ℕ) (cs : List ℕ) → skip_slashes path ≡ c ∷ cs → (c == slash) ≡ false
skip-head [] c cs e = absurd (cc (rw skip-nil at e))
skip-head (b ∷ bs) c cs e = elim (Bool-cases (b == slash)) [
  | inl q ↦ skip-head bs c cs (rw (skip-slash b bs q) at e)
  | inr q ↦ let same : b ≡ c = cc (rw (skip-char b bs q) at e) in rw same at q
]

List-cases : (l : List ℕ) → (l ≡ []) ⊎ ((c : ℕ) × (cs : List ℕ) × (l ≡ c ∷ cs))
List-cases [] = inl refl
List-cases (c ∷ cs) = inr (c, cs, refl)

skipelem-none : (path : List ℕ) → skip_slashes path ≡ [] → skipelem path ≡ none
unfolding skipelem
skipelem-none path e = rw (skipelem, e) refl

skipelem-some :
    (path : List ℕ) (c : ℕ) (cs : List ℕ)
    → skip_slashes path ≡ c ∷ cs
    → skipelem path ≡ some (take dirsiz (c ∷ word cs), skip_slashes (after_word cs))
unfolding skipelem
skipelem-some path c cs e =
    let (more, rest) = word-char c cs (skip-head path c cs e) in rw (skipelem, e, more, rest) refl

split-nil : split [] [] ≡ []
unfolding split
split-nil = refl

parts-none : (path : List ℕ) → skip_slashes path ≡ [] → split [] path ≡ []
parts-none path e = sym (split-skip path) ∙ rw e split-nil

parts-some :
    (path : List ℕ) (c : ℕ) (cs : List ℕ)
    → skip_slashes path ≡ c ∷ cs
    → split [] path ≡ (c ∷ word cs) ∷ split [] (after_word cs)
parts-some path c cs e =
    let (more, rest) = word-char c cs (skip-head path c cs e) in
    sym (split-skip path) ∙ rw e (split-word [] (c ∷ cs) ∙ rw (more, rest) refl)

-- The loop of `namex` over `skipelem` goes through the nonempty parts between the slashes of the
-- path, in order, each cut to DIRSIZ bytes, in no more rounds than the path has bytes.
pub elements_lem :
    (fuel : ℕ) (path : List ℕ)
    → length path ≤ fuel
    → elements fuel path ≡ map (take dirsiz) (split [] path)
unfolding elements
elements_lem zero [] h = rw split-nil refl
elements_lem zero (c ∷ cs) h = absurd (omega arith)
elements_lem (suc fuel) path h = elim (List-cases (skip_slashes path)) [
  | inl e ↦ rw (elements, skipelem-none path e, parts-none path e) refl
  | inr (c, cs, e) ↦
      let len = length-skip path in
      let len_after = length-after cs in
      let len_skip = length-skip (after_word cs) in
      let short : length (c ∷ cs) ≤ length path = rw e at len in
      let rest = elements_lem fuel (skip_slashes (after_word cs)) (omega arith) in
      rw (elements, skipelem-some path c cs e, parts-some path c cs e)
        (ap (λ l. take dirsiz (c ∷ word cs) ∷ l)
          (rest ∙ ap (map (take dirsiz)) (split-skip (after_word cs))))
]
