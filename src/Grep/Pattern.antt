-- ===== src/Grep/Pattern.antt =====
-- What a pattern of user/grep.c means: the words that it spells.
use mit_operating_system_eng.Base.{
  ℕ, ◌≡◌, refl, ◌⊎◌, inl, inr, Bool, true, false, List, [], ◌∷◌, ◌++◌, ◌==◌, if◌then◌else◌,
  Bool-cases,
}
use mit_operating_system_eng.Grep.{
  dollar, star_sign, accepts, matchstar, matchchar, is_end, matchhere,
}

pub data Item : Type 0 where
  one : ℕ → Item
  star : ℕ → Item

-- The items of a pattern, and whether it ends in `$`.
pub record Pattern : Type 0 where
  pub items : List Item
  pub ended : Bool

abbrev pub add : Item → Pattern → Pattern
add i p = record p { items = i ∷ p.items }

unfoldable pub parse : List ℕ → Pattern
parse [] = record { items = []; ended = false }
parse (c ∷ []) =
    if c == dollar
    then record { items = []; ended = true }
    else record { items = one c ∷ []; ended = false }
parse (c ∷ d ∷ re) = elim (d == star_sign) [
  | true ↦ add (star c) (parse re)
  | false ↦ add (one c) (parse (d ∷ re))
]

-- The word is one that the items spell.
pub data Spells : List Item → List ℕ → Type 0 where
  done : Spells [] []
  char :
      {c t : ℕ} {is : List Item} {w : List ℕ}
      → accepts c t ≡ true
      → Spells is w
      → Spells (one c ∷ is) (t ∷ w)
  stop : {c : ℕ} {is : List Item} {w : List ℕ} → Spells is w → Spells (star c ∷ is) w
  more :
      {c t : ℕ} {is : List Item} {w : List ℕ}
      → accepts c t ≡ true
      → Spells (star c ∷ is) w
      → Spells (star c ∷ is) (t ∷ w)

-- A word of the pattern at the start of the text, and what follows it.
pub record Prefix (p : Pattern) (text : List ℕ) : Type 0 where
  pub word : List ℕ
  pub rest : List ℕ
  pub split : text ≡ word ++ rest
  pub spells : Spells p.items word
  pub at_end : (p.ended ≡ false) ⊎ (rest ≡ [])

-- `matchhere` over the items.
unfoldable pub run : Bool → List Item → List ℕ → Bool
run ended [] text = if ended then is_end text else true
run ended (one c ∷ is) text = matchchar c (run ended is) text
run ended (star c ∷ is) text = matchstar c (run ended is) text

matchstar-eq :
    (c : ℕ) (f g : List ℕ → Bool) (text : List ℕ)
    → ((t : List ℕ) → f t ≡ g t)
    → matchstar c f text ≡ matchstar c g text
unfolding matchstar
matchstar-eq c f g [] h = h []
matchstar-eq c f g (t ∷ text) h = rw (h (t ∷ text), matchstar-eq c f g text h) refl

matchchar-eq :
    (c : ℕ) (f g : List ℕ → Bool) (text : List ℕ)
    → ((t : List ℕ) → f t ≡ g t)
    → matchchar c f text ≡ matchchar c g text
unfolding matchchar
matchchar-eq c f g [] h = refl
matchchar-eq c f g (t ∷ text) h = rw (h text) refl

pub matchhere-run :
    (re text : List ℕ) → matchhere re text ≡ run (parse re).ended (parse re).items text
unfolding matchhere parse run
matchhere-run [] text = refl
matchhere-run (c ∷ []) text = elim (Bool-cases (c == dollar)) [
  | inl e ↦ rw e refl
  | inr e ↦ rw e refl
]
matchhere-run (c ∷ d ∷ re) text = elim (Bool-cases (d == star_sign)) [
  | inl e ↦ rw (matchhere, parse, e) (matchstar-eq c _ _ text (λ t. matchhere-run re t))
  | inr e ↦ rw (matchhere, parse, e) (matchchar-eq c _ _ text (λ t. matchhere-run (d ∷ re) t))
]
