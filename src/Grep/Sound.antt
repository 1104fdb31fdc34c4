-- ===== src/Grep/Sound.antt =====
-- The matcher of user/grep.c finds the prefixes that a pattern spells, and no others.
use mit_operating_system_eng.Base.{
  ℕ, ◌≡◌, refl, ap, ◌⊎◌, inl, inr, Bool, true, false, ◌&&◌, ◌||◌, List, [], ◌∷◌, ◌++◌, Bool-cases,
}
use mit_operating_system_eng.Grep.{accepts, matchstar, matchchar, is_end}
use mit_operating_system_eng.Grep.Pattern.{
  Item, one, star, Pattern, Spells, done, char, stop, more, Prefix, run,
}

abbrev of : Bool → List Item → Pattern
of ended is = record { items = is; ended = ended }

is_end-nil : (text : List ℕ) → is_end text ≡ true → text ≡ []
is_end-nil [] e = refl
is_end-nil (t ∷ text) e = absurd (cc e)

and-true : (a b : Bool) → (a && b) ≡ true → (a ≡ true) × (b ≡ true)
and-true true b e = (refl, e)
and-true false b e = absurd (cc e)

pub or-true : (a b : Bool) → (a || b) ≡ true → (a ≡ true) ⊎ (b ≡ true)
or-true true b e = inl refl
or-true false b e = inr e

add_char :
    (ended : Bool) (c t : ℕ) (is : List Item) (text : List ℕ)
    → accepts c t ≡ true
    → Prefix (of ended is) text
    → Prefix (of ended (one c ∷ is)) (t ∷ text)
add_char ended c t is text a p = record {
  word = t ∷ p.word;
  rest = p.rest;
  split = ap (λ l. t ∷ l) p.split;
  spells = char a p.spells;
  at_end = p.at_end;
}

add_more :
    (ended : Bool) (c t : ℕ) (is : List Item) (text : List ℕ)
    → accepts c t ≡ true
    → Prefix (of ended (star c ∷ is)) text
    → Prefix (of ended (star c ∷ is)) (t ∷ text)
add_more ended c t is text a p = record {
  word = t ∷ p.word;
  rest = p.rest;
  split = ap (λ l. t ∷ l) p.split;
  spells = more a p.spells;
  at_end = p.at_end;
}

add_stop :
    (ended : Bool) (c : ℕ) (is : List Item) (text : List ℕ)
    → Prefix (of ended is) text
    → Prefix (of ended (star c ∷ is)) text
add_stop ended c is text p = record {
  word = p.word;
  rest = p.rest;
  split = p.split;
  spells = stop p.spells;
  at_end = p.at_end;
}

matchstar-Prefix :
    (ended : Bool) (c : ℕ) (is : List Item) (text : List ℕ)
    → ((t : List ℕ) → run ended is t ≡ true → Prefix (of ended is) t)
    → matchstar c (run ended is) text ≡ true
    → Prefix (of ended (star c ∷ is)) text
unfolding matchstar
matchstar-Prefix ended c is [] h e = add_stop ended c is [] (h [] e)
matchstar-Prefix ended c is (t ∷ text) h e =
    elim (or-true (run ended is (t ∷ text)) (accepts c t && matchstar c (run ended is) text) e) [
      | inl now ↦ add_stop ended c is (t ∷ text) (h (t ∷ text) now)
      | inr later ↦
          let (a, m) = and-true (accepts c t) (matchstar c (run ended is) text) later in
          add_more ended c t is text a (matchstar-Prefix ended c is text h m)
    ]

matchchar-Prefix :
    (ended : Bool) (c : ℕ) (is : List Item) (text : List ℕ)
    → ((t : List ℕ) → run ended is t ≡ true → Prefix (of ended is) t)
    → matchchar c (run ended is) text ≡ true
    → Prefix (of ended (one c ∷ is)) text
unfolding matchchar
matchchar-Prefix ended c is [] h e = absurd (cc e)
matchchar-Prefix ended c is (t ∷ text) h e =
    let (a, m) = and-true (accepts c t) (run ended is text) e in
    add_char ended c t is text a (h text m)

pub run-Prefix :
    (ended : Bool) (is : List Item) (text : List ℕ)
    → run ended is text ≡ true
    → Prefix (of ended is) text
unfolding run
run-Prefix false [] text e = record {
  word = [];
  rest = text;
  split = refl;
  spells = done;
  at_end = inl refl;
}
run-Prefix true [] text e = record {
  word = [];
  rest = text;
  split = refl;
  spells = done;
  at_end = inr (is_end-nil text e);
}
run-Prefix ended (one c ∷ is) text e = matchchar-Prefix ended c is text (run-Prefix ended is) e
run-Prefix ended (star c ∷ is) text e = matchstar-Prefix ended c is text (run-Prefix ended is) e

matchstar-now :
    (c : ℕ) (k : List ℕ → Bool) (text : List ℕ) → k text ≡ true → matchstar c k text ≡ true
unfolding matchstar
matchstar-now c k [] e = e
matchstar-now c k (t ∷ text) e = rw e refl

matchstar-later :
    (c t : ℕ) (k : List ℕ → Bool) (text : List ℕ)
    → accepts c t ≡ true
    → matchstar c k text ≡ true
    → matchstar c k (t ∷ text) ≡ true
unfolding matchstar
matchstar-later c t k text a e = elim (Bool-cases (k (t ∷ text))) [
  | inl now ↦ rw now refl
  | inr later ↦ rw (later, a, e) refl
]

matchchar-here :
    (c t : ℕ) (k : List ℕ → Bool) (text : List ℕ)
    → accepts c t ≡ true
    → k text ≡ true
    → matchchar c k (t ∷ text) ≡ true
unfolding matchchar
matchchar-here c t k text a e = rw (a, e) refl

run-done : (ended : Bool) (rest : List ℕ) → (ended ≡ false) ⊎ (rest ≡ []) → run ended [] rest ≡ true
unfolding run
run-done false rest h = refl
run-done true rest (inl h) = absurd (cc h)
run-done true rest (inr h) = rw h refl

pub Spells-run :
    (ended : Bool) {is : List Item} {w : List ℕ} (rest : List ℕ)
    → Spells is w
    → (ended ≡ false) ⊎ (rest ≡ [])
    → run ended is (w ++ rest) ≡ true
unfolding run
Spells-run ended rest done h = unfold run in run-done ended rest h
Spells-run ended rest (char {c} {t} {is} {w} a s) h =
    matchchar-here c t (run ended is) (w ++ rest) a (Spells-run ended rest s h)
Spells-run ended rest (stop {c} {is} {w} s) h =
    matchstar-now c (run ended is) (w ++ rest) (Spells-run ended rest s h)
Spells-run ended rest (more {c} {t} {is} {w} a s) h =
    matchstar-later c t (run ended is) (w ++ rest) a (Spells-run ended rest s h)
