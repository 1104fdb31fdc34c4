-- ===== src/Grep/Matching.antt =====
-- `match` of user/grep.c against the words that a pattern spells.
use mit_operating_system_eng.Base.{
  ℕ, ◌≡◌, refl, sym, ap, ◌∙◌, inl, inr, ◌↔◌, true, List, [], ◌∷◌, ◌++◌, ◌==◌, if◌then◌else◌,
  Bool-cases,
}
use mit_operating_system_eng.Grep.{caret, matchhere, match_from, match}
use mit_operating_system_eng.Grep.Pattern.{parse, Prefix, matchhere-run}
use mit_operating_system_eng.Grep.Sound.{run-Prefix, Spells-run, or-true}

-- `matchhere` answers 1 exactly if a word that the pattern spells stands at the start of the text,
-- and the text ends with it where the pattern ends in `$`.
pub matchhere_lem : (re text : List ℕ) → (matchhere re text ≡ true) ↔ Prefix (parse re) text
matchhere_lem re text = (
  λ e. run-Prefix (parse re).ended (parse re).items text (sym (matchhere-run re text) ∙ e),
  λ p. matchhere-run re text ∙ rw p.split (Spells-run (parse re).ended p.rest p.spells p.at_end),
)

-- A word of the pattern somewhere in the text.
pub record Within (re text : List ℕ) : Type 0 where
  pub before : List ℕ
  pub after : List ℕ
  pub split : text ≡ before ++ after
  pub prefix : Prefix (parse re) after

match_from-Within : (re text : List ℕ) → match_from re text ≡ true → Within re text
unfolding match_from
match_from-Within re [] e = record {
  before = [];
  after = [];
  split = refl;
  prefix = (matchhere_lem re []).0 e;
}
match_from-Within re (t ∷ text) e =
    elim (or-true (matchhere re (t ∷ text)) (match_from re text) e) [
      | inl now ↦ record {
        before = [];
        after = t ∷ text;
        split = refl;
        prefix = (matchhere_lem re (t ∷ text)).0 now;
      }
      | inr later ↦
          let w = match_from-Within re text later in
          record {
            before = t ∷ w.before;
            after = w.after;
            split = ap (λ l. t ∷ l) w.split;
            prefix = w.prefix;
          }
    ]

match_from-now : (re text : List ℕ) → matchhere re text ≡ true → match_from re text ≡ true
unfolding match_from
match_from-now re [] e = e
match_from-now re (t ∷ text) e = rw e refl

match_from-later :
    (re before after : List ℕ) → matchhere re after ≡ true → match_from re (before ++ after) ≡ true
unfolding match_from
match_from-later re [] after e = match_from-now re after e
match_from-later re (t ∷ before) after e =
    elim (Bool-cases (matchhere re (t ∷ (before ++ after)))) [
      | inl now ↦ rw now refl
      | inr later ↦ rw later (match_from-later re before after e)
    ]

match_from_lem : (re text : List ℕ) → (match_from re text ≡ true) ↔ Within re text
match_from_lem re text = (
  match_from-Within re text,
  λ w. rw w.split (match_from-later re w.before w.after ((matchhere_lem re w.after).1 w.prefix)),
)

-- What a line must be for `grep` to print it.
unfoldable pub Matches : List ℕ → List ℕ → Type 0
Matches [] text = Within [] text
Matches (c ∷ re) text = if c == caret then Prefix (parse re) text else Within (c ∷ re) text

-- `match` answers 1 exactly if the text has a word of the pattern, at its start where the pattern
-- begins with `^`, and at its end where it ends in `$`.
pub match_lem : (re text : List ℕ) → (match re text ≡ true) ↔ Matches re text
unfolding match Matches
match_lem [] text = match_from_lem [] text
match_lem (c ∷ re) text = elim (Bool-cases (c == caret)) [
  | inl e ↦ rw e (matchhere_lem re text)
  | inr e ↦ rw e (match_from_lem (c ∷ re) text)
]
