-- ===== src/Console/Editor.antt =====
-- What typing does, as kernel/console.c promises it: an editor of one line in front of the lines that
-- are complete.
use mit_operating_system_eng.Base.{
  ℕ, zero, suc, ◌+◌, Bool, true, false, not, ◌&&◌, ◌||◌, List, [], ◌∷◌, ◌++◌, length, ltb, ◌==◌,
  if◌then◌else◌,
}
use mit_operating_system_eng.Console.{Cons, backspace, consputc, newline}
use mit_operating_system_eng.Console.Slices.{drop_last}
use mit_operating_system_eng.Console.Ring.{ready, edit}

pub record Line : Type 0 where
  pub handed : List ℕ
  pub typed : List ℕ
  pub screen : List ℕ

abbrev pub view : Cons → Line
view s = record { handed = ready s; typed = edit s; screen = s.out }

-- Taking `n` characters back.
unfoldable pub take_back : ℕ → Line → Line
take_back zero l = l
take_back (suc n) l =
    take_back n (record l { typed = drop_last l.typed; screen = consputc backspace l.screen })

abbrev pub one_back : List ℕ → ℕ
one_back [] = 0
one_back (x ∷ xs) = 1

-- A character that is kept, and whether the line is complete with it.
abbrev pub add : ℕ → Line → Bool × Line
add c l =
    if c == 10 || (c == 4 || length l.handed + length l.typed + 1 == 128)
    then (
      true,
      record {
        handed = l.handed ++ (l.typed ++ (c ∷ []));
        typed = [];
        screen = consputc c l.screen;
      },
    )
    else (false, record l { typed = l.typed ++ (c ∷ []); screen = consputc c l.screen })

-- Control-P, control-U, backspace or delete, and the rest.
abbrev pub press : ℕ → Line → Bool × Line
press c l =
    if c == 16
    then (false, l)
    else if c == 21
    then (false, take_back (length l.typed) l)
    else if c == 8 || c == 127
    then (false, take_back (one_back l.typed) l)
    else if not (c == 0) && ltb (length l.handed + length l.typed) 128
    then add (newline c) l
    else (false, l)
