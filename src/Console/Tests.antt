-- ===== src/Console/Tests.antt =====
-- Runs of kernel/console.c, and instances of the theorems about it.
use mit_operating_system_eng.Base.{
  ℕ, ◌-◌, ◌^◌, ◌%◌, ◌≡◌, refl, Bool, true, false, [], ◌∷◌, ◌++◌, ◌==◌, if◌then◌else◌, ltb, arith,
}
use mit_operating_system_eng.Console.{
  Cons, consoleintr, kill_line, consoleread, consolewrite, write_from,
}
use mit_operating_system_eng.Console.Slices.{slice}
use mit_operating_system_eng.Console.Ring.{IsValid, ready, edit}
use mit_operating_system_eng.Console.Editor.{view, press}
use mit_operating_system_eng.Console.Typing.{consoleintr_lem}
use mit_operating_system_eng.Console.Reading.{Delivers, consoleread-line}
use mit_operating_system_eng.Console.Writing.{copies, Sent, consolewrite_lem}

-- The counts are about to wrap; a line `hi` is ready, and `xy` is being edited.
abbrev typed : Cons
typed = record {
  buf = λ k.
      if k == 126
      then 104
      else if k == 127
      then 105
      else if k == 0
      then 10
      else if k == 1
      then 120
      else 121;
  r = 2 ^ 32 - 2;
  w = 1;
  e = 3;
  out = [];
}

typed-IsValid : IsValid typed
typed-IsValid = record {
  r_word = omega arith;
  w_word = omega arith;
  e_word = omega arith;
  small = omega arith;
  open_line = λ k h. ground arith;
}

-- Control-U
consoleintr_lem_example :
    (((consoleintr 21 typed).0, view (consoleintr 21 typed).1) ≡ press 21 (view typed))
    × IsValid (consoleintr 21 typed).1
consoleintr_lem_example = consoleintr_lem 21 typed typed-IsValid (omega arith)

kills_line : (consoleintr 21 typed).1.e ≡ 1
unfolding consoleintr kill_line
kills_line = refl

typed_ready : ready typed ≡ (104 ∷ 105 ∷ []) ++ (10 ∷ [])
unfolding slice
typed_ready = refl

consoleread-line_example :
    Delivers 3 (104 ∷ 105 ∷ 10 ∷ []) [] (edit typed) (consoleread (λ k. true) false 100 typed)
consoleread-line_example =
    consoleread-line (λ k. true) false (λ k. refl) (104 ∷ 105 ∷ []) [] 100 typed typed-IsValid
      typed_ready ((omega arith, omega arith), ((omega arith, omega arith), tt)) (omega arith)

-- The third chunk cannot be read.
abbrev source : ℕ → ℕ
source k = k % 10

abbrev readable : ℕ → ℕ → Bool
readable i n = ltb i 64

consolewrite_lem_example :
    Sent readable source 0 100 [] (consolewrite (copies source readable) 100 [])
consolewrite_lem_example = consolewrite_lem source readable 100 []

writes_two_chunks : (consolewrite (copies source readable) 100 []).0 ≡ 64
unfolding consolewrite write_from slice
writes_two_chunks = refl
