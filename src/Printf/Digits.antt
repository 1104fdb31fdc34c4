-- ===== src/Printf/Digits.antt =====
-- What `printint` of kernel/printf.c prints can be read back, and fits its buffer.
use mit_operating_system_eng.Base.{
  ℕ, ◌+◌, ◌-◌, ◌*◌, ◌≤◌, ◌≡◌, Bool, List, [], ◌∷◌, ◌++◌, length, ltb, if◌then◌else◌,
}
use mathlib.Core.List.{reverse}
use mit_operating_system_eng.Printf.{buf_size, fill, magnitude, buffer, printint}

-- The number that a character stands for, and a list of them, the last digit first.
abbrev pub undigit : ℕ → ℕ
undigit c = if ltb c 58 then c - 48 else c - 87

unfoldable pub value : ℕ → List ℕ → ℕ
value base [] = 0
value base (c ∷ cs) = undigit c + base * value base cs

-- What is printed is the buffer from its end: a minus sign where the number is negative, and the
-- digits. They stand for the magnitude, and the buffer has room for all of it.
pub record Printed (xx base : ℕ) (sign : Bool) (out : List ℕ) : Type 0 where
  pub printed : printint xx base sign out ≡ out ++ reverse (buffer xx base sign)
  pub stands_for : value base (fill buf_size base (magnitude xx sign)) ≡ magnitude xx sign
  pub fits : length (buffer xx base sign) ≤ buf_size
