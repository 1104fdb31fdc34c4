-- ===== src/Strings/Tests.antt =====
-- Runs of kernel/string.c, and instances of the theorems about it.
use mit_operating_system_eng.Base.{◌≡◌, refl, [], ◌∷◌, get_or, if◌then◌else◌, ◌==◌}
use mit_operating_system_eng.Strings.{Memory, memmove, copy_down}
use mit_operating_system_eng.Strings.Copy.{copied, memmove_lem}

-- The strings "abc" at 0 and "abd" at 4.
abbrev two_names : Memory
two_names a = get_or (97 ∷ 98 ∷ 99 ∷ 0 ∷ 97 ∷ 98 ∷ 100 ∷ 0 ∷ []) a 0

shifts_up : memmove 1 0 3 two_names 3 ≡ 99
unfolding memmove copy_down
shifts_up = refl

memmove_lem_example : memmove 1 0 3 two_names 2 ≡ copied 1 0 3 two_names 2
memmove_lem_example = memmove_lem 1 0 3 two_names 2

-- Below 8 the memory is the list, above it zero.
abbrev first_byte : Memory
first_byte a = if a == 0 then 97 else 0
