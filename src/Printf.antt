-- ===== src/Printf.antt =====
-- `printint` of kernel/printf.c: a number in digits. What `consputc` prints is appended to `out`.
pub mod Digits
mod Tests
use mit_operating_system_eng.Base.{
  ℕ, zero, suc, ◌+◌, ◌-◌, ◌/◌, ◌%◌, ◌^◌, Bool, true, false, not, ◌&&◌, List, [], ◌∷◌, ◌++◌, ltb,
  ◌==◌, if◌then◌else◌,
}
use mit_operating_system_eng.Console.{consputc}

-- `digits`: the characters `0` to `9`, and then `a` to `f`.
abbrev pub digit : ℕ → ℕ
digit d = if ltb d 10 then 48 + d else 87 + d

-- The size of `buf`.
abbrev pub buf_size : ℕ
buf_size = 20

-- The loop that fills `buf`, the last digit first, on as many rounds as it has room.
unfoldable pub fill : ℕ → ℕ → ℕ → List ℕ
fill zero base x = []
fill (suc n) base x =
    let rest = fill n base (x / base) in digit (x % base) ∷ (if x / base == 0 then [] else rest)

-- The loop that prints `buf` from its end.
unfoldable pub print_back : List ℕ → List ℕ → List ℕ
print_back [] out = out
print_back (c ∷ cs) out = consputc c (print_back cs out)

-- `xx` is the bit pattern of a `long long`.
abbrev pub is_negative : ℕ → Bool → Bool
is_negative xx sign = sign && not (ltb xx (2 ^ 63))

abbrev pub magnitude : ℕ → Bool → ℕ
magnitude xx sign = if is_negative xx sign then 2 ^ 64 - xx else xx

abbrev pub buffer : ℕ → ℕ → Bool → List ℕ
buffer xx base sign =
    fill buf_size base (magnitude xx sign) ++ (if is_negative xx sign then 45 ∷ [] else [])

unfoldable pub printint : ℕ → ℕ → Bool → List ℕ → List ℕ
printint xx base sign out = print_back (buffer xx base sign) out
