-- ===== src/Strings.antt =====
-- kernel/string.c. Memory is a function from addresses to bytes; a region that a call is given does
-- not run past the end of the address space.
pub mod Copy
pub mod Compare
pub mod Names
mod Tests
use mit_operating_system_eng.Base.{
  ℕ, zero, suc, ◌+◌, ◌-◌, ◌%◌, ◌^◌, Bool, true, false, not, ◌&&◌, Option, none, some, ltb, ◌==◌,
  if◌then◌else◌, update,
}

abbrev pub Memory : Type 0
Memory = ℕ → ℕ

-- `n` is the number of bytes to go; `c` is cut to a byte.
unfoldable pub memset : ℕ → ℕ → ℕ → Memory → Memory
memset dst c zero m = m
memset dst c (suc n) m = memset (dst + 1) c n (update m dst (c % 256))

-- The loop of `memmove` that counts up, `n` bytes to go.
unfoldable pub copy_up : ℕ → ℕ → ℕ → Memory → Memory
copy_up d s zero m = m
copy_up d s (suc n) m = copy_up (d + 1) (s + 1) n (update m d (m s))

-- The loop that counts down: `d` and `s` are the starts of the regions.
unfoldable pub copy_down : ℕ → ℕ → ℕ → Memory → Memory
copy_down d s zero m = m
copy_down d s (suc n) m = copy_down d s n (update m (d + n) (m (s + n)))

unfoldable pub memmove : ℕ → ℕ → ℕ → Memory → Memory
memmove dst src n m =
    if n == 0
    then m
    else if ltb src dst && ltb dst (src + n)
    then copy_down dst src n m
    else copy_up dst src n m

-- The difference of two bytes as an `int`.
abbrev pub difference : ℕ → ℕ → ℕ
difference a b = (a + 2 ^ 32 - b) % 2 ^ 32

unfoldable pub memcmp : Memory → ℕ → ℕ → ℕ → ℕ
memcmp m v1 v2 zero = 0
memcmp m v1 v2 (suc n) =
    let rest = memcmp m (v1 + 1) (v2 + 1) n in
    if not (m v1 == m v2) then difference (m v1) (m v2) else rest

unfoldable pub strncmp : Memory → ℕ → ℕ → ℕ → ℕ
strncmp m p q zero = 0
strncmp m p q (suc n) =
    let rest = strncmp m (p + 1) (q + 1) n in
    if not (m p == 0) && m p == m q then rest else difference (m p) (m q)

-- The second loop of `strncpy`.
unfoldable pub pad : ℕ → ℕ → Memory → Memory
pad s zero m = m
pad s (suc n) m = pad (s + 1) n (update m s 0)

unfoldable pub strncpy : ℕ → ℕ → ℕ → Memory → Memory
strncpy s t zero m = m
strncpy s t (suc n) m =
    let m' = update m s (m t) in
    let rest = strncpy (s + 1) (t + 1) n m' in
    let filled = pad (s + 1) n m' in if m t == 0 then filled else rest

-- The loop of `safestrcpy`, with `n` bytes to go after the next test of `--n > 0`.
unfoldable pub safe_copy : ℕ → ℕ → ℕ → Memory → Memory
safe_copy s t zero m = update m s 0
safe_copy s t (suc n) m =
    let m' = update m s (m t) in
    let rest = safe_copy (s + 1) (t + 1) n m' in
    let ended = update m' (s + 1) 0 in if m t == 0 then ended else rest

-- For `n` of 0 or less nothing is copied.
unfoldable pub safestrcpy : ℕ → ℕ → ℕ → Memory → Memory
safestrcpy s t zero m = m
safestrcpy s t (suc n) m = safe_copy s t n m

-- The loop of `strlen`; `none` where no null byte comes within `fuel` bytes.
unfoldable pub strlen : ℕ → ℕ → Memory → Option ℕ
strlen zero s m = none
strlen (suc fuel) s m = elim (m s == 0) [
  | true ↦ some 0
  | false ↦ elim (strlen fuel (s + 1) m) [ none ↦ none | some n ↦ some (n + 1) ]
]
