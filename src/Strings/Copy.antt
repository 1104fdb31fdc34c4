-- ===== src/Strings/Copy.antt =====
-- `memmove` and `memset` of kernel/string.c.
use mit_operating_system_eng.Base.{
  ℕ, zero, suc, ◌+◌, ◌-◌, ◌%◌, ◌≤◌, ◌≡◌, ◌⊎◌, inl, inr, ap, Bool, ◌&&◌, ltb, leb, ◌==◌,
  if◌then◌else◌, Bool-cases, update, arith,
}
use mit_operating_system_eng.Strings.{Memory, memset, copy_up, copy_down, memmove}

abbrev pub inside : ℕ → ℕ → ℕ → Bool
inside d n a = leb d a && ltb a (d + n)

-- What is at `a` once `n` bytes at `s` have been copied to `d`.
abbrev pub copied : ℕ → ℕ → ℕ → Memory → ℕ → ℕ
copied d s n m a = if inside d n a then m (s + (a - d)) else m a

at_same : (m : Memory) (a b : ℕ) → a ≡ b → m a ≡ m b
at_same m a b e = ap m e

copy_up_lem :
    (d s n : ℕ) (m : Memory) (a : ℕ) → (d ≤ s) ⊎ (s + n ≤ d) → copy_up d s n m a ≡ copied d s n m a
unfolding copy_up
copy_up_lem d s zero m a h = ground arith
copy_up_lem d s (suc n) m a h =
    let rest = copy_up_lem (d + 1) (s + 1) n (update m d (m s)) a (ground arith) in
    ground (arith, rest, at_same m (s + 1 + (a - (d + 1))) (s + (a - d)), at_same m s (s + (a - d)))

copy_down_lem : (d s n : ℕ) (m : Memory) (a : ℕ) → s ≤ d → copy_down d s n m a ≡ copied d s n m a
unfolding copy_down
copy_down_lem d s zero m a h = ground arith
copy_down_lem d s (suc n) m a h =
    let rest = copy_down_lem d s n (update m (d + n) (m (s + n))) a h in
    ground (arith, rest, at_same m (s + n) (s + (a - d)))

-- `memmove` copies the bytes of the source as they were before the call, also where the regions
-- overlap, and changes no other byte.
pub memmove_lem :
    (dst src n : ℕ) (m : Memory) (a : ℕ) → memmove dst src n m a ≡ copied dst src n m a
unfolding memmove
memmove_lem dst src n m a = elim (Bool-cases (n == 0)) [
  | inl e ↦ rw e (ground arith)
  | inr e ↦ elim (Bool-cases (ltb src dst && ltb dst (src + n))) [
    | inl o ↦ rw (e, o) (copy_down_lem dst src n m a (ground arith))
    | inr o ↦ rw (e, o) (copy_up_lem dst src n m a (ground arith))
  ]
]

-- `memset` sets the bytes of its region and no other.
pub memset_lem :
    (dst c n : ℕ) (m : Memory) (a : ℕ)
    → memset dst c n m a ≡ (if inside dst n a then c % 256 else m a)
unfolding memset
memset_lem dst c zero m a = ground arith
memset_lem dst c (suc n) m a =
    let rest = memset_lem (dst + 1) c n (update m dst (c % 256)) a in ground (arith, rest)
