-- ===== src/Strings/Names.antt =====
-- `strncpy`, `safestrcpy` and `strlen` of kernel/string.c: the strings that they leave in memory.
use mit_operating_system_eng.Base.{
  ℕ, zero, suc, ◌+◌, ◌≤◌, ◌<◌, ◌≡◌, refl, ◌⊎◌, ap, sym, ◌∙◌, true, false, some, List, [], ◌∷◌,
  length, ◌==◌, Bool-cases, inl, inr, update, arith,
}
use mit_operating_system_eng.Strings.{Memory, pad, strncpy, safe_copy, safestrcpy, strlen}
use mit_operating_system_eng.Strings.Compare.{text}
use mit_operating_system_eng.Strings.Copy.{inside}

-- The regions share no byte.
abbrev pub Apart : ℕ → ℕ → ℕ → ℕ → Type 0
Apart s n t k = (s + n ≤ t) ⊎ (t + k ≤ s)

text-update :
    (n t s v : ℕ) (m : Memory) → inside t n s ≡ false → text n t (update m s v) ≡ text n t m
unfolding text
text-update zero t s v m h = refl
text-update (suc n) t s v m h =
    let rest = text-update n (t + 1) s v m (ground arith) in
    let here : update m s v t ≡ m t = ground arith in rw (here, rest) refl

pad-outside : (s n a : ℕ) (m : Memory) → inside s n a ≡ false → pad s n m a ≡ m a
unfolding pad
pad-outside s zero a m h = refl
pad-outside s (suc n) a m h =
    let rest = pad-outside (s + 1) n a (update m s 0) (ground arith) in ground (arith, rest)

strncpy-outside : (s t n a : ℕ) (m : Memory) → inside s n a ≡ false → strncpy s t n m a ≡ m a
unfolding strncpy
strncpy-outside s t zero a m h = refl
strncpy-outside s t (suc n) a m h =
    let rest = strncpy-outside (s + 1) (t + 1) n a (update m s (m t)) (ground arith) in
    let filled = pad-outside (s + 1) n a (update m s (m t)) (ground arith) in
    ground (arith, rest, filled)

text-strncpy : (s t n : ℕ) (m : Memory) → Apart s n t n → text n s (strncpy s t n m) ≡ text n t m
unfolding strncpy text
text-strncpy s t zero m h = refl
text-strncpy s t (suc n) m h = elim (Bool-cases (m t == 0)) [
  | inl e ↦
      let here = pad-outside (s + 1) n s (update m s (m t)) (ground arith) in
      let nul : pad (s + 1) n (update m s (m t)) s ≡ 0 = ground (arith, here) in rw (e, nul) refl
  | inr e ↦
      let here = strncpy-outside (s + 1) (t + 1) n s (update m s (m t)) (ground arith) in
      let byte : strncpy (s + 1) (t + 1) n (update m s (m t)) s ≡ m t = ground (arith, here) in
      let rest = text-strncpy (s + 1) (t + 1) n (update m s (m t)) (ground arith) in
      let same = text-update n (t + 1) s (m t) m (ground arith) in rw (e, byte, e, rest, same) refl
]

safe_copy-outside :
    (s t n a : ℕ) (m : Memory) → inside s (suc n) a ≡ false → safe_copy s t n m a ≡ m a
unfolding safe_copy
safe_copy-outside s t zero a m h = ground arith
safe_copy-outside s t (suc n) a m h =
    let rest = safe_copy-outside (s + 1) (t + 1) n a (update m s (m t)) (ground arith) in
    ground (arith, rest)

text_cons :
    (n s v : ℕ) (m : Memory) (tail : List ℕ)
    → m s ≡ v
    → (v == 0) ≡ false
    → text n (s + 1) m ≡ tail
    → text (suc n) s m ≡ v ∷ tail
unfolding text
text_cons n s v m tail here byte rest = rw (here, byte, rest) refl

text_nul : (n s : ℕ) (m : Memory) → m s ≡ 0 → text (suc n) s m ≡ []
unfolding text
text_nul n s m here = rw here refl

safe_copy-more :
    (s t n : ℕ) (m : Memory)
    → (m t == 0) ≡ false
    → safe_copy s t (suc n) m ≡ safe_copy (s + 1) (t + 1) n (update m s (m t))
unfolding safe_copy
safe_copy-more s t n m e = rw e refl

safe_copy-last :
    (s t n : ℕ) (m : Memory)
    → (m t == 0) ≡ true
    → safe_copy s t (suc n) m ≡ update (update m s (m t)) (s + 1) 0
unfolding safe_copy
safe_copy-last s t n m e = rw e refl

safe_copy-zero : (s t : ℕ) (m : Memory) → safe_copy s t zero m s ≡ 0
unfolding safe_copy
safe_copy-zero s t m = ground arith

text-zero : (s : ℕ) (m : Memory) → text 0 s m ≡ []
unfolding text
text-zero s m = refl

text-safe_copy :
    (s t n : ℕ) (m : Memory) → Apart s (suc n) t n → text (suc n) s (safe_copy s t n m) ≡ text n t m
text-safe_copy s t zero m h = text_nul 0 s _ (safe_copy-zero s t m) ∙ sym (text-zero t m)
text-safe_copy s t (suc n) m h = elim (Bool-cases (m t == 0)) [
  | inl e ↦
      let nul : update (update m s (m t)) (s + 1) 0 s ≡ 0 = ground arith in
      rw (safe_copy-last s t n m e) (text_nul (suc n) s _ nul ∙ sym (text_nul n t m (ground arith)))
  | inr e ↦
      let here = safe_copy-outside (s + 1) (t + 1) n s (update m s (m t)) (ground arith) in
      let byte : safe_copy (s + 1) (t + 1) n (update m s (m t)) s ≡ m t = ground (arith, here) in
      let rest = text-safe_copy (s + 1) (t + 1) n (update m s (m t)) (ground arith) in
      let same = text-update n (t + 1) s (m t) m (ground arith) in
      rw (safe_copy-more s t n m e) (
        text_cons (suc n) s (m t) _ (text n (t + 1) m) byte e (rest ∙ same)
        ∙ sym (text_cons n t (m t) m (text n (t + 1) m) refl e refl))
]

safestrcpy-safe_copy : (s t n : ℕ) (m : Memory) → safestrcpy s t (suc n) m ≡ safe_copy s t n m
unfolding safestrcpy
safestrcpy-safe_copy s t n m = refl

-- `strncpy` leaves in the destination the string of the source, cut to `n` bytes, and changes no
-- other byte.
pub strncpy_lem :
    (s t n : ℕ) (m : Memory)
    → Apart s n t n
    → (text n s (strncpy s t n m) ≡ text n t m)
      × ((a : ℕ) → inside s n a ≡ false → strncpy s t n m a ≡ m a)
strncpy_lem s t n m h = (text-strncpy s t n m h, λ a out. strncpy-outside s t n a m out)

-- `safestrcpy` with a size of `n + 1` leaves in the destination the string of the source, cut to `n`
-- bytes so that its null byte has room, and changes no byte outside.
pub safestrcpy_lem :
    (s t n : ℕ) (m : Memory)
    → Apart s (suc n) t n
    → (text (suc n) s (safestrcpy s t (suc n) m) ≡ text n t m)
      × ((a : ℕ) → inside s (suc n) a ≡ false → safestrcpy s t (suc n) m a ≡ m a)
safestrcpy_lem s t n m h =
    rw (safestrcpy-safe_copy s t n m)
      (text-safe_copy s t n m h, λ a out. safe_copy-outside s t n a m out)

the_start : (s : ℕ) → s + 0 ≡ s
the_start s = omega arith

shift : (s n : ℕ) → s + 1 + n ≡ s + suc n
shift s n = omega arith

-- `strlen` answers the length of the string, given as many rounds as it takes.
pub strlen_lem :
    (fuel s n : ℕ) (m : Memory)
    → m (s + n) ≡ 0
    → n < fuel
    → strlen fuel s m ≡ some (length (text fuel s m))
unfolding strlen text
strlen_lem zero s n m z h = absurd (omega arith)
strlen_lem (suc fuel) s zero m z h =
    let here : m s ≡ 0 = rw (the_start s) at z in
    let test : (m s == 0) ≡ true = ground arith in rw (strlen, test) refl
strlen_lem (suc fuel) s (suc n) m z h = elim (Bool-cases (m s == 0)) [
  | inl e ↦ rw (strlen, e) refl
  | inr e ↦
      let next : m (s + 1 + n) ≡ 0 = rw (shift s n) z in
      rw (strlen, e, strlen_lem fuel (s + 1) n m next (omega arith)) (ap some (omega arith))
]
