-- ===== src/Strings/Compare.antt =====
-- `strncmp` and `strlen` of kernel/string.c, against the strings that the memory holds.
use mit_operating_system_eng.Base.{
  ℕ, zero, suc, ◌+◌, ◌<◌, ◌≡◌, refl, ◌↔◌, List, [], ◌∷◌, ◌==◌, if◌then◌else◌, arith,
}
use mit_operating_system_eng.Strings.{Memory, difference, strncmp}

-- The string at `s`: its bytes before the first null byte, `n` at most.
unfoldable pub text : ℕ → ℕ → Memory → List ℕ
text zero s m = []
text (suc n) s m = let rest = text n (s + 1) m in if m s == 0 then [] else m s ∷ rest

pub difference-eq_zero : (a b : ℕ) → a < 256 → b < 256 → (difference a b ≡ 0) ↔ (a ≡ b)
difference-eq_zero a b h k = (λ e. omega arith, λ e. omega arith)

-- Every cell of the memory holds a byte.
abbrev pub Bytes : Memory → Type 0
Bytes m = (a : ℕ) → m a < 256

-- `strncmp` answers 0 exactly if the strings, cut to `n` bytes, are equal.
pub strncmp-eq_zero :
    (m : Memory) (p q n : ℕ) → Bytes m → (strncmp m p q n ≡ 0) ↔ (text n p m ≡ text n q m)
unfolding strncmp text
strncmp-eq_zero m p q zero h = (λ e. refl, λ e. refl)
strncmp-eq_zero m p q (suc n) h =
    let rest = strncmp-eq_zero m (p + 1) (q + 1) n h in
    let d = difference-eq_zero (m p) (m q) (h p) (h q) in
    (λ e. ground (arith, rest.0, d.0), λ e. ground (arith, rest.1, d.1))
