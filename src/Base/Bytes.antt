-- ===== src/Base/Bytes.antt =====
-- Bytes of a list that is read from a position on and filled up with zeros.
use Prim.Native.Nat.{ℕ, zero, suc, ◌+◌, ◌-◌, ◌≤◌, min}
use mathlib.Core.Path.{◌≡◌, refl, sym, ◌∙◌}
use mathlib.Core.List.{List, [], ◌∷◌, ◌++◌}
use native.Mathlib.Omega.{arith}
use mit_operating_system_eng.Base.Lists.{length, take, drop, replicate, get_or}

pub get_or-past : (bytes : List ℕ) (i : ℕ) → length bytes ≤ i → get_or bytes i 0 ≡ 0
get_or-past [] i h = refl
get_or-past (b ∷ bytes) zero h = absurd (omega arith)
get_or-past (b ∷ bytes) (suc i) h = get_or-past bytes i (omega arith)

pub get_or-zeros : (k i : ℕ) → get_or {A = ℕ} (replicate k 0) i 0 ≡ 0
get_or-zeros zero i = refl
get_or-zeros (suc k) zero = refl
get_or-zeros (suc k) (suc i) = get_or-zeros k i

pub get_or-drop :
    (bytes : List ℕ) (off i j : ℕ) → j ≡ off + i → get_or (drop off bytes) i 0 ≡ get_or bytes j 0
get_or-drop bytes zero i j e = let same : j ≡ i = omega arith in rw same refl
get_or-drop [] (suc off) i j e = refl
get_or-drop (b ∷ bytes) (suc off) i zero e = absurd (omega arith)
get_or-drop (b ∷ bytes) (suc off) i (suc j) e = get_or-drop bytes off i j (omega arith)

pub length-drop : (bytes : List ℕ) (off : ℕ) → length (drop off bytes) ≡ length bytes - off
length-drop bytes zero = omega arith
length-drop [] (suc off) = omega arith
length-drop (b ∷ bytes) (suc off) = omega (arith, length-drop bytes off)

pub length-take : (n : ℕ) (bytes : List ℕ) → length (take n bytes) ≡ min n (length bytes)
length-take zero bytes = omega arith
length-take (suc n) [] = omega arith
length-take (suc n) (b ∷ bytes) = omega (arith, length-take n bytes)

-- The first `n` bytes, filled up with zeros, agree with the bytes below `n`, and everywhere where
-- there are no more.
pub get_or-filled :
    (bytes : List ℕ) (n k i : ℕ)
    → (n ≤ i → length bytes ≤ n)
    → get_or (take n bytes ++ replicate k 0) i 0 ≡ get_or bytes i 0
get_or-filled bytes zero k i h =
    get_or-zeros k i ∙ sym (get_or-past bytes i (let l = h (omega arith) in omega arith))
get_or-filled [] (suc n) k i h = get_or-zeros k i
get_or-filled (b ∷ bytes) (suc n) k zero h = refl
get_or-filled (b ∷ bytes) (suc n) k (suc i) h =
    get_or-filled bytes n k i (λ l. let m = h (omega arith) in omega arith)
