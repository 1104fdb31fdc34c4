-- ===== src/Console/Slices.antt =====
-- Lists of consecutive values of a function, for the ring of kernel/console.c and its writes.
use mit_operating_system_eng.Base.{
  ℕ, zero, suc, ◌+◌, ◌<◌, ◌≡◌, refl, sym, ap, ◌∙◌, List, [], ◌∷◌, ◌++◌, length, arith,
}

unfoldable pub slice : (ℕ → ℕ) → ℕ → ℕ → List ℕ
slice f a zero = []
slice f a (suc n) = f a ∷ slice f (a + 1) n

unfoldable pub drop_last : List ℕ → List ℕ
drop_last [] = []
drop_last (x ∷ []) = []
drop_last (x ∷ y ∷ ys) = x ∷ drop_last (y ∷ ys)

pub length-slice : (f : ℕ → ℕ) (a n : ℕ) → length (slice f a n) ≡ n
unfolding slice
length-slice f a zero = refl
length-slice f a (suc n) = ap suc (length-slice f (a + 1) n)

zero_right : (a : ℕ) → a + 0 ≡ a
zero_right a = omega arith

-- Two stretches with the same values.
pub slice_same :
    (f g : ℕ → ℕ) (a b n : ℕ)
    → ((k : ℕ) → k < n → f (a + k) ≡ g (b + k))
    → slice f a n ≡ slice g b n
unfolding slice
slice_same f g a b zero same = refl
slice_same f g a b (suc n) same =
    let first : f a ≡ g b = rw (zero_right a, zero_right b) at (same 0 (omega arith)) in
    let rest =
      slice_same f g (a + 1) (b + 1) n
        (λ k h. ap f (omega arith) ∙ (same (suc k) (omega arith) ∙ ap g (omega arith))) in
    rw (first, rest) refl

pub slice-snoc : (f : ℕ → ℕ) (a n : ℕ) → slice f a (suc n) ≡ slice f a n ++ (f (a + n) ∷ [])
unfolding slice
slice-snoc f a zero = ap (λ k. f k ∷ []) (omega arith)
slice-snoc f a (suc n) =
    ap (λ ys. f a ∷ ys)
      (slice-snoc f (a + 1) n ∙ ap (λ k. slice f (a + 1) n ++ (f k ∷ [])) (omega arith))

pub slice-append : (f : ℕ → ℕ) (a m n : ℕ) → slice f a (m + n) ≡ slice f a m ++ slice f (a + m) n
unfolding slice
slice-append f a zero n =
    let left : slice f a (0 + n) ≡ slice f a n = ap (slice f a) (omega arith) in
    left ∙ sym (ap (λ k. slice f k n) (zero_right a))
slice-append f a (suc m) n =
    let count : suc m + n ≡ suc (m + n) = omega arith in
    let left = ap (slice f a) count in
    let start : a + 1 + m ≡ a + suc m = omega arith in
    left ∙ ap (λ ys. f a ∷ ys) (slice-append f (a + 1) m n ∙ rw start refl)

pub drop_last-slice : (f : ℕ → ℕ) (a n : ℕ) → drop_last (slice f a (suc n)) ≡ slice f a n
unfolding drop_last slice
drop_last-slice f a zero = refl
drop_last-slice f a (suc n) = ap (λ ys. f a ∷ ys) (drop_last-slice f (a + 1) n)
