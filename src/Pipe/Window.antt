-- ===== src/Pipe/Window.antt =====
-- The bytes in the ring of kernel/pipe.c, oldest first.
use mit_operating_system_eng.Base.{
  ℕ, zero, suc, ◌+◌, ◌-◌, ◌%◌, ◌^◌, ◌≤◌, ◌<◌, ◌≡◌, refl, ap, ◌∙◌, false, true, List, [], ◌∷◌, ◌++◌,
  length, length-set, get_or, set, get_or-set_self, get_or-set_ne, arith,
}
use mathlib.Core.Path.{ap₂}
use mit_operating_system_eng.Pipe.{Pipe, pipe_size, inc, put, skip, next_byte, is_full, is_empty}

-- the `n` bytes from count `r` on
unfoldable pub window : List ℕ → ℕ → ℕ → List ℕ
window content r zero = []
window content r (suc n) = get_or content (r % pipe_size) 0 ∷ window content (inc r) n

-- how many bytes the pipe holds
abbrev pub held : Pipe → ℕ
held pi = (pi.nwrite + 2 ^ 32 - pi.nread) % 2 ^ 32

unfoldable pub contents : Pipe → List ℕ
unfolding window
contents pi = window pi.content pi.nread (held pi)

-- The ring has its size, and never holds more.
pub record IsValid (pi : Pipe) : Type 0 where
  pub size : length pi.content ≡ pipe_size
  pub small : held pi ≤ pipe_size
  pub read_word : pi.nread < 2 ^ 32
  pub write_word : pi.nwrite < 2 ^ 32

length-window : (content : List ℕ) (r n : ℕ) → length (window content r n) ≡ n
unfolding window
length-window content r zero = refl
length-window content r (suc n) = ap suc (length-window content (inc r) n)

pub length-contents : (pi : Pipe) → length (contents pi) ≡ held pi
unfolding contents
length-contents pi = length-window pi.content pi.nread (held pi)

-- A byte written behind the window extends it. 512 divides 2 ^ 32, so the counts may wrap.
window-set :
    (content : List ℕ) (x r n w : ℕ)
    → length content ≡ pipe_size
    → r < 2 ^ 32
    → n < pipe_size
    → w ≡ (r + n) % 2 ^ 32
    → window (set content (w % pipe_size) x) r (suc n) ≡ window content r n ++ (x ∷ [])
unfolding window
window-set content x r zero w size word small e =
    ap (λ b. b ∷ [])
      (ap (λ k. get_or (set content k x) (r % pipe_size) 0) (omega arith)
        ∙ get_or-set_self content (r % pipe_size) x 0 (omega arith))
window-set content x r (suc n) w size word small e =
    ap₂ ◌∷◌ (get_or-set_ne content (w % pipe_size) (r % pipe_size) x 0 (omega arith))
      (window-set content x (inc r) n w size (omega arith) (omega arith) (omega arith))

module _ {pi : Pipe} (v : IsValid pi) where
  pub put-contents : is_full pi ≡ false → (x : ℕ) → contents (put x pi) ≡ contents pi ++ (x ∷ [])
  unfolding put contents is_full
  put-contents room x =
      let grown : (inc pi.nwrite + 2 ^ 32 - pi.nread) % 2 ^ 32 ≡ suc (held pi) = ground arith in
      ap (window (set pi.content (pi.nwrite % pipe_size) x) pi.nread) grown
      ∙ window-set pi.content x pi.nread (held pi) pi.nwrite v.size v.read_word (ground arith)
          (omega arith)

  pub put-IsValid : is_full pi ≡ false → (x : ℕ) → IsValid (put x pi)
  unfolding put is_full
  put-IsValid room x = ground (arith, length-set pi.content (pi.nwrite % pipe_size) x)

  pub skip-contents : is_empty pi ≡ false → contents pi ≡ next_byte pi ∷ contents (skip pi)
  unfolding skip contents is_empty next_byte window
  skip-contents some_left =
      let shrunk : held pi ≡ suc ((pi.nwrite + 2 ^ 32 - inc pi.nread) % 2 ^ 32) = ground arith in
      ap (window pi.content pi.nread) shrunk

  pub skip-IsValid : is_empty pi ≡ false → IsValid (skip pi)
  unfolding skip is_empty
  skip-IsValid some_left = ground arith

pub empty-contents : {pi : Pipe} → IsValid pi → is_empty pi ≡ true → contents pi ≡ []
unfolding is_empty contents window
empty-contents {pi} v e =
    let none_held : held pi ≡ 0 = ground arith in ap (window pi.content pi.nread) none_held
