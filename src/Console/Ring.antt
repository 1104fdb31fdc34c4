-- ===== src/Console/Ring.antt =====
-- The ring of kernel/console.c as two lists: the bytes handed over, and the line being edited.
use mit_operating_system_eng.Base.{
  ℕ, suc, ◌+◌, ◌-◌, ◌%◌, ◌^◌, ◌≤◌, ◌<◌, ◌≡◌, ◌≢◌, ap, List, update, arith,
}
use mit_operating_system_eng.Console.{Cons, input_buf_size, rubout}
use mit_operating_system_eng.Console.Slices.{slice, slice_same}

-- The byte that a count stands for.
abbrev pub byte_at : (ℕ → ℕ) → ℕ → ℕ
byte_at buf k = buf (k % input_buf_size)

abbrev pub ready_len : Cons → ℕ
ready_len s = (s.w + 2 ^ 32 - s.r) % 2 ^ 32

abbrev pub edit_len : Cons → ℕ
edit_len s = (s.e + 2 ^ 32 - s.w) % 2 ^ 32

abbrev pub ready : Cons → List ℕ
ready s = slice (byte_at s.buf) s.r (ready_len s)

abbrev pub edit : Cons → List ℕ
edit s = slice (byte_at s.buf) s.w (edit_len s)

-- The ring does not overflow.
pub record Fits (s : Cons) : Type 0 where
  pub r_word : s.r < 2 ^ 32
  pub w_word : s.w < 2 ^ 32
  pub e_word : s.e < 2 ^ 32
  pub small : ready_len s + edit_len s ≤ input_buf_size

-- The ring does not overflow, and no line on it is complete but not handed over.
pub record IsValid (s : Cons) : Type 0 where
  pub r_word : s.r < 2 ^ 32
  pub w_word : s.w < 2 ^ 32
  pub e_word : s.e < 2 ^ 32
  pub small : ready_len s + edit_len s ≤ input_buf_size
  pub open_line : (k : ℕ) → k < edit_len s → byte_at s.buf (s.w + k) ≢ 10

pub IsValid-Fits : {s : Cons} → IsValid s → Fits s
IsValid-Fits v = record { r_word = v.r_word; w_word = v.w_word; e_word = v.e_word; small = v.small }

-- A count and its value modulo 2 ^ 32 stand for the same byte, since 128 divides 2 ^ 32.
pub slice_wrap :
    (buf : ℕ → ℕ) (a b n : ℕ)
    → a % 2 ^ 32 ≡ b % 2 ^ 32
    → slice (byte_at buf) a n ≡ slice (byte_at buf) b n
slice_wrap buf a b n e = slice_same (byte_at buf) (byte_at buf) a b n (λ k h. ap buf (omega arith))

-- A byte that is stored outside a stretch does not change it.
pub slice_apart :
    (buf : ℕ → ℕ) (p x a n : ℕ)
    → ((k : ℕ) → k < n → (a + k) % input_buf_size ≢ p)
    → slice (byte_at (update buf p x)) a n ≡ slice (byte_at buf) a n
slice_apart buf p x a n apart =
    slice_same (byte_at (update buf p x)) (byte_at buf) a a n
      (λ k h. let q = apart k h in ground arith)

pub held_sum : (s : Cons) → Fits s → (s.e + 2 ^ 32 - s.r) % 2 ^ 32 ≡ ready_len s + edit_len s
held_sum s v =
    let a = v.r_word in let b = v.w_word in let c = v.e_word in let d = v.small in omega arith

module _ (s : Cons) (v : IsValid s) where
  -- The end of the line.
  pub end_at : (s.w + edit_len s) % 2 ^ 32 ≡ s.e
  end_at = let b = v.w_word in let c = v.e_word in omega arith

  pub rubout-IsValid : (n : ℕ) → edit_len s ≡ suc n → IsValid (rubout s)
  rubout-IsValid n e =
      let a = v.r_word in
      let b = v.w_word in
      let c = v.e_word in
      let d = v.small in
      let shorter : edit_len (rubout s) ≡ n = omega arith in
      record {
        r_word = a;
        w_word = b;
        e_word = omega arith;
        small = omega arith;
        open_line = λ k h. v.open_line k (omega arith);
      }
