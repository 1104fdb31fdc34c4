-- ===== src/Console/Keys.antt =====
-- What one key does to the ring of kernel/console.c: a character is taken back, a line is killed, a
-- character is stored and the line handed over.
use mit_operating_system_eng.Base.{
  ℕ, zero, suc, ◌+◌, ◌-◌, ◌%◌, ◌^◌, ◌≤◌, ◌<◌, ◌≡◌, ◌≢◌, refl, sym, ap, ◌∙◌, inl, inr, true, false,
  ◌||◌, [], ◌∷◌, ◌++◌, ◌==◌, Bool-cases, update, arith,
}
use mit_operating_system_eng.Console.{
  Cons, input_buf_size, backspace, consputc, rubout, store, commit, kill_line,
}
use mit_operating_system_eng.Console.Slices.{
  slice, drop_last, length-slice, slice-snoc, slice-append, drop_last-slice,
}
use mit_operating_system_eng.Console.Ring.{
  byte_at, ready_len, edit_len, ready, edit, Fits, IsValid, slice_wrap, slice_apart, held_sum,
  rubout-IsValid,
}
use mit_operating_system_eng.Console.Editor.{Line, view, take_back, add}

pub rubout-view :
    (s : Cons) (v : IsValid s) (n : ℕ)
    → edit_len s ≡ suc n
    → view (rubout s)
      ≡ record (view s) { typed = drop_last (edit s); screen = consputc backspace s.out }
rubout-view s v n e =
    let b = v.w_word in
    let c = v.e_word in
    let shorter : edit_len (rubout s) ≡ n = omega arith in
    let left = ap (slice (byte_at s.buf) s.w) shorter in
    let right =
      ap (λ k. drop_last (slice (byte_at s.buf) s.w k)) e ∙ drop_last-slice (byte_at s.buf) s.w n in
    ap (λ ys. record { handed = ready s; typed = ys; screen = consputc backspace s.out })
      (left ∙ sym right)

module _ (c : ℕ) (s : Cons) (v : IsValid s) (room : ready_len s + edit_len s < input_buf_size) where
  store-ready : ready (store c s) ≡ ready s
  store-ready =
      slice_apart s.buf (s.e % input_buf_size) (c % 2 ^ 8) s.r (ready_len s)
        (λ k h. let x = v.r_word in let y = v.w_word in let z = v.e_word in omega arith)

  store-edit : edit (store c s) ≡ edit s ++ (c % 2 ^ 8 ∷ [])
  store-edit =
      let x = v.r_word in
      let y = v.w_word in
      let z = v.e_word in
      let longer : edit_len (store c s) ≡ suc (edit_len s) = omega arith in
      let there : (s.w + edit_len s) % 128 ≡ s.e % 128 = omega arith in
      let self : (s.e % 128 == s.e % 128) ≡ true = ground arith in
      let front =
        slice_apart s.buf (s.e % input_buf_size) (c % 2 ^ 8) s.w (edit_len s)
          (λ k h. omega arith) in
      ap (slice (byte_at (update s.buf (s.e % input_buf_size) (c % 2 ^ 8))) s.w) longer
      ∙ (slice-snoc (byte_at (update s.buf (s.e % input_buf_size) (c % 2 ^ 8))) s.w (edit_len s)
          ∙ rw (there, self, front) refl)

-- The loop of control-U stops with the line, on fuel for as many characters.
pub kill_line_lem :
    (fuel n : ℕ) (s : Cons)
    → IsValid s
    → edit_len s ≡ n
    → n ≤ fuel
    → (view (kill_line fuel s) ≡ take_back n (view s)) × IsValid (kill_line fuel s)
unfolding kill_line take_back
kill_line_lem zero zero s v e small = (refl, v)
kill_line_lem zero (suc n) s v e small = absurd (omega arith)
kill_line_lem (suc fuel) zero s v e small =
    let b = v.w_word in
    let c = v.e_word in let stop : (s.e == s.w) ≡ true = ground arith in (rw stop refl, rw stop v)
kill_line_lem (suc fuel) (suc n) s v e small =
    let b = v.w_word in
    let c = v.e_word in
    let more : (s.e == s.w) ≡ false = ground arith in
    let place : (s.w + n) % 128 ≡ (s.e + 2 ^ 32 - 1) % 2 ^ 32 % 128 = omega arith in
    let text : (s.buf ((s.e + 2 ^ 32 - 1) % 2 ^ 32 % 128) == 10) ≡ false =
      let h = v.open_line n (omega arith) in let h' = rw place at h in ground (arith, h') in
    let (same, valid) =
      kill_line_lem fuel n (rubout s) (rubout-IsValid s v n e) (omega arith) (omega arith) in
    (rw (more, text) (same ∙ ap (take_back n) (rubout-view s v n e)), rw (more, text) valid)

module _ (s : Cons) (v : Fits s) where
  hand-view :
      view (record s { w = s.e }) ≡ record (view s) { handed = ready s ++ edit s; typed = [] }
  unfolding slice
  hand-view =
      let none_left : (s.e + 2 ^ 32 - s.e) % 2 ^ 32 ≡ 0 = let c = v.e_word in omega arith in
      let all = held_sum s v in
      let parts = slice-append (byte_at s.buf) s.r (ready_len s) (edit_len s) in
      let turn =
        slice_wrap s.buf (s.r + ready_len s) s.w (edit_len s)
          (let a = v.r_word in let b = v.w_word in omega arith) in
      rw (all, none_left, parts, turn) refl

  hand-IsValid : IsValid (record s { w = s.e })
  hand-IsValid =
      let a = v.r_word in
      let b = v.w_word in
      let c = v.e_word in
      let d = v.small in
      record {
        r_word = a;
        w_word = c;
        e_word = c;
        small = omega arith;
        open_line = λ k h. absurd (omega arith);
      }

module _ (c : ℕ) (s : Cons) (v : IsValid s) (byte : c < 2 ^ 8)
    (room : ready_len s + edit_len s < input_buf_size) where
  store-view :
      view (store c s)
      ≡ record { handed = ready s; typed = edit s ++ (c ∷ []); screen = consputc c s.out }
  store-view =
      let same : c % 2 ^ 8 ≡ c = ground arith in
      rw (store-ready c s v room, store-edit c s v room, same) refl

  store-len : (ready_len (store c s) ≡ ready_len s) × (edit_len (store c s) ≡ suc (edit_len s))
  store-len = let x = v.r_word in let y = v.w_word in let z = v.e_word in (refl, omega arith)

  -- What is stored leaves the line open, unless it is a newline.
  store-open : c ≢ 10 → (k : ℕ) → k < edit_len (store c s) → byte_at (store c s).buf (s.w + k) ≢ 10
  store-open text k h =
      let x = v.r_word in
      let y = v.w_word in
      let z = v.e_word in
      elim (Bool-cases (k == edit_len s)) [
        | inl last ↦ let there : s.e % 128 ≡ (s.w + k) % 128 = ground arith in ground arith
        | inr front ↦
            let there : s.e % 128 ≢ (s.w + k) % 128 = ground arith in
            let old = v.open_line k (ground arith) in ground arith
      ]

  store-Fits : Fits (store c s)
  store-Fits =
      let x = v.r_word in
      let y = v.w_word in
      let z = v.e_word in
      let (p, q) = store-len in
      record { r_word = x; w_word = y; e_word = omega arith; small = rw q (omega arith) }

  store-IsValid : c ≢ 10 → IsValid (store c s)
  store-IsValid text =
      let f = store-Fits in
      record {
        r_word = f.r_word;
        w_word = f.w_word;
        e_word = f.e_word;
        small = f.small;
        open_line = store-open text;
      }

  pub commit-view : ((commit c (store c s)).0, view (commit c (store c s)).1) ≡ add c (view s)
  commit-view =
      let l = length-slice (byte_at s.buf) s.r (ready_len s) in
      let l' = length-slice (byte_at s.buf) s.w (edit_len s) in
      let (p, q) = store-len in
      let same : c % 2 ^ 8 ≡ c = ground arith in
      let handed : record (view (store c s)) {
        handed = ready (store c s) ++ edit (store c s);
        typed = [];
      }
          ≡ record {
            handed = ready s ++ (edit s ++ (c ∷ []));
            typed = [];
            screen = consputc c s.out;
          } =
        rw (store-ready c s v room, store-edit c s v room, same) refl in
      let held : ((store c s).e + 2 ^ 32 - s.r) % 2 ^ 32 ≡ ready_len s + edit_len s + 1 =
        held_sum (store c s) store-Fits ∙ omega (arith, p, q) in
      elim (Bool-cases (c == 10 || (c == 4 || ready_len s + edit_len s + 1 == 128))) [
        | inl t ↦
            rw (held, l, l', t)
              (ap (λ (x : Line). (true, x)) (hand-view (store c s) store-Fits ∙ handed))
        | inr t ↦ rw (held, l, l', t) (ap (λ (x : Line). (false, x)) store-view)
      ]

  pub commit-IsValid : IsValid (commit c (store c s)).1
  commit-IsValid =
      elim (Bool-cases
        (c == 10 || (c == 4 || (((store c s).e + 2 ^ 32 - s.r) % 2 ^ 32 == input_buf_size)))) [
          | inl t ↦ rw t (hand-IsValid (store c s) store-Fits)
          | inr t ↦ rw t (store-IsValid (ground arith))
        ]
