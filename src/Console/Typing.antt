-- ===== src/Console/Typing.antt =====
-- `consoleintr` of kernel/console.c does to its ring what a typed character does to the editor.
use mit_operating_system_eng.Base.{
  ℕ, zero, suc, ◌+◌, ◌^◌, ◌<◌, ◌≡◌, refl, ap, inl, inr, true, false, not, ◌&&◌, ◌||◌, [], length,
  ltb, ◌==◌, if◌then◌else◌, Bool-cases, arith,
}
use mit_operating_system_eng.Console.{Cons, input_buf_size, rubout, is_room, newline, consoleintr}
use mit_operating_system_eng.Console.Slices.{slice, length-slice}
use mit_operating_system_eng.Console.Ring.{
  byte_at, ready_len, edit_len, ready, edit, IsValid, IsValid-Fits, held_sum, rubout-IsValid,
}
use mit_operating_system_eng.Console.Editor.{view, take_back, one_back, press}
use mit_operating_system_eng.Console.Keys.{rubout-view, kill_line_lem, commit-view, commit-IsValid}

nl_byte : (c : ℕ) → c < 2 ^ 8 → newline c < 2 ^ 8
nl_byte c h = ground arith

module _ (c : ℕ) (s : Cons) (v : IsValid s) (byte : c < 2 ^ 8) where
  back_at :
      (n : ℕ)
      → edit_len s ≡ n
      → (view (if not (s.e == s.w) then rubout s else s) ≡ take_back (one_back (edit s)) (view s))
        × IsValid (if not (s.e == s.w) then rubout s else s)
  unfolding take_back slice
  back_at zero e =
      let x = v.w_word in
      let y = v.e_word in
      let stop : (s.e == s.w) ≡ true = ground arith in
      let empty : edit s ≡ [] = ap (slice (byte_at s.buf) s.w) e in
      rw (stop, ap one_back empty) (refl, v)
  back_at (suc n) e =
      let x = v.w_word in
      let y = v.e_word in
      let more : (s.e == s.w) ≡ false = ground arith in
      let some_left : one_back (edit s) ≡ 1 = ap (λ k. one_back (slice (byte_at s.buf) s.w k)) e in
      rw (more, some_left) (rubout-view s v n e, rubout-IsValid s v n e)

  -- On a valid ring, each byte that is typed does to the lines and the screen what it does to the
  -- editor, wakes the reader just where the editor hands a line over, and leaves the ring valid.
  pub consoleintr_lem :
      (((consoleintr c s).0, view (consoleintr c s).1) ≡ press c (view s))
      × IsValid (consoleintr c s).1
  unfolding consoleintr
  consoleintr_lem =
      let l = length-slice (byte_at s.buf) s.r (ready_len s) in
      let l' = length-slice (byte_at s.buf) s.w (edit_len s) in
      let held = held_sum s (IsValid-Fits v) in
      elim (Bool-cases (c == 16)) [
        | inl a ↦ rw a (refl, v)
        | inr a ↦ elim (Bool-cases (c == 21)) [
          | inl b ↦
              let (k, k') =
                kill_line_lem input_buf_size (edit_len s) s v refl
                  (let d = v.small in omega arith) in
              (rw (a, b, l', k) refl, rw (a, b) k')
          | inr b ↦ elim (Bool-cases (c == 8 || c == 127)) [
            | inl d ↦
                let (k, k') = back_at (edit_len s) refl in (rw (a, b, d, k) refl, rw (a, b, d) k')
            | inr d ↦ elim (Bool-cases (not (c == 0) && is_room s)) [
              | inl e ↦
                  let e' : (not (c == 0) && ltb (ready_len s + edit_len s) 128) ≡ true =
                    rw held at e in
                  let e2 : (not (c == 0) && ltb (length (ready s) + length (edit s)) 128) ≡ true =
                    rw (l, l') e' in
                  let room : ready_len s + edit_len s < input_buf_size = ground arith in
                  (
                    rw (a, b, d, e, e2) (commit-view (newline c) s v (nl_byte c byte) room),
                    rw (a, b, d, e) (commit-IsValid (newline c) s v (nl_byte c byte) room),
                  )
              | inr e ↦
                  let e' : (not (c == 0) && ltb (ready_len s + edit_len s) 128) ≡ false =
                    rw held at e in
                  let e2 : (not (c == 0) && ltb (length (ready s) + length (edit s)) 128) ≡ false =
                    rw (l, l') e' in
                  (rw (a, b, d, e, e2) refl, rw (a, b, d, e) v)
            ]
          ]
        ]
      ]
