-- ===== src/Console/Reading.antt =====
-- `consoleread` of kernel/console.c delivers one line.
use mathlib.Core.List.{append-nil, append_assoc}
use mit_operating_system_eng.Base.{
  ℕ, zero, suc, ◌+◌, ◌%◌, ◌^◌, ◌<◌, ◌≡◌, ◌≢◌, refl, sym, ap, ◌∙◌, inl, inr, Bool, true, false, List,
  [], ◌∷◌, ◌++◌, length, All, ltb, ◌==◌, if◌then◌else◌, Bool-cases, arith,
}
use mit_operating_system_eng.Pipe.{returns}
use mit_operating_system_eng.Console.{Cons, input_buf_size, Taken, read_from, consoleread}
use mit_operating_system_eng.Console.Slices.{slice}
use mit_operating_system_eng.Console.Ring.{byte_at, ready_len, ready, edit, IsValid, slice_wrap}

-- The ring with the first byte taken.
abbrev skip : Cons → Cons
skip s = record s { r = (s.r + 1) % 2 ^ 32 }

-- What it means that `c` is the first byte that is ready, with `ys` behind it.
record First (s : Cons) (c : ℕ) (ys : List ℕ) : Type 0 where
  pub some_left : (s.r == s.w) ≡ false
  pub byte : s.buf (s.r % input_buf_size) ≡ c
  pub rest : ready (skip s) ≡ ys
  pub valid : IsValid (skip s)

head_same : (x y : ℕ) (xs ys : List ℕ) → x ∷ xs ≡ y ∷ ys → (x ≡ y) × (xs ≡ ys)
head_same x y xs ys e = (cc e, cc e)

ready-First :
    (s : Cons) (c : ℕ) (ys : List ℕ) (n : ℕ)
    → IsValid s
    → ready_len s ≡ n
    → ready s ≡ c ∷ ys
    → First s c ys
unfolding slice
ready-First s c ys zero v len e = absurd (cc (sym (ap (slice (byte_at s.buf) s.r) len) ∙ e))
ready-First s c ys (suc n) v len e =
    let x = v.r_word in
    let y = v.w_word in
    let z = v.e_word in
    let d = v.small in
    let shorter : ready_len (skip s) ≡ n = omega arith in
    let whole : s.buf (s.r % 128) ∷ slice (byte_at s.buf) (s.r + 1) n ≡ c ∷ ys =
      sym (ap (slice (byte_at s.buf) s.r) len) ∙ e in
    let (byte, rest) = head_same _ _ _ _ whole in
    record {
      some_left = ground arith;
      byte = byte;
      rest =
          ap (slice (byte_at s.buf) ((s.r + 1) % 2 ^ 32)) shorter
          ∙ (slice_wrap s.buf ((s.r + 1) % 2 ^ 32) (s.r + 1) n (omega arith) ∙ rest);
      valid = record {
        r_word = omega arith;
        w_word = y;
        e_word = z;
        small = omega arith;
        open_line = v.open_line;
      };
    }

-- A byte that does not end a line.
abbrev pub IsText : ℕ → Type 0
IsText c = (c ≢ 10) × (c ≢ 4)

-- The call has returned `count`, copied `bytes` out, and left `ys` ready and `line` being edited.
pub record Delivers (count : ℕ) (bytes ys line : List ℕ) (t : Taken) : Type 0 where
  pub reply : t.reply ≡ returns count
  pub copied : t.bytes ≡ bytes
  pub left : ready t.cons ≡ ys
  pub typed : edit t.cons ≡ line
  pub valid : IsValid t.cons

-- What is ready after a control-D that ends a read of `i` bytes.
abbrev pub after_eof : ℕ → List ℕ → List ℕ
after_eof i ys = if ltb 0 i then 4 ∷ ys else ys

module _ (copyout : ℕ → Bool) (killed : Bool) (copies : (k : ℕ) → copyout k ≡ true) where
  read_from-line :
      (text ys : List ℕ) (n i : ℕ) (bytes : List ℕ) (s : Cons)
      → IsValid s
      → ready s ≡ text ++ (10 ∷ ys)
      → All IsText text
      → length text < n
      → Delivers
          (i + length text + 1)
          (bytes ++ (text ++ (10 ∷ [])))
          ys
          (edit s)
          (read_from copyout killed n i bytes s)
  unfolding read_from
  read_from-line text ys zero i bytes s v e plain small = absurd (omega arith)
  read_from-line [] ys (suc n) i bytes s v e plain small =
      let f = ready-First s 10 ys (ready_len s) v refl e in
      let none_more : i + 0 + 1 ≡ i + 1 = omega arith in
      rw (f.some_left, f.byte, copies i, none_more)
        (record { reply = refl; copied = refl; left = f.rest; typed = refl; valid = f.valid })
  read_from-line (c ∷ text) ys (suc n) i bytes s v e plain small =
      let f = ready-First s c (text ++ (10 ∷ ys)) (ready_len s) v refl e in
      let (no_line, no_eof) = plain.0 in
      let a : (c == 4) ≡ false = ground arith in
      let b : (c == 10) ≡ false = ground arith in
      let later =
        read_from-line text ys n (i + 1) (bytes ++ (c ∷ [])) (skip s) f.valid f.rest plain.1
          (omega arith) in
      let count : i + suc (length text) + 1 ≡ i + 1 + length text + 1 = omega arith in
      rw
        (
          f.some_left,
          f.byte,
          a,
          copies i,
          b,
          count,
          sym (append_assoc bytes (c ∷ []) (text ++ (10 ∷ []))),
        )
        later

  read_from-eof :
      (text ys : List ℕ) (n i : ℕ) (bytes : List ℕ) (s : Cons)
      → IsValid s
      → ready s ≡ text ++ (4 ∷ ys)
      → All IsText text
      → length text < n
      → Delivers
          (i + length text)
          (bytes ++ text)
          (after_eof (i + length text) ys)
          (edit s)
          (read_from copyout killed n i bytes s)
  unfolding read_from
  read_from-eof text ys zero i bytes s v e plain small = absurd (omega arith)
  read_from-eof [] ys (suc n) i bytes s v e plain small =
      let f = ready-First s 4 ys (ready_len s) v refl e in
      let none_more : i + 0 ≡ i = omega arith in
      rw (f.some_left, f.byte, none_more, append-nil bytes)
        (elim (Bool-cases (ltb 0 i)) [
          | inl some_read ↦
              rw some_read
                (record { reply = refl; copied = refl; left = e; typed = refl; valid = v })
          | inr none_read ↦
              rw none_read (record {
                reply = refl;
                copied = refl;
                left = f.rest;
                typed = refl;
                valid = f.valid;
              })
        ])
  read_from-eof (c ∷ text) ys (suc n) i bytes s v e plain small =
      let f = ready-First s c (text ++ (4 ∷ ys)) (ready_len s) v refl e in
      let (no_line, no_eof) = plain.0 in
      let a : (c == 4) ≡ false = ground arith in
      let b : (c == 10) ≡ false = ground arith in
      let later =
        read_from-eof text ys n (i + 1) (bytes ++ (c ∷ [])) (skip s) f.valid f.rest plain.1
          (omega arith) in
      let count : i + suc (length text) ≡ i + 1 + length text = omega arith in
      rw (f.some_left, f.byte, a, copies i, b, count, sym (append_assoc bytes (c ∷ []) text)) later

  -- Where a whole line is ready that fits the caller's buffer and can be copied out, `consoleread`
  -- returns exactly that line with its newline, and leaves what is behind it.
  pub consoleread-line :
      (text ys : List ℕ) (n : ℕ) (s : Cons)
      → IsValid s
      → ready s ≡ text ++ (10 ∷ ys)
      → All IsText text
      → length text < n
      → Delivers (length text + 1) (text ++ (10 ∷ [])) ys (edit s) (consoleread copyout killed n s)
  unfolding consoleread
  consoleread-line text ys n s v e plain small =
      let none_before : 0 + length text ≡ length text = omega arith in
      rw none_before at (read_from-line text ys n 0 [] s v e plain small)

  pub consoleread-eof :
      (text ys : List ℕ) (n : ℕ) (s : Cons)
      → IsValid s
      → ready s ≡ text ++ (4 ∷ ys)
      → All IsText text
      → length text < n
      → Delivers
          (length text)
          text
          (after_eof (length text) ys)
          (edit s)
          (consoleread copyout killed n s)
  unfolding consoleread
  consoleread-eof text ys n s v e plain small =
      let none_before : 0 + length text ≡ length text = omega arith in
      rw none_before at (read_from-eof text ys n 0 [] s v e plain small)
