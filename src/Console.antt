-- ===== src/Console.antt =====
-- kernel/console.c: the ring of typed bytes, the editing of the last line, and the reads and writes
-- of processes. A handler or a call runs under `cons.lock` until it returns or sleeps. The uart's
-- output is the list `out` of the bytes that were sent; `either_copyin`, `either_copyout` and
-- `killed` enter as what they answer.
pub mod Slices
pub mod Ring
pub mod Editor
pub mod Keys
pub mod Typing
pub mod Reading
pub mod Writing
mod Tests
use mit_operating_system_eng.Base.{
  ℕ, zero, suc, ◌+◌, ◌-◌, ◌%◌, ◌^◌, Bool, true, false, not, ◌&&◌, ◌||◌, Option, none, some, List,
  [], ◌∷◌, ◌++◌, ltb, ◌==◌, if◌then◌else◌, update,
}
use mit_operating_system_eng.Pipe.{Reply, returns, fails, sleeps}

abbrev pub backspace : ℕ
backspace = 256

abbrev pub input_buf_size : ℕ
input_buf_size = 128

-- `r`, `w` and `e` are `uint`s.
pub record Cons : Type 0 where
  pub buf : ℕ → ℕ
  pub r : ℕ
  pub w : ℕ
  pub e : ℕ
  pub out : List ℕ

abbrev pub consputc : ℕ → List ℕ → List ℕ
consputc c out = if c == backspace then out ++ (8 ∷ 32 ∷ 8 ∷ []) else out ++ (c % 2 ^ 8 ∷ [])

-- One character is taken off the line.
abbrev pub rubout : Cons → Cons
rubout s = record s { e = (s.e + 2 ^ 32 - 1) % 2 ^ 32; out = consputc backspace s.out }

-- The loop that kills the line, on fuel.
unfoldable pub kill_line : ℕ → Cons → Cons
kill_line zero s = s
kill_line (suc n) s =
    let rest = kill_line n (rubout s) in
    if not (s.e == s.w) && not (s.buf ((s.e + 2 ^ 32 - 1) % 2 ^ 32 % input_buf_size) == 10)
    then rest
    else s

abbrev pub is_room : Cons → Bool
is_room s = ltb ((s.e + 2 ^ 32 - s.r) % 2 ^ 32) input_buf_size

abbrev pub store : ℕ → Cons → Cons
store c s = record s {
  buf = update s.buf (s.e % input_buf_size) (c % 2 ^ 8);
  e = (s.e + 1) % 2 ^ 32;
  out = consputc c s.out;
}

-- The line is handed over, and the reader woken, if it is complete.
abbrev pub commit : ℕ → Cons → Bool × Cons
commit c s =
    if c == 10 || (c == 4 || (s.e + 2 ^ 32 - s.r) % 2 ^ 32 == input_buf_size)
    then (true, record s { w = s.e })
    else (false, s)

abbrev pub newline : ℕ → ℕ
newline c = if c == 13 then 10 else c

-- `consoleintr`: whether it wakes the reader, and the console after it. What `procdump`
-- prints is left out.
unfoldable pub consoleintr : ℕ → Cons → Bool × Cons
consoleintr c s =
    if c == 16
    then (false, s)
    else if c == 21
    then (false, kill_line input_buf_size s)
    else if c == 8 || c == 127
    then (false, if not (s.e == s.w) then rubout s else s)
    else if not (c == 0) && is_room s
    then commit (newline c) (store (newline c) s)
    else (false, s)

-- What a call of `consoleread` has done when it returns or sleeps: the bytes copied out so far.
pub record Taken : Type 0 where
  pub reply : Reply
  pub bytes : List ℕ
  pub cons : Cons

-- The loop of `consoleread` with `rest` bytes to go, `i` done.
unfoldable pub read_from : (ℕ → Bool) → Bool → ℕ → ℕ → List ℕ → Cons → Taken
read_from copyout killed zero i bytes s = record { reply = returns i; bytes = bytes; cons = s }
read_from copyout killed (suc rest) i bytes s =
    let c = s.buf (s.r % input_buf_size) in
    let s' = record s { r = (s.r + 1) % 2 ^ 32 } in
    let more = read_from copyout killed rest (i + 1) (bytes ++ (c ∷ [])) s' in
    if s.r == s.w
    then record { reply = if killed then fails else sleeps i; bytes = bytes; cons = s }
    else if c == 4
    then record { reply = returns i; bytes = bytes; cons = if ltb 0 i then s else s' }
    else if not (copyout i)
    then record { reply = returns i; bytes = bytes; cons = s' }
    else if c == 10
    then record { reply = returns (i + 1); bytes = bytes ++ (c ∷ []); cons = s' }
    else more

unfoldable pub consoleread : (ℕ → Bool) → Bool → ℕ → Cons → Taken
consoleread copyout killed n s = read_from copyout killed n 0 [] s

-- The loop of `consolewrite` over chunks of 32 bytes, on fuel: how many bytes, and what was sent.
unfoldable pub write_from : (ℕ → ℕ → Option (List ℕ)) → ℕ → ℕ → ℕ → List ℕ → ℕ × List ℕ
write_from copyin zero i n out = (i, out)
write_from copyin (suc fuel) i n out =
    let nn = if ltb (n - i) 32 then n - i else 32 in
    if ltb i n
    then elim (copyin i nn) [
      | none ↦ (i, out)
      | some chunk ↦ write_from copyin fuel (i + nn) n (out ++ chunk)
    ]
    else (i, out)

unfoldable pub consolewrite : (ℕ → ℕ → Option (List ℕ)) → ℕ → List ℕ → ℕ × List ℕ
consolewrite copyin n out = write_from copyin n 0 n out
