-- ===== src/Pipe.antt =====
-- kernel/pipe.c: a ring of PIPESIZE bytes between a writer and a reader. A call runs under the
-- pipe's lock until it returns or sleeps; when it is woken it goes on from where it slept.
-- `copyin` and `copyout` of kernel/vm.c enter as the outcome of the copy at each offset, and the
-- answer of `killed` as a Boolean.
pub mod Window
pub mod Fifo
pub mod Ends
mod Tests
use mit_operating_system_eng.Base.{
  ℕ, zero, suc, ◌+◌, ◌-◌, ◌%◌, ◌^◌, Bool, true, false, not, ◌&&◌, ◌||◌, Option, none, some, List,
  [], ◌∷◌, ◌++◌, get_or, set, replicate, ◌==◌, if◌then◌else◌,
}

abbrev pub pipe_size : ℕ
pipe_size = 512

-- `struct pipe`; `nread` and `nwrite` are `uint`s.
pub record Pipe : Type 0 where
  pub content : List ℕ
  pub nread : ℕ
  pub nwrite : ℕ
  pub readopen : Bool
  pub writeopen : Bool

-- The pipe that `pipealloc` sets up in a fresh page, whose bytes are `page`.
pub fresh : List ℕ → Pipe
fresh page = record { content = page; nread = 0; nwrite = 0; readopen = true; writeopen = true }

abbrev pub inc : ℕ → ℕ
inc n = (n + 1) % 2 ^ 32

-- How a call ends or pauses: it returns `i`, returns -1, or sleeps with `i` bytes done.
pub data Reply : Type 0 where
  returns : (i : ℕ) → Reply
  fails : Reply
  sleeps : (i : ℕ) → Reply

pub put : ℕ → Pipe → Pipe
put ch pi = record pi {
  content = set pi.content (pi.nwrite % pipe_size) ch;
  nwrite = inc pi.nwrite;
}

pub is_full : Pipe → Bool
is_full pi = pi.nwrite == (pi.nread + pipe_size) % 2 ^ 32

-- The loop of `pipewrite` with `rest` bytes to go, `i` done.
pub write_from : (ℕ → Option ℕ) → Bool → ℕ → ℕ → Pipe → Reply × Pipe
unfolding put is_full
write_from copyin killed zero i pi = (returns i, pi)
write_from copyin killed (suc rest) i pi =
    if not pi.readopen || killed
    then (fails, pi)
    else if is_full pi
    then (sleeps i, pi)
    else elim (copyin i) [
      | none ↦ (returns i, pi)
      | some ch ↦ write_from copyin killed rest (i + 1) (put ch pi)
    ]

pub pipewrite : (ℕ → Option ℕ) → Bool → ℕ → Pipe → Reply × Pipe
pipewrite copyin killed n pi = write_from copyin killed n 0 pi

pub is_empty : Pipe → Bool
is_empty pi = pi.nread == pi.nwrite

pub next_byte : Pipe → ℕ
next_byte pi = get_or pi.content (pi.nread % pipe_size) 0

pub skip : Pipe → Pipe
skip pi = record pi { nread = inc pi.nread }

-- What the copy loop of `piperead` leaves: how many bytes, which, and the pipe.
pub record Got : Type 0 where
  pub count : ℕ
  pub bytes : List ℕ
  pub pipe : Pipe

-- The loop with `rest` bytes to go, `i` done, and `out` delivered. A byte is taken out of the pipe
-- before it is copied.
pub read_from : (ℕ → Bool) → ℕ → ℕ → List ℕ → Pipe → Got
unfolding is_empty next_byte skip
read_from copyout zero i out pi = record { count = i; bytes = out; pipe = pi }
read_from copyout (suc rest) i out pi =
    let ch = next_byte pi in
    let more = read_from copyout rest (i + 1) (out ++ (ch ∷ [])) (skip pi) in
    if is_empty pi
    then record { count = i; bytes = out; pipe = pi }
    else if copyout i
    then more
    else record { count = i; bytes = out; pipe = skip pi }

-- A round of `piperead`: asleep while there is nothing to read and a writer is left.
pub piperead : (ℕ → Bool) → Bool → ℕ → Pipe → Reply × List ℕ × Pipe
unfolding is_empty read_from
piperead copyout killed n pi =
    let got = read_from copyout n 0 [] pi in
    if is_empty pi && pi.writeopen
    then (if killed then (fails, [], pi) else (sleeps 0, [], pi))
    else (returns got.count, got.bytes, got.pipe)

-- What processes sleep on: a reader on the address of `nread`, a writer on that of `nwrite`.
pub data Chan : Type 0 where
  at_nread at_nwrite : Chan

-- `pipeclose`: whom it wakes, and the pipe; at `none` both ends are closed and the page is freed.
pub pipeclose : Bool → Pipe → Chan × Option Pipe
pipeclose writable pi =
    let pi' =
      if writable then record pi { writeopen = false } else record pi { readopen = false } in
    (
      if writable then at_nread else at_nwrite,
      if not pi'.readopen && not pi'.writeopen then none else some pi',
    )
