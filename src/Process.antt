-- ===== src/Process.antt =====
-- kernel/proc.c: the process table, sleep and wakeup, and the scheduler. A process is known by its
-- index in `proc`. A call, or a round of its loop up to a switch, is one function of the table: what
-- other CPUs do while it has let the locks go is not modelled. `swtch`, the contexts and the kernel
-- stacks are left to the assembly.
pub mod Sweep
pub mod Life
pub mod Inv
pub mod Calls
pub mod Born
pub mod Fork
pub mod Reap
pub mod Adopt
pub mod Reparent
pub mod Exit
pub mod Kill
pub mod Reach
mod Tests
use mit_operating_system_eng.Base.{
  ℕ, zero, suc, ◌+◌, ◌-◌, ◌%◌, ◌^◌, Bool, true, false, not, ◌&&◌, Option, none, some, List, [], ◌∷◌,
  ltb, ◌==◌, if◌then◌else◌, update, Outcome, ok, panic,
}
use mit_operating_system_eng.Mmap.{Vma}

abbrev pub nproc : ℕ
nproc = 64

pub data State : Type 0 where
  unused used sleeping runnable running zombie : State

abbrev pub is_unused : State → Bool
is_unused unused = true
is_unused _ = false

abbrev pub is_sleeping : State → Bool
is_sleeping sleeping = true
is_sleeping _ = false

abbrev pub is_runnable : State → Bool
is_runnable runnable = true
is_runnable _ = false

abbrev pub is_running : State → Bool
is_running running = true
is_running _ = false

abbrev pub is_zombie : State → Bool
is_zombie zombie = true
is_zombie _ = false

-- A channel: none, a process, as `kwait` uses it, or the address of something else.
pub data Chan : Type 0 where
  no_chan : Chan
  of_proc : ℕ → Chan
  at : ℕ → Chan

abbrev pub same_chan : Chan → Chan → Bool
same_chan no_chan no_chan = true
same_chan (of_proc i) (of_proc j) = i == j
same_chan (at a) (at b) = a == b
same_chan _ _ = false

-- `trapframe` and `pagetable` say whether the pointer is set.
pub record Proc : Type 0 where
  pub state : State
  pub chan : Chan
  pub killed : Bool
  pub xstate : ℕ
  pub pid : ℕ
  pub parent : Option ℕ
  pub sz : ℕ
  pub trapframe : Bool
  pub pagetable : Bool
  pub ofile : List (Option ℕ)
  pub cwd : Option ℕ
  pub name : List ℕ
  pub mmap_base : ℕ
  pub vma : List Vma

-- The table, `nextpid`, `initproc`, and the reference counts of files and inodes.
pub record Table : Type 0 where
  pub procs : ℕ → Proc
  pub next_pid : ℕ
  pub init : ℕ
  pub refs : ℕ → ℕ
  pub irefs : ℕ → ℕ

abbrev pub put : ℕ → Proc → Table → Table
put i p t = record t { procs = update t.procs i p }

-- A loop over the first `n` entries of the table, in order.
unfoldable pub each : ℕ → (ℕ → Proc → Proc) → (ℕ → Proc) → ℕ → Proc
each zero f procs = procs
each (suc n) f procs = let before = each n f procs in update before n (f n (before n))

-- The first of the `n` entries from `i` on that passes the test.
unfoldable pub find : ℕ → ℕ → (ℕ → Bool) → Option ℕ
find zero i test = none
find (suc n) i test = let rest = find n (i + 1) test in if test i then some i else rest

unfoldable pub procinit : Table → Table
procinit t = record t { procs = each nproc (λ i p. record p { state = unused }) t.procs }

-- The body of the loop of `wakeup`, called by process `me`.
abbrev pub wake : ℕ → Chan → ℕ → Proc → Proc
wake me chan i p =
    if not (i == me) && (is_sleeping p.state && same_chan p.chan chan)
    then record p { state = runnable }
    else p

unfoldable pub wakeup : ℕ → Chan → Table → Table
wakeup me chan t = record t { procs = each nproc (wake me chan) t.procs }

-- `sleep` up to the switch.
unfoldable pub sleep : ℕ → Chan → Table → Table
sleep me chan t = put me (record (t.procs me) { chan = chan; state = sleeping }) t

-- The scheduler's choice of a runnable process, which then runs; one that slept has its channel
-- cleared before its lock is released.
unfoldable pub dispatch : ℕ → Table → Option Table
dispatch i t =
    if is_runnable (t.procs i).state
    then some (put i (record (t.procs i) { state = running; chan = no_chan }) t)
    else none

unfoldable pub yield_cpu : ℕ → Table → Table
yield_cpu me t = put me (record (t.procs me) { state = runnable }) t

-- `kkill`; `false` is the result -1.
unfoldable pub kkill : ℕ → Table → Bool × Table
kkill pid t = elim (find nproc 0 (λ i. (t.procs i).pid == pid)) [
  | none ↦ (false, t)
  | some i ↦ (
    true,
    put i
        (if is_sleeping (t.procs i).state
          then record (t.procs i) { killed = true; state = runnable }
          else record (t.procs i) { killed = true })
        t,
  )
]

unfoldable pub setkilled : ℕ → Table → Table
setkilled i t = put i (record (t.procs i) { killed = true }) t

-- `growproc`, given the size that `uvmalloc` answers (0 where it fails); `n` is the bit pattern of an
-- `int`.
unfoldable pub growproc : ℕ → ℕ → ℕ → Table → Bool × Table
growproc me n grown t =
    let p = t.procs me in
    let up = if ltb n (2 ^ 31) then n else n + 2 ^ 64 - 2 ^ 32 in
    let sz = (p.sz + up) % 2 ^ 64 in
    let shrunk = if ltb sz p.sz then sz else p.sz in
    if not (ltb sz p.mmap_base)
    then (false, t)
    else if n == 0
    then (true, t)
    else if ltb n (2 ^ 31)
    then (if grown == 0 then (false, t) else (true, put me (record p { sz = grown }) t))
    else (true, put me (record p { sz = shrunk }) t)
