-- ===== src/Locks.antt =====
-- kernel/spinlock.c and kernel/sleeplock.c: a spin lock that CPUs take and release in any order, the
-- nested switching off of interrupts, and a sleep lock. `acquire` and `release` are cut where another
-- CPU may come between; the compiler's atomic swap is one step.
pub mod Nesting
pub mod Exclusion
mod Tests
use mit_operating_system_eng.Base.{
  ℕ, zero, suc, ◌+◌, ◌-◌, ◌≡◌, ◌⊎◌, Bool, true, false, not, ◌&&◌, Option, none, some, ◌==◌,
  if◌then◌else◌, update, Outcome, ok, panic,
}

-- `noff` and `intena` of `struct cpu`, and whether interrupts are on.
pub record Cpu : Type 0 where
  pub noff : ℕ
  pub intena : Bool
  pub intr : Bool

-- `struct spinlock` without the name; `cpu` is the CPU's index.
pub record Spinlock : Type 0 where
  pub locked : Bool
  pub cpu : Option ℕ

pub data Stage : Type 0 where
  outside spinning taken inside leaving : Stage

-- The lock, the CPUs, and where each CPU is in `acquire` and `release`.
pub record System : Type 0 where
  pub lk : Spinlock
  pub cpus : ℕ → Cpu
  pub stage : ℕ → Stage

abbrev pub initlock : Spinlock
initlock = record { locked = false; cpu = none }

unfoldable pub push_off : Cpu → Cpu
push_off c = record {
  noff = c.noff + 1;
  intena = if c.noff == 0 then c.intr else c.intena;
  intr = false;
}

unfoldable pub pop_off : Cpu → Outcome Cpu
pop_off c =
    if c.intr
    then panic
    else if c.noff == 0
    then panic
    else ok (record c { noff = c.noff - 1; intr = c.noff - 1 == 0 && c.intena })

unfoldable pub holding : ℕ → Spinlock → Bool
holding me lk = lk.locked && elim lk.cpu [ none ↦ false | some c ↦ c == me ]

-- `acquire` up to the loop.
unfoldable pub acquire_from : ℕ → System → Outcome System
acquire_from me s =
    if holding me s.lk
    then panic
    else ok (record s {
      cpus = update s.cpus me (push_off (s.cpus me));
      stage = update s.stage me spinning;
    })

-- One round of the loop, which ends it if the lock was free.
unfoldable pub swap : ℕ → System → System
swap me s =
    if s.lk.locked
    then s
    else record s { lk = record (s.lk) { locked = true }; stage = update s.stage me taken }

-- The rest of `acquire`.
unfoldable pub note_cpu : ℕ → System → System
note_cpu me s = record s { lk = record (s.lk) { cpu = some me }; stage = update s.stage me inside }

-- `release` up to the atomic store.
unfoldable pub release_from : ℕ → System → Outcome System
release_from me s =
    if not (holding me s.lk)
    then panic
    else ok (record s { lk = record (s.lk) { cpu = none }; stage = update s.stage me leaving })

-- The store, and the rest of `release`.
unfoldable pub unlock : ℕ → System → Outcome System
unlock me s = elim (pop_off (s.cpus me)) [
  | panic ↦ panic
  | ok c ↦ ok (record {
    lk = record (s.lk) { locked = false };
    cpus = update s.cpus me c;
    stage = update s.stage me outside;
  })
]

-- `struct sleeplock`: `pid` is the holder's.
pub record Sleeplock : Type 0 where
  pub locked : Bool
  pub pid : ℕ

abbrev pub initsleeplock : Sleeplock
initsleeplock = record { locked = false; pid = 0 }

-- A round of `acquiresleep` under the spin lock: `false` where the caller sleeps.
unfoldable pub acquiresleep : ℕ → Sleeplock → Bool × Sleeplock
acquiresleep pid lk = if lk.locked then (false, lk) else (true, record { locked = true; pid = pid })

-- `releasesleep`; all sleepers are then woken.
unfoldable pub releasesleep : Sleeplock → Sleeplock
releasesleep lk = record { locked = false; pid = 0 }

unfoldable pub holdingsleep : ℕ → Sleeplock → Bool
holdingsleep pid lk = lk.locked && lk.pid == pid
