-- ===== src/Process/Born.antt =====
-- A slot of the process table of kernel/proc.c that is given to a process, or cleared.
use mit_operating_system_eng.Base.{
  ℕ, ◌+◌, ◌<◌, ◌≡◌, refl, ◌⊎◌, inl, inr, true, false, none, some, update, arith,
}
use mit_operating_system_eng.Process.{
  Proc, Table, State, unused, used, sleeping, runnable, running, zombie, is_unused, nproc,
}
use mit_operating_system_eng.Process.Inv.{Inv, alive, in_use}
use mit_operating_system_eng.Process.Calls.{alive-in_use}
use mit_operating_system_eng.Process.Life.{freeproc}

pub unused_state : (s : State) → is_unused s ≡ true → s ≡ unused
unused_state unused e = refl
unused_state used e = absurd (cc e)
unused_state sleeping e = absurd (cc e)
unused_state runnable e = absurd (cc e)
unused_state running e = absurd (cc e)
unused_state zombie e = absurd (cc e)

-- A slot whose process is no longer anybody's parent is cleared.
pub freeproc-Inv :
    (i : ℕ) (t : Table) → i < nproc → alive (t.procs i).state ≡ false → Inv t → Inv (freeproc i t)
unfolding freeproc
freeproc-Inv i t lt dead inv = record {
  init_range = inv.init_range;
  init_alive = ground (arith, inv.init_alive);
  init_root = ground (arith, inv.init_root);
  cleared = λ k h e. ground (arith, inv.cleared k h);
  settled = λ k h e. ground (arith, inv.settled k h);
  pid_range = λ k h e. ground (arith, inv.pid_range k h);
  pid_unique = λ k j h g e q. ground (arith, inv.pid_unique k j h g, inv.pid_range k h);
  parent_alive = λ k q h e. ground (arith, inv.parent_alive k q h);
  has_parent = λ k h e n. ground (arith, inv.has_parent k h);
  awake = λ k q h e z w. ground (arith, inv.awake k q h);
}

-- A pid is used up, and slot `i` has the entry `p`.
abbrev pub born : ℕ → Proc → Table → Table
born i p t = record t { procs = update t.procs i p; next_pid = t.next_pid + 1 }

pub Inv-vacant :
    (i : ℕ) (p : Proc) (t : Table)
    → i < nproc
    → (t.procs i).state ≡ unused
    → p.state ≡ unused
    → p.pid ≡ 0
    → p.parent ≡ none
    → Inv t
    → Inv (born i p t)
Inv-vacant i p t lt vacant s pid parent inv = record {
  init_range = inv.init_range;
  init_alive = ground (arith, inv.init_alive);
  init_root = ground (arith, inv.init_root);
  cleared = λ k h e. ground (arith, inv.cleared k h);
  settled = λ k h e. ground (arith, inv.settled k h);
  pid_range = λ k h e. ground (arith, inv.pid_range k h);
  pid_unique = λ k j h g e q. ground (arith, inv.pid_unique k j h g, inv.pid_range k h);
  parent_alive = λ k q h e. ground (arith, inv.parent_alive k q h);
  has_parent = λ k h e n. ground (arith, inv.has_parent k h);
  awake = λ k q h e z w. ground (arith, inv.awake k q h);
}

pub unused-cases : (s : State) → (s ≡ unused) ⊎ (in_use s ≡ true)
unused-cases unused = inl refl
unused-cases used = inr refl
unused-cases sleeping = inr refl
unused-cases runnable = inr refl
unused-cases running = inr refl
unused-cases zombie = inr refl

-- The next pid is not one in the table, and is not 0.
pid_below :
    (t : Table) (j : ℕ) → j < nproc → Inv t → (0 < t.next_pid) × ((t.procs j).pid < t.next_pid)
pid_below t j h inv =
    let first =
      inv.pid_range t.init inv.init_range (alive-in_use (t.procs t.init).state inv.init_alive) in
    elim (unused-cases (t.procs j).state) [
      | inl e ↦ let (zero_pid, _) = inv.cleared j h e in omega arith
      | inr e ↦ let here = inv.pid_range j h e in omega arith
    ]

pub Inv-born :
    (i me : ℕ) (p : Proc) (t : Table)
    → i < nproc
    → me < nproc
    → (t.procs i).state ≡ unused
    → alive (t.procs me).state ≡ true
    → p.state ≡ runnable
    → p.pid ≡ t.next_pid
    → p.parent ≡ some me
    → Inv t
    → Inv (born i p t)
Inv-born i me p t lt lt' vacant a s pid parent inv = record {
  init_range = inv.init_range;
  init_alive = ground (arith, inv.init_alive);
  init_root = ground (arith, inv.init_root, inv.init_alive);
  cleared = λ k h e. ground (arith, inv.cleared k h);
  settled = λ k h e. ground (arith, inv.settled k h);
  pid_range = λ k h e. ground (arith, inv.pid_range k h, pid_below t i lt inv);
  pid_unique = λ k j h g e q.
      ground (arith, inv.pid_unique k j h g, pid_below t k h inv, pid_below t j g inv);
  parent_alive = λ k q h e. ground (arith, inv.parent_alive k q h);
  has_parent = λ k h e n. ground (arith, inv.has_parent k h);
  awake = λ k q h e z w. ground (arith, inv.awake k q h);
}
