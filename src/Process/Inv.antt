-- ===== src/Process/Inv.antt =====
-- What holds of the process table of kernel/proc.c between the steps.
use mit_operating_system_eng.Base.{ℕ, ◌<◌, ◌≡◌, ◌≢◌, Bool, true, false, none, some, arith}
use mit_operating_system_eng.Process.{
  Proc, Table, State, unused, used, sleeping, zombie, of_proc, nproc, put,
}

-- The process is there and has not exited.
abbrev pub alive : State → Bool
alive unused = false
alive used = false
alive zombie = false
alive _ = true

abbrev pub in_use : State → Bool
in_use unused = false
in_use _ = true

-- Process `q` sleeps in `kwait`.
abbrev pub Waits : Table → ℕ → Type 0
Waits t q = ((t.procs q).state ≡ sleeping) × ((t.procs q).chan ≡ of_proc q)

pub record Inv (t : Table) : Type 0 where
  pub init_range : t.init < nproc
  pub init_alive : alive (t.procs t.init).state ≡ true
  pub init_root : (t.procs t.init).parent ≡ none
  -- An entry that is not in use has been cleared.
  pub cleared :
      (i : ℕ)
      → i < nproc
      → (t.procs i).state ≡ unused
      → ((t.procs i).pid ≡ 0) × ((t.procs i).parent ≡ none)
  pub settled : (i : ℕ) → i < nproc → (t.procs i).state ≢ used
  pub pid_range :
      (i : ℕ)
      → i < nproc
      → in_use (t.procs i).state ≡ true
      → (0 < (t.procs i).pid) × ((t.procs i).pid < t.next_pid)
  pub pid_unique :
      (i j : ℕ)
      → i < nproc
      → j < nproc
      → in_use (t.procs i).state ≡ true
      → (t.procs i).pid ≡ (t.procs j).pid
      → i ≡ j
  -- A parent has not exited, and each process but init has one.
  pub parent_alive :
      (i q : ℕ)
      → i < nproc
      → (t.procs i).parent ≡ some q
      → (q < nproc) × (alive (t.procs q).state ≡ true) × (q ≢ i)
  pub has_parent :
      (i : ℕ) → i < nproc → in_use (t.procs i).state ≡ true → i ≢ t.init → (t.procs i).parent ≢ none
  -- No wakeup is lost: where a child has exited, its parent does not sleep in `kwait`.
  pub awake :
      (i q : ℕ) → i < nproc → (t.procs i).parent ≡ some q → (t.procs i).state ≡ zombie → ¬ Waits t q

-- A process is put back with the same pid and parent, in a state in which it is alive.
pub Inv-put :
    (t : Table) (i : ℕ) (p : Proc)
    → i < nproc
    → p.pid ≡ (t.procs i).pid
    → p.parent ≡ (t.procs i).parent
    → alive (t.procs i).state ≡ true
    → alive p.state ≡ true
    → ((k : ℕ)
        → k < nproc
        → (t.procs k).parent ≡ some i
        → (t.procs k).state ≡ zombie
        → ¬ ((p.state ≡ sleeping) × (p.chan ≡ of_proc i)))
    → Inv t
    → Inv (put i p t)
Inv-put t i p lt pid parent was is wait inv = record {
  init_range = inv.init_range;
  init_alive = ground (arith, inv.init_alive);
  init_root = ground (arith, inv.init_root);
  cleared = λ k h e. ground (arith, inv.cleared k h);
  settled = λ k h e. ground (arith, inv.settled k h);
  pid_range = λ k h e. ground (arith, inv.pid_range k h);
  pid_unique = λ k j h g e q. ground (arith, inv.pid_unique k j h g);
  parent_alive = λ k q h e. ground (arith, inv.parent_alive k q h);
  has_parent = λ k h e n. ground (arith, inv.has_parent k h);
  awake = λ k q h e z w. ground (arith, inv.awake k q h, wait k h);
}
