-- ===== src/Locks/Tests.antt =====
-- Runs of kernel/spinlock.c and kernel/sleeplock.c, and instances of the theorems about them.
use mit_operating_system_eng.Base.{◌≡◌, refl, true, false, Outcome, ok, panic}
use mit_operating_system_eng.Locks.{
  Cpu, outside, spinning, inside, System, initlock, push_off, holding, acquire_from, swap, note_cpu,
  initsleeplock, acquiresleep,
}
use mit_operating_system_eng.Locks.Exclusion.{
  acquires, spins, notes, Reach, start, next, Safe, Reach-Safe,
}

abbrev running : Cpu
running = record { noff = 0; intena = false; intr = true }

abbrev idle : System
idle = record { lk = initlock; cpus = λ c. running; stage = λ c. outside }

abbrev or_idle : Outcome System → System
or_idle panic = idle
or_idle (ok s) = s

-- CPU 0 has the lock, and CPU 1 spins.
abbrev contended : System
contended = swap 1 (note_cpu 0 (swap 0 (or_idle (acquire_from 1 (or_idle (acquire_from 0 idle))))))

contended-Reach : Reach contended
unfolding acquire_from swap note_cpu holding push_off
contended-Reach =
    next
      (next
        (next
          (next (next (start idle refl (λ c. refl)) (acquires 0 refl refl)) (acquires 1 refl refl))
          (spins 0 refl))
        (notes 0 refl))
      (spins 1 refl)

Reach-Safe_example : Safe contended
Reach-Safe_example = Reach-Safe contended contended-Reach

one_has_it : (contended.stage 0 ≡ inside) × (contended.stage 1 ≡ spinning)
unfolding acquire_from swap note_cpu holding push_off
one_has_it = (refl, refl)

sleeps_on_held :
    acquiresleep 4 (acquiresleep 3 initsleeplock).1 ≡ (false, record { locked = true; pid = 3 })
unfolding acquiresleep
sleeps_on_held = refl
