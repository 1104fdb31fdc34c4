-- ===== src/Locks/Nesting.antt =====
-- `push_off` and `pop_off` of kernel/spinlock.c are matched.
use mit_operating_system_eng.Base.{
  ℕ, zero, suc, ◌+◌, ◌-◌, ◌<◌, ◌≡◌, refl, inl, inr, false, ◌&&◌, ◌==◌, if◌then◌else◌, Bool-cases,
  Outcome, ok, ◌>>=◌, arith,
}
use mit_operating_system_eng.Locks.{Cpu, push_off, pop_off}

unfoldable pub pushes : ℕ → Cpu → Cpu
pushes zero c = c
pushes (suc n) c = push_off (pushes n c)

unfoldable pub pops : ℕ → Cpu → Outcome Cpu
pops zero c = ok c
pops (suc n) c = pop_off c >>= pops n

-- Interrupts are off while some `push_off` is not matched.
abbrev pub IsOff : Cpu → Type 0
IsOff c = 0 < c.noff → c.intr ≡ false

-- The CPU, except that `intena` is what the first `push_off` has put there.
abbrev pub settled : Cpu → Cpu
settled c = record c { intena = if c.noff == 0 then c.intr else c.intena }

on_again :
    (c : Cpu) → IsOff c → ((c.noff == 0) && (if c.noff == 0 then c.intr else c.intena)) ≡ c.intr
on_again c off = elim (Bool-cases (c.noff == 0)) [
  | inl e ↦ rw e refl
  | inr e ↦ let quiet = off (ground arith) in rw (e, quiet) refl
]

push_pop : (c : Cpu) → IsOff c → pop_off (push_off c) ≡ ok (settled c)
unfolding push_off pop_off
push_pop c off =
    let more : (c.noff + 1 == 0) ≡ false = ground arith in
    let less : c.noff + 1 - 1 ≡ c.noff = omega arith in rw (more, less, on_again c off) refl

pushed : (n : ℕ) (c : Cpu) → (0 < (pushes (suc n) c).noff) × ((pushes (suc n) c).intr ≡ false)
unfolding pushes push_off
pushed n c = (omega arith, refl)

settled_same : (c : Cpu) → 0 < c.noff → settled c ≡ c
settled_same c h = let e : (c.noff == 0) ≡ false = ground arith in rw e refl

-- As many `pop_off`s as `push_off`s leave the depth and the interrupt flag as they were, and do not
-- panic, on a CPU whose interrupts are off wherever its depth is not 0. Between them interrupts are off.
pub pops-pushes :
    (n : ℕ) (c : Cpu)
    → IsOff c
    → (pops (suc n) (pushes (suc n) c) ≡ ok (settled c)) × ((pushes (suc n) c).intr ≡ false)
unfolding pushes pops
pops-pushes zero c off = (rw (push_pop c off) refl, (pushed 0 c).1)
pops-pushes (suc n) c off =
    let (deep, quiet) = pushed n c in
    let undone = push_pop (pushes (suc n) c) (λ h. quiet) in
    let back = settled_same (pushes (suc n) c) deep in
    (rw (undone, back) (pops-pushes n c off).0, (pushed (suc n) c).1)
