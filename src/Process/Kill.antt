-- ===== src/Process/Kill.antt =====
-- `kkill` of kernel/proc.c: which process it reaches, and what a kill of pid 0 does.
use mit_operating_system_eng.Base.{
  ℕ, zero, suc, ◌+◌, ◌<◌, ◌≡◌, ◌≢◌, refl, ap, sym, ◌∙◌, ◌⊎◌, inl, inr, Bool, true, false, not, ◌||◌,
  Option, none, some, ◌==◌, if◌then◌else◌, Bool-cases, Option-cases, arith, some-injective,
}
use mit_operating_system_eng.Process.{
  Proc, Table, sleeping, runnable, is_sleeping, nproc, find, kkill, is_unused,
}
use mit_operating_system_eng.Process.Sweep.{find-some, find-none}
use mit_operating_system_eng.Process.Inv.{Inv}
use mit_operating_system_eng.Process.Born.{unused-cases}
use mit_operating_system_eng.Process.Fork.{allocproc-none, allocproc-some}
use mit_operating_system_eng.Process.Life.{Memory, prepared, freeproc, claim, allocproc}

-- A loop that tests the same of each entry finds the same one.
find_same : (n i : ℕ) (f g : ℕ → Bool) → ((k : ℕ) → k < i + n → f k ≡ g k) → find n i f ≡ find n i g
unfolding find
find_same zero i f g same = refl
find_same (suc n) i f g same =
    rw (same i (omega arith), find_same n (i + 1) f g (λ k h. same k (omega arith))) refl

-- The entries with pid 0 are those not in use.
pid_zero :
    (t : Table) (k : ℕ) → k < nproc → Inv t → ((t.procs k).pid == 0) ≡ is_unused (t.procs k).state
pid_zero t k h inv = elim (unused-cases (t.procs k).state) [
  | inl e ↦ let (z, _) = inv.cleared k h e in rw (e, z) refl
  | inr e ↦ let (pos, _) = inv.pid_range k h e in ground arith
]

killed_proc :
    (p : Proc)
    → (if is_sleeping p.state
        then record p { killed = true; state = runnable }
        else record p { killed = true }).killed
      ≡ true
killed_proc p = elim (Bool-cases (is_sleeping p.state)) [ inl e ↦ rw e refl | inr e ↦ rw e refl ]

awake_proc :
    (p : Proc)
    → (if is_sleeping p.state
        then record p { killed = true; state = runnable }
        else record p { killed = true }).state
      ≢ sleeping
awake_proc p = elim (Bool-cases (is_sleeping p.state)) [
  | inl e ↦ rw e (λ q. cc q)
  | inr e ↦ rw e (λ q. cc (rw q at e))
]

-- The entry that a kill of `pid` has reached.
pub record Killed (pid i : ℕ) (t t' : Table) : Type 0 where
  pub range : i < nproc
  pub found : (t.procs i).pid ≡ pid
  pub killed : (t'.procs i).killed ≡ true
  pub up : (t'.procs i).state ≢ sleeping
  pub others : (k : ℕ) → k ≢ i → t'.procs k ≡ t.procs k

-- `kkill` answers 0 just when an entry has the pid, which is then killed and does not sleep; the
-- others are as before.
pub kkill_lem :
    (pid : ℕ) (t : Table)
    → (((kkill pid t).0 ≡ true) × ((i : ℕ) × Killed pid i t (kkill pid t).1))
      ⊎ ((kkill pid t ≡ (false, t)) × ((k : ℕ) → k < nproc → (t.procs k).pid ≢ pid))
unfolding kkill
kkill_lem pid t = elim (Option-cases (find nproc 0 (λ i. (t.procs i).pid == pid))) [
  | inl e ↦ inr (
    rw (kkill, e) refl,
    λ k h q.
        let miss = find-none nproc 0 k (λ i. (t.procs i).pid == pid) e (omega arith) h in
        ground arith,
  )
  | inr (i, e) ↦
      let (hit, _, below) = find-some nproc 0 i (λ i. (t.procs i).pid == pid) e in
      let self : (i == i) ≡ true = ground arith in
      inl (
        rw (kkill, e) refl,
        (
          i,
          rw (kkill, e)
              (record {
                range = below;
                found = ground arith;
                killed = rw self (killed_proc (t.procs i));
                up = rw self (awake_proc (t.procs i));
                others = λ k h. let apart : (i == k) ≡ false = ground arith in rw apart refl;
              }),
        ),
      )
]

allocproc-prepared :
    (m : Memory) (i : ℕ) (t t' : Table) → allocproc m t ≡ (some i, t') → t' ≡ prepared i t
allocproc-prepared m i t t' a =
    elim (Option-cases (find nproc 0 (λ k. is_unused (t.procs k).state))) [
      | inl e ↦ absurd (cc (ap (λ (x : Option ℕ × Table). x.0) (sym (allocproc-none m t e) ∙ a)))
      | inr (j, e) ↦ elim (Bool-cases (not m.trapframe_page || not m.page_table)) [
        | inl b ↦
            let q : (none, freeproc j (claim j t)) ≡ (some i, t') =
              rw b at (sym (allocproc-some m j t e) ∙ a) in
            absurd (cc (ap (λ (x : Option ℕ × Table). x.0) q))
        | inr b ↦
            let q : (some j, prepared j t) ≡ (some i, t') =
              rw b at (sym (allocproc-some m j t e) ∙ a) in
            let same : j ≡ i = some-injective (ap (λ (x : Option ℕ × Table). x.0) q) in
            sym (ap (λ (x : Option ℕ × Table). x.1) q) ∙ ap (λ x. prepared x t) same
      ]
    ]

-- A kill of pid 0 succeeds where a slot of the table is free, and the process that `allocproc` next
-- sets up there is killed from its birth.
pub kkill_zero :
    (m : Memory) (i : ℕ) (t t' : Table)
    → Inv t
    → find nproc 0 (λ k. is_unused (t.procs k).state) ≡ some i
    → allocproc m (kkill 0 t).1 ≡ (some i, t')
    → ((kkill 0 t).0 ≡ true) × ((t'.procs i).killed ≡ true)
unfolding kkill
kkill_zero m i t t' inv e a =
    let found : find nproc 0 (λ k. (t.procs k).pid == 0) ≡ some i =
      find_same nproc 0 _ _ (λ k h. pid_zero t k h inv) ∙ e in
    let self : (i == i) ≡ true = ground arith in
    let marked : ((kkill 0 t).1.procs i).killed ≡ true =
      rw (kkill, found, self) (killed_proc (t.procs i)) in
    (rw (kkill, found) refl, rw (allocproc-prepared m i (kkill 0 t).1 t' a, self) marked)
